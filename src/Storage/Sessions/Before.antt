-- ===== src/Storage/Sessions/Before.antt =====
-- The session before the one that was opened last, storage/database.py.
use mathlib.Core.Path.{ap₂}
use pc_diagnostic_agent.Prelude.{
  head?-append, where_rows-map, ==_iff, ℕ, suc, ◌≤◌, ◌≡◌, refl, ap, ◌∙◌, some, List, [], ◌∷◌, ◌++◌,
  ◌==◌, ltb, All, map, head?, arith, where_rows, if◌then◌else◌, where_rows-append, where_rows_whole,
  append-nil, All-map, Bool-cases, inl, inr,
}
use pc_diagnostic_agent.Prelude.Sort.{sort_by, down, map-sort_by, head?-map}
use pc_diagnostic_agent.Storage.Rows.{Session}
use pc_diagnostic_agent.Storage.Tables.{Database}
use pc_diagnostic_agent.Storage.Sessions.{
  get_session, SessionField, set_fields, update_rows, session_before,
}
use pc_diagnostic_agent.Storage.Sessions.Opened.{set_fields-SameRow}

-- What an update makes of a row.
abbrev pub updated : ℕ → List SessionField → Session → Session
updated id fs s = if s.session_id == id then set_fields fs s else s

update_rows-map :
    (id : ℕ) (fs : List SessionField) (rows : List Session)
    → update_rows id fs rows ≡ map (updated id fs) rows
unfolding update_rows
update_rows-map id fs [] = refl
update_rows-map id fs (s ∷ rows) = ap (λ l. updated id fs s ∷ l) (update_rows-map id fs rows)

updated_id :
    (id : ℕ) (fs : List SessionField) (s : Session) → (updated id fs s).session_id ≡ s.session_id
updated_id id fs s = elim (Bool-cases (s.session_id == id)) [
  | inl e ↦ rw e ((set_fields-SameRow fs s).id)
  | inr e ↦ rw e refl
]

-- An update leaves the same session the latest.
pub latest-update_rows :
    (id : ℕ) (fs : List SessionField) (rows : List Session) (s : Session)
    → head? (sort_by (down (λ (r : Session). r.session_id)) rows) ≡ some s
    → head? (sort_by (down (λ (r : Session). r.session_id)) (update_rows id fs rows))
      ≡ some (updated id fs s)
latest-update_rows id fs rows s h =
    let newest = down (λ (r : Session). r.session_id) in
    ap (λ l. head? (sort_by newest l)) (update_rows-map id fs rows)
    ∙ ap head? (
        map-sort_by newest (updated id fs)
          (λ x y. ground (arith, updated_id id fs x, updated_id id fs y)) rows)
    ∙ head?-map (updated id fs) (sort_by newest rows) s h

-- Before the session at the end, whose id is above all others, comes the latest of the others.
pub session_before_last :
    (db : Database) (rows : List Session) (s : Session) (n : ℕ)
    → db.sessions ≡ rows ++ s ∷ []
    → All (λ (r : Session). r.session_id ≤ n) rows
    → s.session_id ≡ suc n
    → session_before (suc n) db ≡ head? (sort_by (down (λ (r : Session). r.session_id)) rows)
unfolding session_before
session_before_last db rows s n e bound last =
    let older = λ (r : Session). ltb r.session_id (suc n) in
    ap (λ l. head? (sort_by (down (λ (r : Session). r.session_id)) l))
      (ap (where_rows older) e
        ∙ where_rows-append older rows (s ∷ [])
        ∙ ap₂ (λ l m. l ++ m)
            (where_rows_whole older rows
              (All-map (λ (r : Session). r.session_id ≤ n) _ rows (λ r h. ground arith) bound))
            (ground arith)
        ∙ append-nil rows)

-- An updated session is found by its id, also when a session is added at the end.
pub get_session-update_rows :
    (db later : Database) (fs : List SessionField) (s new : Session)
    → get_session s.session_id db ≡ some s
    → later.sessions ≡ update_rows s.session_id fs db.sessions ++ new ∷ []
    → get_session s.session_id later ≡ some (set_fields fs s)
unfolding get_session
get_session-update_rows db later fs s new found e =
    let id = s.session_id in
    let is_it = λ (r : Session). r.session_id == id in
    let self : updated id fs s ≡ set_fields fs s = rw ((==_iff id id).1 refl) refl in
    ap (λ l. head? (where_rows is_it l)) e
    ∙ ap head? (where_rows-append is_it (update_rows id fs db.sessions) (new ∷ []))
    ∙ head?-append (where_rows is_it (update_rows id fs db.sessions)) _ (set_fields fs s) (
        ap (λ l. head? (where_rows is_it l)) (update_rows-map id fs db.sessions)
        ∙ ap head? (
            where_rows-map is_it (updated id fs) db.sessions
              (λ r. ap (λ n. n == id) (updated_id id fs r)))
        ∙ head?-map (updated id fs) (where_rows is_it db.sessions) s found
        ∙ ap some self)
