-- ===== src/Storage/Sessions/Opened.antt =====
-- What a new session's row and an update do to the sessions, storage/database.py.
use mathlib.Core.Path.{ap₂}
use pc_diagnostic_agent.Prelude.{
  ℕ, suc, ◌≤◌, ◌≡◌, refl, ap, ◌∙◌, false, Option, none, some, List, [], ◌∷◌, ◌++◌, arith, All,
  All-append, All-map, ◌==◌, ==_iff, head?, length, Bool-cases, inl, inr, if◌then◌else◌,
}
use pc_diagnostic_agent.Prelude.Sort.{sort_by, down, head?-sort_by-append}
use pc_diagnostic_agent.Storage.Rows.{Time, Session}
use pc_diagnostic_agent.Storage.Tables.{Database}
use pc_diagnostic_agent.Storage.Valid.{IsValid}
use pc_diagnostic_agent.Storage.Sessions.{
  SessionField, set_field, set_fields, update_rows, update_session, create_session, latest_session,
}

-- The row that `create_session` inserts.
abbrev pub session_row : ℕ → Time → Option Time → Time → Session
session_row id boot_time previous created_at = record {
  session_id = id;
  boot_time = boot_time;
  previous_boot_time = previous;
  uptime_before_boot = none;
  previous_session_clean = none;
  unexpected_shutdown = none;
  kernel_power_detected = none;
  bugcheck_detected = none;
  created_at = created_at;
}

-- An update changes neither the id, nor the boot time, nor when the row was created.
pub record SameRow (s t : Session) : Type 0 where
  pub id : s.session_id ≡ t.session_id
  boot : s.boot_time ≡ t.boot_time
  created : s.created_at ≡ t.created_at

set_field-SameRow : (f : SessionField) (s : Session) → SameRow (set_field f s) s
unfolding set_field
set_field-SameRow (SessionField.previous_boot_time t) s = ground arith
set_field-SameRow _ s = ground arith

pub set_fields-SameRow : (fs : List SessionField) (s : Session) → SameRow (set_fields fs s) s
unfolding set_fields
set_fields-SameRow [] s = record { id = refl; boot = refl; created = refl }
set_fields-SameRow (f ∷ fs) s =
    let a = set_field-SameRow f s in
    let b = set_fields-SameRow fs (set_field f s) in
    record { id = b.id ∙ a.id; boot = b.boot ∙ a.boot; created = b.created ∙ a.created }

pub update_rows-bound :
    (id n : ℕ) (fs : List SessionField) (rows : List Session)
    → All (λ (s : Session). s.session_id ≤ n) rows
    → All (λ (s : Session). s.session_id ≤ n) (update_rows id fs rows)
unfolding update_rows
update_rows-bound id n fs [] h = tt
update_rows-bound id n fs (s ∷ rows) h = (
  elim (Bool-cases (s.session_id == id)) [
    | inl e ↦ rw e (let same = (set_fields-SameRow fs s).id in omega (arith, same))
    | inr e ↦ rw e (h.0)
  ],
  update_rows-bound id n fs rows h.1,
)

-- Rows with another id are left alone.
pub update_rows_absent :
    (id : ℕ) (fs : List SessionField) (rows : List Session)
    → All (λ (s : Session). (s.session_id == id) ≡ false) rows
    → update_rows id fs rows ≡ rows
unfolding update_rows
update_rows_absent id fs [] h = refl
update_rows_absent id fs (s ∷ rows) h = ground (arith, update_rows_absent id fs rows h.1)

pub update_rows-append :
    (id : ℕ) (fs : List SessionField) (xs ys : List Session)
    → update_rows id fs (xs ++ ys) ≡ update_rows id fs xs ++ update_rows id fs ys
unfolding update_rows
update_rows-append id fs [] ys = refl
update_rows-append id fs (x ∷ xs) ys =
    ap (λ l. (if x.session_id == id then set_fields fs x else x) ∷ l)
      (update_rows-append id fs xs ys)

pub length-update_rows :
    (id : ℕ) (fs : List SessionField) (rows : List Session)
    → length (update_rows id fs rows) ≡ length rows
unfolding update_rows
length-update_rows id fs [] = refl
length-update_rows id fs (s ∷ rows) = ap suc (length-update_rows id fs rows)

pub update_session-IsValid :
    (id : ℕ) (fs : List SessionField) (db : Database)
    → IsValid db
    → IsValid (update_session id fs db)
unfolding update_session
update_session-IsValid id fs db valid = record {
  sessions = update_rows-bound id db.last_session fs db.sessions valid.sessions;
  incidents = valid.incidents;
  findings = valid.findings;
  finding_ids = valid.finding_ids;
}

pub create_session-IsValid :
    (boot_time created_at : Time) (db : Database)
    → IsValid db
    → IsValid (create_session boot_time created_at db).1
unfolding create_session
create_session-IsValid boot_time created_at db valid = record {
  sessions =
      All-append _ db.sessions _
        (All-map (λ s. s.session_id ≤ db.last_session) _ db.sessions (λ s h. omega arith)
          valid.sessions)
        (omega arith, tt);
  incidents = valid.incidents;
  findings = valid.findings;
  finding_ids = valid.finding_ids;
}

-- A row at the end with an id above all others is the latest session.
pub latest_session_last :
    (db : Database) (rows : List Session) (s : Session) (n : ℕ)
    → db.sessions ≡ rows ++ s ∷ []
    → All (λ (r : Session). r.session_id ≤ n) rows
    → suc n ≤ s.session_id
    → latest_session db ≡ some s
unfolding latest_session
latest_session_last db rows s n e bound above =
    let newest = down (λ (s : Session). s.session_id) in
    ap (λ l. head? (sort_by newest l)) e
    ∙ head?-sort_by-append newest rows s
        (All-map (λ (r : Session). r.session_id ≤ n) _ rows (λ r h. ground arith) bound)

-- An update of the row at the end, whose id is above all others, is an update of that row alone.
pub update_rows_last :
    (n : ℕ) (fs : List SessionField) (rows : List Session) (s : Session)
    → All (λ (r : Session). r.session_id ≤ n) rows
    → s.session_id ≡ suc n
    → update_rows (suc n) fs (rows ++ s ∷ []) ≡ rows ++ set_fields fs s ∷ []
update_rows_last n fs rows s bound e =
    update_rows-append (suc n) fs rows (s ∷ [])
    ∙ ap₂ (λ l m. l ++ m)
        (update_rows_absent (suc n) fs rows
          (All-map (λ (r : Session). r.session_id ≤ n) _ rows (λ r h. ground arith) bound))
        (unfold update_rows in rw ((==_iff s.session_id (suc n)).1 e))
