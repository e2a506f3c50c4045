-- ===== src/Storage/Incidents/Stored.antt =====
-- What `create_incident` stores is what the queries return, storage/database.py.
use mathlib.Core.List.{append-nil, append_assoc}
use mathlib.Core.Path.{ap₂}
use pc_diagnostic_agent.Prelude.{
  ℕ, suc, ◌+◌, ◌≤◌, ◌≡◌, refl, sym, ap, ◌∙◌, ==_iff, subst, true, some, List, [], ◌∷◌, ◌++◌, map,
  arith, All, All-append, All-map, ◌==◌, where_rows, where_rows_fresh, head?, head?-take, le→leb,
  length,
}
use pc_diagnostic_agent.Prelude.Sort.{
  sort_by, insert_by, up, down, head?-sort_by-append, insert_by_first, sort_by_cons,
}
use pc_diagnostic_agent.Storage.Rows.{Finding, FindingRow, Incident, IncidentRow}
use pc_diagnostic_agent.Storage.Tables.{Database}
use pc_diagnostic_agent.Storage.Valid.{IsValid}
use pc_diagnostic_agent.Storage.Incidents.{
  insert_findings, create_incident, get_incident, list_findings, list_incidents,
}

abbrev pub finding_row : ℕ → ℕ → Finding → FindingRow
finding_row id n f = record { finding_id = suc n; incident_id = id; finding = f }

-- The rows that the loop over the findings appends, from the counter `n` on.
abbrev pub finding_rows : ℕ → ℕ → List Finding → List FindingRow
finding_rows id n [] = []
finding_rows id n (f ∷ fs) = finding_row id n f ∷ finding_rows id (suc n) fs

insert_findings_lem :
    (id : ℕ) (fs : List Finding) (db : Database)
    → insert_findings id fs db ≡ record db {
      findings = db.findings ++ finding_rows id db.last_finding fs;
      last_finding = db.last_finding + length fs;
    }
unfolding insert_findings
insert_findings_lem id [] db =
    ap₂ (λ l n. record db { findings = l; last_finding = n }) (sym (append-nil db.findings))
      (omega arith)
insert_findings_lem id (f ∷ fs) db =
    let row = finding_row id db.last_finding f in
    insert_findings_lem id fs
      (record db { findings = db.findings ++ row ∷ []; last_finding = suc db.last_finding })
    ∙ ap₂ (λ l n. record db { findings = l; last_finding = n })
        (append_assoc db.findings (row ∷ []) (finding_rows id (suc db.last_finding) fs))
        (omega arith)

abbrev pub incident_row : ℕ → Incident → IncidentRow
incident_row id incident = record { incident_id = id; incident = incident }

-- The database behind `create_incident`.
pub create_incident_lem :
    (incident : Incident) (fs : List Finding) (db : Database)
    → create_incident incident fs db ≡ (
      suc db.last_incident,
      record db {
        incidents = db.incidents ++ incident_row (suc db.last_incident) incident ∷ [];
        last_incident = suc db.last_incident;
        findings = db.findings ++ finding_rows (suc db.last_incident) db.last_finding fs;
        last_finding = db.last_finding + length fs;
      },
    )
unfolding create_incident
create_incident_lem incident fs db =
    ap (λ d. (suc db.last_incident, d)) (insert_findings_lem (suc db.last_incident) fs _)

finding_rows-incident :
    (id n : ℕ) (fs : List Finding)
    → All (λ (f : FindingRow). (f.incident_id == id) ≡ true) (finding_rows id n fs)
finding_rows-incident id n [] = tt
finding_rows-incident id n (f ∷ fs) = ((==_iff id id).1 refl, finding_rows-incident id (suc n) fs)

map-finding_rows :
    (id n : ℕ) (fs : List Finding) → map (λ (f : FindingRow). f.finding) (finding_rows id n fs) ≡ fs
map-finding_rows id n [] = refl
map-finding_rows id n (f ∷ fs) = ap (λ l. f ∷ l) (map-finding_rows id (suc n) fs)

-- Rows in the order of their ids stay so.
sort_by-finding_rows :
    (id n : ℕ) (fs : List Finding)
    → sort_by (up (λ (f : FindingRow). f.finding_id)) (finding_rows id n fs) ≡ finding_rows id n fs
sort_by-finding_rows id n [] = unfold sort_by in refl
sort_by-finding_rows id n (f ∷ []) = unfold sort_by in refl
sort_by-finding_rows id n (f ∷ g ∷ fs) =
    let row = λ (m : ℕ) (h : Finding). finding_row id m h in
    sort_by_cons (up (λ (f : FindingRow). f.finding_id)) (row n f)
      (finding_rows id (suc n) (g ∷ fs))
    ∙ ap (insert_by (up (λ (f : FindingRow). f.finding_id)) (row n f))
        (sort_by-finding_rows id (suc n) (g ∷ fs))
    ∙ insert_by_first (up (λ (f : FindingRow). f.finding_id)) (row n f) (row (suc n) g)
        (finding_rows id (suc (suc n)) fs) (le→leb (suc n) (suc (suc n)) (omega arith))

module _ (incident : Incident) (fs : List Finding) {db : Database} (valid : IsValid db) where
  abbrev id : ℕ
  id = suc db.last_incident

  get_incident-create_incident :
      get_incident (suc db.last_incident) (create_incident incident fs db).1
      ≡ some (incident_row (suc db.last_incident) incident)
  unfolding get_incident
  get_incident-create_incident =
      ap (λ d. head? (where_rows (λ (i : IncidentRow). i.incident_id == id) d.1.incidents))
        (create_incident_lem incident fs db)
      ∙ ap head? (
          where_rows_fresh (λ (i : IncidentRow). i.incident_id == id) db.incidents
            (incident_row id incident ∷ [])
            (All-map (λ i. i.incident_id ≤ db.last_incident) _ db.incidents (λ i h. ground arith)
              valid.incidents)
            ((==_iff id id).1 refl, tt))

  list_findings-create_incident :
      map
        (λ (f : FindingRow). f.finding)
        (list_findings (suc db.last_incident) (create_incident incident fs db).1)
      ≡ fs
  unfolding list_findings
  list_findings-create_incident =
      let new = finding_rows id db.last_finding fs in
      let by_id = up (λ (f : FindingRow). f.finding_id) in
      let mine = λ (f : FindingRow). f.incident_id == id in
      ap (λ d. map (λ (f : FindingRow). f.finding) (sort_by by_id (where_rows mine d.1.findings)))
        (create_incident_lem incident fs db)
      ∙ ap (λ l. map (λ (f : FindingRow). f.finding) (sort_by by_id l))
          (where_rows_fresh mine db.findings new
            (All-map (λ f. f.incident_id ≤ db.last_incident) _ db.findings (λ f h. ground arith)
              valid.findings)
            (finding_rows-incident id db.last_finding fs))
      ∙ ap (map (λ (f : FindingRow). f.finding)) (sort_by-finding_rows id db.last_finding fs)
      ∙ map-finding_rows id db.last_finding fs

  list_incidents-create_incident :
      (n : ℕ)
      → head? (list_incidents (suc n) (create_incident incident fs db).1)
        ≡ some (incident_row (suc db.last_incident) incident)
  unfolding list_incidents
  list_incidents-create_incident n =
      let newest = down (λ (i : IncidentRow). i.incident_id) in
      head?-take n _
      ∙ ap (λ d. head? (sort_by newest d.1.incidents)) (create_incident_lem incident fs db)
      ∙ head?-sort_by-append newest db.incidents (incident_row id incident) (
          All-map (λ i. i.incident_id ≤ db.last_incident) _ db.incidents (λ i h. ground arith)
            valid.incidents)

-- The queries return an incident and its findings.
pub record IsStored (id : ℕ) (incident : Incident) (fs : List Finding) (db : Database)
    : Type 0 where
  pub by_id : get_incident id db ≡ some (incident_row id incident)
  pub its_findings : map (λ (f : FindingRow). f.finding) (list_findings id db) ≡ fs
  pub is_newest : (n : ℕ) → head? (list_incidents (suc n) db) ≡ some (incident_row id incident)

-- After `create_incident` in a valid database the id that it returns finds the incident and its
-- findings in the order given, and a list of incidents begins with it.
pub create_incident-IsStored :
    (incident : Incident) (fs : List Finding) (db : Database)
    → IsValid db
    → IsStored (create_incident incident fs db).0 incident fs (create_incident incident fs db).1
create_incident-IsStored incident fs db valid =
    subst (λ id. IsStored id incident fs (create_incident incident fs db).1)
      (sym (ap (λ d. d.0) (create_incident_lem incident fs db)))
      (record {
        by_id = get_incident-create_incident incident fs valid;
        its_findings = list_findings-create_incident incident fs valid;
        is_newest = list_incidents-create_incident incident fs valid;
      })

finding_rows-bounds :
    (id n : ℕ) (fs : List Finding)
    → All (λ (f : FindingRow). f.finding_id ≤ n + length fs) (finding_rows id n fs)
finding_rows-bounds id n [] = tt
finding_rows-bounds id n (f ∷ fs) = (
  omega arith,
  All-map (λ (f : FindingRow). f.finding_id ≤ suc n + length fs) _ (finding_rows id (suc n) fs)
      (λ f h. omega arith) (finding_rows-bounds id (suc n) fs),
)

finding_rows-owner :
    (id n : ℕ) (fs : List Finding)
    → All (λ (f : FindingRow). f.incident_id ≤ id) (finding_rows id n fs)
finding_rows-owner id n [] = tt
finding_rows-owner id n (f ∷ fs) = (omega arith, finding_rows-owner id (suc n) fs)

pub create_incident-IsValid :
    (incident : Incident) (fs : List Finding) (db : Database)
    → IsValid db
    → IsValid (create_incident incident fs db).1
create_incident-IsValid incident fs db valid =
    let id = suc db.last_incident in
    let old_bound = λ (i : ℕ) (h : i ≤ db.last_incident). let k : i ≤ id = omega arith in k in
    subst (λ d. IsValid d.1) (sym (create_incident_lem incident fs db))
      (record {
        sessions = valid.sessions;
        incidents =
            All-append _ db.incidents (incident_row id incident ∷ [])
              (All-map _ _ db.incidents (λ i h. old_bound i.incident_id h) valid.incidents)
              (omega arith, tt);
        findings =
            All-append _ db.findings (finding_rows id db.last_finding fs)
              (All-map _ _ db.findings (λ f h. old_bound f.incident_id h) valid.findings)
              (finding_rows-owner id db.last_finding fs);
        finding_ids =
            All-append _ db.findings (finding_rows id db.last_finding fs)
              (All-map (λ f. f.finding_id ≤ db.last_finding) _ db.findings (λ f h. omega arith)
                valid.finding_ids)
              (finding_rows-bounds id db.last_finding fs);
      })
