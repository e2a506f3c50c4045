-- ===== src/Diagnostics/Diagnosis/Engine/Persist.antt =====
-- What `run_diagnosis` writes, diagnostics/diagnosis.py.
use mathlib.Core.Path.{transport}
use pc_diagnostic_agent.Prelude.{
  ℕ, suc, is_some, ◌+◌, ◌-◌, ◌≡◌, refl, sym, ap, ◌∙◌, subst, Bool, true, false, not, ◌&&◌, some,
  List, [], ◌∷◌, ◌++◌, arith, any, any-append, leb, Bool-cases, inl, inr, if◌then◌else◌,
}
use pc_diagnostic_agent.Storage.Rows.{seconds, Finding, Incident, IncidentRow}
use pc_diagnostic_agent.Storage.Tables.{Database}
use pc_diagnostic_agent.Storage.Valid.{IsValid}
use pc_diagnostic_agent.Storage.Incidents.{create_incident}
use pc_diagnostic_agent.Storage.Incidents.Stored.{
  IsStored, create_incident-IsStored, create_incident_lem, create_incident-IsValid, incident_row,
}
use pc_diagnostic_agent.Agent.Config.{Config}
use pc_diagnostic_agent.Diagnostics.Diagnosis.Engine.{
  BootFacts, incident_exists, store_incident, crash_of, warranted, incident_of, findings_of,
  run_diagnosis,
}

incident_exists_last :
    (rows : List IncidentRow) (db : Database) (row : IncidentRow)
    → db.incidents ≡ rows ++ row ∷ []
    → incident_exists db row.reboot_timestamp ≡ true
unfolding incident_exists
incident_exists_last rows db row e =
    let t = row.reboot_timestamp in
    let near = λ (r : IncidentRow).
      leb (t - seconds 5) r.reboot_timestamp && leb r.reboot_timestamp (t + seconds 5) in
    ap (any near) e ∙ any-append near rows (row ∷ []) ∙ ground arith

-- An incident whose reboot was at this time is found again.
incident_exists-create_incident :
    (incident : Incident) (fs : List Finding) (db : Database)
    → incident_exists (create_incident incident fs db).1 incident.reboot_timestamp ≡ true
incident_exists-create_incident incident fs db =
    let t = incident.reboot_timestamp in
    ap (λ d. incident_exists d.1 t) (create_incident_lem incident fs db)
    ∙ incident_exists_last db.incidents _ (incident_row (suc db.last_incident) incident) refl

-- The database behind `run_diagnosis`: only `create_incident`, if it is called, changes it.
pub run_diagnosis_writes :
    (db : Database) (boot : BootFacts) (config : Config) (persist : Bool)
    → (run_diagnosis db boot config persist).1 ≡ (
        if warranted (crash_of db boot config)
          && (persist && not (incident_exists db boot.boot_time))
        then (create_incident (incident_of db boot config) (findings_of db boot config) db).1
        else db)
unfolding run_diagnosis store_incident
run_diagnosis_writes db boot config persist = ground arith

-- The incident that is reported, if one is.
pub run_diagnosis_reports :
    (db : Database) (boot : BootFacts) (config : Config) (persist : Bool)
    → is_some (run_diagnosis db boot config persist).0.incident
      ≡ warranted (crash_of db boot config)
unfolding run_diagnosis
run_diagnosis_reports db boot config persist =
    elim (Bool-cases (warranted (crash_of db boot config))) [ inl w ↦ rw w | inr w ↦ rw w ]

-- After a run with an incident, the incident of that boot time is in the table.
incident_exists-run_diagnosis :
    (db : Database) (boot : BootFacts) (config : Config)
    → warranted (crash_of db boot config) ≡ true
    → incident_exists (run_diagnosis db boot config true).1 boot.boot_time ≡ true
incident_exists-run_diagnosis db boot config w =
    elim (Bool-cases (incident_exists db boot.boot_time)) [
      | inl old ↦
          ap (λ d. incident_exists d boot.boot_time) (run_diagnosis_writes db boot config true)
          ∙ rw (w, old) old
      | inr new ↦
          ap (λ d. incident_exists d boot.boot_time) (run_diagnosis_writes db boot config true)
          ∙ rw (w, new)
              (unfold incident_of in
                incident_exists-create_incident (incident_of db boot config)
                  (findings_of db boot config) db)
    ]

-- Once a persisted run has reported an incident, no further run for the same boot time writes
-- anything, whatever its configuration and its view of the previous session.
pub run_diagnosis-once :
    (db : Database) (boot again : BootFacts) (config config' : Config) (persist : Bool)
    → is_some (run_diagnosis db boot config true).0.incident ≡ true
    → again.boot_time ≡ boot.boot_time
    → (run_diagnosis (run_diagnosis db boot config true).1 again config' persist).1
      ≡ (run_diagnosis db boot config true).1
run_diagnosis-once db boot again config config' persist reported same =
    let db' = (run_diagnosis db boot config true).1 in
    let w = sym (run_diagnosis_reports db boot config true) ∙ reported in
    let there = ap (incident_exists db') same ∙ incident_exists-run_diagnosis db boot config w in
    run_diagnosis_writes db' again config' persist ∙ rw there (ground arith)

-- A run keeps the tables well-formed.
pub run_diagnosis-IsValid :
    (db : Database) (boot : BootFacts) (config : Config) (persist : Bool)
    → IsValid db
    → IsValid (run_diagnosis db boot config persist).1
run_diagnosis-IsValid db boot config persist valid =
    subst IsValid (sym (run_diagnosis_writes db boot config persist))
      (elim (warranted (crash_of db boot config)
          && (persist && not (incident_exists db boot.boot_time)))
        as (λ b. IsValid (
          if b
          then (create_incident (incident_of db boot config) (findings_of db boot config) db).1
          else db)) [
            | true ↦
                create_incident-IsValid (incident_of db boot config) (findings_of db boot config) db
                  valid
            | false ↦ valid
          ])

-- Where an id is returned, `create_incident` was called.
stored_case :
    (db : Database) (boot : BootFacts) (config : Config) (persist : Bool) (incident : Incident)
    (id : ℕ)
    → (run_diagnosis db boot config persist).0.incident ≡ some incident
    → (run_diagnosis db boot config persist).0.incident_id ≡ some id
    → (incident_of db boot config ≡ incident)
      × ((create_incident (incident_of db boot config) (findings_of db boot config) db).0 ≡ id)
      × (findings_of db boot config ≡ (run_diagnosis db boot config persist).0.findings)
      × ((create_incident (incident_of db boot config) (findings_of db boot config) db).1
          ≡ (run_diagnosis db boot config persist).1)
unfolding run_diagnosis store_incident
stored_case db boot config persist incident id reported stored = ground arith

-- The stored incident is the reported one: where the run returns an incident id, that id finds the
-- incident and the findings that the run returns.
pub run_diagnosis-IsStored :
    (db : Database) (boot : BootFacts) (config : Config) (persist : Bool) (incident : Incident)
    (id : ℕ)
    → IsValid db
    → (run_diagnosis db boot config persist).0.incident ≡ some incident
    → (run_diagnosis db boot config persist).0.incident_id ≡ some id
    → IsStored id incident
        (run_diagnosis db boot config persist).0.findings
        (run_diagnosis db boot config persist).1
run_diagnosis-IsStored db boot config persist incident id valid reported stored =
    let (i, n, fs, after) = stored_case db boot config persist incident id reported stored in
    transport (λ j. IsStored (n j) (i j) (fs j) (after j))
      (create_incident-IsStored (incident_of db boot config) (findings_of db boot config) db valid)
