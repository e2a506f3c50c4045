-- ===== src/Diagnostics/Diagnosis/Drift.antt =====
-- A service restart for which another boot time is reported than for the start: `_incident_exists` of
-- diagnostics/diagnosis.py beside the test for the same boot in diagnostics/boot_detector.py.
use pc_diagnostic_agent.Prelude.{
  ◌+◌, ◌<◌, ◌≡◌, refl, ap, ◌∙◌, sym, suc, true, false, Option, some, [], ◌∷◌, List, All, any, arith,
  length, length-append, is_some, leb, ◌-◌, ◌&&◌,
}
use pc_diagnostic_agent.Storage.Rows.{Time, seconds, Session, IncidentRow}
use pc_diagnostic_agent.Storage.Tables.{Database}
use pc_diagnostic_agent.Storage.Sessions.{latest_session}
use pc_diagnostic_agent.Storage.Incidents.{create_incident}
use pc_diagnostic_agent.Storage.Incidents.Stored.{create_incident_lem, incident_row}
use pc_diagnostic_agent.Agent.Config.{Config}
use pc_diagnostic_agent.Diagnostics.BootDetector.{same_boot, service_restart}
use pc_diagnostic_agent.Diagnostics.BootDetector.Reboot.{detect_boot_same}
use pc_diagnostic_agent.Diagnostics.Diagnosis.Engine.{
  boot_facts, run_diagnosis, incident_exists, incident_of, findings_of,
}
use pc_diagnostic_agent.Diagnostics.Diagnosis.Engine.Persist.{
  run_diagnosis_writes, run_diagnosis_reports,
}
use pc_diagnostic_agent.Diagnostics.Diagnosis.Restart.{after_start, start_facts}

none_near :
    (b : Time) (rows : List IncidentRow)
    → All (λ r. r.reboot_timestamp + seconds 5 < b) rows
    → any
        (λ (r : IncidentRow).
          leb (b - seconds 5) r.reboot_timestamp && leb r.reboot_timestamp (b + seconds 5))
        rows
      ≡ false
none_near b [] h = refl
none_near b (r ∷ rows) h = ground (arith, h.0, none_near b rows h.1)

same_boot_near :
    (s : Session) (b : Time) → s.boot_time < b → b < s.boot_time + seconds 60 → same_boot s b ≡ true
unfolding same_boot
same_boot_near s b h k = ground arith

-- A service restart whose reported boot time is after that of the latest session, by less than a minute,
-- and more than five seconds after that of each stored incident, leaves the tables as they are: it opens no
-- session. But if the diagnosis of this start reports an incident, it stores one more.
pub restart_drifted :
    (now b : Time) (psutil : Option Time) (db : Database) (s : Session) (config : Config)
    → latest_session db ≡ some s
    → s.boot_time < b
    → b < s.boot_time + seconds 60
    → All (λ r. r.reboot_timestamp + seconds 5 < b) db.incidents
    → is_some (run_diagnosis db (start_facts now b psutil db) config true).0.incident ≡ true
    → (after_start now b psutil db ≡ db)
      × (length (run_diagnosis db (start_facts now b psutil db) config true).1.incidents
          ≡ suc (length db.incidents))
unfolding boot_facts service_restart incident_exists
restart_drifted now b psutil db s config latest after within apart reported =
    let same = detect_boot_same now b psutil db s latest (same_boot_near s b after within) in
    let facts = start_facts now b psutil db in
    let at : facts.boot_time ≡ b = ap (λ r. r.0.boot_time) same in
    let missing : incident_exists db facts.boot_time ≡ false =
      ap (incident_exists db) at ∙ none_near b db.incidents apart in
    let w = sym (run_diagnosis_reports db facts config true) ∙ reported in
    let incident = incident_of db facts config in
    let written : (run_diagnosis db facts config true).1
        ≡ (create_incident incident (findings_of db facts config) db).1 =
      run_diagnosis_writes db facts config true ∙ rw (w, missing) refl in
    (
      ap (λ r. r.1) same,
      ap (λ d. length d.incidents) written
          ∙ ap (λ r. length r.1.incidents)
              (create_incident_lem incident (findings_of db facts config) db)
          ∙ length-append db.incidents (incident_row (suc db.last_incident) incident ∷ [])
          ∙ omega arith,
    )
