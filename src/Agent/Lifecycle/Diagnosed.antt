-- ===== src/Agent/Lifecycle/Diagnosed.antt =====
-- That the command line's diagnosis agrees with the one of the agent's start, agent/lifecycle.py and
-- cli/commands.py.
use pc_diagnostic_agent.Prelude.{
  List, subst, ◌≡◌, refl, ap, sym, ◌∙◌, ◌≢◌, ◌&&◌, not, true, false, Option, none, some,
  if◌then◌else◌,
}
use pc_diagnostic_agent.Storage.Rows.{Time, Session, Incident, Finding}
use pc_diagnostic_agent.Storage.Tables.{Database}
use pc_diagnostic_agent.Storage.Valid.{IsValid}
use pc_diagnostic_agent.Storage.Metrics.{metric_rows}
use pc_diagnostic_agent.Storage.State.{get_heartbeat}
use pc_diagnostic_agent.Storage.Sessions.{latest_session}
use pc_diagnostic_agent.Storage.Incidents.{create_incident}
use pc_diagnostic_agent.Storage.Incidents.Stored.{create_incident_lem}
use pc_diagnostic_agent.Agent.Config.{Config}
use pc_diagnostic_agent.Agent.Lifecycle.{startup_analysis}
use pc_diagnostic_agent.Agent.Lifecycle.Core.{core-collect}
use pc_diagnostic_agent.Collectors.WindowsEvents.{EventLog, collect}
use pc_diagnostic_agent.Diagnostics.BootDetector.{detect_boot, resolve_boot_time}
use pc_diagnostic_agent.Diagnostics.BootDetector.Reboot.{is_restart}
use pc_diagnostic_agent.Diagnostics.Diagnosis.Queries.{latest_metric, last_metric_timestamp}
use pc_diagnostic_agent.Diagnostics.Diagnosis.Engine.{
  BootFacts, boot_facts, run_diagnosis, diagnose_latest, warranted, crash_of, incident_exists,
  incident_of, findings_of,
}
use pc_diagnostic_agent.Diagnostics.Diagnosis.Engine.Verdict.{verdict, run_diagnosis-verdict}
use pc_diagnostic_agent.Diagnostics.Diagnosis.Engine.Persist.{run_diagnosis_writes}
use pc_diagnostic_agent.Diagnostics.Diagnosis.Latest.{diagnose_latest-run_diagnosis}

-- A created incident changes neither the sessions nor the verdict of a run.
create_incident-sessions :
    (incident : Incident) (fs : List Finding) (db : Database)
    → (create_incident incident fs db).1.sessions ≡ db.sessions
create_incident-sessions incident fs db =
    ap (λ r. r.1.sessions) (create_incident_lem incident fs db)

create_incident-verdict :
    (incident : Incident) (fs : List Finding) (db : Database) (boot : BootFacts) (config : Config)
    → verdict (run_diagnosis (create_incident incident fs db).1 boot config false).0
      ≡ verdict (run_diagnosis db boot config true).0
unfolding last_metric_timestamp latest_metric metric_rows get_heartbeat
create_incident-verdict incident fs db boot config =
    ap (λ r. verdict (run_diagnosis r.1 boot config false).0) (create_incident_lem incident fs db)
    ∙ run_diagnosis-verdict _ boot config false
    ∙ sym (run_diagnosis-verdict db boot config true)

-- The tables behind a run have the sessions and the verdict of those before it.
abbrev SameVerdict : Database → BootFacts → Config → Database → Type 0
SameVerdict db boot config after =
    (after.sessions ≡ db.sessions)
    × (verdict (run_diagnosis after boot config false).0
        ≡ verdict (run_diagnosis db boot config true).0)

run_diagnosis-SameVerdict :
    (db : Database) (boot : BootFacts) (config : Config)
    → SameVerdict db boot config (run_diagnosis db boot config true).1
run_diagnosis-SameVerdict db boot config =
    subst (SameVerdict db boot config) (sym (run_diagnosis_writes db boot config true))
      (elim (warranted (crash_of db boot config)
          && (true && not (incident_exists db boot.boot_time)))
        as (λ b. SameVerdict db boot config (
          if b
          then (create_incident (incident_of db boot config) (findings_of db boot config) db).1
          else db)) [
            | true ↦ (
              create_incident-sessions (incident_of db boot config) (findings_of db boot config) db,
              create_incident-verdict (incident_of db boot config) (findings_of db boot config) db
                  boot config,
            )
            | false ↦ (
              refl,
              run_diagnosis-verdict db boot config false
                  ∙ sym (run_diagnosis-verdict db boot config true),
            )
          ])

-- After a start of the agent that follows a reboot, `pcdiag diagnostics` gives the type and the
-- confidence of the incident that the start reported, or none where it reported none.
pub startup_analysis-diagnose_latest :
    (now : Time) (psutil : Option Time) (log : EventLog) (config : Config) (db : Database)
    (prev : Session)
    → IsValid db
    → latest_session db ≡ some prev
    → is_restart db (resolve_boot_time none psutil now) ≡ false
    → prev.boot_time ≢ 0
    → verdict (diagnose_latest (startup_analysis now psutil log config db).2 config)
      ≡ verdict (startup_analysis now psutil log config db).1
unfolding startup_analysis detect_boot resolve_boot_time
startup_analysis-diagnose_latest now psutil log config db prev valid e new known =
    let b = resolve_boot_time none psutil now in
    let start = detect_boot now (some b) psutil db in
    let facts = boot_facts start.0 in
    let collected = collect now start.0.session_id log start.1 in
    let (sessions, kept) = run_diagnosis-SameVerdict collected facts config in
    ap verdict (
      diagnose_latest-run_diagnosis now b psutil db (run_diagnosis collected facts config true).1
        prev config valid e new known
        (sessions ∙ ap (λ c. c.sessions) (core-collect now start.0.session_id log start.1)))
    ∙ kept
