-- ===== src/Diagnostics/Diagnosis/Engine.antt =====
-- `run_diagnosis` and `diagnose_latest`, diagnostics/diagnosis.py.
pub mod Verdict
pub mod Persist
use pc_diagnostic_agent.Prelude.{
  ℕ, ◌+◌, ◌-◌, Bool, false, not, ◌&&◌, ◌||◌, Option, none, some, List, [], map, leb, ◌==◌, any,
  if◌then◌else◌,
}
use pc_diagnostic_agent.Storage.Rows.{
  Time, seconds, minutes, hours, Session, Finding, Incident, IncidentRow,
}
use pc_diagnostic_agent.Storage.Tables.{Database}
use pc_diagnostic_agent.Storage.Events.{events_between}
use pc_diagnostic_agent.Storage.Sessions.{latest_session, session_before}
use pc_diagnostic_agent.Storage.Incidents.{create_incident}
use pc_diagnostic_agent.Agent.Config.{Config}
use pc_diagnostic_agent.Diagnostics.EventAnalyzer.Summary.{Summary, summarize}
use pc_diagnostic_agent.Diagnostics.CrashDetector.{Crash, detect_crash}
use pc_diagnostic_agent.Diagnostics.HangDetector.{TerminationInference, infer_termination}
use pc_diagnostic_agent.Diagnostics.BootDetector.{BootResult, id_of}
use pc_diagnostic_agent.Diagnostics.Diagnosis.Queries.{
  Aggregates, last_metric_timestamp, aggregates_between,
}
use pc_diagnostic_agent.Diagnostics.Diagnosis.Findings.{build_findings}
use pc_diagnostic_agent.Diagnostics.Diagnosis.Evidence.{
  incident_evidence, incident_type, incident_confidence,
}

-- What the engine reads of the result of `detect_boot`.
pub record BootFacts : Type 0 where
  pub boot_time : Time
  pub previous_boot_time : Option Time
  pub previous_session_id : Option ℕ
  pub previous_session_clean : Option Bool

unfoldable pub boot_facts : BootResult → BootFacts
boot_facts r = record {
  boot_time = r.boot_time;
  previous_boot_time = r.previous_boot_time;
  previous_session_id = r.previous_session_id;
  previous_session_clean = r.previous_session_clean;
}

-- The dictionary that is returned; `incident_id` is set where the incident was stored.
pub record Diagnosis : Type 0 where
  pub incident : Option Incident
  pub incident_id : Option ℕ
  pub findings : List Finding
  pub summary : Option Summary
  pub aggregates : Option Aggregates
  pub inference : Option TerminationInference

unfoldable pub incident_exists : Database → Time → Bool
incident_exists db reboot_timestamp =
    any
      (λ (row : IncidentRow).
        leb (reboot_timestamp - seconds 5) row.reboot_timestamp
        && leb row.reboot_timestamp (reboot_timestamp + seconds 5))
      db.incidents

abbrev pub transition_start : BootFacts → Config → Time
transition_start boot config = elim boot.previous_boot_time [
  | none ↦ boot.boot_time - hours config.retention_hours
  | some t ↦ t
]

-- The events of the transition, from the previous boot to two minutes after this one.
unfoldable pub transition_summary : Database → BootFacts → Config → Summary
transition_summary db boot config =
    summarize (events_between db (transition_start boot config) (boot.boot_time + seconds 120))

abbrev pub incident_start : BootFacts → Config → Time
incident_start boot config = boot.boot_time - minutes config.incident_window_before_minutes

abbrev pub incident_end : BootFacts → Config → Time
incident_end boot config = boot.boot_time + minutes config.incident_window_after_minutes

-- The events of the configured window around the boot.
unfoldable pub incident_summary : Database → BootFacts → Config → Summary
incident_summary db boot config =
    summarize (events_between db (incident_start boot config) (incident_end boot config))

unfoldable pub incident_aggregates : Database → BootFacts → Config → Aggregates
incident_aggregates db boot config =
    aggregates_between db (incident_start boot config) (incident_end boot config)

unfoldable pub crash_of : Database → BootFacts → Config → Crash
crash_of db boot config =
    detect_crash (transition_summary db boot config) boot.previous_session_clean

unfoldable pub inference_of : Database → BootFacts → Config → TerminationInference
inference_of db boot config =
    infer_termination (crash_of db boot config) (last_metric_timestamp db boot.boot_time)
      boot.boot_time config.collection_interval_seconds

unfoldable pub findings_of : Database → BootFacts → Config → List Finding
findings_of db boot config =
    build_findings (incident_summary db boot config) (incident_aggregates db boot config)
      (inference_of db boot config) config

unfoldable pub warranted : Crash → Bool
warranted crash = crash.unexpected_shutdown || crash.bugcheck_detected

unfoldable pub incident_of : Database → BootFacts → Config → Incident
incident_of db boot config =
    let crash = crash_of db boot config in
    let inference = inference_of db boot config in
    let findings = findings_of db boot config in
    record {
      detected_at = boot.boot_time;
      incident_type = incident_type inference crash;
      confidence = incident_confidence inference crash findings;
      previous_session_id = boot.previous_session_id;
      last_metric_timestamp = last_metric_timestamp db boot.boot_time;
      reboot_timestamp = boot.boot_time;
      duration_estimate = inference.hang_gap_seconds;
      findings = map (λ (f : Finding). f.type) findings;
      evidence =
          incident_evidence (incident_summary db boot config) (incident_aggregates db boot config)
            inference crash;
    }

-- `if persist and not _incident_exists(…)`: the id of the stored incident.
unfoldable pub store_incident :
    Database → Time → Bool → Incident → List Finding → Option ℕ × Database
store_incident db boot_time persist incident findings =
    if persist && not (incident_exists db boot_time)
    then (let (id, db') = create_incident incident findings db in (some id, db'))
    else (none, db)

unfoldable pub run_diagnosis : Database → BootFacts → Config → Bool → Diagnosis × Database
run_diagnosis db boot config persist =
    if warranted (crash_of db boot config)
    then (let (id, db') =
          store_incident db boot.boot_time persist (incident_of db boot config)
            (findings_of db boot config) in
        (
          record {
            incident = some (incident_of db boot config);
            incident_id = id;
            findings = findings_of db boot config;
            summary = some (incident_summary db boot config);
            aggregates = some (incident_aggregates db boot config);
            inference = some (inference_of db boot config);
          },
          db',
        ))
    else (
      record {
        incident = none;
        incident_id = none;
        findings = [];
        summary = some (incident_summary db boot config);
        aggregates = some (incident_aggregates db boot config);
        inference = none;
      },
      db,
    )

-- `x or y`, where a time 0 counts as none.
abbrev pub or_else : Option Time → Option Time → Option Time
or_else none y = y
or_else (some t) y = if t == 0 then y else some t

-- The boot result that `diagnose_latest` reads back from the latest two sessions.
unfoldable pub latest_boot_facts : Session → Option Session → BootFacts
latest_boot_facts latest prev = record {
  boot_time = latest.boot_time;
  previous_boot_time =
      or_else latest.previous_boot_time (elim prev [ none ↦ none | some p ↦ some p.boot_time ]);
  previous_session_id = id_of prev;
  previous_session_clean = elim prev [ none ↦ none | some p ↦ p.previous_session_clean ];
}

unfoldable pub diagnose_session : Option Session → Database → Config → Diagnosis
diagnose_session none db config = record {
  incident = none;
  incident_id = none;
  findings = [];
  summary = none;
  aggregates = none;
  inference = none;
}
diagnose_session (some latest) db config =
    (run_diagnosis db (latest_boot_facts latest (session_before latest.session_id db)) config
      false).0

unfoldable pub diagnose_latest : Database → Config → Diagnosis
diagnose_latest db config = diagnose_session (latest_session db) db config
