-- ===== src/Examples/Drifts.antt =====
-- A service restart with another boot time at concrete tables: diagnostics/.
use pc_diagnostic_agent.Prelude.{
  ◌≡◌, ◌+◌, ◌<◌, suc, refl, true, Option, none, some, [], ◌∷◌, All, arith, length, is_some, leb,
}
use pc_diagnostic_agent.Storage.Rows.{seconds, Session, IncidentRow}
use pc_diagnostic_agent.Storage.Tables.{Database}
use pc_diagnostic_agent.Storage.Sessions.{latest_session}
use pc_diagnostic_agent.Agent.Config.{default_config}
use pc_diagnostic_agent.Diagnostics.EventAnalyzer.Classify.{classify_event}
use pc_diagnostic_agent.Diagnostics.EventAnalyzer.Summary.{summarize}
use pc_diagnostic_agent.Diagnostics.BootDetector.{detect_boot}
use pc_diagnostic_agent.Diagnostics.Diagnosis.Engine.{run_diagnosis, incident_of}
use pc_diagnostic_agent.Diagnostics.Diagnosis.Restart.{after_start, start_facts}
use pc_diagnostic_agent.Diagnostics.Diagnosis.Drift.{restart_drifted}
use pc_diagnostic_agent.Examples.{
  crashed, first_session, first_boot_time, second_boot_time, second_boot,
}

abbrev second_session : Session
second_session = record first_session {
  session_id = 2;
  boot_time = second_boot_time;
  previous_boot_time = some first_boot_time;
}

abbrev reported_incident : IncidentRow
reported_incident = record {
  incident_id = 1;
  incident = incident_of crashed second_boot default_config;
}

-- The tables after the start that reports the power loss.
abbrev reported : Database
reported = record crashed {
  sessions = first_session ∷ second_session ∷ [];
  last_session = 2;
  incidents = reported_incident ∷ [];
  last_incident = 1;
}

latest_test : latest_session reported ≡ some second_session
unfolding latest_session pc_diagnostic_agent.Prelude.Sort.sort_by
latest_test = refl

once_test :
    All (λ r. r.reboot_timestamp + seconds 5 < second_boot_time + seconds 6) reported.incidents
unfolding incident_of
once_test = (omega arith, tt)

again_test :
    is_some
      (run_diagnosis reported
        (start_facts second_boot_time (second_boot_time + seconds 6) none reported)
        default_config
        true).0.incident
    ≡ true
unfolding run_diagnosis detect_boot latest_session
    pc_diagnostic_agent.Diagnostics.Diagnosis.Engine.warranted
    pc_diagnostic_agent.Diagnostics.Diagnosis.Engine.boot_facts
    pc_diagnostic_agent.Diagnostics.BootDetector.resolve_boot_time
    pc_diagnostic_agent.Diagnostics.BootDetector.same_boot
    pc_diagnostic_agent.Diagnostics.BootDetector.service_restart
    pc_diagnostic_agent.Diagnostics.Diagnosis.Engine.crash_of
    pc_diagnostic_agent.Diagnostics.CrashDetector.detect_crash
    pc_diagnostic_agent.Diagnostics.Diagnosis.Engine.transition_summary summarize
    pc_diagnostic_agent.Diagnostics.EventAnalyzer.Summary.summary_of
    pc_diagnostic_agent.Prelude.Dict.get_or
    pc_diagnostic_agent.Diagnostics.EventAnalyzer.Summary.tally_events
    pc_diagnostic_agent.Storage.Events.events_between pc_diagnostic_agent.Prelude.Sort.sort_by
    pc_diagnostic_agent.Diagnostics.EventAnalyzer.Summary.tally_event
    pc_diagnostic_agent.Prelude.Dict.put
    pc_diagnostic_agent.Diagnostics.EventAnalyzer.Category.same_category classify_event
again_test = refl

restart_drifted_example :
    (after_start second_boot_time (second_boot_time + seconds 6) none reported ≡ reported)
    × (length
          (run_diagnosis reported
            (start_facts second_boot_time (second_boot_time + seconds 6) none reported)
            default_config
            true).1.incidents
        ≡ 2)
restart_drifted_example =
    restart_drifted second_boot_time (second_boot_time + seconds 6) none reported second_session
      default_config latest_test (omega arith) (omega arith) once_test again_test
