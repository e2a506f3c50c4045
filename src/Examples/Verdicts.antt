-- ===== src/Examples/Verdicts.antt =====
-- The theorems on the engine at concrete tables: diagnostics/.
use pc_diagnostic_agent.Prelude.{
  ℕ, ◌≡◌, ◌≤◌, ◌+◌, ◌*◌, suc, refl, Bool, true, false, not, ◌&&◌, ◌||◌, Option, none, some, List,
  [], ◌∷◌, arith, truthy, is_some, length, any,
}
use pc_diagnostic_agent.Prelude.Dict.{get_or}
use pc_diagnostic_agent.Prelude.Sort.{Sorted, down}
use pc_diagnostic_agent.Storage.Rows.{hours}
use pc_diagnostic_agent.Storage.Incidents.Stored.{IsStored}
use pc_diagnostic_agent.Agent.Config.{default_config}
use pc_diagnostic_agent.Diagnostics.CrashDetector.{Crash}
use pc_diagnostic_agent.Diagnostics.EventAnalyzer.Category.{
  kernel_power, bugcheck, shutdown_clean, shutdown_unexpected,
}
use pc_diagnostic_agent.Diagnostics.EventAnalyzer.Classify.{classify_event}
use pc_diagnostic_agent.Diagnostics.EventAnalyzer.Summary.{summarize}
use pc_diagnostic_agent.Diagnostics.BootDetector.Outcome.{logged}
use pc_diagnostic_agent.Diagnostics.Diagnosis.Queries.{last_metric_timestamp}
use pc_diagnostic_agent.Diagnostics.Diagnosis.Engine.{
  run_diagnosis, incident_of, incident_summary, incident_aggregates, inference_of, findings_of,
}
use pc_diagnostic_agent.Diagnostics.Diagnosis.Engine.Verdict.{
  verdict, expected_verdict, gap_verdict, saw, run_diagnosis-verdict,
}
use pc_diagnostic_agent.Diagnostics.Diagnosis.Engine.Persist.{
  run_diagnosis-once, run_diagnosis-IsStored,
}
use pc_diagnostic_agent.Diagnostics.Diagnosis.Restart.{after_start, start_facts, restart_reports}
use pc_diagnostic_agent.Examples.{
  crashed, clean_but_41, first_session, second_boot_time, second_boot, session_with-IsValid,
  power_event, clean_event,
}
use pc_diagnostic_agent.Examples.Boots.{latest_clean_test, reboot_clean_test, not_zero}

run_diagnosis-verdict_example :
    verdict (run_diagnosis crashed second_boot default_config true).0
    ≡ expected_verdict
        (saw crashed second_boot default_config bugcheck)
        false
        (saw crashed second_boot default_config kernel_power)
        (saw crashed second_boot default_config shutdown_unexpected)
        (gap_verdict (last_metric_timestamp crashed second_boot_time) second_boot_time 30)
run_diagnosis-verdict_example = run_diagnosis-verdict crashed second_boot default_config true

-- An hour without activity before a Kernel-Power 41 is a hard hang.
hang_test :
    (run_diagnosis crashed second_boot default_config true).0.incident
    ≡ some (incident_of crashed second_boot default_config)
unfolding run_diagnosis pc_diagnostic_agent.Diagnostics.Diagnosis.Engine.warranted
    pc_diagnostic_agent.Diagnostics.Diagnosis.Engine.crash_of
    pc_diagnostic_agent.Diagnostics.CrashDetector.detect_crash
    pc_diagnostic_agent.Diagnostics.Diagnosis.Engine.transition_summary summarize
    pc_diagnostic_agent.Diagnostics.EventAnalyzer.Summary.summary_of get_or
    pc_diagnostic_agent.Diagnostics.EventAnalyzer.Summary.tally_events
    pc_diagnostic_agent.Storage.Events.events_between pc_diagnostic_agent.Prelude.Sort.sort_by
    pc_diagnostic_agent.Diagnostics.EventAnalyzer.Summary.tally_event
    pc_diagnostic_agent.Prelude.Dict.put
    pc_diagnostic_agent.Diagnostics.EventAnalyzer.Category.same_category classify_event
hang_test = refl

reported_test : is_some (run_diagnosis crashed second_boot default_config true).0.incident ≡ true
unfolding run_diagnosis pc_diagnostic_agent.Diagnostics.Diagnosis.Engine.warranted
    pc_diagnostic_agent.Diagnostics.Diagnosis.Engine.crash_of
    pc_diagnostic_agent.Diagnostics.CrashDetector.detect_crash
    pc_diagnostic_agent.Diagnostics.Diagnosis.Engine.transition_summary summarize
    pc_diagnostic_agent.Diagnostics.EventAnalyzer.Summary.summary_of get_or
    pc_diagnostic_agent.Diagnostics.EventAnalyzer.Summary.tally_events
    pc_diagnostic_agent.Storage.Events.events_between pc_diagnostic_agent.Prelude.Sort.sort_by
    pc_diagnostic_agent.Diagnostics.EventAnalyzer.Summary.tally_event
    pc_diagnostic_agent.Prelude.Dict.put
    pc_diagnostic_agent.Diagnostics.EventAnalyzer.Category.same_category classify_event
reported_test = refl

stored_test : (run_diagnosis crashed second_boot default_config true).0.incident_id ≡ some 1
unfolding run_diagnosis pc_diagnostic_agent.Diagnostics.Diagnosis.Engine.warranted
    pc_diagnostic_agent.Diagnostics.Diagnosis.Engine.crash_of
    pc_diagnostic_agent.Diagnostics.CrashDetector.detect_crash
    pc_diagnostic_agent.Diagnostics.Diagnosis.Engine.transition_summary summarize
    pc_diagnostic_agent.Diagnostics.EventAnalyzer.Summary.summary_of get_or
    pc_diagnostic_agent.Diagnostics.EventAnalyzer.Summary.tally_events
    pc_diagnostic_agent.Storage.Events.events_between pc_diagnostic_agent.Prelude.Sort.sort_by
    pc_diagnostic_agent.Diagnostics.EventAnalyzer.Summary.tally_event
    pc_diagnostic_agent.Prelude.Dict.put
    pc_diagnostic_agent.Diagnostics.EventAnalyzer.Category.same_category classify_event
    pc_diagnostic_agent.Diagnostics.Diagnosis.Engine.store_incident
    pc_diagnostic_agent.Diagnostics.Diagnosis.Engine.incident_exists
    pc_diagnostic_agent.Storage.Incidents.create_incident
stored_test = refl

run_diagnosis-once_example :
    (run_diagnosis
      (run_diagnosis crashed second_boot default_config true).1
      second_boot
      default_config
      true).1
    ≡ (run_diagnosis crashed second_boot default_config true).1
run_diagnosis-once_example =
    run_diagnosis-once crashed second_boot second_boot default_config default_config true
      reported_test refl

run_diagnosis-IsStored_example :
    IsStored 1
      (incident_of crashed second_boot default_config)
      (run_diagnosis crashed second_boot default_config true).0.findings
      (run_diagnosis crashed second_boot default_config true).1
run_diagnosis-IsStored_example =
    run_diagnosis-IsStored crashed second_boot default_config true
      (incident_of crashed second_boot default_config) 1 (session_with-IsValid (power_event ∷ []))
      hang_test stored_test

logged_clean_test : logged clean_but_41 first_session second_boot_time shutdown_clean ≡ true
unfolding pc_diagnostic_agent.Diagnostics.EventAnalyzer.Category.same_category classify_event
logged_clean_test = refl

logged_41_test : logged clean_but_41 first_session second_boot_time kernel_power ≡ true
unfolding pc_diagnostic_agent.Diagnostics.EventAnalyzer.Category.same_category classify_event
logged_41_test = refl

logged_bugcheck_test : logged clean_but_41 first_session second_boot_time bugcheck ≡ false
unfolding pc_diagnostic_agent.Diagnostics.EventAnalyzer.Category.same_category classify_event
logged_bugcheck_test = refl

restart_reports_example :
    (verdict
        (run_diagnosis
          (after_start second_boot_time second_boot_time none clean_but_41)
          (start_facts second_boot_time second_boot_time none clean_but_41)
          default_config
          true).0
      ≡ none)
    × (verdict
          (run_diagnosis
            (after_start second_boot_time second_boot_time none clean_but_41)
            (start_facts
              (hours 103)
              second_boot_time
              none
              (after_start second_boot_time second_boot_time none clean_but_41))
            default_config
            true).0
        ≡ gap_verdict
            (last_metric_timestamp
              (after_start second_boot_time second_boot_time none clean_but_41)
              second_boot_time)
            second_boot_time
            30)
restart_reports_example =
    restart_reports second_boot_time (hours 103) second_boot_time none clean_but_41 first_session
      default_config (session_with-IsValid (clean_event ∷ power_event ∷ [])) latest_clean_test
      reboot_clean_test not_zero logged_clean_test logged_41_test logged_bugcheck_test
