-- ===== src/Examples/Signals.antt =====
-- The theorems on events, findings and activity at concrete tables: diagnostics/.
use pc_diagnostic_agent.Prelude.{
  ◌≡◌, ◌≤◌, refl, Bool, true, false, not, ◌&&◌, ◌||◌, some, List, [], ◌∷◌, arith,
}
use pc_diagnostic_agent.Prelude.Dict.{get_or}
use pc_diagnostic_agent.Storage.Rows.{hours, Finding, FindingType, Event}
use pc_diagnostic_agent.Agent.Config.{default_config}
use pc_diagnostic_agent.Diagnostics.CrashDetector.{Crash}
use pc_diagnostic_agent.Diagnostics.HangDetector.{infer_termination}
use pc_diagnostic_agent.Diagnostics.HangDetector.Modes.{one_if}
use pc_diagnostic_agent.Diagnostics.HangDetector.Gap.{infer_termination_mono}
use pc_diagnostic_agent.Diagnostics.EventAnalyzer.Category.{category_eq}
use pc_diagnostic_agent.Diagnostics.EventAnalyzer.Summary.{summarize}
use pc_diagnostic_agent.Diagnostics.EventAnalyzer.Counts.{Describes, summarize-Describes}
use pc_diagnostic_agent.Diagnostics.Diagnosis.Queries.{last_metric_timestamp, activity_tables}
use pc_diagnostic_agent.Diagnostics.Diagnosis.Queries.LastActivity.{IsLatest}
use pc_diagnostic_agent.Diagnostics.Diagnosis.Queries.Attained.{
  Attained, is_activity, last_metric_timestamp-exact,
}
use pc_diagnostic_agent.Diagnostics.Diagnosis.Findings.{
  build_findings, severity_rank, or_insufficient, collected_findings,
}
use pc_diagnostic_agent.Diagnostics.Diagnosis.Engine.{
  incident_summary, incident_aggregates, inference_of,
}
use pc_diagnostic_agent.Diagnostics.Diagnosis.Findings.Graded.{graded, build_findings-graded}
use pc_diagnostic_agent.Storage.Rows.{low, medium, high}
use pc_diagnostic_agent.Prelude.{List, ◌++◌}
use pc_diagnostic_agent.Examples.{crashed, second_boot_time, second_boot, power_event, clean_event}
use pc_diagnostic_agent.Diagnostics.Diagnosis.Findings.Exact.{
  build_findings-exact, found, warrants, some_warranted,
}

abbrev both_events : List Event
both_events = clean_event ∷ power_event ∷ []

summarize-Describes_example : Describes both_events (summarize both_events)
summarize-Describes_example = summarize-Describes both_events

abbrev crash_41 : Crash
crash_41 = record {
  bugcheck_detected = false;
  kernel_power_detected = true;
  unexpected_shutdown_event = false;
  clean_shutdown = false;
  unexpected_shutdown = true;
}

-- From a power loss to a hang, by a later reboot.
infer_termination_mono_example :
    (one_if (infer_termination crash_41 (some 1000) 2000 30).probable_hard_hang
      ≤ one_if (infer_termination crash_41 (some 1000) 90000 30).probable_hard_hang)
    × (one_if (infer_termination crash_41 (some 1000) 90000 30).probable_power_loss
        ≤ one_if (infer_termination crash_41 (some 1000) 2000 30).probable_power_loss)
    × (severity_rank (infer_termination crash_41 (some 1000) 2000 30).confidence
        ≤ severity_rank (infer_termination crash_41 (some 1000) 90000 30).confidence)
infer_termination_mono_example =
    infer_termination_mono crash_41 (some 1000) 2000 90000 30 (omega arith)

last_metric_timestamp-exact_example :
    IsLatest second_boot_time crashed (last_metric_timestamp crashed second_boot_time)
    × Attained (is_activity crashed) (last_metric_timestamp crashed second_boot_time)
last_metric_timestamp-exact_example = last_metric_timestamp-exact crashed second_boot_time

last_activity_test : last_metric_timestamp crashed second_boot_time ≡ some (hours 101)
unfolding last_metric_timestamp pc_diagnostic_agent.Storage.State.get_heartbeat
    pc_diagnostic_agent.Diagnostics.Diagnosis.Queries.latest_metric
    pc_diagnostic_agent.Diagnostics.Diagnosis.Queries.latest_before
    pc_diagnostic_agent.Storage.Metrics.metric_rows get_or
last_activity_test = refl

abbrev is_hang : FindingType → Bool
is_hang FindingType.hard_hang = true
is_hang _ = false

build_findings-exact_example :
    found is_hang (
      build_findings
        (incident_summary crashed second_boot default_config)
        (incident_aggregates crashed second_boot default_config)
        (inference_of crashed second_boot default_config)
        default_config)
    ≡ (some_warranted
          (warrants
            (incident_summary crashed second_boot default_config)
            (incident_aggregates crashed second_boot default_config)
            (inference_of crashed second_boot default_config)
            default_config)
          is_hang
        || (not (
              some_warranted
                (warrants
                  (incident_summary crashed second_boot default_config)
                  (incident_aggregates crashed second_boot default_config)
                  (inference_of crashed second_boot default_config)
                  default_config)
                (λ _. true))
            && is_hang FindingType.insufficient))
build_findings-exact_example =
    build_findings-exact is_hang (incident_summary crashed second_boot default_config)
      (incident_aggregates crashed second_boot default_config)
      (inference_of crashed second_boot default_config) default_config

abbrev collected : List Finding
collected = or_insufficient (
    collected_findings (incident_summary crashed second_boot default_config)
      (incident_aggregates crashed second_boot default_config)
      (inference_of crashed second_boot default_config) default_config)

build_findings-graded_example :
    build_findings
      (incident_summary crashed second_boot default_config)
      (incident_aggregates crashed second_boot default_config)
      (inference_of crashed second_boot default_config)
      default_config
    ≡ graded high collected ++ (graded medium collected ++ graded low collected)
build_findings-graded_example =
    build_findings-graded (incident_summary crashed second_boot default_config)
      (incident_aggregates crashed second_boot default_config)
      (inference_of crashed second_boot default_config) default_config
