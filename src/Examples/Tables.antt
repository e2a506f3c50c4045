-- ===== src/Examples/Tables.antt =====
-- The theorems on the tables at concrete ones: storage/.
use pc_diagnostic_agent.Prelude.{where_rows, ◌≡◌, String, none, some, [], ◌∷◌, if◌then◌else◌}
use pc_diagnostic_agent.Prelude.Dict.{string_eq}
use pc_diagnostic_agent.Storage.Rows.{
  hours, Incident, Finding, FindingType, IncidentType, Level, str_int,
}
use pc_diagnostic_agent.Storage.Metrics.{metric_rows}
use pc_diagnostic_agent.Storage.Incidents.{list_incidents}
use pc_diagnostic_agent.Storage.State.{get_state, set_state}
use pc_diagnostic_agent.Storage.State.Stored.{get_state-set_state}
use pc_diagnostic_agent.Storage.Retention.{prune_metrics}
use pc_diagnostic_agent.Storage.Retention.Kept.{
  is_metric_table, survives, SameBut, prune_metrics_rows,
}
use pc_diagnostic_agent.Examples.{crashed, second_boot_time}
use text.Mathlib.Text.{◌==◌ as str_eq}

abbrev pub hang_finding : Finding
hang_finding = record {
  type = FindingType.hard_hang;
  severity = Level.high;
  confidence = Level.high;
  evidence = [];
  timestamp = none;
  explanation = "";
}

abbrev pub hang : Incident
hang = record {
  detected_at = second_boot_time;
  incident_type = IncidentType.hard_hang;
  confidence = Level.high;
  previous_session_id = some 1;
  last_metric_timestamp = some (hours 101);
  reboot_timestamp = second_boot_time;
  duration_estimate = none;
  findings = FindingType.hard_hang ∷ [];
  evidence = [];
}

state_test :
    get_state "a" (set_state 5 "a" (str_int 3) crashed)
    ≡ (if str_eq "a" "a" then some (str_int 3) else get_state "a" crashed)
state_test = get_state-set_state 5 "a" "a" (str_int 3) crashed

prune_metrics_rows_example :
    ((t : String)
      → metric_rows (prune_metrics (hours 200) 24 crashed).1 t ≡ (
          if is_metric_table t
          then where_rows
              (survives (hours 200) 24 (list_incidents 200 crashed))
              (metric_rows crashed t)
          else metric_rows crashed t))
    × SameBut crashed (prune_metrics (hours 200) 24 crashed).1
prune_metrics_rows_example = prune_metrics_rows (hours 200) 23 crashed
