-- ===== src/Diagnostics/Diagnosis/Queries.antt =====
-- What the engine reads from the metric tables, diagnostics/diagnosis.py. A maximum passes over
-- what is no number: the collectors write numbers or None into these columns.
pub mod LastActivity
pub mod Attained
use pc_diagnostic_agent.Prelude.{
  String, ◌&&◌, Option, none, some, List, [], ◌∷◌, max, leb, ltb, if◌then◌else◌,
}
use pc_diagnostic_agent.Prelude.Int.{ℤ, max_ℤ}
use pc_diagnostic_agent.Prelude.Dict.{get_or, string_eq}
use pc_diagnostic_agent.Storage.Rows.{Time, Value, MetricRow}
use pc_diagnostic_agent.Storage.Tables.{Database}
use pc_diagnostic_agent.Storage.Metrics.{metric_rows}
use pc_diagnostic_agent.Storage.State.{get_heartbeat}

-- `max_ts = x if max_ts is None else max(max_ts, x)`.
abbrev pub later_of : Option Time → Time → Option Time
later_of none t = some t
later_of (some m) t = some (max m t)

-- `SELECT MAX(timestamp) FROM table WHERE timestamp < ?`, over the rows of one table.
unfoldable pub latest_before : Time → List MetricRow → Option Time
latest_before before [] = none
latest_before before (row ∷ rows) =
    let rest = latest_before before rows in
    if ltb row.timestamp before then later_of rest row.timestamp else rest

abbrev pub activity_tables : List String
activity_tables = "metrics_cpu" ∷ "metrics_memory" ∷ "metrics_uptime" ∷ "metrics_process" ∷ []

-- The loop over the tables, with the maximum so far.
unfoldable pub latest_metric : Database → Time → Option Time → List String → Option Time
latest_metric db before max_ts [] = max_ts
latest_metric db before max_ts (table ∷ tables) =
    latest_metric db before
      (elim (latest_before before (metric_rows db table)) [
        | none ↦ max_ts
        | some m ↦ later_of max_ts m
      ])
      tables

-- The heartbeat counts too, if it is before the reboot.
abbrev pub with_heartbeat : Option Time → Time → Option Time → Option Time
with_heartbeat none before max_ts = max_ts
with_heartbeat (some hb) before max_ts = if ltb hb before then later_of max_ts hb else max_ts

unfoldable pub last_metric_timestamp : Database → Time → Option Time
last_metric_timestamp db before =
    with_heartbeat (get_heartbeat db) before (latest_metric db before none activity_tables)

abbrev pub greater_of : Option ℤ → Value → Option ℤ
greater_of none (Value.num x) = some x
greater_of (some m) (Value.num x) = some (max_ℤ m x)
greater_of m _ = m

-- `SELECT MAX(column) FROM table WHERE timestamp >= ? AND timestamp <= ?`, over the table's rows.
unfoldable pub max_value : String → Time → Time → List MetricRow → Option ℤ
max_value column start end [] = none
max_value column start end (row ∷ rows) =
    let rest = max_value column start end rows in
    if leb start row.timestamp && leb row.timestamp end
    then greater_of rest (get_or row.values column Value.null)
    else rest

unfoldable pub max_of : Database → Time → Time → String → String → Option ℤ
max_of db start end table column = max_value column start end (metric_rows db table)

pub record Aggregates : Type 0 where
  pub max_cpu_percent : Option ℤ
  pub max_memory_percent : Option ℤ
  pub max_temperature : Option ℤ
  pub max_disk_percent : Option ℤ

unfoldable pub aggregates_between : Database → Time → Time → Aggregates
aggregates_between db start end = record {
  max_cpu_percent = max_of db start end "metrics_cpu" "cpu_percent";
  max_memory_percent = max_of db start end "metrics_memory" "memory_percent";
  max_temperature = max_of db start end "metrics_temperature" "temperature_c";
  max_disk_percent = max_of db start end "metrics_disk" "percent";
}
