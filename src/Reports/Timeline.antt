-- ===== src/Reports/Timeline.antt =====
-- `_timeline_section`, reports/report_generator.py. An entry keeps its time, its label and its detail;
-- `none` is the exception that the format of a reading raises which is no number.
pub mod Order
use pc_diagnostic_agent.Prelude.{
  ◌>>=◌, ℕ, ◌+◌, ◌-◌, String, Bool, ◌&&◌, Option, none, some, List, [], ◌∷◌, ◌++◌, map, leb, take,
  where_rows, ◌==◌, if◌then◌else◌,
}
use pc_diagnostic_agent.Prelude.Int.{ℤ}
use pc_diagnostic_agent.Prelude.Dict.{Dict, get_or, put, nat_eq, string_eq}
use pc_diagnostic_agent.Prelude.Sort.{sort_by, up}
use pc_diagnostic_agent.Storage.Rows.{Time, minutes, Value, MetricRow, Event, Incident}
use pc_diagnostic_agent.Storage.Tables.{Database}
use pc_diagnostic_agent.Storage.Metrics.{metric_rows}
use pc_diagnostic_agent.Storage.Events.{clip_text, events_between}
use pc_diagnostic_agent.Agent.Config.{Config}
use pc_diagnostic_agent.Printed.{Cell, Line, say}

pub record Entry : Type 0 where
  pub at : Time
  pub label : Line
  pub detail : Line

-- The window: from before the last activity, or the reboot where none is known, to after the reboot, or
-- the present where that is 0. A bound before the epoch selects the same rows as 0.
abbrev pub timeline_start : Config → Incident → Time
timeline_start config incident =
    elim incident.last_metric_timestamp [
      | none ↦ incident.reboot_timestamp
      | some t ↦ if t == 0 then incident.reboot_timestamp else t
    ]
    - minutes config.incident_window_before_minutes

abbrev pub timeline_end : Time → Config → Incident → Time
timeline_end now config incident =
    (if incident.reboot_timestamp == 0 then now else incident.reboot_timestamp)
    + minutes config.incident_window_after_minutes

-- `(ev["message"] or "")[:240]`.
abbrev message_detail : Option String → Line
message_detail none = []
message_detail (some message) = say (clip_text 240 message)

abbrev pub event_entry : Event → Entry
event_entry ev = record {
  at = ev.timestamp;
  label =
      Cell.or_none ev.provider
      ∷ Cell.str " (Event "
      ∷ Cell.event_id ev.event_id
      ∷ Cell.str ")"
      ∷ [];
  detail = message_detail ev.message;
}

-- `SELECT … WHERE timestamp >= ? AND timestamp <= ? ORDER BY timestamp` of a metric table.
unfoldable pub rows_between : Database → String → Time → Time → List MetricRow
rows_between db table start end = sort_by (up (λ r. r.timestamp)) (
    where_rows (λ (r : MetricRow). leb start r.timestamp && leb r.timestamp end)
      (metric_rows db table))

-- `mem_map`: of two rows with one timestamp the later counts.
unfoldable pub mem_map : Dict ℕ Value → List MetricRow → Dict ℕ Value
mem_map d [] = d
mem_map d (r ∷ rows) =
    mem_map (put d r.timestamp (get_or r.values "memory_percent" Value.null)) rows

-- What is shown of a sample.
unfoldable pub metric_detail : Value → Value → Option Line
metric_detail (Value.num cpu) (Value.num mem) = some (
    Cell.str "CPU " ∷ Cell.rounded cpu ∷ Cell.str "% · RAM " ∷ Cell.rounded mem ∷ Cell.str "%" ∷ [])
metric_detail (Value.num cpu) Value.null =
    some (Cell.str "CPU " ∷ Cell.rounded cpu ∷ Cell.str "%" ∷ [])
metric_detail cpu mem = none

-- The loop over the samples.
unfoldable pub metric_entries : Dict ℕ Value → List MetricRow → Option (List Entry)
metric_entries mem [] = some []
metric_entries mem (s ∷ samples) = do
  detail ←
      metric_detail (get_or s.values "cpu_percent" Value.null) (get_or mem s.timestamp Value.null)
  rest ← metric_entries mem samples
  some (record { at = s.timestamp; label = say "Metrics"; detail = detail } ∷ rest)

-- The entries, sorted: the first 400 events of the window and the samples of the processor.
unfoldable pub timeline_entries : Time → Config → Incident → Database → Option (List Entry)
timeline_entries now config incident db =
    let start = timeline_start config incident in
    let end = timeline_end now config incident in
    let mem = mem_map [] (rows_between db "metrics_memory" start end) in
    do
      metrics ← metric_entries mem (rows_between db "metrics_cpu" start end)
      some (
          sort_by (up (λ e. e.at))
            (map event_entry (take 400 (events_between db start end)) ++ metrics))

-- What the section shows: the first 300 entries.
unfoldable pub timeline : Time → Config → Incident → Database → Option (List Entry)
timeline now config incident db = do
  entries ← timeline_entries now config incident db
  some (take 300 entries)
