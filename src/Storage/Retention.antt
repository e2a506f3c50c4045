-- ===== src/Storage/Retention.antt =====
-- storage/retention.py: pruning of old metrics.
pub mod Kept
use pc_diagnostic_agent.Prelude.{
  ℕ, zero, ◌+◌, ◌-◌, String, Bool, true, not, ◌&&◌, Option, none, some, List, [], ◌∷◌, map, leb,
  ltb, ◌==◌, all, any, count_where, where_rows, if◌then◌else◌,
}
use pc_diagnostic_agent.Prelude.Dict.{put, string_eq}
use pc_diagnostic_agent.Storage.Rows.{Time, seconds, hours, MetricRow, IncidentRow}
use pc_diagnostic_agent.Storage.Schema.{metric_tables}
use pc_diagnostic_agent.Storage.Tables.{Database}
use pc_diagnostic_agent.Storage.Metrics.{metric_rows}
use pc_diagnostic_agent.Storage.Incidents.{list_incidents}

-- The window of an incident: an hour before the last activity to ten minutes after the reboot. It is
-- there only if both times are there and not 0.
abbrev pub incident_window : IncidentRow → List (Time × Time)
incident_window row = elim row.last_metric_timestamp [
  | none ↦ []
  | some last ↦
      if not (last == 0) && not (row.reboot_timestamp == 0)
      then (last - seconds 3600, row.reboot_timestamp + seconds 600) ∷ []
      else []
]

-- The loop over the incidents.
unfoldable pub protected_windows : List IncidentRow → List (Time × Time)
protected_windows [] = []
protected_windows (row ∷ rows) = elim (incident_window row) [
  | [] ↦ protected_windows rows
  | w ∷ _ ↦ w ∷ protected_windows rows
]

abbrev pub in_window : Time → Time × Time → Bool
in_window t w = leb w.0 t && leb t w.1

-- The WHERE clause: older than the cutoff and in none of the windows.
unfoldable pub is_doomed : Time → List (Time × Time) → MetricRow → Bool
is_doomed cutoff windows row =
    ltb row.timestamp cutoff && all (λ w. not (in_window row.timestamp w)) windows

-- The body of the loop over the tables: count, and delete if there is anything to delete.
unfoldable pub prune_table : Time → List (Time × Time) → String → Database → ℕ × Database
prune_table cutoff windows table db =
    let rows = metric_rows db table in
    let to_delete = count_where (is_doomed cutoff windows) rows in
    if to_delete == 0 then (0, db) else (
      to_delete,
      record db {
        metrics =
            put db.metrics table (where_rows (λ row. not (is_doomed cutoff windows row)) rows);
      },
    )

unfoldable pub prune_tables : Time → List (Time × Time) → List String → Database → ℕ × Database
prune_tables cutoff windows [] db = (0, db)
prune_tables cutoff windows (table ∷ tables) db =
    let (n, db') = prune_table cutoff windows table db in
    let (m, db'') = prune_tables cutoff windows tables db' in (n + m, db'')

abbrev pub table_names : List String
table_names = map (λ (t : String × List String). t.0) metric_tables

-- `prune_metrics` with the clock's `now`: how many rows were deleted, and the tables.
unfoldable pub prune_metrics : Time → ℕ → Database → ℕ × Database
prune_metrics now zero db = (0, db)
prune_metrics now retention_hours db =
    prune_tables (now - hours retention_hours) (protected_windows (list_incidents 200 db))
      table_names db
