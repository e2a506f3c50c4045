-- ===== src/Storage/Metrics.antt =====
-- `Database.insert_snapshot`, storage/database.py. A statement and its commit are one step, since a
-- lock is held around them. sqlite3 refuses a row with a value that it cannot bind; such a row is
-- skipped.
pub mod Whole
use pc_diagnostic_agent.Prelude.{
  ℕ, ◌+◌, String, Bool, true, false, none, some, List, [], ◌∷◌, ◌++◌, if◌then◌else◌, is_empty, all,
  length,
}
use pc_diagnostic_agent.Prelude.Dict.{Dict, get_or, put, string_eq}
use pc_diagnostic_agent.Storage.Rows.{Time, Value, MetricRow}
use pc_diagnostic_agent.Storage.Schema.{metric_columns}
use pc_diagnostic_agent.Storage.Tables.{Database}

unfoldable pub metric_rows : Database → String → List MetricRow
metric_rows db table = get_or db.metrics table []

unfoldable pub bindable : Value → Bool
bindable Value.object = false
bindable _ = true

-- `row.get(col)` for each column of the table.
unfoldable pub select_columns : List String → Dict String Value → Dict String Value
select_columns [] row = []
select_columns (col ∷ cols) row = (col, get_or row col Value.null) ∷ select_columns cols row

abbrev pub all_bindable : Dict String Value → Bool
all_bindable = all (λ cell. bindable cell.1)

-- The loop over the rows of one table: the rows that were inserted.
unfoldable pub accepted_rows : List String → Time → ℕ → List (Dict String Value) → List MetricRow
accepted_rows columns timestamp session_id [] = []
accepted_rows columns timestamp session_id (row ∷ rows) =
    let values = select_columns columns row in
    let rest = accepted_rows columns timestamp session_id rows in
    if all_bindable values
    then record { timestamp = timestamp; session_id = session_id; values = values } ∷ rest
    else rest

abbrev pub Snapshot : Type 0
Snapshot = Dict String (List (Dict String Value))

-- One pass of the outer loop, for a table of the snapshot.
unfoldable pub insert_table : Time → ℕ → String → List (Dict String Value) → Database → ℕ × Database
insert_table timestamp session_id table rows db = elim (metric_columns table) [
  | none ↦ (0, db)
  | some columns ↦
      let new = accepted_rows columns timestamp session_id rows in
      if is_empty rows
      then (0, db)
      else (length new, record db { metrics = put db.metrics table (metric_rows db table ++ new) })
]

unfoldable pub insert_snapshot : Snapshot → Time → ℕ → Database → ℕ × Database
insert_snapshot [] timestamp session_id db = (0, db)
insert_snapshot ((table, rows) ∷ snapshot) timestamp session_id db =
    let (n, db') = insert_table timestamp session_id table rows db in
    let (m, db'') = insert_snapshot snapshot timestamp session_id db' in (n + m, db'')
