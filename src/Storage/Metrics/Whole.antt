-- ===== src/Storage/Metrics/Whole.antt =====
-- Rows that have just the columns of their table are stored whole by `insert_snapshot`,
-- storage/database.py.
use pc_diagnostic_agent.Prelude.{
  ℕ, ◌≡◌, refl, sym, ap, ◌∙◌, String, true, some, List, [], ◌∷◌, ◌++◌, map, All, append-nil,
}
use pc_diagnostic_agent.Prelude.Dict.{Dict, get_or-put, beq_refl, string_eq}
use pc_diagnostic_agent.Storage.Rows.{Time, Value, MetricRow}
use pc_diagnostic_agent.Storage.Schema.{metric_columns}
use pc_diagnostic_agent.Storage.Tables.{Database}
use pc_diagnostic_agent.Storage.Metrics.{
  metric_rows, select_columns, all_bindable, accepted_rows, insert_table, insert_snapshot,
}

-- A row that has just the columns of the table, in their order, with values that can be stored.
abbrev pub Fits : List String → Dict String Value → Type 0
Fits cols row = (select_columns cols row ≡ row) × (all_bindable row ≡ true)

-- The row of a table that a row of a snapshot becomes.
abbrev pub stored : Time → ℕ → Dict String Value → MetricRow
stored now session_id row = record { timestamp = now; session_id = session_id; values = row }

accepted_whole :
    (cols : List String) (now session_id : ℕ) (rows : List (Dict String Value))
    → All (Fits cols) rows
    → accepted_rows cols now session_id rows ≡ map (stored now session_id) rows
unfolding accepted_rows
accepted_whole cols now session_id [] h = refl
accepted_whole cols now session_id (row ∷ rows) h =
    rw (h.0.0, h.0.1, accepted_whole cols now session_id rows h.1) refl

-- The table after a snapshot of rows that fit.
pub insert_whole :
    (table : String) (cols : List String) (rows : List (Dict String Value)) (now session_id : ℕ)
    (db : Database)
    → metric_columns table ≡ some cols
    → All (Fits cols) rows
    → metric_rows (insert_snapshot ((table, rows) ∷ []) now session_id db).1 table
      ≡ metric_rows db table ++ map (stored now session_id) rows
unfolding insert_snapshot insert_table metric_rows
insert_whole table cols [] now session_id db e h =
    rw (insert_snapshot, insert_table, e) (sym (append-nil (metric_rows db table)))
insert_whole table cols (row ∷ rows) now session_id db e h =
    let all = row ∷ rows in
    rw (insert_snapshot, insert_table, e)
      (get_or-put db.metrics table table
          (metric_rows db table ++ accepted_rows cols now session_id all) []
        ∙ rw (beq_refl table)
            (ap (λ new. metric_rows db table ++ new) (accepted_whole cols now session_id all h)))
