-- ===== src/Storage/Retention/Kept.antt =====
-- What pruning keeps, storage/retention.py.
use pc_diagnostic_agent.Prelude.{
  none, some, leb, ◌&&◌, all, Option-cases, ℕ, suc, ◌+◌, ◌-◌, ◌≡◌, refl, sym, ap, ◌∙◌, subst,
  String, Bool, true, false, not, ◌||◌, List, [], ◌∷◌, arith, any, length, count_where, where_rows,
  if◌then◌else◌, Bool-cases, inl, inr, eq_iff, ◌==◌,
}
use pc_diagnostic_agent.Prelude.Dict.{put, get_or-put, string_eq}
use pc_diagnostic_agent.Storage.Rows.{Time, seconds, hours, MetricRow, IncidentRow}
use pc_diagnostic_agent.Storage.Tables.{Database}
use pc_diagnostic_agent.Storage.Metrics.{metric_rows}
use pc_diagnostic_agent.Storage.Incidents.{list_incidents}
use pc_diagnostic_agent.Storage.Retention.{
  in_window, protected_windows, is_doomed, prune_table, prune_tables, prune_metrics, table_names,
}
use text.Mathlib.Text.{◌==◌ as str_eq}

module _ (p : MetricRow → Bool) where
  abbrev kept : List MetricRow → List MetricRow
  kept rows = where_rows (λ row. not (p row)) rows

  kept_none : (rows : List MetricRow) → (count_where p rows == 0) ≡ true → kept rows ≡ rows
  kept_none [] h = refl
  kept_none (row ∷ rows) h = ground (arith, kept_none rows)

  kept-kept : (rows : List MetricRow) → kept (kept rows) ≡ kept rows
  kept-kept [] = refl
  kept-kept (row ∷ rows) = ground (arith, kept-kept rows)

  length-kept : (rows : List MetricRow) → count_where p rows + length (kept rows) ≡ length rows
  length-kept [] = omega arith
  length-kept (row ∷ rows) = ground (arith, length-kept rows)

module _ (cutoff : Time) (windows : List (Time × Time)) where
  abbrev pub survivors : List MetricRow → List MetricRow
  survivors rows = where_rows (λ row. not (is_doomed cutoff windows row)) rows

  metric_rows-put :
      (table t : String) (rows : List MetricRow) (db : Database)
      → metric_rows (record db { metrics = put db.metrics table rows }) t
        ≡ (if str_eq table t then rows else metric_rows db t)
  unfolding metric_rows
  metric_rows-put table t rows db = get_or-put db.metrics table t rows []

  prune_table_rows :
      (table t : String) (db : Database)
      → metric_rows (prune_table cutoff windows table db).1 t
        ≡ (if str_eq table t then survivors (metric_rows db t) else metric_rows db t)
  unfolding prune_table
  prune_table_rows table t db =
      let p = is_doomed cutoff windows in
      elim (Bool-cases (count_where p (metric_rows db table) == 0)) [
        | inl z ↦ rw z (elim (Bool-cases (str_eq table t)) [
          | inl e ↦
              let same = (eq_iff table t).0 e in
              rw e (
                sym (
                  kept_none p (metric_rows db t)
                    (subst (λ x. (count_where p (metric_rows db x) == 0) ≡ true) same z)))
          | inr e ↦ rw e
        ])
        | inr z ↦ rw z (
            metric_rows-put table t (survivors (metric_rows db table)) db
            ∙ elim (Bool-cases (str_eq table t)) [
              | inl e ↦ rw e (ap (λ x. survivors (metric_rows db x)) ((eq_iff table t).0 e))
              | inr e ↦ rw e
            ])
      ]

  twice_pruned :
      (e a : Bool) (rows : List MetricRow)
      → (if a
          then survivors (if e then survivors rows else rows)
          else (if e then survivors rows else rows))
        ≡ (if e || a then survivors rows else rows)
  twice_pruned true true rows = kept-kept (is_doomed cutoff windows) rows
  twice_pruned true false rows = refl
  twice_pruned false true rows = refl
  twice_pruned false false rows = refl

  pub prune_tables_rows :
      (tables : List String) (t : String) (db : Database)
      → metric_rows (prune_tables cutoff windows tables db).1 t ≡ (
          if any (λ table. str_eq table t) tables
          then survivors (metric_rows db t)
          else metric_rows db t)
  unfolding prune_tables
  prune_tables_rows [] t db = refl
  prune_tables_rows (table ∷ tables) t db =
      let in_rest = any (λ (table : String). str_eq table t) tables in
      prune_tables_rows tables t (prune_table cutoff windows table db).1
      ∙ ap (λ rows. if in_rest then survivors rows else rows) (prune_table_rows table t db)
      ∙ twice_pruned (str_eq table t) in_rest (metric_rows db t)

-- The tables besides the metrics.
abbrev pub SameBut : Database → Database → Type 0
SameBut a b = b ≡ record a { metrics = b.metrics }

prune_table-SameBut :
    (cutoff : Time) (windows : List (Time × Time)) (table : String) (db : Database)
    → SameBut db (prune_table cutoff windows table db).1
unfolding prune_table
prune_table-SameBut cutoff windows table db =
    elim (Bool-cases (count_where (is_doomed cutoff windows) (metric_rows db table) == 0)) [
      | inl z ↦ rw z
      | inr z ↦ rw z
    ]

prune_tables-SameBut :
    (cutoff : Time) (windows : List (Time × Time)) (tables : List String) (db : Database)
    → SameBut db (prune_tables cutoff windows tables db).1
unfolding prune_tables
prune_tables-SameBut cutoff windows [] db = refl
prune_tables-SameBut cutoff windows (table ∷ tables) db =
    let db' = (prune_table cutoff windows table db).1 in
    let after = (prune_tables cutoff windows tables db').1 in
    prune_tables-SameBut cutoff windows tables db'
    ∙ ap (λ (d : Database). record d { metrics = after.metrics })
        (prune_table-SameBut cutoff windows table db)

-- Whether the name is that of a metric table.
abbrev pub is_metric_table : String → Bool
is_metric_table t = any (λ table. str_eq table t) table_names

-- Whether a time is near an incident: not before an hour ahead of its last activity, and at most ten
-- minutes after its reboot. An incident one of whose two times is missing or 0 has no near times.
abbrev pub is_near : Time → IncidentRow → Bool
is_near t row = elim row.last_metric_timestamp [
  | none ↦ false
  | some last ↦
      (not (last == 0) && not (row.reboot_timestamp == 0))
      && leb last (t + seconds 3600)
      && leb t (row.reboot_timestamp + seconds 600)
]

-- Whether a row survives: it is at most so many hours old, or near one of the incidents.
abbrev pub survives : Time → ℕ → List IncidentRow → MetricRow → Bool
survives now h incidents row =
    leb now (row.timestamp + hours h) || any (is_near row.timestamp) incidents

unprotected-is_near :
    (t : Time) (incidents : List IncidentRow)
    → all (λ w. not (in_window t w)) (protected_windows incidents) ≡ not (any (is_near t) incidents)
unfolding protected_windows
unprotected-is_near t [] = refl
unprotected-is_near t (row ∷ rows) = elim (Option-cases row.last_metric_timestamp) [
  | inl e ↦ rw (protected_windows, e) (unprotected-is_near t rows)
  | inr (last, e) ↦ elim (Bool-cases (not (last == 0) && not (row.reboot_timestamp == 0))) [
    | inl known ↦ rw (protected_windows, e, known) (ground (arith, unprotected-is_near t rows))
    | inr unknown ↦ rw (protected_windows, e, unknown) (unprotected-is_near t rows)
  ]
]

is_doomed-survives :
    (now h : ℕ) (incidents : List IncidentRow) (row : MetricRow)
    → not (is_doomed (now - hours h) (protected_windows incidents) row)
      ≡ survives now h incidents row
unfolding is_doomed
is_doomed-survives now h incidents row =
    rw (is_doomed, unprotected-is_near row.timestamp incidents) (ground arith)

-- With a positive retention, each metric table keeps exactly the rows that are at most so many hours old,
-- or near one of the 200 newest incidents: between an hour ahead of its last activity and ten minutes
-- after its reboot, both of which are known and not 0. Other tables lose no row, and nothing but metrics
-- is changed: no session, event, incident or finding is deleted.
pub prune_metrics_rows :
    (now h : ℕ) (db : Database)
    → ((t : String)
        → metric_rows (prune_metrics now (suc h) db).1 t ≡ (
            if is_metric_table t
            then where_rows (survives now (suc h) (list_incidents 200 db)) (metric_rows db t)
            else metric_rows db t))
      × SameBut db (prune_metrics now (suc h) db).1
unfolding prune_metrics
prune_metrics_rows now h db =
    let cutoff = now - hours (suc h) in
    let windows = protected_windows (list_incidents 200 db) in
    (
      λ t.
          prune_tables_rows cutoff windows table_names t db
          ∙ ap
              (λ p. if is_metric_table t then where_rows p (metric_rows db t) else metric_rows db t)
              (λ i row. is_doomed-survives now (suc h) (list_incidents 200 db) row i),
      prune_tables-SameBut cutoff windows table_names db,
    )
