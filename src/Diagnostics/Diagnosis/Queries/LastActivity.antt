-- ===== src/Diagnostics/Diagnosis/Queries/LastActivity.antt =====
-- `_last_metric_timestamp`, diagnostics/diagnosis.py: the latest sign of life before the reboot.
use pc_diagnostic_agent.Prelude.{
  ◌<◌, ◌≤◌, ◌≡◌, refl, String, Option, none, some, List, [], ◌∷◌, arith, All, ltb, ◌⊎◌, inl, inr,
  sym, subst, Bool-cases,
}
use pc_diagnostic_agent.Storage.Rows.{Time, MetricRow}
use pc_diagnostic_agent.Storage.Tables.{Database}
use pc_diagnostic_agent.Storage.Metrics.{metric_rows}
use pc_diagnostic_agent.Storage.State.{get_heartbeat}
use pc_diagnostic_agent.Diagnostics.Diagnosis.Queries.{
  later_of, latest_before, latest_metric, with_heartbeat, activity_tables, last_metric_timestamp,
}

-- There is a latest time, and it is no earlier than `x`.
abbrev pub Covers : Option Time → Time → Type 0
Covers none x = ⊥
Covers (some t) x = x ≤ t

-- Every time that is found is before the reboot.
abbrev pub Precedes : Option Time → Time → Type 0
Precedes none before = Unit
Precedes (some t) before = t < before

Covers-later_of : (o : Option Time) (y x : Time) → Covers o x → Covers (later_of o y) x
Covers-later_of none y x h = absurd h
Covers-later_of (some t) y x h = omega arith

later_of_self : (o : Option Time) (y : Time) → Covers (later_of o y) y
later_of_self none y = omega arith
later_of_self (some t) y = omega arith

Precedes-later_of :
    (o : Option Time) (y before : Time)
    → Precedes o before
    → y < before
    → Precedes (later_of o y) before
Precedes-later_of none y before h k = k
Precedes-later_of (some t) y before h k = omega arith

module _ (before : Time) where
  abbrev pub CoversRows : Option Time → List MetricRow → Type 0
  CoversRows o rows = All (λ row. row.timestamp < before → Covers o row.timestamp) rows

  CoversRows-later_of :
      (o : Option Time) (y : Time) (rows : List MetricRow)
      → CoversRows o rows
      → CoversRows (later_of o y) rows
  CoversRows-later_of o y [] h = tt
  CoversRows-later_of o y (row ∷ rows) h =
      (λ k. Covers-later_of o y row.timestamp (h.0 k), CoversRows-later_of o y rows h.1)

  latest_before_cons :
      (row : MetricRow) (rows : List MetricRow)
      → (row.timestamp < before)
          × (latest_before before (row ∷ rows) ≡ later_of (latest_before before rows) row.timestamp)
        ⊎ (¬ (row.timestamp < before))
          × (latest_before before (row ∷ rows) ≡ latest_before before rows)
  unfolding latest_before
  latest_before_cons row rows = elim (Bool-cases (ltb row.timestamp before)) [
    | inl b ↦ inl (ground arith, rw b)
    | inr b ↦ inr (λ k. ground arith, rw b)
  ]

  latest_before-Precedes : (rows : List MetricRow) → Precedes (latest_before before rows) before
  latest_before-Precedes [] = unfold latest_before in tt
  latest_before-Precedes (row ∷ rows) = elim (latest_before_cons row rows) [
    | inl (k, e) ↦
        subst (λ o. Precedes o before) (sym e)
          (Precedes-later_of (latest_before before rows) row.timestamp before
            (latest_before-Precedes rows) k)
    | inr (k, e) ↦ subst (λ o. Precedes o before) (sym e) (latest_before-Precedes rows)
  ]

  latest_before-Covers : (rows : List MetricRow) → CoversRows (latest_before before rows) rows
  latest_before-Covers [] = tt
  latest_before-Covers (row ∷ rows) =
      let o = latest_before before rows in
      elim (latest_before_cons row rows) [
        | inl (k, e) ↦
            subst (λ p. CoversRows p (row ∷ rows)) (sym e)
              (
                λ _. later_of_self o row.timestamp,
                CoversRows-later_of o row.timestamp rows (latest_before-Covers rows),
              )
        | inr (k, e) ↦
            subst (λ p. CoversRows p (row ∷ rows)) (sym e)
              (λ h. absurd (k h), latest_before-Covers rows)
      ]

  -- Larger answers cover what smaller ones do.
  CoversRows-trans :
      (t : Time) (o : Option Time) (rows : List MetricRow)
      → Covers o t
      → CoversRows (some t) rows
      → CoversRows o rows
  CoversRows-trans t o [] c h = tt
  CoversRows-trans t none (row ∷ rows) c h = absurd c
  CoversRows-trans t (some m) (row ∷ rows) c h =
      (λ k. omega (arith, h.0 k), CoversRows-trans t (some m) rows c h.1)

  CoversRows-none :
      (o : Option Time) (rows : List MetricRow) → CoversRows none rows → CoversRows o rows
  CoversRows-none o [] h = tt
  CoversRows-none o (row ∷ rows) h = (λ k. absurd (h.0 k), CoversRows-none o rows h.1)

  -- One pass of the loop over the tables.
  abbrev join : Option Time → Option Time → Option Time
  join found max_ts = elim found [ none ↦ max_ts | some m ↦ later_of max_ts m ]

  CoversRows-join :
      (found max_ts : Option Time) (rows : List MetricRow)
      → CoversRows found rows
      → CoversRows (join found max_ts) rows
  CoversRows-join none max_ts rows h = CoversRows-none max_ts rows h
  CoversRows-join (some m) max_ts rows h =
      CoversRows-trans m (later_of max_ts m) rows (later_of_self max_ts m) h

  CoversRows-join_old :
      (found max_ts : Option Time) (rows : List MetricRow)
      → CoversRows max_ts rows
      → CoversRows (join found max_ts) rows
  CoversRows-join_old none max_ts rows h = h
  CoversRows-join_old (some m) max_ts rows h = CoversRows-later_of max_ts m rows h

  Precedes-join :
      (found max_ts : Option Time)
      → Precedes found before
      → Precedes max_ts before
      → Precedes (join found max_ts) before
  Precedes-join none max_ts f h = h
  Precedes-join (some m) max_ts f h = Precedes-later_of max_ts m before h f

  module _ (db : Database) where
    abbrev after : Option Time → String → Option Time
    after max_ts table = join (latest_before before (metric_rows db table)) max_ts

    latest_metric_cons :
        (max_ts : Option Time) (table : String) (tables : List String)
        → latest_metric db before max_ts (table ∷ tables)
          ≡ latest_metric db before (after max_ts table) tables
    unfolding latest_metric
    latest_metric_cons max_ts table tables = refl

    latest_metric-Precedes :
        (max_ts : Option Time) (tables : List String)
        → Precedes max_ts before
        → Precedes (latest_metric db before max_ts tables) before
    latest_metric-Precedes max_ts [] h = unfold latest_metric in h
    latest_metric-Precedes max_ts (table ∷ tables) h =
        subst (λ o. Precedes o before) (sym (latest_metric_cons max_ts table tables))
          (latest_metric-Precedes (after max_ts table) tables
            (Precedes-join _ max_ts (latest_before-Precedes (metric_rows db table)) h))

    latest_metric-Covers_old :
        (max_ts : Option Time) (tables : List String) (rows : List MetricRow)
        → CoversRows max_ts rows
        → CoversRows (latest_metric db before max_ts tables) rows
    latest_metric-Covers_old max_ts [] rows h = unfold latest_metric in h
    latest_metric-Covers_old max_ts (table ∷ tables) rows h =
        subst (λ o. CoversRows o rows) (sym (latest_metric_cons max_ts table tables))
          (latest_metric-Covers_old (after max_ts table) tables rows
            (CoversRows-join_old _ max_ts rows h))

    latest_metric-Covers :
        (max_ts : Option Time) (tables : List String)
        → All
            (λ table. CoversRows (latest_metric db before max_ts tables) (metric_rows db table))
            tables
    latest_metric-Covers max_ts [] = tt
    latest_metric-Covers max_ts (table ∷ tables) =
        let rows = metric_rows db table in
        subst (λ o. All (λ t. CoversRows o (metric_rows db t)) (table ∷ tables))
          (sym (latest_metric_cons max_ts table tables))
          (
            latest_metric-Covers_old (after max_ts table) tables rows
                (CoversRows-join _ max_ts rows (latest_before-Covers rows)),
            latest_metric-Covers (after max_ts table) tables,
          )

  All-CoversRows_later :
      (db : Database) (o : Option Time) (y : Time) (tables : List String)
      → All (λ t. CoversRows o (metric_rows db t)) tables
      → All (λ t. CoversRows (later_of o y) (metric_rows db t)) tables
  All-CoversRows_later db o y [] h = tt
  All-CoversRows_later db o y (t ∷ ts) h =
      (CoversRows-later_of o y (metric_rows db t) h.0, All-CoversRows_later db o y ts h.1)

  -- What it is for a time to be the last activity before the reboot.
  pub record IsLatest (db : Database) (o : Option Time) : Type 0 where
    pub precedes : Precedes o before
    pub covers_metrics : All (λ t. CoversRows o (metric_rows db t)) activity_tables
    pub covers_heartbeat : (hb : Time) → get_heartbeat db ≡ some hb → hb < before → Covers o hb

  IsLatest-with_heartbeat :
      (db : Database) (hb o : Option Time)
      → get_heartbeat db ≡ hb
      → Precedes o before
      → All (λ t. CoversRows o (metric_rows db t)) activity_tables
      → IsLatest db (with_heartbeat hb before o)
  IsLatest-with_heartbeat db none o e p c = record {
    precedes = p;
    covers_metrics = c;
    covers_heartbeat = λ hb h. cc;
  }
  IsLatest-with_heartbeat db (some hb) o e p c = elim (Bool-cases (ltb hb before)) [
    | inl b ↦ rw b (record {
      precedes = Precedes-later_of o hb before p (ground arith);
      covers_metrics = All-CoversRows_later db o hb activity_tables c;
      covers_heartbeat = λ x h k.
          subst (Covers (later_of o hb)) (let same : hb ≡ x = cc in same) (later_of_self o hb);
    })
    | inr b ↦ rw b (record {
      precedes = p;
      covers_metrics = c;
      covers_heartbeat = λ x h k. absurd (ground arith);
    })
  ]

-- The answer is before the reboot, and no row of the four activity tables and no heartbeat that is
-- before the reboot is later; where there is such a row or heartbeat, there is an answer.
pub last_metric_timestamp-IsLatest :
    (db : Database) (before : Time) → IsLatest before db (last_metric_timestamp db before)
unfolding last_metric_timestamp
last_metric_timestamp-IsLatest db before =
    IsLatest-with_heartbeat before db (get_heartbeat db)
      (latest_metric db before none activity_tables) refl
      (latest_metric-Precedes before db none activity_tables tt)
      (latest_metric-Covers before db none activity_tables)
