-- ===== src/Diagnostics/Diagnosis/Queries/Attained.antt =====
-- The answer of `_last_metric_timestamp`, diagnostics/diagnosis.py, is the time of something.
use pc_diagnostic_agent.Prelude.{
  ℕ, ◌≡◌, refl, String, Bool, true, false, ◌||◌, Option, none, some, List, [], ◌∷◌, All, max, arith,
  any, ltb, ◌==◌, if◌then◌else◌, ◌⊎◌, inl, inr, sym, subst,
}
use pc_diagnostic_agent.Storage.Rows.{Time, MetricRow}
use pc_diagnostic_agent.Storage.Tables.{Database}
use pc_diagnostic_agent.Storage.Metrics.{metric_rows}
use pc_diagnostic_agent.Storage.State.{get_heartbeat}
use pc_diagnostic_agent.Diagnostics.Diagnosis.Queries.LastActivity.{
  IsLatest, last_metric_timestamp-IsLatest,
}
use pc_diagnostic_agent.Diagnostics.Diagnosis.Queries.{
  later_of, latest_before, latest_metric, with_heartbeat, activity_tables, last_metric_timestamp,
}

-- The time, if there is one, passes a test.
abbrev pub Attained : (Time → Bool) → Option Time → Type 0
Attained f none = Unit
Attained f (some t) = f t ≡ true

Attained-weaken :
    (f g : Time → Bool) (o : Option Time)
    → ((t : Time) → f t ≡ true → g t ≡ true)
    → Attained f o
    → Attained g o
Attained-weaken f g none h a = tt
Attained-weaken f g (some t) h a = h t a

max_cases : (a b : ℕ) → (max a b ≡ a) ⊎ (max a b ≡ b)
max_cases a b = omega arith

Attained-later_of :
    (f : Time → Bool) (o : Option Time) (y : Time)
    → Attained f o
    → f y ≡ true
    → Attained f (later_of o y)
Attained-later_of f none y a h = h
Attained-later_of f (some t) y a h = elim (max_cases t y) [
  | inl e ↦ subst (λ m. f m ≡ true) (sym e) a
  | inr e ↦ subst (λ m. f m ≡ true) (sym e) h
]

abbrev row_at : List MetricRow → Time → Bool
row_at rows t = any (λ (row : MetricRow). row.timestamp == t) rows

latest_before-Attained :
    (before : Time) (rows : List MetricRow) → Attained (row_at rows) (latest_before before rows)
unfolding latest_before
latest_before-Attained before [] = tt
latest_before-Attained before (row ∷ rows) =
    let o = latest_before before rows in
    let older =
      Attained-weaken (row_at rows) (row_at (row ∷ rows)) o (λ t h. ground arith)
        (latest_before-Attained before rows) in
    elim (ltb row.timestamp before)
      as (λ b. Attained (row_at (row ∷ rows)) (if b then later_of o row.timestamp else o)) [
        | true ↦ Attained-later_of (row_at (row ∷ rows)) o row.timestamp older (ground arith)
        | false ↦ older
      ]

module _ (db : Database) (before : Time) (f : Time → Bool) where
  -- The rows of every table pass the test.
  abbrev Passing : List String → Type 0
  Passing tables =
      All (λ table. (t : Time) → row_at (metric_rows db table) t ≡ true → f t ≡ true) tables

  abbrev step : Option Time → Option Time → Option Time
  step found max_ts = elim found [ none ↦ max_ts | some m ↦ later_of max_ts m ]

  step-Attained :
      (found max_ts : Option Time)
      → Attained f found
      → Attained f max_ts
      → Attained f (step found max_ts)
  step-Attained none max_ts h a = a
  step-Attained (some m) max_ts h a = Attained-later_of f max_ts m a h

  latest_metric-step :
      (max_ts : Option Time) (table : String) (tables : List String)
      → latest_metric db before max_ts (table ∷ tables)
        ≡ latest_metric db before (step (latest_before before (metric_rows db table)) max_ts) tables
  unfolding latest_metric
  latest_metric-step max_ts table tables = refl

  latest_metric-Attained :
      (max_ts : Option Time) (tables : List String)
      → Passing tables
      → Attained f max_ts
      → Attained f (latest_metric db before max_ts tables)
  latest_metric-Attained max_ts [] p a = unfold latest_metric in a
  latest_metric-Attained max_ts (table ∷ tables) p a =
      let found = latest_before before (metric_rows db table) in
      subst (Attained f) (sym (latest_metric-step max_ts table tables)) (
        latest_metric-Attained (step found max_ts) tables p.1 (
          step-Attained found max_ts
            (Attained-weaken (row_at (metric_rows db table)) f found p.0
              (latest_before-Attained before (metric_rows db table)))
            a))

  with_heartbeat-Attained :
      (hb o : Option Time)
      → ((t : Time) → hb ≡ some t → f t ≡ true)
      → Attained f o
      → Attained f (with_heartbeat hb before o)
  with_heartbeat-Attained none o h a = a
  with_heartbeat-Attained (some t) o h a =
      elim (ltb t before) as (λ b. Attained f (if b then later_of o t else o)) [
        | true ↦ Attained-later_of f o t a (h t refl)
        | false ↦ a
      ]

abbrev heartbeat_at : Option Time → Time → Bool
heartbeat_at none t = false
heartbeat_at (some hb) t = hb == t

-- Whether a row of an activity table, or the heartbeat, has this time.
abbrev pub is_activity : Database → Time → Bool
is_activity db t =
    any (λ table. row_at (metric_rows db table) t) activity_tables
    || heartbeat_at (get_heartbeat db) t

activity-Passing :
    (db : Database) (before : Time) → Passing db before (is_activity db) activity_tables
activity-Passing db before =
    (λ t h. ground arith, (λ t h. ground arith, (λ t h. ground arith, (λ t h. ground arith, tt))))

heartbeat-is_activity :
    (db : Database) (t : Time) → get_heartbeat db ≡ some t → is_activity db t ≡ true
heartbeat-is_activity db t h = rw h (ground arith)

-- If there is an answer, then a row of an activity table or the heartbeat has that time.
pub last_metric_timestamp-Attained :
    (db : Database) (before : Time) → Attained (is_activity db) (last_metric_timestamp db before)
unfolding last_metric_timestamp
last_metric_timestamp-Attained db before =
    with_heartbeat-Attained db before (is_activity db) (get_heartbeat db)
      (latest_metric db before none activity_tables) (heartbeat-is_activity db)
      (latest_metric-Attained db before (is_activity db) none activity_tables
        (activity-Passing db before) tt)

-- The answer is the latest sign of life before the reboot: a row of an activity table or the heartbeat has
-- that time, which is before the reboot, and none that is before the reboot is later; where there is
-- such a row or heartbeat, there is an answer.
pub last_metric_timestamp-exact :
    (db : Database) (before : Time)
    → IsLatest before db (last_metric_timestamp db before)
      × Attained (is_activity db) (last_metric_timestamp db before)
last_metric_timestamp-exact db before =
    (last_metric_timestamp-IsLatest db before, last_metric_timestamp-Attained db before)
