-- ===== src/Agent/Scheduler/Cycles.antt =====
-- When the cycles of the scheduler run, agent/scheduler.py, and what the watchdog sees of them.
use pc_diagnostic_agent.Prelude.{
  ℕ, zero, suc, ◌+◌, ◌≤◌, ◌<◌, ◌≡◌, refl, ap, ◌∙◌, ◌⊎◌, String, true, false, Option, none, some,
  List, [], ◌∷◌, ◌++◌, leb, All, Bool-cases, inl, inr, arith,
}
use pc_diagnostic_agent.Prelude.Dict.{Dict}
use pc_diagnostic_agent.Storage.Rows.{Time, seconds, Value, Heartbeat}
use pc_diagnostic_agent.Storage.Tables.{Database}
use pc_diagnostic_agent.Storage.Metrics.{Snapshot, insert_table, insert_snapshot}
use pc_diagnostic_agent.Storage.State.{get_heartbeat, update_heartbeat}
use pc_diagnostic_agent.Storage.Retention.{prune_metrics}
use pc_diagnostic_agent.Storage.Retention.Kept.{prune_metrics_rows}
use pc_diagnostic_agent.Agent.Scheduler.{
  Collector, Scheduler, gather, collect_high, collect_low, retention_interval, Loop, high_due,
  low_due, high_cycle, low_cycle, pass, loop,
}

-- A collector that leaves the heartbeat alone.
abbrev pub Keeps : Collector → Type 0
Keeps collect =
    (now session_id : ℕ) (db : Database) → (collect now session_id db).1.heartbeat ≡ db.heartbeat

gather_heartbeat :
    (collectors : List Collector) (now session_id : ℕ) (snapshot : Snapshot) (db : Database)
    → All Keeps collectors
    → (gather collectors now session_id snapshot db).1.heartbeat ≡ db.heartbeat
unfolding gather
gather_heartbeat [] now session_id snapshot db h = refl
gather_heartbeat (collect ∷ collectors) now session_id snapshot db h =
    gather_heartbeat collectors now session_id _ (collect now session_id db).1 h.1
    ∙ h.0 now session_id db

insert_table_heartbeat :
    (now session_id : ℕ) (table : String) (rows : List (Dict String Value)) (db : Database)
    → (insert_table now session_id table rows db).1.heartbeat ≡ db.heartbeat
unfolding insert_table
insert_table_heartbeat now session_id table rows db = ground arith

insert_snapshot_heartbeat :
    (snapshot : Snapshot) (now session_id : ℕ) (db : Database)
    → (insert_snapshot snapshot now session_id db).1.heartbeat ≡ db.heartbeat
unfolding insert_snapshot
insert_snapshot_heartbeat [] now session_id db = refl
insert_snapshot_heartbeat ((table, rows) ∷ snapshot) now session_id db =
    insert_snapshot_heartbeat snapshot now session_id (insert_table now session_id table rows db).1
    ∙ insert_table_heartbeat now session_id table rows db

prune_metrics_heartbeat :
    (now retention_hours : ℕ) (db : Database)
    → (prune_metrics now retention_hours db).1.heartbeat ≡ db.heartbeat
unfolding prune_metrics
prune_metrics_heartbeat now zero db = refl
prune_metrics_heartbeat now (suc h) db =
    ap (λ (d : Database). d.heartbeat) (prune_metrics_rows now h db).1

collect_low_heartbeat :
    (s : Scheduler) (now clock session_id : ℕ) (db : Database)
    → All Keeps s.low_frequency
    → (collect_low s now clock session_id db).1.heartbeat ≡ db.heartbeat
unfolding collect_low
collect_low_heartbeat s now clock session_id db h =
    let (snapshot, db₁) = gather s.low_frequency now session_id [] db in
    let db₂ = (insert_snapshot snapshot now session_id db₁).1 in
    let kept =
      insert_snapshot_heartbeat snapshot now session_id db₁
      ∙ gather_heartbeat s.low_frequency now session_id [] db h in
    elim (Bool-cases (leb (s.last_retention + retention_interval s.config) now)) [
      | inl e ↦ rw e (prune_metrics_heartbeat clock s.config.retention_hours db₂ ∙ kept)
      | inr e ↦ rw e kept
    ]

collect_low_scheduler :
    (s : Scheduler) (now clock session_id : ℕ) (db : Database)
    → ((collect_low s now clock session_id db).0.config ≡ s.config)
      × ((collect_low s now clock session_id db).0.low_frequency ≡ s.low_frequency)
unfolding collect_low
collect_low_scheduler s now clock session_id db =
    elim (Bool-cases (leb (s.last_retention + retention_interval s.config) now)) [
      | inl e ↦ rw e (refl, refl)
      | inr e ↦ rw e (refl, refl)
    ]

-- What a pass does to the fields that time the next one.
low_cycle_rest :
    (now session_id : ℕ) (l : Loop)
    → All Keeps l.scheduler.low_frequency
    → ((low_cycle now session_id l).last_high ≡ l.last_high)
      × ((low_cycle now session_id l).scheduler.config ≡ l.scheduler.config)
      × ((low_cycle now session_id l).scheduler.low_frequency ≡ l.scheduler.low_frequency)
      × (get_heartbeat (low_cycle now session_id l).db ≡ get_heartbeat l.db)
unfolding low_cycle get_heartbeat
low_cycle_rest now session_id l h =
    let (config, low) = collect_low_scheduler l.scheduler now now session_id l.db in
    elim (Bool-cases (low_due l now)) [
      | inl e ↦ rw e (
        refl,
        config,
        low,
        ap
            (λ (h : Option Heartbeat). elim h as (λ _. Option Time) [
              | none ↦ none
              | some row ↦ some row.timestamp
            ])
            (collect_low_heartbeat l.scheduler now now session_id l.db h),
      )
      | inr e ↦ rw e (refl, refl, refl, refl)
    ]

high_cycle_due :
    (now session_id : ℕ) (l : Loop)
    → high_due l now ≡ true
    → ((high_cycle now session_id l).last_high ≡ now)
      × ((high_cycle now session_id l).scheduler ≡ l.scheduler)
      × (get_heartbeat (high_cycle now session_id l).db ≡ some now)
unfolding high_cycle collect_high update_heartbeat get_heartbeat
high_cycle_due now session_id l e = rw e (refl, refl, refl)

high_cycle_not_due :
    (now session_id : ℕ) (l : Loop) → high_due l now ≡ false → high_cycle now session_id l ≡ l
unfolding high_cycle
high_cycle_not_due now session_id l e = rw e refl

-- The heartbeat is that of the last high-frequency cycle, unless there has been none.
abbrev pub IsBeating : Loop → Type 0
IsBeating l = (l.last_high ≡ 0) ⊎ (get_heartbeat l.db ≡ some l.last_high)

abbrev pub high_interval : Loop → Time
high_interval l = seconds l.scheduler.config.collection_interval_seconds

-- The heartbeat that a pass leaves is less than an interval old.
abbrev pub IsFresh : Time → Loop → Type 0
IsFresh now l = (get_heartbeat l.db ≡ some l.last_high) × (now < l.last_high + high_interval l)

not_due-IsFresh :
    (now : Time) (l : Loop)
    → high_due l now ≡ false
    → high_interval l ≤ now
    → IsBeating l
    → IsFresh now l
not_due-IsFresh now l e late (inl never) = ground arith
not_due-IsFresh now l e late (inr beat) = (beat, ground arith)

high_cycle-IsFresh :
    (now session_id : ℕ) (l : Loop)
    → 0 < high_interval l
    → high_interval l ≤ now
    → IsBeating l
    → IsFresh now (high_cycle now session_id l)
      × ((high_cycle now session_id l).scheduler ≡ l.scheduler)
high_cycle-IsFresh now session_id l positive late beats = elim (Bool-cases (high_due l now)) [
  | inl e ↦ let h = high_cycle_due now session_id l e in rw (h.0, h.1) ((h.2, omega arith), refl)
  | inr e ↦ rw (high_cycle_not_due now session_id l e) (not_due-IsFresh now l e late beats, refl)
]

pass-IsFresh :
    (now session_id : ℕ) (l : Loop)
    → All Keeps l.scheduler.low_frequency
    → 0 < high_interval l
    → high_interval l ≤ now
    → IsBeating l
    → IsFresh now (pass now session_id l)
      × All Keeps (pass now session_id l).scheduler.low_frequency
      × (high_interval (pass now session_id l) ≡ high_interval l)
pass-IsFresh now session_id l keeps positive late beats =
    let h = high_cycle now session_id l in
    let (fresh, same) = high_cycle-IsFresh now session_id l positive late beats in
    let keeps' = rw (← same) at keeps in
    let (last, config, low, beat) = low_cycle_rest now session_id h keeps' in
    (rw (last, config, beat) fresh, rw low keeps', rw (config, same) refl)

-- The passes of `wakes`, and one more at `now`.
abbrev pub passes : List (Time × ℕ) → Time → ℕ → Loop → Loop
passes wakes now session_id l = loop (wakes ++ ((now, session_id) ∷ [])) l

passes_fresh :
    (interval : Time) (wakes : List (Time × ℕ)) (now session_id : ℕ) (l : Loop)
    → high_interval l ≡ interval
    → All Keeps l.scheduler.low_frequency
    → 0 < interval
    → All (λ (w : Time × ℕ). interval ≤ w.0) wakes
    → interval ≤ now
    → IsBeating l
    → (get_heartbeat (passes wakes now session_id l).db
        ≡ some (passes wakes now session_id l).last_high)
      × (now < (passes wakes now session_id l).last_high + interval)
unfolding loop
passes_fresh interval [] now session_id l same keeps positive all_late late beats =
    let (fresh, _, same') =
      pass-IsFresh now session_id l keeps (rw same positive) (rw same late) beats in
    rw (same' ∙ same) at fresh
passes_fresh interval ((t, s) ∷ wakes) now session_id l same keeps positive all_late late beats =
    let (fresh, keeps', same') =
      pass-IsFresh t s l keeps (rw same positive) (rw same all_late.0) beats in
    passes_fresh interval wakes now session_id (pass t s l) (same' ∙ same) keeps' positive
      all_late.1 late (inr fresh.0)

-- After any passes of the loop, at times at which at least one interval has gone by since the epoch,
-- the heartbeat is that of a pass less than an interval before the last one. This needs a positive
-- interval and low-frequency collectors that leave the heartbeat alone, and a heartbeat that is that
-- of the last cycle if there has been one.
pub loop-IsFresh :
    (wakes : List (Time × ℕ)) (now session_id : ℕ) (l : Loop)
    → All Keeps l.scheduler.low_frequency
    → 0 < high_interval l
    → All (λ (w : Time × ℕ). high_interval l ≤ w.0) wakes
    → high_interval l ≤ now
    → IsBeating l
    → (get_heartbeat (passes wakes now session_id l).db
        ≡ some (passes wakes now session_id l).last_high)
      × (now < (passes wakes now session_id l).last_high + high_interval l)
loop-IsFresh wakes now session_id l keeps positive all_late late beats =
    passes_fresh (high_interval l) wakes now session_id l refl keeps positive all_late late beats
