-- ===== src/Agent/Running/Reached.antt =====
-- What the running agent makes of tables that can be reached: agent/lifecycle.py, agent/scheduler.py and
-- watchdog/watchdog.py.
use pc_diagnostic_agent.Prelude.{
  ℕ, ◌+◌, leb, ltb, Bool, true, false, Option, List, [], ◌∷◌, All, Bool-cases, Option-cases, inl,
  inr,
}
use pc_diagnostic_agent.Storage.Rows.{Time, str_int, str_float}
use pc_diagnostic_agent.Storage.Tables.{Database}
use pc_diagnostic_agent.Storage.State.{get_heartbeat}
use pc_diagnostic_agent.Storage.Metrics.{Snapshot}
use pc_diagnostic_agent.Agent.Scheduler.{
  Collector, Scheduler, gather, collect_high, collect_low, Loop, high_due, low_due,
  retention_interval, high_cycle, low_cycle,
}
use pc_diagnostic_agent.Agent.Lifecycle.Reachable.{Reachable, Step, startup_analysis-Reachable}
use pc_diagnostic_agent.Agent.Running.{Running, Activity, checked, act, acts, run_on_tables}
use pc_diagnostic_agent.Watchdog.{Watchdog, check, record_failure, may_restart}
use pc_diagnostic_agent.Collectors.WindowsEvents.{EventLog}

-- A collector that does to the tables only what the agent does, as that of the events.
abbrev pub Proper : Collector → Type 0
Proper collect =
    (now session_id : ℕ) (db : Database) → Reachable db → Reachable (collect now session_id db).1

gather-Reachable :
    (collectors : List Collector) (now session_id : ℕ) (snapshot : Snapshot) (db : Database)
    → All Proper collectors
    → Reachable db
    → Reachable (gather collectors now session_id snapshot db).1
unfolding gather
gather-Reachable [] now session_id snapshot db h r = r
gather-Reachable (collect ∷ collectors) now session_id snapshot db h r =
    gather-Reachable collectors now session_id _ (collect now session_id db).1 h.1
      (h.0 now session_id db r)

collect_high-Reachable :
    (s : Scheduler) (now session_id : ℕ) (db : Database)
    → All Proper s.high_frequency
    → Reachable db
    → Reachable (collect_high s now session_id db).1
unfolding collect_high
collect_high-Reachable s now session_id db h r =
    Reachable.after
      (Reachable.after (gather-Reachable s.high_frequency now session_id [] db h r)
        (Step.metrics _ now session_id))
      (Step.heartbeat now)

-- The collectors are proper, and the tables can be reached.
abbrev Sound : Scheduler → Database → Type 0
Sound s db = All Proper s.high_frequency × All Proper s.low_frequency × Reachable db

collect_low-Sound :
    (s : Scheduler) (now clock session_id : ℕ) (db : Database)
    → Sound s db
    → Sound (collect_low s now clock session_id db).0 (collect_low s now clock session_id db).1
unfolding collect_low
collect_low-Sound s now clock session_id db (h, l, r) =
    let inserted =
      Reachable.after (gather-Reachable s.low_frequency now session_id [] db l r)
        (Step.metrics (gather s.low_frequency now session_id [] db).0 now session_id) in
    elim (Bool-cases (leb (s.last_retention + retention_interval s.config) now)) [
      | inl e ↦ rw e (h, l, Reachable.after inserted (Step.prune clock s.config.retention_hours))
      | inr e ↦ rw e (h, l, inserted)
    ]

high_cycle-Sound :
    (now session_id : ℕ) (l : Loop)
    → Sound l.scheduler l.db
    → Sound (high_cycle now session_id l).scheduler (high_cycle now session_id l).db
unfolding high_cycle
high_cycle-Sound now session_id l (h, k, r) = elim (Bool-cases (high_due l now)) [
  | inl e ↦ rw e (h, k, collect_high-Reachable l.scheduler now session_id l.db h r)
  | inr e ↦ rw e (h, k, r)
]

low_cycle-Sound :
    (now session_id : ℕ) (l : Loop)
    → Sound l.scheduler l.db
    → Sound (low_cycle now session_id l).scheduler (low_cycle now session_id l).db
unfolding low_cycle
low_cycle-Sound now session_id l s = elim (Bool-cases (low_due l now)) [
  | inl e ↦ rw e (collect_low-Sound l.scheduler now now session_id l.db s)
  | inr e ↦ rw e s
]

check-Reachable :
    (now : Time) (w : Watchdog) (db : Database) → Reachable db → Reachable (check now w db).2
unfolding check record_failure
check-Reachable now w db r =
    let recorded =
      Reachable.after
        (Reachable.after r (Step.state now "watchdog_failures" (str_int (w.restarts + 1))))
        (Step.state now "watchdog_last_failure" (str_float now)) in
    elim (Option-cases (get_heartbeat db)) [
      | inl e ↦ rw (check, e) r
      | inr (heartbeat, e) ↦ elim (Bool-cases (ltb (heartbeat + w.stale_after) now)) [
        | inr fresh ↦ rw (check, e, fresh) r
        | inl stale ↦ elim (Bool-cases (may_restart now w)) [
          | inl may ↦ rw (check, e, stale, may) recorded
          | inr not ↦ rw (check, e, stale, not) recorded
        ]
      ]
    ]

checked-Sound :
    (l : Loop) (c : Bool × Watchdog × Database)
    → All Proper l.scheduler.high_frequency
    → All Proper l.scheduler.low_frequency
    → Reachable c.2
    → Sound (checked l c).loop.scheduler (checked l c).loop.db
checked-Sound l (true, w, db) h k r = (h, k, r)
checked-Sound l (false, w, db) h k r = (h, k, r)

act-Sound :
    (session_id : ℕ) (a : Activity) (r : Running)
    → Sound r.loop.scheduler r.loop.db
    → Sound (act session_id a r).loop.scheduler (act session_id a r).loop.db
unfolding act
act-Sound session_id (Activity.passes now) r s =
    low_cycle-Sound now session_id _ (high_cycle-Sound now session_id r.loop s)
act-Sound session_id (Activity.checks now) r (h, l, k) =
    checked-Sound r.loop (check now r.watchdog r.loop.db) h l
      (check-Reachable now r.watchdog r.loop.db k)

acts-Sound :
    (session_id : ℕ) (activities : List Activity) (r : Running)
    → Sound r.loop.scheduler r.loop.db
    → Sound (acts session_id activities r).loop.scheduler (acts session_id activities r).loop.db
unfolding acts
acts-Sound session_id [] r s = s
acts-Sound session_id (a ∷ activities) r s =
    acts-Sound session_id activities (act session_id a r) (act-Sound session_id a r s)

pub run_on_tables-Reachable :
    (now : Time) (psutil : Option Time) (log : EventLog) (s : Scheduler)
    (activities : List Activity) (db : Database)
    → All Proper s.high_frequency
    → All Proper s.low_frequency
    → Reachable db
    → Reachable (run_on_tables now psutil log s activities db).2
unfolding run_on_tables
run_on_tables-Reachable now psutil log s activities db h l r =
    (acts-Sound _ activities _ (h, l, startup_analysis-Reachable now psutil log s.config db r)).2
