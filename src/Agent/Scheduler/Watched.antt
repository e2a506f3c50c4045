-- ===== src/Agent/Scheduler/Watched.antt =====
-- What the watchdog sees of the scheduler, watchdog/watchdog.py and agent/scheduler.py.
use pc_diagnostic_agent.Prelude.{ℕ, ◌+◌, ◌≤◌, ◌<◌, ◌≡◌, false, some, List, All, arith}
use pc_diagnostic_agent.Storage.Rows.{Time}
use pc_diagnostic_agent.Storage.Tables.{Database}
use pc_diagnostic_agent.Storage.State.{get_heartbeat}
use pc_diagnostic_agent.Watchdog.{Watchdog, check}
use pc_diagnostic_agent.Agent.Scheduler.{Loop}
use pc_diagnostic_agent.Agent.Scheduler.Cycles.{
  Keeps, passes, IsBeating, high_interval, loop-IsFresh,
}

quiet :
    (t heartbeat : Time) (w : Watchdog) (db : Database)
    → get_heartbeat db ≡ some heartbeat
    → t ≤ heartbeat + w.stale_after
    → check t w db ≡ (false, w, db)
unfolding check
quiet t heartbeat w db h fresh = ground arith

-- While the scheduler's loop runs, the watchdog does nothing: a check within `gap` of the last pass
-- changes neither the watchdog nor the tables and asks for no restart, if an interval and a gap
-- together are not longer than what the watchdog waits for.
pub check-loop :
    (wakes : List (Time × ℕ)) (now session_id gap t : ℕ) (w : Watchdog) (l : Loop)
    → All Keeps l.scheduler.low_frequency
    → 0 < high_interval l
    → All (λ (w : Time × ℕ). high_interval l ≤ w.0) wakes
    → high_interval l ≤ now
    → IsBeating l
    → t ≤ now + gap
    → high_interval l + gap ≤ w.stale_after
    → check t w (passes wakes now session_id l).db ≡ (false, w, (passes wakes now session_id l).db)
check-loop wakes now session_id gap t w l keeps positive all_late late beats soon room =
    let (beat, fresh) = loop-IsFresh wakes now session_id l keeps positive all_late late beats in
    quiet t (passes wakes now session_id l).last_high w (passes wakes now session_id l).db beat
      (omega arith)
