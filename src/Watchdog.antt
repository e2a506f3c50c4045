-- ===== src/Watchdog.antt =====
-- The watchdog, watchdog/watchdog.py. A check is a function of the clock, the watchdog and the tables
-- to whether it asks for a restart, and to both after it. What `on_restart` does or raises changes
-- neither. Thread and stop event are the sequence of checks in Watchdog/Sequence.
pub mod Sequence
pub mod Heartbeat
pub mod Silent
use pc_diagnostic_agent.Prelude.{
  ℕ, ◌+◌, Bool, true, false, ◌&&◌, Option, none, some, ltb, leb, if◌then◌else◌,
}
use pc_diagnostic_agent.Storage.Rows.{Time, seconds, StateText, str_int, str_float}
use pc_diagnostic_agent.Storage.Tables.{Database}
use pc_diagnostic_agent.Storage.State.{get_heartbeat, set_state}

pub record Watchdog : Type 0 where
  pub stale_after : Time
  pub max_restarts : ℕ
  pub backoff_seconds : Time
  pub restarts : ℕ
  pub last_restart : Time
  pub stale_detected : Bool

-- `Watchdog(db, on_restart)`, with the default arguments.
abbrev pub new_watchdog : Watchdog
new_watchdog = record {
  stale_after = seconds 90;
  max_restarts = 5;
  backoff_seconds = seconds 60;
  restarts = 0;
  last_restart = 0;
  stale_detected = false;
}

-- `_record_failure`.
unfoldable pub record_failure : Time → Watchdog → Database → Database
record_failure now w db =
    set_state now "watchdog_last_failure" (str_float now)
      (set_state now "watchdog_failures" (str_int (w.restarts + 1)) db)

-- The condition for a restart. The source compares `now - last_restart`.
abbrev pub may_restart : Time → Watchdog → Bool
may_restart now w = ltb w.restarts w.max_restarts && leb (w.last_restart + w.backoff_seconds) now

-- `_check`: whether `on_restart` is called, and the state after it.
unfoldable pub check : Time → Watchdog → Database → Bool × Watchdog × Database
check now w db = elim (get_heartbeat db) [
  | none ↦ (false, w, db)
  | some heartbeat ↦
      let db' = record_failure now w db in
      let w' = record w { stale_detected = true } in
      if ltb (heartbeat + w.stale_after) now
      then (if may_restart now w
          then (true, record w' { restarts = w.restarts + 1; last_restart = now }, db')
          else (false, w', db'))
      else (false, w, db)
]
