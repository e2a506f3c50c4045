-- ===== src/Examples/Agents.antt =====
-- The theorems on the watchdog and the scheduler at concrete states: watchdog/watchdog.py and
-- agent/scheduler.py.
use pc_diagnostic_agent.Prelude.{
  take, map, ◌/◌, ℕ, ◌≡◌, ◌≤◌, ◌+◌, ◌-◌, refl, false, none, some, List, [], ◌∷◌, arith, min, length,
  inl,
}
use pc_diagnostic_agent.Prelude.Int.{pos}
use pc_diagnostic_agent.Prelude.Dict.{string_eq}
use pc_diagnostic_agent.Storage.Rows.{Time, hours, seconds, Value}
use pc_diagnostic_agent.Storage.Tables.{new_database}
use pc_diagnostic_agent.Storage.State.{get_heartbeat}
use pc_diagnostic_agent.Agent.Config.{default_config}
use pc_diagnostic_agent.Agent.Scheduler.{Collector, Scheduler, Loop, new_loop}
use pc_diagnostic_agent.Agent.Scheduler.Cycles.{passes}
use pc_diagnostic_agent.Agent.Scheduler.Watched.{check-loop}
use pc_diagnostic_agent.Watchdog.{new_watchdog, check}
use pc_diagnostic_agent.Watchdog.Sequence.{Observation, run, Spaced, run_bounded}
use pc_diagnostic_agent.Watchdog.Silent.{Silent, due, run-Silent, run-every_ten_seconds}
use pc_diagnostic_agent.Examples.{crashed, second_boot_time}

-- Three checks, of which the second is too early for a second restart.
abbrev checks : List Observation
checks =
    (second_boot_time, λ db. db)
    ∷ (second_boot_time + seconds 10, λ db. db)
    ∷ (second_boot_time + seconds 80, λ db. db)
    ∷ []

run_bounded_example :
    (length (run checks new_watchdog crashed).0 + 0 ≡ (run checks new_watchdog crashed).1.restarts)
    × ((run checks new_watchdog crashed).1.restarts ≤ 5)
    × Spaced (seconds 60) 0 (run checks new_watchdog crashed).0
run_bounded_example = run_bounded checks new_watchdog crashed (omega arith)

-- Eight checks of an agent that has stopped, ten seconds apart.
abbrev silence : List Observation
silence =
    (second_boot_time, λ db. db)
    ∷ (second_boot_time + seconds 10, λ db. db)
    ∷ (second_boot_time + seconds 20, λ db. db)
    ∷ (second_boot_time + seconds 30, λ db. db)
    ∷ (second_boot_time + seconds 40, λ db. db)
    ∷ (second_boot_time + seconds 50, λ db. db)
    ∷ (second_boot_time + seconds 60, λ db. db)
    ∷ (second_boot_time + seconds 70, λ db. db)
    ∷ []

heartbeat_test : get_heartbeat crashed ≡ some (hours 101)
unfolding get_heartbeat
heartbeat_test = refl

silent : Silent (hours 101) new_watchdog.stale_after silence
silent = (
  λ db h. h,
  omega arith,
  (
    λ db h. h,
    omega arith,
    (
      λ db h. h,
      omega arith,
      (
        λ db h. h,
        omega arith,
        (
          λ db h. h,
          omega arith,
          (λ db h. h, omega arith, (λ db h. h, omega arith, (λ db h. h, omega arith, tt))),
        ),
      ),
    ),
  ),
)

run-Silent_example :
    (run silence new_watchdog crashed).0
    ≡ take (5 - 0) (due (seconds 60) 0 (map (λ o. o.0) silence))
run-Silent_example = run-Silent silence (hours 101) new_watchdog crashed heartbeat_test silent

-- The first and the seventh check.
due_test :
    due (seconds 60) 0 (map (λ (o : Observation). o.0) silence)
    ≡ second_boot_time ∷ (second_boot_time + seconds 60) ∷ []
unfolding due
due_test = refl

run-every_ten_seconds_example : length (run silence new_watchdog crashed).0 ≡ min 5 ((8 + 5) / 6)
run-every_ten_seconds_example =
    run-every_ten_seconds silence (hours 101) second_boot_time crashed heartbeat_test silent
      (omega arith) refl

-- A collector that gives one row of the processor's load, and one that raises.
abbrev cpu : Collector
cpu now session_id db =
    (some (("metrics_cpu", (("cpu_percent", Value.num (pos 12000)) ∷ []) ∷ []) ∷ []), db)

abbrev broken : Collector
broken now session_id db = (none, db)

abbrev scheduler : Scheduler
scheduler = record {
  config = default_config;
  high_frequency = cpu ∷ [];
  low_frequency = broken ∷ [];
  last_retention = 0;
}

abbrev pub wakes : List (Time × ℕ)
wakes = (second_boot_time, 1) ∷ (second_boot_time + seconds 1, 1) ∷ []

abbrev pub start : Loop
start = new_loop scheduler new_database

check-loop_example :
    check
      (second_boot_time + seconds 10)
      new_watchdog
      (passes wakes (second_boot_time + seconds 2) 1 start).db
    ≡ (false, new_watchdog, (passes wakes (second_boot_time + seconds 2) 1 start).db)
check-loop_example =
    check-loop wakes (second_boot_time + seconds 2) 1 (seconds 10) (second_boot_time + seconds 10)
      new_watchdog start (λ now session_id db. refl, tt) (omega arith)
      (omega arith, (omega arith, tt)) (omega arith) (inl refl) (omega arith) (omega arith)
