-- ===== src/Examples/Kept.antt =====
-- The theorems on reports, connections and threads at concrete inputs: reports/, storage/database.py and
-- agent/lifecycle.py.
use pc_diagnostic_agent.Prelude.{
  if◌then◌else◌, ℕ, suc, min, ◌+◌, ◌-◌, ◌≤◌, ◌≡◌, ◌≢◌, refl, map, length, String, true, false, Bool,
  Option, none, some, List, [], ◌∷◌, ◌++◌, arith, All,
}
use pc_diagnostic_agent.Prelude.Int.{pos}
use pc_diagnostic_agent.Prelude.Sort.{Sorted, up}
use pc_diagnostic_agent.Storage.Rows.{hours}
use pc_diagnostic_agent.Storage.Sessions.{get_session}
use pc_diagnostic_agent.Storage.Connection.{File, apply_migrations}
use pc_diagnostic_agent.Storage.Connection.Migrated.{Migrated, connect-Migrated}
use pc_diagnostic_agent.Agent.Workers.{Workers, Fate, elapse, restart_worker, alive}
use pc_diagnostic_agent.Agent.Workers.Alive.{busy_count, restart_worker-alive}
use pc_diagnostic_agent.Diagnostics.BootDetector.{detect_boot}
use pc_diagnostic_agent.Printed.{say, Cell}
use pc_diagnostic_agent.Reports.Timeline.{Entry, event_entry}
use pc_diagnostic_agent.Reports.Sections.{recorded, previous_session}
use pc_diagnostic_agent.Reports.Sections.Previous.{shown_rows, previous_session-detect_boot}
use pc_diagnostic_agent.Diagnostics.BootDetector.Outcome.{logged}
use pc_diagnostic_agent.Diagnostics.EventAnalyzer.Category.{kernel_power, bugcheck, shutdown_clean}
use pc_diagnostic_agent.Examples.{
  crashed, first_session, second_boot_time, session_with-IsValid, power_event,
}
use pc_diagnostic_agent.Examples.Boots.{not_zero, latest_test, reboot_test}

-- The hang of the example, at whose reboot an event was logged, an hour after the last sample.
abbrev shown : List Entry
shown =
    record {
      at = hours 101;
      label = say "Metrics";
      detail = Cell.str "CPU " ∷ Cell.rounded (pos 99000) ∷ Cell.str "%" ∷ [];
    }
    ∷ event_entry power_event
    ∷ []

found_test : get_session 1 crashed ≡ some first_session
unfolding get_session
found_test = refl

numbered : first_session.session_id ≢ 0
numbered = λ h. omega (arith, h)

previous_session-detect_boot_example :
    previous_session (some 1) (detect_boot second_boot_time (some second_boot_time) none crashed).1
    ≡ recorded (
        shown_rows first_session second_boot_time
          (logged crashed first_session second_boot_time shutdown_clean)
          (logged crashed first_session second_boot_time kernel_power)
          (logged crashed first_session second_boot_time bugcheck))
previous_session-detect_boot_example =
    previous_session-detect_boot second_boot_time second_boot_time none crashed
      (detect_boot second_boot_time (some second_boot_time) none crashed).1 first_session
      (session_with-IsValid (power_event ∷ [])) latest_test found_test reboot_test not_zero numbered
      refl

-- Two threads, of which at a restart the newer stays in a collector and the older comes to the test; and
-- then the newest and the one that stayed come to it.
abbrev two_threads : Workers
two_threads = record { stop = false; threads = true ∷ true ∷ [] }

restart_worker-alive_example :
    (alive (restart_worker (Fate.busy ∷ Fate.tests ∷ []) two_threads)
      ≡ 1 + busy_count (Fate.busy ∷ Fate.tests ∷ []) (true ∷ true ∷ []))
    × (elapse
          (Fate.tests ∷ Fate.tests ∷ [])
          (restart_worker (Fate.busy ∷ Fate.tests ∷ []) two_threads)
        ≡ restart_worker (Fate.busy ∷ Fate.tests ∷ []) two_threads)
restart_worker-alive_example =
    restart_worker-alive (Fate.busy ∷ Fate.tests ∷ []) (Fate.tests ∷ Fate.tests ∷ []) two_threads
      (tt, (tt, tt))

-- A file whose tables were made, but whose version was not yet written.
abbrev file : File
file = record { schema_version = []; tables = some crashed }

connect-Migrated_example : Migrated file (apply_migrations file)
connect-Migrated_example = connect-Migrated file
