-- ===== src/Examples.antt =====
-- Concrete tables on which the theorems are applied: one session of the agent, which ended without a
-- clean shutdown or with one, and the boot after it.
pub mod Boots
pub mod Verdicts
pub mod Signals
pub mod Tables
pub mod Agents
pub mod Logs
pub mod Samples
pub mod Shown
pub mod Configs
pub mod Drifts
pub mod Lives
pub mod Runs
pub mod Kept
pub mod Machine
use pc_diagnostic_agent.Prelude.{ℕ, String, Option, none, some, List, [], ◌∷◌, arith}
use pc_diagnostic_agent.Prelude.Int.{ℤ, pos}
use pc_diagnostic_agent.Storage.Rows.{
  Time, Value, RawId, EventFields, Event, Session, MetricRow, hours, seconds,
}
use pc_diagnostic_agent.Storage.Tables.{Database, new_database}
use pc_diagnostic_agent.Storage.Valid.{IsValid}
use pc_diagnostic_agent.Diagnostics.Diagnosis.Engine.{BootFacts}

abbrev pub fields_of : String → ℕ → EventFields
fields_of provider id = record {
  provider = some provider;
  event_id = RawId.int (pos id);
  level = some (pos 1);
  channel = some "System";
  record_id = some (pos 7);
  message = some "The system has rebooted without cleanly shutting down first.";
  computer = none;
  process_id = none;
  thread_id = none;
}

abbrev pub first_boot_time : Time
first_boot_time = hours 100

abbrev pub second_boot_time : Time
second_boot_time = hours 102

abbrev pub power_event : Event
power_event = record {
  timestamp = second_boot_time;
  session_id = 1;
  fields = fields_of "Microsoft-Windows-Kernel-Power" 41;
}

abbrev pub clean_event : Event
clean_event = record { timestamp = hours 101; session_id = 1; fields = fields_of "EventLog" 6006 }

abbrev pub first_session : Session
first_session = record {
  session_id = 1;
  boot_time = first_boot_time;
  previous_boot_time = none;
  uptime_before_boot = none;
  previous_session_clean = none;
  unexpected_shutdown = none;
  kernel_power_detected = none;
  bugcheck_detected = none;
  created_at = first_boot_time;
}

abbrev pub cpu_row : MetricRow
cpu_row = record {
  timestamp = hours 101;
  session_id = 1;
  values = ("cpu_percent", Value.num (pos 99000)) ∷ [];
}

-- The tables before the second boot, after a session in which the events were logged.
abbrev pub session_with : List Event → Database
session_with events = record new_database {
  sessions = first_session ∷ [];
  last_session = 1;
  events = events;
  metrics = ("metrics_cpu", cpu_row ∷ []) ∷ [];
  heartbeat = some (record { timestamp = hours 101; updated_at = hours 101 });
}

abbrev pub crashed : Database
crashed = session_with (power_event ∷ [])

abbrev pub clean_but_41 : Database
clean_but_41 = session_with (clean_event ∷ power_event ∷ [])

pub session_with-IsValid : (events : List Event) → IsValid (session_with events)
session_with-IsValid events = record {
  sessions = (omega arith, tt);
  incidents = tt;
  findings = tt;
  finding_ids = tt;
}

abbrev pub second_boot : BootFacts
second_boot = record {
  boot_time = second_boot_time;
  previous_boot_time = some first_boot_time;
  previous_session_id = some 1;
  previous_session_clean = none;
}
