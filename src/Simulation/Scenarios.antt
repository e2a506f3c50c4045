-- ===== src/Simulation/Scenarios.antt =====
-- The synthetic scenarios of simulation/scenarios.py.
pub mod Table
use pc_diagnostic_agent.Prelude.{
  ℕ, ◌+◌, ◌-◌, ◌*◌, ◌/◌, String, Bool, true, false, min, Option, none, some, List, [], ◌∷◌, ◌++◌,
  ltb, leb, if◌then◌else◌,
}
use pc_diagnostic_agent.Prelude.Int.{pos}
use pc_diagnostic_agent.Prelude.Dict.{Dict, get, string_eq}
use pc_diagnostic_agent.Storage.Rows.{
  Time, seconds, Value, num, text, RawId, EventInput, IncidentType, Level, hard_hang, power_loss,
  bsod, high, low,
}
use pc_diagnostic_agent.Storage.Metrics.{Snapshot}
use pc_diagnostic_agent.Simulation.Streams.{stream}

-- T0, 10:00:00 UTC on 2026-08-19.
abbrev pub t0 : Time
t0 = seconds 1_787_133_600

-- The fields of `Scenario` but for its description. The type and the confidence that are expected
-- are both None or neither is.
pub record Scenario : Type 0 where
  pub name : String
  pub expected : Option (IncidentType × Level)
  pub prev_boot : Time
  pub boot : Time
  pub last_activity : Time
  pub events : List EventInput
  pub snapshots : List (Time × Snapshot)
  pub heartbeats : List Time

-- `_event`, whose record id is 0 in every call.
unfoldable pub event : Time → String → ℕ → ℕ → String → EventInput
event ts provider event_id level message = record {
  timestamp = some ts;
  fields = record {
    provider = some provider;
    event_id = RawId.int (pos event_id);
    level = some (pos level);
    channel = some "System";
    record_id = some (pos 0);
    message = some message;
    computer = some "SIM-PC";
    process_id = none;
    thread_id = none;
  };
}

-- A whole number as a stored value.
abbrev whole : ℕ → Value
whole n = num (pos (n * 1000))

-- `_cpu`, `_mem`, `_disk` and `_process`. A percentage is in thousandths.
unfoldable pub cpu : ℕ → Dict String Value
cpu pct =
    ("cpu_percent", num (pos pct))
    ∷ ("cpu_frequency", whole 2400)
    ∷ ("processor_count", whole 8)
    ∷ []

unfoldable pub mem : ℕ → Dict String Value
mem pct =
    ("memory_percent", num (pos pct))
    ∷ ("memory_total", whole 17_179_869_184)
    ∷ ("memory_used", whole 0)
    ∷ ("memory_available", whole 0)
    ∷ ("swap_percent", whole 30)
    ∷ []

unfoldable pub disk : ℕ → Dict String Value
disk pct =
    ("device", text "C:")
    ∷ ("mountpoint", text "C:\\")
    ∷ ("total", whole 512_000_000_000)
    ∷ ("used", whole 0)
    ∷ ("free", whole 0)
    ∷ ("percent", num (pos pct))
    ∷ ("read_bytes", whole 0)
    ∷ ("write_bytes", whole 0)
    ∷ ("read_latency_ms", whole 0)
    ∷ ("write_latency_ms", whole 0)
    ∷ ("disk_model", text "SIM SSD")
    ∷ ("disk_type", text "ssd")
    ∷ []

unfoldable pub process : ℕ → Dict String Value
process pct =
    ("pid", whole 1000)
    ∷ ("name", text "chrome.exe")
    ∷ ("cpu_percent", num (pos (pct * 8 / 10)))
    ∷ ("memory_bytes", whole 1_200_000_000)
    ∷ ("exe_path", text "C:\\Program Files\\Google\\Chrome\\Application\\chrome.exe")
    ∷ []

-- `_metric_rows`.
unfoldable pub metric_snapshot : Time → Time → ℕ → ℕ → ℕ → ℕ → Snapshot
metric_snapshot prev_boot ts cpu_pct mem_pct disk_pct temp_c =
    ("metrics_cpu", cpu cpu_pct ∷ [])
    ∷ ("metrics_memory", mem mem_pct ∷ [])
    ∷ ("metrics_disk", disk disk_pct ∷ [])
    ∷ (
      "metrics_uptime",
      (("boot_time", num (pos prev_boot)) ∷ ("uptime_seconds", num (pos (ts - prev_boot))) ∷ [])
          ∷ [],
    )
    ∷ ("metrics_process", process cpu_pct ∷ [])
    ∷ (
      "metrics_temperature",
      (("sensor", text "cpu") ∷ ("temperature_c", num (pos temp_c)) ∷ []) ∷ [],
    )
    ∷ []

-- The readings that a scenario gives for a time, in thousandths.
abbrev pub Reading : Type 0
Reading = Time → ℕ

unfoldable pub metric_stream :
    Time → Time → Time → Reading → Reading → Reading → Reading → List (Time × Snapshot)
unfolding stream
metric_stream prev_boot start end cpu_fn mem_fn disk_fn temp_fn =
    stream
      (λ ts. (ts, metric_snapshot prev_boot ts (cpu_fn ts) (mem_fn ts) (disk_fn ts) (temp_fn ts)))
      start end

unfoldable pub heartbeat_stream : Time → Time → List Time
unfolding stream
heartbeat_stream start end = stream (λ ts. ts) start end

abbrev append_if : Bool → EventInput → List EventInput → List EventInput
append_if test ev events = if test then events ++ ev ∷ [] else events

-- `_boot_events`.
unfoldable pub boot_events : Time → Bool → Bool → Bool → List EventInput
boot_events boot kp41 bugcheck user_initiated_restart =
    let events =
      event (boot + seconds 4) "EventLog" 6009 3 "Microsoft (R) Windows (R) 10 Enterprise."
      ∷ event (boot + seconds 4) "EventLog" 6005 3 "The Event log service was started."
      ∷ event (boot + seconds 4) "EventLog" 6013 3 "The system uptime is 0 seconds."
      ∷ [] in
    let events₁ =
      append_if kp41
        (event boot "Microsoft-Windows-Kernel-Power" 41 1
          "The system has rebooted without cleanly shutting down first.")
        events in
    let events₂ =
      append_if bugcheck
        (event boot "BugCheck" 1001 1
          "The computer has rebooted from a bugcheck. The bugcheck was: 0x0000007e.")
        events₁ in
    append_if user_initiated_restart
      (event (boot - seconds 15) "User32" 1074 3
        "The process C:\\Windows\\System32\\shutdown.exe initiated the restart of computer SIM-PC on behalf of user SIM\\admin for reason: No title for this reason could be found.")
      (events₂
        ++ event (boot + seconds 7) "Microsoft-Windows-Kernel-Power" 109 1
            "The kernel power service has entered the running state."
          ∷ [])
