-- ===== src/Simulation/Scenarios/Table.antt =====
-- The four scenarios and their table, simulation/scenarios.py.
use pc_diagnostic_agent.Prelude.{
  ℕ, ◌+◌, ◌-◌, ◌*◌, ◌/◌, String, true, false, min, Option, none, some, List, [], ◌∷◌, ◌++◌, ltb,
  leb, if◌then◌else◌, map,
}
use pc_diagnostic_agent.Prelude.Dict.{Dict, get, string_eq}
use pc_diagnostic_agent.Storage.Rows.{seconds, IncidentType, bsod, high, low}
use pc_diagnostic_agent.Simulation.Scenarios.{
  t0, Scenario, Reading, event, metric_stream, heartbeat_stream, boot_events,
}

-- The readings of the hard hang: the load of the processor in steps, the memory and the temperature
-- along a ramp.
unfoldable pub hang_cpu : Reading
hang_cpu ts =
    let elapsed = ts - t0 in
    if ltb elapsed (seconds 600)
    then 35_000
    else if ltb elapsed (seconds 900)
    then 50_000
    else if ltb elapsed (seconds 1200)
    then 65_000
    else 91_000

unfoldable pub hang_mem : Reading
hang_mem ts = 55_000 + min ((ts - t0) * 17 / 1200) 17_000

unfoldable pub hang_disk : Reading
hang_disk ts = if leb (seconds 1230) (ts - t0) then 100_000 else 42_000

unfoldable pub hang_temp : Reading
hang_temp ts = 52_000 + min ((ts - t0) * 11 / 1560) 11_000

abbrev steady : ℕ → Reading
steady x ts = x

unfoldable pub hard_hang_scenario : Scenario
unfolding boot_events event metric_stream heartbeat_stream
hard_hang_scenario =
    let prev_boot = t0 in
    let boot = t0 + seconds 1560 in
    let last_activity = t0 + seconds 1260 in
    record {
      name = "hard-hang";
      expected = some (IncidentType.hard_hang, high);
      prev_boot = prev_boot;
      boot = boot;
      last_activity = last_activity;
      events =
          boot_events boot true false false
          ++ event (prev_boot + seconds 2) "EventLog" 6005 3 "The Event log service was started."
            ∷ [];
      snapshots = metric_stream prev_boot t0 last_activity hang_cpu hang_mem hang_disk hang_temp;
      heartbeats = heartbeat_stream t0 last_activity;
    }

unfoldable pub power_loss_scenario : Scenario
unfolding boot_events event metric_stream heartbeat_stream
power_loss_scenario =
    let prev_boot = t0 in
    let boot = t0 + seconds 1260 in
    let last_activity = boot - seconds 5 in
    record {
      name = "power-loss";
      expected = some (IncidentType.power_loss, low);
      prev_boot = prev_boot;
      boot = boot;
      last_activity = last_activity;
      events =
          boot_events boot true false false
          ++ event (prev_boot + seconds 2) "EventLog" 6005 3 "The Event log service was started."
            ∷ [];
      snapshots =
          metric_stream prev_boot t0 last_activity (steady 35_000) (steady 58_000) (steady 40_000)
            (steady 51_000);
      heartbeats = heartbeat_stream t0 last_activity;
    }

unfoldable pub bsod_scenario : Scenario
unfolding boot_events event metric_stream heartbeat_stream
bsod_scenario =
    let prev_boot = t0 in
    let boot = t0 + seconds 1200 in
    let last_activity = boot - seconds 240 in
    record {
      name = "bsod";
      expected = some (bsod, high);
      prev_boot = prev_boot;
      boot = boot;
      last_activity = last_activity;
      events =
          boot_events boot false true false
          ++ event (prev_boot + seconds 2) "EventLog" 6005 3 "The Event log service was started."
            ∷ [];
      snapshots =
          metric_stream prev_boot t0 last_activity (steady 40_000) (steady 60_000) (steady 45_000)
            (steady 50_000);
      heartbeats = heartbeat_stream t0 last_activity;
    }

unfoldable pub normal_restart_scenario : Scenario
unfolding event metric_stream heartbeat_stream
normal_restart_scenario =
    let prev_boot = t0 in
    let boot = t0 + seconds 1500 in
    let last_activity = boot - seconds 30 in
    record {
      name = "normal-restart";
      expected = none;
      prev_boot = prev_boot;
      boot = boot;
      last_activity = last_activity;
      events =
          event (prev_boot + seconds 2) "EventLog" 6005 3 "The Event log service was started."
          ∷ event (boot - seconds 15) "User32" 1074 3
              "User SIM\\admin initiated the restart of computer SIM-PC (shutdown /r /t 10)."
          ∷ event (boot - seconds 15) "EventLog" 6006 3 "The Event log service was stopped."
          ∷ event (boot - seconds 8) "Microsoft-Windows-Kernel-Power" 109 1
              "The kernel power service is preparing to stop."
          ∷ event (boot - seconds 6) "Microsoft-Windows-Kernel-Power" 172 1
              "The kernel power service runtime is finishing."
          ∷ event (boot - seconds 4) "Microsoft-Windows-Kernel-Power" 521 1
              "The kernel power service is in the resume path."
          ∷ event (boot + seconds 4) "EventLog" 6009 3 "Microsoft (R) Windows (R) 10 Enterprise."
          ∷ event (boot + seconds 4) "EventLog" 6005 3 "The Event log service was started."
          ∷ event (boot + seconds 4) "EventLog" 6013 3 "The system uptime is 0 seconds."
          ∷ event (boot + seconds 7) "Microsoft-Windows-Kernel-Power" 109 1
              "The kernel power service has entered the running state."
          ∷ [];
      snapshots =
          metric_stream prev_boot t0 last_activity (steady 25_000) (steady 50_000) (steady 38_000)
            (steady 48_000);
      heartbeats = heartbeat_stream t0 last_activity;
    }

-- _SCENARIOS.
unfoldable pub scenarios : Dict String Scenario
unfolding hard_hang_scenario power_loss_scenario bsod_scenario normal_restart_scenario
scenarios =
    ("hard-hang", hard_hang_scenario)
    ∷ ("power-loss", power_loss_scenario)
    ∷ ("bsod", bsod_scenario)
    ∷ ("normal-restart", normal_restart_scenario)
    ∷ []

unfoldable pub scenario_names : List String
unfolding scenarios
scenario_names = map (λ entry. entry.0) scenarios

-- `none` is the KeyError of a name that is not in the table.
unfoldable pub get_scenario : String → Option Scenario
unfolding scenarios get
get_scenario name = get scenarios name
