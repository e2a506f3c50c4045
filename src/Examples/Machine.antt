-- ===== src/Examples/Machine.antt =====
-- The theorems on files at a concrete machine: agent/main.py and simulation/runner.py.
use pc_diagnostic_agent.Prelude.{◌+◌, true, none, some, List, [], ◌∷◌, ◌≡◌, All, ◌>>=◌}
use pc_diagnostic_agent.Prelude.Dict.{get}
use pc_diagnostic_agent.Common.Paths.{FilePath, path_eq, data_root, test_data_dir, database_path}
use pc_diagnostic_agent.Disk.{Disk, Content}
use pc_diagnostic_agent.Storage.Rows.{seconds}
use pc_diagnostic_agent.Agent.Config.{default_config}
use pc_diagnostic_agent.Agent.Scheduler.{Collector, Scheduler}
use pc_diagnostic_agent.Agent.Running.{Activity}
use pc_diagnostic_agent.Agent.Running.Reached.{Proper}
use pc_diagnostic_agent.Agent.Lifecycle.Reachable.{Reachable, Step}
use pc_diagnostic_agent.Collectors.WindowsEvents.{collect}
use pc_diagnostic_agent.Collectors.WindowsEvents.Cursor.{log_of}
use pc_diagnostic_agent.Simulation.Runner.{run_simulation}
use pc_diagnostic_agent.Simulation.Workspace.{run_in_workspace, db_path}
use pc_diagnostic_agent.Simulation.Workspace.Isolated.{
  reported, agent_files, run_in_workspace-Isolated,
}
use pc_diagnostic_agent.Deployment.{Use, deploy}
use pc_diagnostic_agent.Deployment.Healthy.{Healthy, deploy-Healthy}
use pc_diagnostic_agent.Examples.{crashed, first_boot_time, second_boot_time}
use pc_diagnostic_agent.Examples.Logs.{log_record}

abbrev root : FilePath
root = data_root none true []

-- The database of the agent, and that of an earlier simulation.
abbrev disk : Disk
disk =
    (
      database_path root,
      Content.database (record { schema_version = 1 ∷ []; tables = some crashed }),
    )
    ∷ (
      db_path (test_data_dir root),
      Content.database (record { schema_version = 1 ∷ []; tables = some crashed }),
    )
    ∷ []

run_in_workspace-Isolated_example :
    ((run_in_workspace 0 "bsod" (test_data_dir root) default_config true disk).0
      ≡ (run_simulation "bsod" default_config >>= reported 0 default_config true))
    × All
        (λ p.
          get (run_in_workspace 0 "bsod" (test_data_dir root) default_config true disk).1 p
          ≡ get disk p)
        (agent_files root)
run_in_workspace-Isolated_example =
    run_in_workspace-Isolated 0 "bsod" (test_data_dir root) root default_config true disk

-- The collector of the events, with an event 6008 in the log.
abbrev events : Collector
events now session_id db =
    (some [], collect now session_id (log_of ((log_record 9 second_boot_time, []) ∷ [])) db)

events-Proper : Proper events
events-Proper now session_id db r = Reachable.after r (Step.collect_events now session_id _)

abbrev scheduler : Scheduler
scheduler = record {
  config = default_config;
  high_frequency = events ∷ [];
  low_frequency = [];
  last_retention = 0;
}

-- A start, a simulation beside it, a report, and a start after a reboot with a check of the watchdog.
abbrev uses : List Use
uses =
    Use.agent first_boot_time (some first_boot_time) (log_of []) scheduler
      (Activity.passes first_boot_time ∷ [])
    ∷ Use.simulation 0 "power-loss" (test_data_dir root) default_config true
    ∷ Use.report 0 default_config "report.html" none
    ∷ Use.agent second_boot_time (some second_boot_time) (log_of []) scheduler
        (Activity.passes second_boot_time ∷ Activity.checks (second_boot_time + seconds 100) ∷ [])
    ∷ []

deploy-Healthy_example : Healthy root (deploy root uses [])
deploy-Healthy_example =
    deploy-Healthy root uses
      (((events-Proper, tt), tt), (tt, (tt, (((events-Proper, tt), tt), tt))))
