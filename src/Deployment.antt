-- ===== src/Deployment.antt =====
-- What happens to the files of a machine: the agent runs again and again (agent/main.py), and now and
-- then a simulation (simulation/runner.py), in any workspace, or a report (cli/commands.py).
pub mod Healthy
use pc_diagnostic_agent.Prelude.{ℕ, String, Bool, Option, List, [], ◌∷◌}
use pc_diagnostic_agent.Common.Paths.{FilePath}
use pc_diagnostic_agent.Disk.{Disk}
use pc_diagnostic_agent.Storage.Rows.{Time}
use pc_diagnostic_agent.Agent.Config.{Config}
use pc_diagnostic_agent.Agent.Scheduler.{Scheduler}
use pc_diagnostic_agent.Agent.Running.{Activity, run_agent}
use pc_diagnostic_agent.Collectors.WindowsEvents.{EventLog}
use pc_diagnostic_agent.Simulation.Workspace.{run_in_workspace}
use pc_diagnostic_agent.Cli.Report.{cmd_report}

-- A run of the agent, a simulation, or the report of the command line.
pub data Use : Type 0 where
  agent : Time → Option Time → EventLog → Scheduler → List Activity → Use
  simulation : Time → String → FilePath → Config → Bool → Use
  report : Time → Config → String → Option ℕ → Use

unfoldable pub use_disk : FilePath → Use → Disk → Disk
use_disk root (Use.agent now psutil log scheduler activities) disk =
    run_agent now psutil log scheduler activities root disk
use_disk root (Use.simulation now name workspace config generate_report) disk =
    (run_in_workspace now name workspace config generate_report disk).1
use_disk root (Use.report now config path incident) disk =
    (cmd_report now config root path incident disk).1

-- The disk after the uses, the first one first.
unfoldable pub deploy : FilePath → List Use → Disk → Disk
deploy root [] disk = disk
deploy root (u ∷ uses) disk = deploy root uses (use_disk root u disk)
