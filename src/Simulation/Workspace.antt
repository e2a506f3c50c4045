-- ===== src/Simulation/Workspace.antt =====
-- The files of a simulation, simulation/runner.py: the workspace, the removal of the files of an earlier
-- run, the database and the report.
pub mod Isolated
use pc_diagnostic_agent.Prelude.{
  String, Bool, true, false, Option, none, some, List, [], ◌∷◌, map, ◌>>=◌,
}
use Prim.Native.String.{◌++◌ as append}
use pc_diagnostic_agent.Prelude.Dict.{put, remove}
use pc_diagnostic_agent.Common.Paths.{FilePath, path_eq, join}
use pc_diagnostic_agent.Disk.{Disk, Content, open_database}
use pc_diagnostic_agent.Storage.Rows.{Time}
use pc_diagnostic_agent.Storage.Connection.{File}
use pc_diagnostic_agent.Agent.Config.{Config}
use pc_diagnostic_agent.Reports.Sections.{Section, report_sections}
use pc_diagnostic_agent.Simulation.Scenarios.{Scenario}
use pc_diagnostic_agent.Simulation.Scenarios.Table.{get_scenario}
use pc_diagnostic_agent.Simulation.Runner.{Simulated, simulate_on}
use pc_diagnostic_agent.Simulation.Annotation.{annotation}

abbrev pub scenario_dir : FilePath → FilePath
scenario_dir workspace = join workspace "scenarios"

abbrev pub db_path : FilePath → FilePath
db_path workspace = join (scenario_dir workspace) "simulation.db"

abbrev pub candidate : FilePath → String → FilePath
candidate workspace suffix = join (scenario_dir workspace) (append "simulation.db" suffix)

-- The files that are removed before a run.
abbrev pub candidates : FilePath → List FilePath
candidates workspace = map (candidate workspace) ("" ∷ "-wal" ∷ "-shm" ∷ "-journal" ∷ [])

-- The loop over the candidates.
unfoldable pub remove_all : Disk → List FilePath → Disk
remove_all disk [] = disk
remove_all disk (path ∷ paths) = remove_all (remove disk path) paths

abbrev pub report_path : FilePath → String → FilePath
report_path workspace name = join workspace (append "report-" (append name ".html"))

-- What `_write_report` writes, none where the report raises. `now` is the clock of the report.
unfoldable pub report_of : Time → Config → Simulated → Option (List Section)
report_of now config r = report_sections now config none (annotation config r) r.db

-- The end of a run: the report, if it is wanted.
abbrev pub finish : Time → Config → FilePath → Bool → Simulated → Disk → Option Simulated × Disk
finish now config workspace false r disk = (some r, disk)
finish now config workspace true r disk = elim (report_of now config r) [
  | none ↦ (none, disk)
  | some sections ↦
      (some r, put disk (report_path workspace r.scenario.name) (Content.report sections))
]

-- The run on a database file that is open; `none` is an exception. The file is closed in any case.
abbrev pub run_on :
    Time → Config → FilePath → Bool → Scenario → Disk → Option File → Option Simulated × Disk
run_on now config workspace generate_report scenario disk none = (none, disk)
run_on now config workspace generate_report scenario disk (some file) = elim file.tables [
  | none ↦ (none, disk)
  | some db ↦
      let r = simulate_on scenario config db in
      finish now config workspace generate_report r
        (put disk (db_path workspace) (Content.database (record file { tables = some r.db })))
]

-- `run_simulation` with its files.
unfoldable pub run_in_workspace :
    Time → String → FilePath → Config → Bool → Disk → Option Simulated × Disk
run_in_workspace now scenario_type workspace config generate_report disk =
    elim (get_scenario scenario_type) [
      | none ↦ (none, disk)
      | some scenario ↦
          let cleared = remove_all disk (candidates workspace) in
          run_on now config workspace generate_report scenario cleared
            (open_database cleared (db_path workspace))
    ]
