-- ===== src/Deployment/Healthy.antt =====
-- The agent's database through all its runs, and the simulations and reports between them.
use pc_diagnostic_agent.Prelude.{
  ℕ, ◌>>=◌, ◌≤◌, String, Bool, Option, none, some, List, [], ◌∷◌, ◌≡◌, refl, ap, ◌∙◌, All, le→leb,
  arith,
}
use pc_diagnostic_agent.Prelude.Dict.{get, put, get-put, beq_refl}
use pc_diagnostic_agent.Prelude.Sort.{sort_by}
use pc_diagnostic_agent.Common.Paths.{
  FilePath, path_eq, same_path, join, database_path, reports_dir,
}
use pc_diagnostic_agent.Disk.{Disk, Content, open_database}
use pc_diagnostic_agent.Storage.Rows.{Time}
use pc_diagnostic_agent.Storage.Tables.{Database, new_database}
use pc_diagnostic_agent.Storage.Valid.{IsValid}
use pc_diagnostic_agent.Storage.Connection.{File, apply_migrations, current_version}
use pc_diagnostic_agent.Agent.Scheduler.{Scheduler}
use pc_diagnostic_agent.Agent.Running.{
  Activity, run_on_tables, start_report, with_report, run_agent,
}
use pc_diagnostic_agent.Agent.Running.Reached.{Proper, run_on_tables-Reachable}
use pc_diagnostic_agent.Agent.Lifecycle.Reachable.{Reachable, Reachable-IsValid}
use pc_diagnostic_agent.Agent.Lifecycle.IncidentsApart.{AllApart, Reachable-AllApart}
use pc_diagnostic_agent.Collectors.WindowsEvents.{EventLog}
use pc_diagnostic_agent.Reports.Sections.{Section, report_sections}
use pc_diagnostic_agent.Cli.Report.{cmd_report, write_report, report_file}
use pc_diagnostic_agent.Agent.Config.{Config}
use pc_diagnostic_agent.Simulation.Workspace.{run_in_workspace}
use pc_diagnostic_agent.Simulation.Workspace.Isolated.{run_in_workspace-Isolated}
use pc_diagnostic_agent.Deployment.{Use, use_disk, deploy}

-- The file at the path of the database can be opened, and the agent's operations lead to its tables.
record Opens (root : FilePath) (disk : Disk) : Type 0 where
  file : File
  db : Database
  opened : open_database disk (database_path root) ≡ some file
  version : 1 ≤ current_version file
  tables : file.tables ≡ some db
  reached : Reachable db

-- A file of the present version is opened as it is.
settled : (file : File) → 1 ≤ current_version file → apply_migrations file ≡ file
unfolding apply_migrations
settled file v = rw (le→leb 1 _ v) refl

-- Opening looks at one file only.
open_database-get :
    (disk disk' : Disk) (p : FilePath)
    → get disk' p ≡ get disk p
    → open_database disk' p ≡ open_database disk p
unfolding open_database
open_database-get disk disk' p h = rw (open_database, h) refl

get-with_report :
    (root : FilePath) (report : Option (List Section)) (disk : Disk)
    → get (with_report root report disk) (database_path root) ≡ get disk (database_path root)
unfolding same_path
get-with_report root none disk = refl
get-with_report root (some sections) disk =
    get-put disk (join (reports_dir root) "report.html") (database_path root)
      (Content.report sections)

open_database-put :
    (root : FilePath) (file : File) (disk : Disk)
    → 1 ≤ current_version file
    → open_database (put disk (database_path root) (Content.database file)) (database_path root)
      ≡ some file
unfolding open_database
open_database-put root file disk v =
    rw
      (
        open_database,
        get-put disk (database_path root) (database_path root) (Content.database file),
        beq_refl (database_path root),
      )
      (ap some (settled file v))

get-write_report :
    (root : FilePath) (path : String) (report : Option (List Section)) (disk : Disk)
    → get (write_report root path report disk).1 (database_path root)
      ≡ get disk (database_path root)
unfolding same_path
get-write_report root path none disk = refl
get-write_report root path (some sections) disk =
    get-put disk (report_file root) (database_path root) (Content.report sections)

-- A run of the agent leaves a database that can be opened.
run_agent-Opens :
    (now : Time) (psutil : Option Time) (log : EventLog) (s : Scheduler)
    (activities : List Activity) (root : FilePath) (disk : Disk)
    → All Proper s.high_frequency
    → All Proper s.low_frequency
    → Opens root disk
    → Opens root (run_agent now psutil log s activities root disk)
unfolding run_agent current_version
run_agent-Opens now psutil log s activities root disk h l o =
    let (result, started, stopped) = run_on_tables now psutil log s activities o.db in
    let written =
      put disk (database_path root)
        (Content.database (record (o.file) { tables = some stopped })) in
    let report = start_report now s.config result started in
    record {
      file = record (o.file) { tables = some stopped };
      db = stopped;
      opened =
          rw (run_agent, o.opened, o.tables)
            (open_database-get written (with_report root report written) (database_path root)
                (get-with_report root report written)
              ∙ open_database-put root (record (o.file) { tables = some stopped }) disk o.version);
      version = o.version;
      tables = refl;
      reached = run_on_tables-Reachable now psutil log s activities o.db h l o.reached;
    }

simulation-Opens :
    (now : Time) (name : String) (workspace : FilePath) (config : Config) (generate_report : Bool)
    (root : FilePath) (disk : Disk)
    → Opens root disk
    → Opens root (run_in_workspace now name workspace config generate_report disk).1
simulation-Opens now name workspace config generate_report root disk o =
    let same =
      (run_in_workspace-Isolated now name workspace root config generate_report disk).1.0 in
    record {
      file = o.file;
      db = o.db;
      opened = open_database-get disk _ (database_path root) same ∙ o.opened;
      version = o.version;
      tables = o.tables;
      reached = o.reached;
    }

-- The report of the command line writes the file of the database as it opened it.
report-Opens :
    (now : Time) (config : Config) (path : String) (incident : Option ℕ) (root : FilePath)
    (disk : Disk)
    → Opens root disk
    → Opens root (cmd_report now config root path incident disk).1
unfolding cmd_report
report-Opens now config path incident root disk o =
    let written = put disk (database_path root) (Content.database o.file) in
    let sections = o.file.tables >>= report_sections now config incident [] in
    record {
      file = o.file;
      db = o.db;
      opened =
          rw (cmd_report, o.opened)
            (open_database-get written (write_report root path sections written).1
                (database_path root) (get-write_report root path sections written)
              ∙ open_database-put root o.file disk o.version);
      version = o.version;
      tables = o.tables;
      reached = o.reached;
    }

-- The collectors of each run do to the tables only what the agent does.
abbrev pub ProperUse : Use → Type 0
ProperUse (Use.agent now psutil log s activities) =
    All Proper s.high_frequency × All Proper s.low_frequency
ProperUse (Use.simulation now name workspace config generate_report) = Unit
ProperUse (Use.report now config path incident) = Unit

use_disk-Opens :
    (root : FilePath) (u : Use) (disk : Disk)
    → ProperUse u
    → Opens root disk
    → Opens root (use_disk root u disk)
unfolding use_disk
use_disk-Opens root (Use.agent now psutil log s activities) disk (h, l) o =
    run_agent-Opens now psutil log s activities root disk h l o
use_disk-Opens root (Use.simulation now name workspace config generate_report) disk p o =
    simulation-Opens now name workspace config generate_report root disk o
use_disk-Opens root (Use.report now config path incident) disk p o =
    report-Opens now config path incident root disk o

deploy-Opens :
    (root : FilePath) (uses : List Use) (disk : Disk)
    → All ProperUse uses
    → Opens root disk
    → Opens root (deploy root uses disk)
unfolding deploy
deploy-Opens root [] disk h o = o
deploy-Opens root (u ∷ uses) disk h o =
    deploy-Opens root uses (use_disk root u disk) h.1 (use_disk-Opens root u disk h.0 o)

installed : (root : FilePath) → Opens root []
unfolding open_database get apply_migrations current_version sort_by
installed root = record {
  file = record { schema_version = 1 ∷ []; tables = some new_database };
  db = new_database;
  opened = refl;
  version = omega arith;
  tables = refl;
  reached = Reachable.new;
}

-- What holds of the database file under the data root.
pub record Healthy (root : FilePath) (disk : Disk) : Type 0 where
  pub file : File
  pub db : Database
  pub opened : open_database disk (database_path root) ≡ some file
  pub tables : file.tables ≡ some db
  pub apart : AllApart db.incidents
  pub valid : IsValid db

-- From a machine without files on, after any sequence of runs of the agent, simulations and reports, with
-- any boot times, event logs, clocks, order of the threads and workspaces: the database can be opened,
-- its tables are well-formed, and no two incidents have reboot times within five seconds of each other.
-- The collectors must do to the tables only what the agent does.
pub deploy-Healthy :
    (root : FilePath) (uses : List Use) → All ProperUse uses → Healthy root (deploy root uses [])
deploy-Healthy root uses h =
    let o = deploy-Opens root uses [] h (installed root) in
    record {
      file = o.file;
      db = o.db;
      opened = o.opened;
      tables = o.tables;
      apart = Reachable-AllApart o.db o.reached;
      valid = Reachable-IsValid o.db o.reached;
    }
