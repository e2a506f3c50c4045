-- ===== src/Agent/Running.antt =====
-- The agent from its start to its stop, agent/main.py and agent/lifecycle.py: `run_agent` on the files.
-- The passes of the scheduler's thread and the checks of the watchdog's come in any order. A thread that
-- the watchdog replaces is taken to have ended; Workers has those that have not.
pub mod Reached
use pc_diagnostic_agent.Prelude.{ℕ, Bool, Option, none, some, List, [], ◌∷◌, ◌>>=◌, if◌then◌else◌}
use pc_diagnostic_agent.Prelude.Dict.{put}
use pc_diagnostic_agent.Common.Paths.{FilePath, path_eq, join, database_path, reports_dir}
use pc_diagnostic_agent.Disk.{Disk, Content, open_database}
use pc_diagnostic_agent.Storage.Rows.{Time}
use pc_diagnostic_agent.Storage.Tables.{Database}
use pc_diagnostic_agent.Storage.Connection.{File}
use pc_diagnostic_agent.Agent.Config.{Config}
use pc_diagnostic_agent.Agent.Scheduler.{Scheduler, Loop, new_loop, pass}
use pc_diagnostic_agent.Agent.Lifecycle.{startup_analysis, session_provider}
use pc_diagnostic_agent.Watchdog.{Watchdog, new_watchdog, check}
use pc_diagnostic_agent.Collectors.WindowsEvents.{EventLog}
use pc_diagnostic_agent.Diagnostics.Diagnosis.Engine.{Diagnosis}
use pc_diagnostic_agent.Reports.Sections.{Section, report_sections}

pub record Running : Type 0 where
  pub loop : Loop
  pub watchdog : Watchdog

-- A pass of the scheduler's loop, or a check of the watchdog, at a time.
pub data Activity : Type 0 where
  passes checks : Time → Activity

-- A check writes to the tables, and the restart that it asks for starts the loop anew; the scheduler
-- keeps the time of its last pruning.
abbrev pub checked : Loop → Bool × Watchdog × Database → Running
checked l (asked, w, db) = record {
  loop = if asked then new_loop l.scheduler db else record l { db = db };
  watchdog = w;
}

unfoldable pub act : ℕ → Activity → Running → Running
act session_id (Activity.passes now) r = record r { loop = pass now session_id r.loop }
act session_id (Activity.checks now) r = checked r.loop (check now r.watchdog r.loop.db)

unfoldable pub acts : ℕ → List Activity → Running → Running
acts session_id [] r = r
acts session_id (a ∷ activities) r = acts session_id activities (act session_id a r)

-- `startup_analysis` and `run` on the tables.
unfoldable pub run_on_tables :
    Time
    → Option Time
    → EventLog
    → Scheduler
    → List Activity
    → Database
    → Diagnosis × Database × Database
run_on_tables now psutil log scheduler activities db =
    let (boot, result, started) = startup_analysis now psutil log scheduler.config db in
    let stopped =
      acts (session_provider (some boot.session_id)) activities
        (record { loop = new_loop scheduler started; watchdog = new_watchdog }) in
    (result, started, stopped.loop.db)

-- The report of the start: that of the incident that was stored. An incident of an earlier start has no
-- id here, and the error of the lookup is caught like any other that the report raises.
abbrev pub start_report : Time → Config → Diagnosis → Database → Option (List Section)
start_report now config result db = elim result.incident_id [
  | none ↦ none
  | some incident_id ↦ report_sections now config (some incident_id) [] db
]

abbrev pub with_report : FilePath → Option (List Section) → Disk → Disk
with_report root none disk = disk
with_report root (some sections) disk =
    put disk (join (reports_dir root) "report.html") (Content.report sections)

-- What the agent does with a file that is open: without tables, its first query raises.
abbrev pub run_with :
    Time → Option Time → EventLog → Scheduler → List Activity → FilePath → Disk → Option File → Disk
run_with now psutil log scheduler activities root disk none = disk
run_with now psutil log scheduler activities root disk (some file) = elim file.tables [
  | none ↦ disk
  | some db ↦
      let (result, started, stopped) = run_on_tables now psutil log scheduler activities db in
      with_report root (start_report now scheduler.config result started)
        (put disk (database_path root) (Content.database (record file { tables = some stopped })))
]

-- `run_agent`, until the stop event is set.
unfoldable pub run_agent :
    Time → Option Time → EventLog → Scheduler → List Activity → FilePath → Disk → Disk
run_agent now psutil log scheduler activities root disk =
    run_with now psutil log scheduler activities root disk (open_database disk (database_path root))
