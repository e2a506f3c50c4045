-- ===== src/Simulation/Workspace/Isolated.antt =====
-- The files that a simulation writes and those of the agent itself, simulation/runner.py and
-- common/paths.py.
use pc_diagnostic_agent.Prelude.{
  String, Bool, true, false, Option, none, some, List, [], ◌∷◌, ◌++◌, map, ◌≡◌, refl, ap, ◌∙◌,
  ◌>>=◌, All, All-map, Option-cases, inl, inr, arith,
}
use pc_diagnostic_agent.Prelude.Dict.{
  get, put, remove, get-put, get-remove, get-All, string_eq, beq_refl,
}
use pc_diagnostic_agent.Prelude.Sort.{sort_by}
use pc_diagnostic_agent.Common.Paths.{
  FilePath, path_eq, same_path, join, database_path, log_file_path, heartbeat_file_path,
  reports_dir,
}
use pc_diagnostic_agent.Disk.{Disk, Content, open_database}
use pc_diagnostic_agent.Storage.Rows.{Time}
use pc_diagnostic_agent.Storage.Tables.{new_database}
use pc_diagnostic_agent.Storage.Connection.{File, new_file, apply_migrations, current_version}
use pc_diagnostic_agent.Agent.Config.{Config}
use pc_diagnostic_agent.Simulation.Scenarios.{Scenario}
use pc_diagnostic_agent.Simulation.Scenarios.Table.{
  get_scenario, scenarios, scenario_names, hard_hang_scenario, power_loss_scenario, bsod_scenario,
  normal_restart_scenario,
}
use pc_diagnostic_agent.Simulation.Runner.{Simulated, simulate, run_simulation}
use pc_diagnostic_agent.Simulation.Workspace.{
  db_path, candidate, candidates, remove_all, report_path, report_of, finish, run_in_workspace,
}

-- The file is none of those.
abbrev pub NoneOf : FilePath → List FilePath → Type 0
NoneOf p files = All (λ q. same_path q p ≡ false) files

get-remove_all :
    (disk : Disk) (paths : List FilePath) (p : FilePath)
    → NoneOf p paths
    → get (remove_all disk paths) p ≡ get disk p
unfolding remove_all
get-remove_all disk [] p h = refl
get-remove_all disk (q ∷ paths) p h =
    get-remove_all (remove disk q) paths p h.1 ∙ rw (get-remove disk q p, h.0) refl

missing-remove_all :
    (disk : Disk) (paths : List FilePath) (p : FilePath)
    → get disk p ≡ none
    → get (remove_all disk paths) p ≡ none
unfolding remove_all
missing-remove_all disk [] p h = h
missing-remove_all disk (q ∷ paths) p h =
    missing-remove_all (remove disk q) paths p (rw (get-remove disk q p, h) (ground arith))

-- The database of an earlier run is gone.
missing :
    (disk : Disk) (workspace : FilePath)
    → get (remove_all disk (candidates workspace)) (db_path workspace) ≡ none
unfolding remove_all
missing disk workspace =
    missing-remove_all (remove disk (db_path workspace))
      (map (candidate workspace) ("-wal" ∷ "-shm" ∷ "-journal" ∷ [])) (db_path workspace)
      (rw (get-remove disk (db_path workspace) (db_path workspace), beq_refl (db_path workspace))
        refl)

abbrev new_tables : File
new_tables = record { schema_version = 1 ∷ []; tables = some new_database }

migrated : apply_migrations new_file ≡ new_tables
unfolding apply_migrations current_version sort_by
migrated = refl

fresh :
    (disk : Disk) (workspace : FilePath)
    → open_database (remove_all disk (candidates workspace)) (db_path workspace) ≡ some new_tables
unfolding open_database
fresh disk workspace = rw (open_database, missing disk workspace) (ap some migrated)

-- What a run gives back: what the simulation gives, unless its report raises.
abbrev pub reported : Time → Config → Bool → Simulated → Option Simulated
reported now config false r = some r
reported now config true r = report_of now config r >>= (λ sections. some r)

finish-reported :
    (now : Time) (config : Config) (workspace : FilePath) (generate_report : Bool) (r : Simulated)
    (disk : Disk)
    → (finish now config workspace generate_report r disk).0 ≡ reported now config generate_report r
finish-reported now config workspace false r disk = refl
finish-reported now config workspace true r disk = elim (Option-cases (report_of now config r)) [
  | inl e ↦ rw (finish, e) refl
  | inr (sections, e) ↦ rw (finish, e) refl
]

get-finish :
    (now : Time) (config : Config) (workspace : FilePath) (generate_report : Bool) (r : Simulated)
    (disk : Disk) (p : FilePath)
    → same_path (report_path workspace r.scenario.name) p ≡ false
    → get (finish now config workspace generate_report r disk).1 p ≡ get disk p
get-finish now config workspace false r disk p h = refl
get-finish now config workspace true r disk p h = elim (Option-cases (report_of now config r)) [
  | inl e ↦ rw (finish, e) refl
  | inr (sections, e) ↦
      rw
        (
          finish,
          e,
          get-put disk (report_path workspace r.scenario.name) p (Content.report sections),
          h,
        )
        refl
]

-- The tables of the simulation's database when it is closed.
abbrev kept : Simulated → Content
kept r = Content.database (record new_tables { tables = some r.db })

run_in_workspace_lem :
    (now : Time) (name : String) (workspace : FilePath) (config : Config) (generate_report : Bool)
    (disk : Disk) (s : Scenario)
    → get_scenario name ≡ some s
    → run_in_workspace now name workspace config generate_report disk
      ≡ finish now config workspace generate_report (simulate s config) (
          put
            (remove_all disk (candidates workspace))
            (db_path workspace)
            (kept (simulate s config)))
unfolding run_in_workspace simulate
run_in_workspace_lem now name workspace config generate_report disk s e =
    rw (run_in_workspace, e, fresh disk workspace) refl

-- The paths that a run touches.
abbrev pub touched : FilePath → List FilePath
touched workspace = candidates workspace ++ map (report_path workspace) scenario_names

-- The report of a scenario is one of those.
abbrev ReportTouched : FilePath → FilePath → Scenario → Type 0
ReportTouched workspace p s = same_path (report_path workspace s.name) p ≡ false

scenarios-ReportTouched :
    (workspace p : FilePath)
    → NoneOf p (touched workspace)
    → All (λ entry. ReportTouched workspace p entry.1) scenarios
unfolding scenarios scenario_names hard_hang_scenario power_loss_scenario bsod_scenario
    normal_restart_scenario
scenarios-ReportTouched workspace p (_, (_, (_, (_, (a, (b, (c, (d, t)))))))) =
    (a, (b, (c, (d, tt))))

-- A file that a run does not touch stays as it is.
pub get-run_in_workspace :
    (now : Time) (name : String) (workspace : FilePath) (config : Config) (generate_report : Bool)
    (disk : Disk) (p : FilePath)
    → NoneOf p (touched workspace)
    → get (run_in_workspace now name workspace config generate_report disk).1 p ≡ get disk p
unfolding run_in_workspace get_scenario simulate
get-run_in_workspace now name workspace config generate_report disk p h =
    elim (Option-cases (get_scenario name)) [
      | inl e ↦ rw (run_in_workspace, e) refl
      | inr (s, e) ↦ rw (run_in_workspace_lem now name workspace config generate_report disk s e) (
          get-finish now config workspace generate_report (simulate s config) _ p (
            get-All (ReportTouched workspace p) scenarios name s
              (scenarios-ReportTouched workspace p h) e)
          ∙ rw
              (
                get-put (remove_all disk (candidates workspace)) (db_path workspace) p
                    (kept (simulate s config)),
                h.0,
              )
              (get-remove_all disk (candidates workspace) p
                (h.0, (h.1.0, (h.1.1.0, (h.1.1.1.0, tt))))))
    ]

-- The files of the agent itself under a data root.
abbrev pub agent_files : FilePath → List FilePath
agent_files root =
    database_path root
    ∷ log_file_path root
    ∷ heartbeat_file_path root
    ∷ join (reports_dir root) "report.html"
    ∷ []

agent_files-NoneOf :
    (workspace root : FilePath) → All (λ p. NoneOf p (touched workspace)) (agent_files root)
unfolding same_path scenario_names scenarios
agent_files-NoneOf workspace root = ground arith

-- Whatever files there are, of an earlier run or of the agent, and wherever the workspace is: a run
-- with its files gives back what the simulation on new tables gives, unless its report raises; and the
-- database, the log, the heartbeat file and the report of the agent stay as they are.
pub run_in_workspace-Isolated :
    (now : Time) (name : String) (workspace root : FilePath) (config : Config)
    (generate_report : Bool) (disk : Disk)
    → ((run_in_workspace now name workspace config generate_report disk).0
        ≡ (run_simulation name config >>= reported now config generate_report))
      × All
          (λ p.
            get (run_in_workspace now name workspace config generate_report disk).1 p ≡ get disk p)
          (agent_files root)
unfolding run_in_workspace run_simulation
run_in_workspace-Isolated now name workspace root config generate_report disk = (
  elim (Option-cases (get_scenario name)) [
    | inl e ↦ rw (run_in_workspace, run_simulation, e) refl
    | inr (s, e) ↦
        rw
          (
            run_in_workspace_lem now name workspace config generate_report disk s e,
            run_simulation,
            e,
          )
          (finish-reported now config workspace generate_report (simulate s config) _)
  ],
  All-map (λ p. NoneOf p (touched workspace)) _ (agent_files root)
      (get-run_in_workspace now name workspace config generate_report disk)
      (agent_files-NoneOf workspace root),
)
