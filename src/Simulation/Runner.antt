-- ===== src/Simulation/Runner.antt =====
-- `run_simulation`, simulation/runner.py: the engine that the agent runs, on the tables of a scenario.
-- Here the tables are new ones in each run; Workspace has the files of a run.
pub mod Signals
pub mod Expected
use pc_diagnostic_agent.Prelude.{ℕ, String, true, Option, none, some, List, [], ◌∷◌}
use pc_diagnostic_agent.Storage.Rows.{Time, IncidentType, Level}
use pc_diagnostic_agent.Storage.Tables.{Database, new_database}
use pc_diagnostic_agent.Storage.Metrics.{Snapshot, insert_snapshot}
use pc_diagnostic_agent.Storage.Events.{insert_events}
use pc_diagnostic_agent.Storage.Sessions.{create_session}
use pc_diagnostic_agent.Storage.State.{update_heartbeat}
use pc_diagnostic_agent.Agent.Config.{Config}
use pc_diagnostic_agent.Diagnostics.BootDetector.{BootResult, detect_boot}
use pc_diagnostic_agent.Diagnostics.Diagnosis.Engine.{Diagnosis, boot_facts, run_diagnosis}
use pc_diagnostic_agent.Simulation.Scenarios.{Scenario}
use pc_diagnostic_agent.Simulation.Scenarios.Table.{get_scenario}

-- The two loops of `_seed`.
unfoldable pub seed_snapshots : ℕ → List (Time × Snapshot) → Database → Database
seed_snapshots prev_id [] db = db
seed_snapshots prev_id ((ts, snapshot) ∷ snapshots) db =
    seed_snapshots prev_id snapshots (insert_snapshot snapshot ts prev_id db).1

unfoldable pub seed_heartbeats : List Time → Database → Database
seed_heartbeats [] db = db
seed_heartbeats (hb ∷ heartbeats) db = seed_heartbeats heartbeats (update_heartbeat hb db)

-- `_seed`.
unfoldable pub seed : Scenario → Database → Database
seed scenario db =
    let (prev_id, db₁) = create_session scenario.prev_boot scenario.prev_boot db in
    seed_heartbeats scenario.heartbeats
      (seed_snapshots prev_id scenario.snapshots (insert_events scenario.events prev_id db₁).1)

-- The dictionary that is returned, and the tables at the end of the run.
pub record Simulated : Type 0 where
  pub diagnosis : Diagnosis
  pub scenario : Scenario
  pub boot_result : BootResult
  pub db : Database

-- The run on the tables of the connection.
unfoldable pub simulate_on : Scenario → Config → Database → Simulated
simulate_on scenario config db =
    let (boot_result, db₁) =
      detect_boot scenario.boot (some scenario.boot) none (seed scenario db) in
    let (diagnosis, db₂) = run_diagnosis db₁ (boot_facts boot_result) config true in
    record { diagnosis = diagnosis; scenario = scenario; boot_result = boot_result; db = db₂ }

unfoldable pub simulate : Scenario → Config → Simulated
unfolding simulate_on
simulate scenario config = simulate_on scenario config new_database

-- `none` is the KeyError of a name that is no scenario's.
unfoldable pub run_simulation : String → Config → Option Simulated
run_simulation scenario_type config = elim (get_scenario scenario_type) [
  | none ↦ none
  | some scenario ↦ some (simulate scenario config)
]

unfoldable pub expected_outcome : String → Option (Option (IncidentType × Level))
expected_outcome scenario_type = elim (get_scenario scenario_type) [
  | none ↦ none
  | some scenario ↦ some scenario.expected
]
