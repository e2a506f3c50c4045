-- ===== src/Simulation/Runner/Expected.antt =====
-- That the engine finds in each scenario what the scenario expects, simulation/runner.py.
use pc_diagnostic_agent.Prelude.{
  inl, inr, Option-cases, ap, ◌∙◌, ◌≤◌, arith, All, ℕ, String, ◌≡◌, refl, true, Option, none, some,
  truthy,
}
use pc_diagnostic_agent.Storage.Rows.{IncidentType, medium}
use pc_diagnostic_agent.Prelude.Dict.{get, get-All, string_eq}
use pc_diagnostic_agent.Agent.Config.{Config}
use pc_diagnostic_agent.Diagnostics.Diagnosis.Engine.Verdict.{
  Verdict, expected_verdict, run_diagnosis-verdict, verdict, gap_verdict,
}
use pc_diagnostic_agent.Simulation.Scenarios.{Scenario}
use pc_diagnostic_agent.Simulation.Scenarios.Table.{
  get_scenario, scenarios, hard_hang_scenario, power_loss_scenario, bsod_scenario,
  normal_restart_scenario,
}
use pc_diagnostic_agent.Simulation.Runner.{Simulated, simulate, run_simulation, expected_outcome}
use pc_diagnostic_agent.Simulation.Runner.Signals.{
  tables, facts, Signals, signals, hard_hang_signals, power_loss_signals, bsod_signals,
  normal_restart_signals,
}

-- The verdict that follows from the signals.
abbrev verdict_from : Signals → ℕ → Verdict
verdict_from (bug, clean, kp41, e6008, last, boot) interval =
    expected_verdict bug (truthy clean) kp41 e6008 (gap_verdict last boot interval)

simulate-verdict :
    (s : Scenario) (config : Config)
    → verdict (simulate s config).diagnosis
      ≡ verdict_from (signals s config) config.collection_interval_seconds
unfolding simulate signals
simulate-verdict s config = run_diagnosis-verdict (tables s) (facts s) config true

-- The scenario's run ends as it expects, or there is no scenario.
abbrev MeetsExpected : Config → Scenario → Type 0
MeetsExpected config s = verdict (simulate s config).diagnosis ≡ s.expected

module _ (config : Config) (h : 16 ≤ config.collection_interval_seconds)
    (k : config.collection_interval_seconds ≤ 60) where
  hard_hang-MeetsExpected : MeetsExpected config hard_hang_scenario
  unfolding hard_hang_scenario
  hard_hang-MeetsExpected =
      simulate-verdict _ config
      ∙ ap (λ g. verdict_from g config.collection_interval_seconds) (hard_hang_signals config)
      ∙ ground arith

  power_loss-MeetsExpected : MeetsExpected config power_loss_scenario
  unfolding power_loss_scenario
  power_loss-MeetsExpected =
      simulate-verdict _ config
      ∙ ap (λ g. verdict_from g config.collection_interval_seconds) (power_loss_signals config)
      ∙ ground arith

  bsod-MeetsExpected : MeetsExpected config bsod_scenario
  unfolding bsod_scenario
  bsod-MeetsExpected =
      simulate-verdict _ config
      ∙ ap (λ g. verdict_from g config.collection_interval_seconds) (bsod_signals config)

  normal_restart-MeetsExpected : MeetsExpected config normal_restart_scenario
  unfolding normal_restart_scenario
  normal_restart-MeetsExpected =
      simulate-verdict _ config
      ∙ ap (λ g. verdict_from g config.collection_interval_seconds) (normal_restart_signals config)

  scenarios-MeetsExpected : All (λ entry. MeetsExpected config entry.1) scenarios
  unfolding scenarios
  scenarios-MeetsExpected = (
    hard_hang-MeetsExpected,
    (power_loss-MeetsExpected, (bsod-MeetsExpected, (normal_restart-MeetsExpected, tt))),
  )

-- The verdict of a run, none for an unknown name.
abbrev pub simulated_verdict : Option Simulated → Option Verdict
simulated_verdict none = none
simulated_verdict (some r) = some (verdict r.diagnosis)

-- With a collection interval of 16 to 60 seconds, the run of each scenario reports the incident, of the
-- type and with the confidence, that the scenario expects, or none where it expects none; a name that
-- is no scenario's has neither a run nor an expectation.
pub run_simulation-expected_outcome :
    (name : String) (config : Config)
    → 16 ≤ config.collection_interval_seconds
    → config.collection_interval_seconds ≤ 60
    → simulated_verdict (run_simulation name config) ≡ expected_outcome name
unfolding get_scenario run_simulation expected_outcome
run_simulation-expected_outcome name config h k = elim (Option-cases (get scenarios name)) [
  | inl e ↦ rw (run_simulation, expected_outcome, get_scenario, e) refl
  | inr (s, e) ↦
      rw (run_simulation, expected_outcome, get_scenario, e)
        (ap some
          (get-All (MeetsExpected config) scenarios name s (scenarios-MeetsExpected config h k) e))
]

-- With a collection interval of 7 to 15 seconds, and so of 10, the power loss is taken for a hard hang.
pub power_loss-hard_hang :
    (config : Config)
    → 7 ≤ config.collection_interval_seconds
    → config.collection_interval_seconds ≤ 15
    → simulated_verdict (run_simulation "power-loss" config)
      ≡ some (some (IncidentType.hard_hang, medium))
unfolding run_simulation get_scenario get
power_loss-hard_hang config h k = ap some (
    simulate-verdict _ config
    ∙ ap (λ g. verdict_from g config.collection_interval_seconds) (power_loss_signals config)
    ∙ ground arith)
