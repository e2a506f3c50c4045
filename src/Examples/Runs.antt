-- ===== src/Examples/Runs.antt =====
-- The theorems on the simulation and on the command line at concrete inputs: simulation/ and cli/.
use pc_diagnostic_agent.Prelude.{
  ◌+◌, ◌≡◌, ◌↔◌, refl, map, String, Option, none, some, [], ◌∷◌, arith, inl,
}
use pc_diagnostic_agent.Storage.Rows.{seconds, IncidentType, medium}
use pc_diagnostic_agent.Storage.State.{get_heartbeat}
use pc_diagnostic_agent.Agent.Config.{Config, default_config}
use pc_diagnostic_agent.Agent.Scheduler.Cycles.{passes}
use pc_diagnostic_agent.Agent.Lifecycle.{startup_analysis}
use pc_diagnostic_agent.Agent.Lifecycle.Diagnosed.{startup_analysis-diagnose_latest}
use pc_diagnostic_agent.Collectors.WindowsEvents.Cursor.{log_of}
use pc_diagnostic_agent.Diagnostics.BootDetector.{resolve_boot_time}
use pc_diagnostic_agent.Diagnostics.Diagnosis.Engine.{diagnose_latest}
use pc_diagnostic_agent.Diagnostics.Diagnosis.Engine.Verdict.{verdict}
use pc_diagnostic_agent.Simulation.Streams.{stream}
use pc_diagnostic_agent.Simulation.Streams.Rounds.{every, rounds, stream-every}
use pc_diagnostic_agent.Simulation.Runner.{run_simulation, expected_outcome}
use pc_diagnostic_agent.Simulation.Runner.Expected.{
  simulated_verdict, run_simulation-expected_outcome, power_loss-hard_hang,
}
use pc_diagnostic_agent.Cli.Status.{cmd_health}
use pc_diagnostic_agent.Cli.Health.{IsRecent, cmd_health-exit, cmd_health-loop}
use pc_diagnostic_agent.Examples.{
  crashed, first_session, second_boot_time, session_with-IsValid, power_event,
}
use pc_diagnostic_agent.Examples.Boots.{not_zero, latest_test, reboot_test}
use pc_diagnostic_agent.Examples.Logs.{log_record}
use pc_diagnostic_agent.Examples.Agents.{start, wakes}

stream-every_example :
    stream (λ ts. ts) 1000 61_000 ≡ map (λ ts. ts) (every 1000 (rounds 1000 61_000))
stream-every_example = stream-every (λ ts. ts) 1000 61_000

run_simulation-expected_outcome_example :
    simulated_verdict (run_simulation "power-loss" default_config) ≡ expected_outcome "power-loss"
run_simulation-expected_outcome_example =
    run_simulation-expected_outcome "power-loss" default_config (omega arith) (omega arith)

-- One of the three intervals that a configuration may have.
abbrev short_interval : Config
short_interval = record default_config { collection_interval_seconds = 10 }

power_loss-hard_hang_example :
    simulated_verdict (run_simulation "power-loss" short_interval)
    ≡ some (some (IncidentType.hard_hang, medium))
power_loss-hard_hang_example = power_loss-hard_hang short_interval (omega arith) (omega arith)

startup_analysis-diagnose_latest_example :
    verdict (
      diagnose_latest
        (startup_analysis second_boot_time
          (some second_boot_time)
          (log_of ((log_record 9 second_boot_time, []) ∷ []))
          default_config
          crashed).2
        default_config)
    ≡ verdict
        (startup_analysis second_boot_time
          (some second_boot_time)
          (log_of ((log_record 9 second_boot_time, []) ∷ []))
          default_config
          crashed).1
unfolding resolve_boot_time
startup_analysis-diagnose_latest_example =
    startup_analysis-diagnose_latest second_boot_time (some second_boot_time)
      (log_of ((log_record 9 second_boot_time, []) ∷ [])) default_config crashed first_session
      (session_with-IsValid (power_event ∷ [])) latest_test reboot_test not_zero

abbrev no_error : Option String
no_error = none

cmd_health-exit_example :
    ((cmd_health second_boot_time second_boot_time no_error crashed).exit ≡ 0)
    ↔ ((no_error ≡ none) × IsRecent second_boot_time (get_heartbeat crashed))
cmd_health-exit_example = cmd_health-exit second_boot_time second_boot_time no_error crashed

cmd_health-loop_example :
    (cmd_health
      (second_boot_time + seconds 60)
      (second_boot_time + seconds 60)
      none
      (passes wakes (second_boot_time + seconds 2) 1 start).db).exit
    ≡ 0
cmd_health-loop_example =
    cmd_health-loop wakes (second_boot_time + seconds 2) 1 start (second_boot_time + seconds 60)
      (second_boot_time + seconds 60) (λ now session_id db. refl, tt) (omega arith) (omega arith)
      (omega arith, (omega arith, tt)) (omega arith) (inl refl) (omega arith)
