-- ===== src/Simulation/Runner/Signals.antt =====
-- What the engine is given in each scenario, simulation/runner.py.
use pc_diagnostic_agent.Prelude.{◌+◌, ◌≡◌, refl, Bool, true, false, Option, none, some}
use pc_diagnostic_agent.Storage.Rows.{Time, seconds}
use pc_diagnostic_agent.Storage.Tables.{Database, new_database}
use pc_diagnostic_agent.Diagnostics.EventAnalyzer.Classify.{classify_event}
use pc_diagnostic_agent.Prelude.Dict.{string_eq, get_or, put}
use pc_diagnostic_agent.Prelude.Sort.{sort_by}
use pc_diagnostic_agent.Simulation.Streams.{sample_loop}
use pc_diagnostic_agent.Storage.Events.{
  events_between, accepted_events, clip, clip_text, insert_events,
}
use pc_diagnostic_agent.Storage.Metrics.{
  accepted_rows, bindable, insert_snapshot, insert_table, metric_rows, select_columns,
}
use pc_diagnostic_agent.Storage.Schema.{metric_columns}
use pc_diagnostic_agent.Storage.Sessions.{create_session, latest_session, update_session}
use pc_diagnostic_agent.Storage.State.{get_heartbeat, update_heartbeat}
use pc_diagnostic_agent.Diagnostics.EventAnalyzer.Summary.{
  summarize, summary_of, tally_events, tally_event,
}
use pc_diagnostic_agent.Agent.Config.{Config}
use pc_diagnostic_agent.Diagnostics.BootDetector.{
  finalise_previous, open_session, reboot, resolve_boot_time, same_boot, detect_boot,
}
use pc_diagnostic_agent.Diagnostics.EventAnalyzer.Category.{
  same_category, kernel_power, bugcheck, shutdown_unexpected,
}
use pc_diagnostic_agent.Diagnostics.Diagnosis.Queries.{
  latest_before, latest_metric, last_metric_timestamp,
}
use pc_diagnostic_agent.Diagnostics.Diagnosis.Engine.{BootFacts, boot_facts}
use pc_diagnostic_agent.Diagnostics.Diagnosis.Engine.Verdict.{saw}
use pc_diagnostic_agent.Simulation.Scenarios.{
  cpu, disk, event, mem, metric_snapshot, process, Scenario, t0,
}
use pc_diagnostic_agent.Simulation.Scenarios.Table.{
  hard_hang_scenario, power_loss_scenario, bsod_scenario, normal_restart_scenario,
}
use pc_diagnostic_agent.Simulation.Runner.{seed_heartbeats, seed_snapshots, seed}

-- The tables and the facts that the engine is given.
abbrev pub tables : Scenario → Database
tables s = (detect_boot s.boot (some s.boot) none (seed s new_database)).1

abbrev pub facts : Scenario → BootFacts
facts s = boot_facts (detect_boot s.boot (some s.boot) none (seed s new_database)).0

-- What decides of an incident: the categories that were logged, whether the session before is known
-- to have ended cleanly, and the last activity.
abbrev pub Signals : Type 0
Signals = Bool × Option Bool × Bool × Bool × Option Time × Time

unfoldable pub signals : Scenario → Config → Signals
unfolding summarize summary_of tally_events tally_event events_between last_metric_timestamp
    get_heartbeat detect_boot latest_session sort_by seed seed_heartbeats sample_loop
    update_heartbeat seed_snapshots insert_snapshot metric_snapshot insert_table metric_columns
    insert_events create_session same_boot reboot resolve_boot_time open_session finalise_previous
    metric_rows get_or put update_session latest_metric latest_before accepted_rows select_columns
    bindable process mem cpu disk event boot_facts same_category classify_event accepted_events clip
    clip_text
signals s config = (
  saw (tables s) (facts s) config bugcheck,
  (facts s).previous_session_clean,
  saw (tables s) (facts s) config kernel_power,
  saw (tables s) (facts s) config shutdown_unexpected,
  last_metric_timestamp (tables s) (facts s).boot_time,
  (facts s).boot_time,
)

pub hard_hang_signals :
    (config : Config)
    → signals hard_hang_scenario config
      ≡ (false, some false, true, false, some (t0 + seconds 1260), t0 + seconds 1560)
unfolding signals hard_hang_scenario
hard_hang_signals config = refl

pub power_loss_signals :
    (config : Config)
    → signals power_loss_scenario config
      ≡ (false, some false, true, false, some (t0 + seconds 1230), t0 + seconds 1260)
unfolding signals power_loss_scenario
power_loss_signals config = refl

pub bsod_signals :
    (config : Config)
    → signals bsod_scenario config
      ≡ (true, some false, false, false, some (t0 + seconds 960), t0 + seconds 1200)
unfolding signals bsod_scenario
bsod_signals config = refl

pub normal_restart_signals :
    (config : Config)
    → signals normal_restart_scenario config
      ≡ (false, some true, false, false, some (t0 + seconds 1470), t0 + seconds 1500)
unfolding signals normal_restart_scenario
normal_restart_signals config = refl
