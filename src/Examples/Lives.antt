-- ===== src/Examples/Lives.antt =====
-- The theorems on what the agent can reach at concrete sequences of operations: agent/lifecycle.py.
use pc_diagnostic_agent.Prelude.{some, [], ◌∷◌}
use pc_diagnostic_agent.Storage.Tables.{Database, new_database}
use pc_diagnostic_agent.Agent.Config.{default_config}
use pc_diagnostic_agent.Agent.Lifecycle.{startup_analysis}
use pc_diagnostic_agent.Agent.Lifecycle.Reachable.{Reachable, startup_analysis-Reachable}
use pc_diagnostic_agent.Agent.Lifecycle.IncidentsApart.{AllApart, Reachable-AllApart}
use pc_diagnostic_agent.Examples.{first_boot_time, second_boot_time}
use pc_diagnostic_agent.Examples.Logs.{log_record}
use pc_diagnostic_agent.Collectors.WindowsEvents.Cursor.{log_of}

-- Two boots, with an event 6008 in the log of the second.
abbrev after_first : Database
after_first =
    (startup_analysis first_boot_time (some first_boot_time) (log_of []) default_config
      new_database).2

abbrev after_second : Database
after_second =
    (startup_analysis second_boot_time (some second_boot_time)
      (log_of ((log_record 9 second_boot_time, []) ∷ [])) default_config after_first).2

second_reachable : Reachable after_second
second_reachable =
    startup_analysis-Reachable second_boot_time (some second_boot_time)
      (log_of ((log_record 9 second_boot_time, []) ∷ [])) default_config after_first
      (startup_analysis-Reachable first_boot_time (some first_boot_time) (log_of []) default_config
        new_database Reachable.new)

Reachable-AllApart_example : AllApart after_second.incidents
Reachable-AllApart_example = Reachable-AllApart after_second second_reachable
