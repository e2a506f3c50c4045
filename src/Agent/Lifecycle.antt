-- ===== src/Agent/Lifecycle.antt =====
-- The start of the agent, agent/lifecycle.py, and what the running agent does to the tables.
pub mod Core
pub mod Reachable
pub mod IncidentsApart
pub mod Diagnosed
use pc_diagnostic_agent.Prelude.{ℕ, true, Option, none, some}
use pc_diagnostic_agent.Storage.Rows.{Time}
use pc_diagnostic_agent.Storage.Tables.{Database}
use pc_diagnostic_agent.Agent.Config.{Config}
use pc_diagnostic_agent.Collectors.WindowsEvents.{EventLog, collect}
use pc_diagnostic_agent.Diagnostics.BootDetector.{BootResult, detect_boot}
use pc_diagnostic_agent.Diagnostics.Diagnosis.Engine.{Diagnosis, boot_facts, run_diagnosis}

-- `startup_analysis`, without the report: `psutil` is the boot time that psutil answers and `log` the
-- event log.
unfoldable pub startup_analysis :
    Time → Option Time → EventLog → Config → Database → BootResult × Diagnosis × Database
startup_analysis now psutil log config db =
    let (boot, db₁) = detect_boot now none psutil db in
    let db₂ = collect now boot.session_id log db₁ in
    let (result, db₃) = run_diagnosis db₂ (boot_facts boot) config true in (boot, result, db₃)

-- `session_provider`.
abbrev pub session_provider : Option ℕ → ℕ
session_provider none = 1
session_provider (some session_id) = session_id
