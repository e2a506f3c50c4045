-- ===== src/Agent/Config.antt =====
-- The configuration that the agent runs with, agent/config.py, after it has been validated. Counts
-- of seconds, minutes and hours are whole, as the dataclass declares them; the thresholds are
-- readings in thousandths.
pub mod Load
pub mod Validate
pub mod Sound
pub mod Raises
pub mod Source
use pc_diagnostic_agent.Prelude.{ℕ, String}
use pc_diagnostic_agent.Prelude.Int.{ℤ, pos}

pub record Config : Type 0 where
  pub collection_interval_seconds : ℕ
  pub low_frequency_interval_seconds : ℕ
  pub retention_hours : ℕ
  pub incident_window_before_minutes : ℕ
  pub incident_window_after_minutes : ℕ
  pub temperature_warning_celsius : ℤ
  pub temperature_critical_celsius : ℤ
  pub cpu_warning_percent : ℤ
  pub cpu_critical_percent : ℤ
  pub memory_warning_percent : ℤ
  pub memory_critical_percent : ℤ
  pub disk_warning_percent : ℤ
  pub disk_free_gb_warning : ℤ
  pub logging_level : String

-- `Config()`.
abbrev pub default_config : Config
default_config = record {
  collection_interval_seconds = 30;
  low_frequency_interval_seconds = 300;
  retention_hours = 24;
  incident_window_before_minutes = 30;
  incident_window_after_minutes = 5;
  temperature_warning_celsius = pos 85000;
  temperature_critical_celsius = pos 95000;
  cpu_warning_percent = pos 90000;
  cpu_critical_percent = pos 98000;
  memory_warning_percent = pos 90000;
  memory_critical_percent = pos 95000;
  disk_warning_percent = pos 90000;
  disk_free_gb_warning = pos 5000;
  logging_level = "INFO";
}
