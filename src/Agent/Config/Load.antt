-- ===== src/Agent/Config/Load.antt =====
-- The loading of the configuration, agent/config.py: `from_dict`, `validated` and `load_config`, over the
-- values that `yaml.safe_load` gives.
use pc_diagnostic_agent.Prelude.{String, Bool, none, some, []}
use pc_diagnostic_agent.Prelude.Int.{ℤ, pos}
use pc_diagnostic_agent.Prelude.Dict.{Dict, get, string_eq}

-- A float: in thousandths, without rounding, or one of `.inf`, `-.inf` and `.nan`.
pub data Float : Type 0 where
  finite : ℤ → Float
  inf neg_inf nan : Float

-- A value that is no mapping, or one that the code only sees as such.
pub data Scalar : Type 0 where
  null : Scalar
  bool : Bool → Scalar
  int : ℤ → Scalar
  float : Float → Scalar
  str : String → Scalar
  other : Scalar

-- A value of the document: a mapping inside a mapping is `other`.
pub data Node : Type 0 where
  scalar : Scalar → Node
  mapping : Dict String Scalar → Node

-- The fields of `Config` before and after validation, which may hold any value.
pub record RawConfig : Type 0 where
  pub collection_interval_seconds : Scalar
  pub low_frequency_interval_seconds : Scalar
  pub retention_hours : Scalar
  pub incident_window_before_minutes : Scalar
  pub incident_window_after_minutes : Scalar
  pub temperature_warning_celsius : Scalar
  pub temperature_critical_celsius : Scalar
  pub cpu_warning_percent : Scalar
  pub cpu_critical_percent : Scalar
  pub memory_warning_percent : Scalar
  pub memory_critical_percent : Scalar
  pub disk_warning_percent : Scalar
  pub disk_free_gb_warning : Scalar
  pub logging_level : Scalar

-- `cls()`.
abbrev pub raw_default : RawConfig
raw_default = record {
  collection_interval_seconds = Scalar.int (pos 30);
  low_frequency_interval_seconds = Scalar.int (pos 300);
  retention_hours = Scalar.int (pos 24);
  incident_window_before_minutes = Scalar.int (pos 30);
  incident_window_after_minutes = Scalar.int (pos 5);
  temperature_warning_celsius = Scalar.float (Float.finite (pos 85000));
  temperature_critical_celsius = Scalar.float (Float.finite (pos 95000));
  cpu_warning_percent = Scalar.float (Float.finite (pos 90000));
  cpu_critical_percent = Scalar.float (Float.finite (pos 98000));
  memory_warning_percent = Scalar.float (Float.finite (pos 90000));
  memory_critical_percent = Scalar.float (Float.finite (pos 95000));
  disk_warning_percent = Scalar.float (Float.finite (pos 90000));
  disk_free_gb_warning = Scalar.float (Float.finite (pos 5000));
  logging_level = Scalar.str "INFO";
}

abbrev pub as_scalar : Node → Scalar
as_scalar (Node.scalar s) = s
as_scalar (Node.mapping d) = Scalar.other

abbrev pub unless_null : Scalar → Scalar → Scalar
unless_null old Scalar.null = old
unless_null old s = s

-- `if key in data and data[key] is not None`, at the top and in `thresholds`.
unfoldable pub top_level : Dict String Node → String → Scalar → Scalar
top_level loaded key old = elim (get loaded key) [
  | none ↦ old
  | some node ↦ unless_null old (as_scalar node)
]

unfoldable pub threshold : Dict String Scalar → String → Scalar → Scalar
threshold loaded key old = elim (get loaded key) [ none ↦ old | some s ↦ unless_null old s ]

-- `if key in data`, in `temperature` and `logging`: a null is taken too.
unfoldable pub present : Dict String Scalar → String → Scalar → Scalar
present loaded key old = elim (get loaded key) [ none ↦ old | some s ↦ s ]

-- `data.get(key) or {}`, which counts only where it is a mapping.
unfoldable pub section : Dict String Node → String → Dict String Scalar
section loaded key = elim (get loaded key) [
  | none ↦ []
  | some node ↦ elim node [ scalar s ↦ [] | mapping d ↦ d ]
]

unfoldable pub from_dict : Dict String Node → RawConfig
from_dict loaded =
    let temperature = section loaded "temperature" in
    let thresholds = section loaded "thresholds" in
    let d = raw_default in
    record {
      collection_interval_seconds =
          top_level loaded "collection_interval_seconds" d.collection_interval_seconds;
      low_frequency_interval_seconds =
          top_level loaded "low_frequency_interval_seconds" d.low_frequency_interval_seconds;
      retention_hours = top_level loaded "retention_hours" d.retention_hours;
      incident_window_before_minutes =
          top_level loaded "incident_window_before_minutes" d.incident_window_before_minutes;
      incident_window_after_minutes =
          top_level loaded "incident_window_after_minutes" d.incident_window_after_minutes;
      temperature_warning_celsius =
          present temperature "warning_celsius" d.temperature_warning_celsius;
      temperature_critical_celsius =
          present temperature "critical_celsius" d.temperature_critical_celsius;
      cpu_warning_percent = threshold thresholds "cpu_warning_percent" d.cpu_warning_percent;
      cpu_critical_percent = threshold thresholds "cpu_critical_percent" d.cpu_critical_percent;
      memory_warning_percent =
          threshold thresholds "memory_warning_percent" d.memory_warning_percent;
      memory_critical_percent =
          threshold thresholds "memory_critical_percent" d.memory_critical_percent;
      disk_warning_percent = threshold thresholds "disk_warning_percent" d.disk_warning_percent;
      disk_free_gb_warning = threshold thresholds "disk_free_gb_warning" d.disk_free_gb_warning;
      logging_level = present (section loaded "logging") "level" d.logging_level;
    }
