-- ===== src/Storage/Rows.antt =====
-- The rows of the tables that storage/migrations.py declares, and the values that they hold.
-- Times are whole milliseconds since the epoch and readings are whole thousandths, where the
-- source has floats. The automatic `id` of events and metric rows, which nothing reads, is left out.
use pc_diagnostic_agent.Prelude.{ℕ, ◌*◌, String, Bool, Option, List}
use pc_diagnostic_agent.Prelude.Int.{ℤ}
use pc_diagnostic_agent.Prelude.Dict.{Dict}

-- A point in time, or a length of time.
abbrev pub Time : Type 0
Time = ℕ

abbrev pub seconds : ℕ → Time
seconds n = n * 1000

abbrev pub minutes : ℕ → Time
minutes n = n * 60000

abbrev pub hours : ℕ → Time
hours n = n * 3600000

-- A value that a collector hands over: `object` stands for one that sqlite3 cannot bind, such as a
-- list, and no column of a stored row holds one.
pub data Value : Type 0 where
  null : Value
  num : ℤ → Value
  text : String → Value
  object : Value

-- What the `event_id` of an event may be: missing, a number (negative where the classic API sets
-- the high bit), or a value that `int` refuses.
pub data RawId : Type 0 where
  absent : RawId
  int : ℤ → RawId
  not_an_int : RawId

pub record MetricRow : Type 0 where
  pub timestamp : Time
  pub session_id : ℕ
  pub values : Dict String Value

pub record Session : Type 0 where
  pub session_id : ℕ
  pub boot_time : Time
  pub previous_boot_time : Option Time
  pub uptime_before_boot : Option ℤ
  pub previous_session_clean : Option Bool
  pub unexpected_shutdown : Option Bool
  pub kernel_power_detected : Option Bool
  pub bugcheck_detected : Option Bool
  pub created_at : Time

-- The part of an event that does not depend on where it is.
pub record EventFields : Type 0 where
  pub provider : Option String
  pub event_id : RawId
  pub level : Option ℤ
  pub channel : Option String
  pub record_id : Option ℤ
  pub message : Option String
  pub computer : Option String
  pub process_id : Option ℤ
  pub thread_id : Option ℤ

-- An event as a collector hands it over, and as the table holds it.
pub record EventInput : Type 0 where
  pub timestamp : Option Time
  pub fields : EventFields
  pub open fields use *

pub record Event : Type 0 where
  pub timestamp : Time
  pub session_id : ℕ
  pub fields : EventFields
  pub open fields use *

pub data Level : Type 0 where
  low medium high : Level

pub data IncidentType : Type 0 where
  hard_hang bsod unexpected_reboot power_loss unknown : IncidentType

pub data FindingType : Type 0 where
  hard_hang power_loss hardware driver thermal memory cpu disk gpu insufficient crash : FindingType

-- A line of evidence. The source keeps the formatted text; here the line keeps what it tells.
pub data EvidenceLine : Type 0 where
  kernel_power bugcheck bugcheck_event : EvidenceLine
  kernel_power_present no_clean_shutdown : EvidenceLine
  no_clean_shutdown_event unclean_reboot no_bugcheck : EvidenceLine
  whea_errors disk_errors display_errors : ℕ → EvidenceLine
  whea_events disk_error_events display_error_events : ℕ → EvidenceLine
  diagnostics_stopped : Time → EvidenceLine
  temperature_reached memory_peaked cpu_peaked : ℤ → EvidenceLine
  max_temperature max_ram max_cpu : ℤ → EvidenceLine

pub record Finding : Type 0 where
  pub type : FindingType
  pub severity : Level
  pub confidence : Level
  pub evidence : List EvidenceLine
  pub timestamp : Option Time
  pub explanation : String

pub record FindingRow : Type 0 where
  pub finding_id : ℕ
  pub incident_id : ℕ
  pub finding : Finding
  pub open finding use *

pub record Incident : Type 0 where
  pub detected_at : Time
  pub incident_type : IncidentType
  pub confidence : Level
  pub previous_session_id : Option ℕ
  pub last_metric_timestamp : Option Time
  pub reboot_timestamp : Time
  pub duration_estimate : Option Time
  pub findings : List FindingType
  pub evidence : List EvidenceLine

pub record IncidentRow : Type 0 where
  pub incident_id : ℕ
  pub incident : Incident
  pub open incident use *

pub record Heartbeat : Type 0 where
  pub timestamp : Time
  pub updated_at : Time

-- The text of a value of the agent's state: Python's `str` of a whole number or of a time in seconds,
-- the only texts that the agent stores there. The model keeps what was printed.
pub data StateText : Type 0 where
  str_int : ℕ → StateText
  str_float : Time → StateText

pub record StateEntry : Type 0 where
  pub value : StateText
  pub updated_at : Time
