-- ===== src/Storage/Tables.antt =====
-- The tables of the database, which are the state of `Database` (storage/database.py).
use pc_diagnostic_agent.Prelude.{ℕ, String, Option, none, List, []}
use pc_diagnostic_agent.Prelude.Dict.{Dict}
use pc_diagnostic_agent.Storage.Rows.{
  MetricRow, Session, Event, FindingRow, IncidentRow, Heartbeat, StateEntry,
}

-- The tables. The `last_…` fields are the AUTOINCREMENT counters of sqlite_sequence.
pub record Database : Type 0 where
  pub sessions : List Session
  pub last_session : ℕ
  pub events : List Event
  pub metrics : Dict String (List MetricRow)
  pub incidents : List IncidentRow
  pub last_incident : ℕ
  pub findings : List FindingRow
  pub last_finding : ℕ
  pub heartbeat : Option Heartbeat
  pub agent_state : Dict String StateEntry

abbrev pub new_database : Database
new_database = record {
  sessions = [];
  last_session = 0;
  events = [];
  metrics = [];
  incidents = [];
  last_incident = 0;
  findings = [];
  last_finding = 0;
  heartbeat = none;
  agent_state = [];
}
