-- ===== src/Storage/Valid.antt =====
-- The well-formedness of the tables: the automatic ids are bounded by their counters, so that a new
-- id is fresh, and a finding belongs to an incident.
use pc_diagnostic_agent.Prelude.{◌≤◌, All}
use pc_diagnostic_agent.Storage.Rows.{Session, FindingRow, IncidentRow}
use pc_diagnostic_agent.Storage.Tables.{Database, new_database}

pub record IsValid (db : Database) : Type 0 where
  pub sessions : All (λ (s : Session). s.session_id ≤ db.last_session) db.sessions
  pub incidents : All (λ (i : IncidentRow). i.incident_id ≤ db.last_incident) db.incidents
  pub findings : All (λ (f : FindingRow). f.incident_id ≤ db.last_incident) db.findings
  pub finding_ids : All (λ (f : FindingRow). f.finding_id ≤ db.last_finding) db.findings

pub new_database-IsValid : IsValid new_database
new_database-IsValid = record { sessions = tt; incidents = tt; findings = tt; finding_ids = tt }
