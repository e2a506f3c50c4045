-- ===== src/Agent/Lifecycle/Core.antt =====
-- The part of the tables that the well-formedness is about, and the operations that leave it alone:
-- storage/database.py, storage/retention.py and collectors/windows_events.py.
use pc_diagnostic_agent.Prelude.{
  ℕ, zero, suc, ◌≤◌, ◌≡◌, refl, sym, ap, subst, ◌∙◌, String, List, [], ◌∷◌, All, arith,
}
use pc_diagnostic_agent.Prelude.Dict.{Dict}
use pc_diagnostic_agent.Storage.Rows.{Value, Session, FindingRow, IncidentRow}
use pc_diagnostic_agent.Storage.Tables.{Database}
use pc_diagnostic_agent.Storage.Valid.{IsValid}
use pc_diagnostic_agent.Storage.Metrics.{Snapshot, insert_table, insert_snapshot}
use pc_diagnostic_agent.Storage.Events.{insert_events}
use pc_diagnostic_agent.Storage.State.{set_state}
use pc_diagnostic_agent.Storage.Retention.{prune_metrics}
use pc_diagnostic_agent.Storage.Retention.Kept.{prune_metrics_rows}
use pc_diagnostic_agent.Collectors.WindowsEvents.{LogRecord, EventLog, store_records, collect}

pub record Core : Type 0 where
  pub sessions : List Session
  pub last_session : ℕ
  pub incidents : List IncidentRow
  pub last_incident : ℕ
  pub findings : List FindingRow
  pub last_finding : ℕ

abbrev pub core : Database → Core
core db = record {
  sessions = db.sessions;
  last_session = db.last_session;
  incidents = db.incidents;
  last_incident = db.last_incident;
  findings = db.findings;
  last_finding = db.last_finding;
}

record IsValidCore (c : Core) : Type 0 where
  sessions : All (λ (s : Session). s.session_id ≤ c.last_session) c.sessions
  incidents : All (λ (i : IncidentRow). i.incident_id ≤ c.last_incident) c.incidents
  findings : All (λ (f : FindingRow). f.incident_id ≤ c.last_incident) c.findings
  finding_ids : All (λ (f : FindingRow). f.finding_id ≤ c.last_finding) c.findings

-- The well-formedness is that of the core.
pub IsValid-core : (a b : Database) → core b ≡ core a → IsValid a → IsValid b
IsValid-core a b e v =
    let c = subst IsValidCore (sym e) (record {
      sessions = v.sessions;
      incidents = v.incidents;
      findings = v.findings;
      finding_ids = v.finding_ids;
    }) in
    record {
      sessions = c.sessions;
      incidents = c.incidents;
      findings = c.findings;
      finding_ids = c.finding_ids;
    }

core-insert_table :
    (now session_id : ℕ) (table : String) (rows : List (Dict String Value)) (db : Database)
    → core (insert_table now session_id table rows db).1 ≡ core db
unfolding insert_table
core-insert_table now session_id table rows db = ground arith

pub core-insert_snapshot :
    (snapshot : Snapshot) (now session_id : ℕ) (db : Database)
    → core (insert_snapshot snapshot now session_id db).1 ≡ core db
unfolding insert_snapshot
core-insert_snapshot [] now session_id db = refl
core-insert_snapshot ((table, rows) ∷ snapshot) now session_id db =
    core-insert_snapshot snapshot now session_id (insert_table now session_id table rows db).1
    ∙ core-insert_table now session_id table rows db

pub core-prune_metrics :
    (now retention_hours : ℕ) (db : Database)
    → core (prune_metrics now retention_hours db).1 ≡ core db
unfolding prune_metrics
core-prune_metrics now zero db = refl
core-prune_metrics now (suc h) db = ap core (prune_metrics_rows now h db).1

pub core-store_records :
    (clock session_id last_id last_ts : ℕ) (records : List LogRecord) (db : Database)
    → core (store_records clock session_id last_id last_ts records db) ≡ core db
unfolding store_records set_state insert_events
core-store_records clock session_id last_id last_ts [] db = refl
core-store_records clock session_id last_id last_ts (rec ∷ recs) db = refl

pub core-collect :
    (clock session_id : ℕ) (log : EventLog) (db : Database)
    → core (collect clock session_id log db) ≡ core db
unfolding collect
core-collect clock session_id log db = core-store_records clock session_id _ _ _ db
