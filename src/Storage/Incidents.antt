-- ===== src/Storage/Incidents.antt =====
-- The incident and finding operations of `Database`, storage/database.py.
pub mod Stored
use pc_diagnostic_agent.Prelude.{ℕ, suc, Option, List, [], ◌∷◌, ◌++◌, ◌==◌, head?, where_rows, take}
use pc_diagnostic_agent.Prelude.Sort.{sort_by, up, down}
use pc_diagnostic_agent.Storage.Rows.{Finding, FindingRow, Incident, IncidentRow}
use pc_diagnostic_agent.Storage.Tables.{Database}

unfoldable pub insert_findings : ℕ → List Finding → Database → Database
insert_findings incident_id [] db = db
insert_findings incident_id (f ∷ fs) db =
    let finding_id = suc db.last_finding in
    insert_findings incident_id fs (record db {
      findings =
          db.findings
          ++ record { finding_id = finding_id; incident_id = incident_id; finding = f } ∷ [];
      last_finding = finding_id;
    })

unfoldable pub create_incident : Incident → List Finding → Database → ℕ × Database
create_incident incident findings db =
    let incident_id = suc db.last_incident in
    (
      incident_id,
      insert_findings incident_id findings (record db {
        incidents = db.incidents ++ record { incident_id = incident_id; incident = incident } ∷ [];
        last_incident = incident_id;
      }),
    )

unfoldable pub list_incidents : ℕ → Database → List IncidentRow
list_incidents limit db = take limit (sort_by (down (λ i. i.incident_id)) db.incidents)

unfoldable pub get_incident : ℕ → Database → Option IncidentRow
get_incident incident_id db =
    head? (where_rows (λ (i : IncidentRow). i.incident_id == incident_id) db.incidents)

unfoldable pub list_findings : ℕ → Database → List FindingRow
list_findings incident_id db =
    sort_by (up (λ f. f.finding_id))
      (where_rows (λ (f : FindingRow). f.incident_id == incident_id) db.findings)
