-- ===== src/Reports/Chosen.antt =====
-- Which incident a report is about, `generate_report` of reports/report_generator.py.
use pc_diagnostic_agent.Prelude.{ℕ, ◌≡◌, refl, sym, subst, [], Option, none, some, List, map}
use pc_diagnostic_agent.Storage.Rows.{Finding, FindingRow, Incident, IncidentRow}
use pc_diagnostic_agent.Storage.Tables.{Database}
use pc_diagnostic_agent.Storage.Valid.{IsValid}
use pc_diagnostic_agent.Storage.Incidents.{create_incident}
use pc_diagnostic_agent.Storage.Incidents.Stored.{IsStored, incident_row, create_incident-IsStored}
use pc_diagnostic_agent.Reports.{chosen, or_newest}

-- A report shows the incident with its findings.
abbrev pub Shows : ℕ → Incident → List Finding → Option IncidentRow × List FindingRow → Type 0
Shows id incident fs shown =
    (shown.0 ≡ some (incident_row id incident)) × (map (λ (f : FindingRow). f.finding) shown.1 ≡ fs)

stored-Shows :
    (id : ℕ) (incident : Incident) (fs : List Finding) (db : Database)
    → IsStored id incident fs db
    → Shows id incident fs (chosen (some id) db) × Shows id incident fs (chosen none db)
unfolding chosen
stored-Shows id incident fs db h = (
  rw (chosen, h.by_id) (refl, h.its_findings),
  subst (λ o. Shows id incident fs (or_newest o [] db)) (sym (h.is_newest 0))
      (refl, h.its_findings),
)

-- After an incident is stored in well-formed tables, a report for its id and a report for no id both
-- show it, with its findings in their order.
pub chosen-create_incident :
    (incident : Incident) (fs : List Finding) (db : Database)
    → IsValid db
    → Shows
        (create_incident incident fs db).0
        incident
        fs
        (chosen (some (create_incident incident fs db).0) (create_incident incident fs db).1)
      × Shows
          (create_incident incident fs db).0
          incident
          fs
          (chosen none (create_incident incident fs db).1)
chosen-create_incident incident fs db valid =
    stored-Shows (create_incident incident fs db).0 incident fs (create_incident incident fs db).1
      (create_incident-IsStored incident fs db valid)
