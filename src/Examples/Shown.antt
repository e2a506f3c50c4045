-- ===== src/Examples/Shown.antt =====
-- The theorems on the report at concrete incidents: reports/report_generator.py.
use pc_diagnostic_agent.Prelude.{◌≡◌, refl, none, some, [], ◌∷◌}
use pc_diagnostic_agent.Storage.Rows.{FindingRow}
use pc_diagnostic_agent.Storage.Incidents.{create_incident}
use pc_diagnostic_agent.Reports.{causes, gathered, chosen, escape}
use pc_diagnostic_agent.Reports.Chosen.{Shows, chosen-create_incident}
use pc_diagnostic_agent.Examples.{crashed, session_with-IsValid, power_event}
use pc_diagnostic_agent.Examples.Tables.{hang, hang_finding}
use text.Mathlib.Text.{◌==◌ as str_eq}

abbrev hang_row : FindingRow
hang_row = record { finding_id = 1; incident_id = 1; finding = hang_finding }

-- The same finding twice.
causes_test :
    causes (hang_row ∷ hang_row ∷ []) ≡ "A hard hang (system froze, no BSOD) is likely." ∷ []
unfolding causes pc_diagnostic_agent.Reports.add_keys gathered
causes_test = refl

chosen-create_incident_example :
    Shows (create_incident hang (hang_finding ∷ []) crashed).0 hang (hang_finding ∷ []) (
      chosen
        (some (create_incident hang (hang_finding ∷ []) crashed).0)
        (create_incident hang (hang_finding ∷ []) crashed).1)
    × Shows
        (create_incident hang (hang_finding ∷ []) crashed).0
        hang
        (hang_finding ∷ [])
        (chosen none (create_incident hang (hang_finding ∷ []) crashed).1)
chosen-create_incident_example =
    chosen-create_incident hang (hang_finding ∷ []) crashed
      (session_with-IsValid (power_event ∷ []))
