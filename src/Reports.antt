-- ===== src/Reports.antt =====
-- What the report is made of, reports/report_generator.py: here the choice of the incident, the causes
-- and the next steps, and the escaping of text; the sections and the timeline are modules below. The
-- HTML and the file are left out.
pub mod Once
pub mod Chosen
pub mod Timeline
pub mod Sections
use pc_diagnostic_agent.Prelude.{
  ℕ, String, Bool, ◌||◌, Option, none, some, List, [], ◌∷◌, ◌++◌, map, any, ◌==◌, if◌then◌else◌,
  head?,
}
use pc_diagnostic_agent.Prelude.Text.{codes}
use pc_diagnostic_agent.Storage.Rows.{FindingType, FindingRow, IncidentRow}
use pc_diagnostic_agent.Storage.Tables.{Database}
use pc_diagnostic_agent.Storage.Incidents.{list_incidents, get_incident, list_findings}
use text.Mathlib.Text.{◌==◌ as str_eq}

-- CAUSE_HINTS, which has a hint for each type of finding.
abbrev pub cause_hints : FindingType → List String
cause_hints FindingType.hard_hang = "A hard hang (system froze, no BSOD) is likely." ∷ []
cause_hints FindingType.power_loss = "Power was likely interrupted abruptly." ∷ []
cause_hints FindingType.hardware = "A hardware-level fault (WHEA) may be present." ∷ []
cause_hints FindingType.driver = "A device driver may be misbehaving." ∷ []
cause_hints FindingType.thermal = "Overheating may have occurred." ∷ []
cause_hints FindingType.memory = "The system may have been under memory pressure." ∷ []
cause_hints FindingType.cpu = "The system may have been under CPU load." ∷ []
cause_hints FindingType.disk = "A storage device or driver may be failing." ∷ []
cause_hints FindingType.gpu = "The GPU or its driver may be failing." ∷ []
cause_hints FindingType.crash = "A blue screen (BugCheck) was recorded." ∷ []
cause_hints FindingType.insufficient = "Not enough evidence to propose a cause." ∷ []

-- NEXT_STEPS, which has none for the load of the processor.
abbrev pub next_steps : FindingType → List String
next_steps FindingType.hard_hang =
    "Review the timeline for the last activity before the freeze."
    ∷ "Check for driver updates (GPU, chipset, storage)." ∷ "Run memory and disk diagnostics."
    ∷ "Inspect power delivery if it recurs." ∷ []
next_steps FindingType.power_loss =
    "Check the PSU and power connections."
    ∷ "Verify the machine is not on a failing UPS/surge strip." ∷ "Review Kernel-Power 41 details."
    ∷ []
next_steps FindingType.hardware =
    "Review WHEA events for the faulty component." ∷ "Run manufacturer hardware diagnostics."
    ∷ "Test RAM (memtest) and CPU under load." ∷ []
next_steps FindingType.driver =
    "Update the offending driver." ∷ "Check for known driver issues for the installed version." ∷ []
next_steps FindingType.thermal =
    "Check cooling, fans, and thermal paste." ∷ "Ensure airflow is not blocked." ∷ []
next_steps FindingType.memory =
    "Identify the top memory consumers." ∷ "Consider increasing RAM or reducing workload." ∷ []
next_steps FindingType.cpu = []
next_steps FindingType.disk =
    "Check SMART data and replace failing storage." ∷ "Check the storage driver and cable." ∷ []
next_steps FindingType.gpu =
    "Reinstall/update the GPU driver." ∷ "Check GPU temperatures and seating." ∷ []
next_steps FindingType.crash =
    "Analyse the BugCheck code and the offending module."
    ∷ "Update or roll back the implicated driver." ∷ []
next_steps FindingType.insufficient =
    "Keep the agent running and reproduce the issue." ∷ "Collect more data over a longer period."
    ∷ []

-- The loop over the findings that extends a list by what a table has for each.
unfoldable pub gathered : (FindingType → List String) → List FindingRow → List String
gathered table [] = []
gathered table (f ∷ fs) = table f.type ++ gathered table fs

-- `list(dict.fromkeys(…))`: a key that is there keeps its place.
unfoldable pub add_keys : List String → List String → List String
add_keys keys [] = keys
add_keys keys (s ∷ texts) =
    add_keys (if any (λ k. str_eq k s) keys then keys else keys ++ s ∷ []) texts

abbrev pub or_text : List String → String → List String
or_text [] default = default ∷ []
or_text (s ∷ texts) default = s ∷ texts

-- The items of `_causes_section` and of `_next_steps_section`.
unfoldable pub causes : List FindingRow → List String
causes findings =
    or_text (add_keys [] (gathered cause_hints findings)) "No probable cause could be determined."

unfoldable pub steps : List FindingRow → List String
steps findings =
    or_text (add_keys [] (gathered next_steps findings))
      "Continue monitoring with the agent installed."

-- The newest incident with its findings, or what there was where there is none.
abbrev pub or_newest :
    Option IncidentRow → List FindingRow → Database → Option IncidentRow × List FindingRow
or_newest none findings db = (none, findings)
or_newest (some row) findings db = (some row, list_findings row.incident_id db)

abbrev pub with_fallback :
    Option IncidentRow → List FindingRow → Database → Option IncidentRow × List FindingRow
with_fallback none findings db = or_newest (head? (list_incidents 1 db)) findings db
with_fallback (some row) findings db = (some row, findings)

-- The incident and the findings that `generate_report` shows: those of the id, or of the newest
-- incident where there is no id or no incident with it.
unfoldable pub chosen : Option ℕ → Database → Option IncidentRow × List FindingRow
chosen none db = with_fallback none [] db
chosen (some id) db = with_fallback (get_incident id db) (list_findings id db) db

-- `html.escape` of a code point, and of a text.
abbrev pub escape_code : ℕ → List ℕ
escape_code c =
    if c == b'&'
    then codes "&amp;"
    else if c == b'<'
    then codes "&lt;"
    else if c == b'>'
    then codes "&gt;"
    else if c == b'"'
    then codes "&quot;"
    else if c == 39
    then codes "&#x27;"
    else c ∷ []

unfoldable pub escape : List ℕ → List ℕ
escape [] = []
escape (c ∷ s) = escape_code c ++ escape s
