-- ===== src/Reports/Sections.antt =====
-- The sections of a report and their order, reports/report_generator.py. A section keeps the rows of its
-- table; the HTML around them and the file are left out.
pub mod Duration
pub mod Previous
use pc_diagnostic_agent.Prelude.{
  ℕ, ◌+◌, ◌-◌, ◌*◌, ◌/◌, ◌%◌, suc, String, Bool, true, false, Option, none, some, List, [], ◌∷◌,
  ◌++◌, ◌==◌, if◌then◌else◌, truthy, map, ◌>>=◌,
}
use pc_diagnostic_agent.Prelude.Int.{ℤ, pos, negsuc}
use pc_diagnostic_agent.Storage.Rows.{
  Time, Level, low, medium, high, Session, Incident, IncidentRow, FindingRow, EvidenceLine,
  FindingType,
}
use pc_diagnostic_agent.Storage.Tables.{Database}
use pc_diagnostic_agent.Storage.Sessions.{get_session}
use pc_diagnostic_agent.Agent.Config.{Config}
use pc_diagnostic_agent.Printed.{Cell, Line, say}
use pc_diagnostic_agent.Reports.{chosen, causes, steps}
use pc_diagnostic_agent.Reports.Timeline.{Entry, timeline}

-- A row of a table: its heading and its content.
abbrev pub Row : Type 0
Row = String × Line

abbrev pub badge : Level → String
badge high = "high"
badge medium = "med"
badge low = "low"

abbrev pub HoursMinutesSeconds : Type 0
HoursMinutesSeconds = ℤ × ℕ × ℕ

-- `int` of a length of time: towards zero.
abbrev pub whole_seconds : ℤ → ℤ
whole_seconds (pos ms) = pos (ms / 1000)
whole_seconds (negsuc ms) = elim (suc ms / 1000) [ ℕ.zero ↦ pos 0 | ℕ.suc n ↦ negsuc n ]

-- Python's `divmod` of an integer by a positive number, which rounds down.
abbrev pub divmod : ℤ → ℕ → ℤ × ℕ
divmod (pos n) d = (pos (n / d), n % d)
divmod (negsuc n) d = (negsuc (n / d), d - 1 - n % d)

-- `_fmt_duration` of whole seconds: the numbers of `{hours}h {minutes}m {secs}s`.
unfoldable pub duration_parts : ℤ → HoursMinutesSeconds
duration_parts seconds = let (hours, rem) = divmod seconds 3600 in (hours, rem / 60, rem % 60)

unfoldable pub fmt_duration : Option ℤ → Line
fmt_duration none = say "n/a"
fmt_duration (some seconds) =
    let (hours, minutes, secs) = duration_parts (whole_seconds seconds) in
    Cell.integer (some hours)
    ∷ Cell.str "h "
    ∷ Cell.count minutes
    ∷ Cell.str "m "
    ∷ Cell.count secs
    ∷ Cell.str "s"
    ∷ []

abbrev time_row : String → Option Time → List Row
time_row heading none = []
time_row heading (some t) = if t == 0 then [] else (heading, Cell.time (some t) ∷ []) ∷ []

abbrev duration_row : Option Time → List Row
duration_row none = []
duration_row (some gap) =
    ("Estimated hang duration", Cell.whole_seconds (pos gap) ∷ Cell.str " seconds" ∷ []) ∷ []

-- `_incident_summary`: the rows, or none where there is no incident. The badge has the class of the
-- confidence.
unfoldable pub incident_rows : Option IncidentRow → Option (List Row × String)
incident_rows none = none
incident_rows (some row) =
    let incident = row.incident in
    some (
      ("Type", Cell.kind incident.incident_type ∷ [])
            ∷ ("Confidence", Cell.confidence incident.confidence ∷ [])
            ∷ ("Detected at", Cell.time (some incident.detected_at) ∷ [])
            ∷ ("Reboot at", Cell.time (some incident.reboot_timestamp) ∷ [])
            ∷ time_row "Last activity" incident.last_metric_timestamp
          ++ duration_row incident.duration_estimate,
      badge incident.confidence,
    )

-- The state of the previous session: NULL is neither.
abbrev pub clean_text : Option Bool → String
clean_text (some true) = "Yes"
clean_text (some false) = "No"
clean_text none = "Unknown"

abbrev pub unexpected_text : Option Bool → String
unexpected_text (some true) = "No"
unexpected_text (some false) = "Yes"
unexpected_text none = "Unknown"

abbrev yes_if : Option Bool → String
yes_if flag = if truthy flag then "Yes" else "No"

unfoldable pub session_rows : Session → List Row
session_rows session =
    ("Previous boot", Cell.time (some session.boot_time) ∷ [])
    ∷ ("Previous session ended cleanly", say (clean_text session.previous_session_clean))
    ∷ ("Previous session ended unexpectedly", say (unexpected_text session.previous_session_clean))
    ∷ ("Kernel-Power 41", say (yes_if session.kernel_power_detected))
    ∷ ("BugCheck", say (yes_if session.bugcheck_detected))
    ∷ ("Uptime before boot", fmt_duration session.uptime_before_boot)
    ∷ []

pub data PreviousSession : Type 0 where
  not_recorded unavailable : PreviousSession
  recorded : List Row → PreviousSession

-- `_previous_session_section`: the id 0 counts as none.
unfoldable pub previous_session : Option ℕ → Database → PreviousSession
previous_session none db = PreviousSession.not_recorded
previous_session (some id) db =
    if id == 0 then PreviousSession.not_recorded else elim (get_session id db) [
      | none ↦ PreviousSession.unavailable
      | some session ↦ PreviousSession.recorded (session_rows session)
    ]

-- A block of `_findings_section`.
pub record FindingBlock : Type 0 where
  pub type : FindingType
  pub severity_class : String
  pub severity : Level
  pub confidence : Level
  pub explanation : String
  pub evidence : List EvidenceLine

unfoldable pub finding_block : FindingRow → FindingBlock
finding_block f = record {
  type = f.type;
  severity_class = badge f.severity;
  severity = f.severity;
  confidence = f.confidence;
  explanation = f.explanation;
  evidence = f.evidence;
}

-- A block of the HTML that a caller puts in front: a heading with a table or with a text.
pub data Block : Type 0 where
  table : String → List Row → Block
  paragraph : String → Line → Block

pub data Section : Type 0 where
  prepended : List Block → Section
  incident_summary : Option (List Row × String) → Section
  system_information : Section
  timeline_section : List Entry → Section
  previous_section : PreviousSession → Section
  findings_section : List FindingBlock → Section
  causes_section next_steps_section : List String → Section

-- Without a block, the HTML is missing or empty.
abbrev prepended_section : List Block → List Section
prepended_section [] = []
prepended_section (block ∷ blocks) = Section.prepended (block ∷ blocks) ∷ []

-- The sections that only an incident has; none where the timeline raises.
unfoldable pub incident_sections :
    Time → Config → Option IncidentRow → Database → Option (List Section)
incident_sections now config none db = some []
incident_sections now config (some row) db = do
  entries ← timeline now config row.incident db
  some (
      Section.timeline_section entries
      ∷ Section.previous_section (previous_session row.previous_session_id db)
      ∷ [])

-- The sections of `generate_report`, in their order.
unfoldable pub report_sections :
    Time → Config → Option ℕ → List Block → Database → Option (List Section)
report_sections now config incident_id prepend_html db =
    let (incident, findings) = chosen incident_id db in
    do
      of_incident ← incident_sections now config incident db
      some (
          prepended_section prepend_html
          ++ Section.incident_summary (incident_rows incident)
            ∷ Section.system_information
            ∷ of_incident
          ++ Section.findings_section (map finding_block findings)
            ∷ Section.causes_section (causes findings)
            ∷ Section.next_steps_section (steps findings)
            ∷ [])
