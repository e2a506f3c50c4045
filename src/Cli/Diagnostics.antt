-- ===== src/Cli/Diagnostics.antt =====
-- `cmd_diagnostics`, cli/commands.py: what the engine finds for the previous session, printed.
use pc_diagnostic_agent.Prelude.{
  ℕ, suc, String, Bool, false, Option, none, some, List, [], ◌∷◌, ◌++◌, ◌==◌, if◌then◌else◌,
}
use pc_diagnostic_agent.Prelude.Int.{ℤ}
use pc_diagnostic_agent.Storage.Rows.{Finding, Incident}
use pc_diagnostic_agent.Storage.Tables.{Database}
use pc_diagnostic_agent.Storage.Sessions.{get_session}
use pc_diagnostic_agent.Agent.Config.{Config}
use pc_diagnostic_agent.Diagnostics.EventAnalyzer.Summary.{Summary}
use pc_diagnostic_agent.Diagnostics.Diagnosis.Queries.{Aggregates}
use pc_diagnostic_agent.Diagnostics.Diagnosis.Engine.{Diagnosis, diagnose_latest}
use pc_diagnostic_agent.Printed.{Cell, Line, say, yes_no}
use pc_diagnostic_agent.Cli.{Output}

-- A label, its value, and the blank line before them.
abbrev pub item : String → Cell → List Line
item label value = [] ∷ say label ∷ (value ∷ []) ∷ []

-- `summary.get(key)` and `aggregates.get(key)` of a result that may have none.
abbrev pub flag : (Summary → Bool) → Option Summary → Bool
flag field none = false
flag field (some summary) = field summary

abbrev pub number : (Summary → ℕ) → Option Summary → ℕ
number field none = 0
number field (some summary) = field summary

abbrev pub reading : (Aggregates → Option ℤ) → Option Aggregates → Option ℤ
reading field none = none
reading field (some aggregates) = field aggregates

-- The boot of the session with the id, which is looked up unless it is None or 0.
abbrev boot_of_session : Option ℕ → Database → Cell
boot_of_session none db = Cell.str "n/a"
boot_of_session (some id) db = if id == 0 then Cell.str "n/a" else elim (get_session id db) [
  | none ↦ Cell.str "n/a"
  | some prev ↦ Cell.time (some prev.boot_time)
]

-- `for i, f in enumerate(findings, 1)`.
unfoldable pub numbered_findings : ℕ → List Finding → List Line
numbered_findings i [] = []
numbered_findings i (f ∷ findings) =
    (Cell.count i
      ∷ Cell.str ". "
      ∷ Cell.finding f.type
      ∷ Cell.str " ("
      ∷ Cell.confidence f.confidence
      ∷ Cell.str ")"
      ∷ [])
    ∷ numbered_findings (suc i) findings

unfoldable pub findings_lines : List Finding → List Line
findings_lines [] = []
findings_lines (f ∷ findings) = [] ∷ say "Primary findings:" ∷ numbered_findings 1 (f ∷ findings)

abbrev pub recommended_steps : List Line
recommended_steps =
    []
    ∷ say "Recommended next steps:"
    ∷ (Cell.count 1 ∷ Cell.str ". " ∷ Cell.str "Check hardware stability" ∷ [])
    ∷ (Cell.count 2 ∷ Cell.str ". " ∷ Cell.str "Review WHEA events" ∷ [])
    ∷ (Cell.count 3 ∷ Cell.str ". " ∷ Cell.str "Check drivers" ∷ [])
    ∷ (Cell.count 4 ∷ Cell.str ". " ∷ Cell.str "Run hardware diagnostics" ∷ [])
    ∷ []

abbrev pub no_incident : List Line
no_incident =
    say "Incident detected:"
    ∷ say "NO"
    ∷ say "(no unexpected shutdown/reboot detected for the previous session)"
    ∷ []

abbrev pub classification : Incident → List Line
classification incident =
    say "Incident detected:" ∷ say "YES" ∷ item "Type:" (Cell.kind incident.incident_type)
    ++ item "Confidence:" (Cell.confidence incident.confidence)

unfoldable pub diagnosis_lines : Diagnosis → Database → List Line
diagnosis_lines result db = elim result.incident [
  | none ↦ no_incident
  | some incident ↦
      classification incident
      ++ item "Previous boot:" (boot_of_session incident.previous_session_id db)
      ++ item "Last healthy heartbeat:" (Cell.time incident.last_metric_timestamp)
      ++ item "Current boot:" (Cell.time (some incident.reboot_timestamp))
      ++ item "Kernel-Power 41:"
          (Cell.str (yes_no (flag (λ s. s.kernel_power_detected) result.summary)))
      ++ item "BugCheck:" (Cell.str (yes_no (flag (λ s. s.bugcheck_detected) result.summary)))
      ++ ([]
          ∷ say "WHEA:"
          ∷ (Cell.count (number (λ s. s.whea_count) result.summary) ∷ Cell.str " events" ∷ [])
          ∷ [])
      ++ item "Disk errors:" (Cell.count (number (λ s. s.disk_error_count) result.summary))
      ++ item "Display driver errors:"
          (Cell.count (number (λ s. s.display_error_count) result.summary))
      ++ item "Maximum CPU:" (Cell.percent (reading (λ a. a.max_cpu_percent) result.aggregates))
      ++ item "Maximum RAM:" (Cell.percent (reading (λ a. a.max_memory_percent) result.aggregates))
      ++ item "Maximum temperature:"
          (Cell.degrees (reading (λ a. a.max_temperature) result.aggregates))
      ++ findings_lines result.findings
      ++ recommended_steps
]

unfoldable pub cmd_diagnostics : Config → Database → Output
cmd_diagnostics config db = record {
  lines = diagnosis_lines (diagnose_latest db config) db;
  exit = 0;
}
