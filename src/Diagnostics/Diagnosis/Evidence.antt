-- ===== src/Diagnostics/Diagnosis/Evidence.antt =====
-- `_evidence`, `_incident_type` and `_incident_confidence`, diagnostics/diagnosis.py.
use pc_diagnostic_agent.Prelude.{
  ℕ, Bool, ◌||◌, Option, none, some, List, [], ◌∷◌, ◌++◌, ltb, not, if◌then◌else◌,
}
use pc_diagnostic_agent.Prelude.Int.{ℤ}
use pc_diagnostic_agent.Storage.Rows.{
  Level, low, high, IncidentType, bsod, unexpected_reboot, unknown, Finding, EvidenceLine,
}
use pc_diagnostic_agent.Diagnostics.EventAnalyzer.Summary.{Summary}
use pc_diagnostic_agent.Diagnostics.CrashDetector.{Crash}
use pc_diagnostic_agent.Diagnostics.HangDetector.{TerminationInference}
use pc_diagnostic_agent.Diagnostics.Diagnosis.Queries.{Aggregates}
use pc_diagnostic_agent.Diagnostics.Diagnosis.Findings.{severity_rank, stopped_line}

-- `if test: ev.append(line)`.
abbrev line_if : Bool → EvidenceLine → List EvidenceLine
line_if test line = if test then line ∷ [] else []

abbrev counted_line : ℕ → (ℕ → EvidenceLine) → List EvidenceLine
counted_line n line = line_if (ltb 0 n) (line n)

abbrev reading_line : Option ℤ → (ℤ → EvidenceLine) → List EvidenceLine
reading_line none line = []
reading_line (some x) line = line x ∷ []

unfoldable pub incident_evidence :
    Summary → Aggregates → TerminationInference → Crash → List EvidenceLine
incident_evidence summary aggregates inference crash =
    line_if crash.kernel_power_detected EvidenceLine.kernel_power
    ++ line_if crash.bugcheck_detected EvidenceLine.bugcheck
    ++ counted_line summary.whea_count EvidenceLine.whea_events
    ++ counted_line summary.disk_error_count EvidenceLine.disk_error_events
    ++ counted_line summary.display_error_count EvidenceLine.display_error_events
    ++ line_if (not crash.clean_shutdown) EvidenceLine.no_clean_shutdown_event
    ++ stopped_line inference.hang_gap_seconds
    ++ reading_line aggregates.max_temperature EvidenceLine.max_temperature
    ++ reading_line aggregates.max_memory_percent EvidenceLine.max_ram
    ++ reading_line aggregates.max_cpu_percent EvidenceLine.max_cpu

unfoldable pub incident_type : TerminationInference → Crash → IncidentType
incident_type inference crash =
    if crash.bugcheck_detected
    then bsod
    else if inference.probable_hard_hang
    then IncidentType.hard_hang
    else if inference.probable_power_loss
    then IncidentType.power_loss
    else if crash.unexpected_shutdown
    then unexpected_reboot
    else unknown

-- The loop over the findings. The table `ranks` of the source is that of `_severity_rank`.
unfoldable pub best_confidence : Level → List Finding → Level
unfolding severity_rank
best_confidence best [] = best
best_confidence best (f ∷ findings) =
    best_confidence
      (if ltb (severity_rank best) (severity_rank f.confidence) then f.confidence else best)
      findings

unfoldable pub incident_confidence : TerminationInference → Crash → List Finding → Level
unfolding best_confidence
incident_confidence inference crash findings =
    if crash.bugcheck_detected
    then high
    else if inference.probable_hard_hang || inference.probable_power_loss
    then inference.confidence
    else best_confidence low findings
