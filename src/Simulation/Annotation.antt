-- ===== src/Simulation/Annotation.antt =====
-- The blocks that `_annotation_html` puts in front of a simulated report, simulation/runner.py, without
-- the HTML.
use pc_diagnostic_agent.Prelude.{
  ◌+◌, ◌-◌, String, Bool, Option, none, some, List, [], ◌∷◌, ◌++◌, length, if◌then◌else◌,
}
use pc_diagnostic_agent.Prelude.Int.{ℤ, pos}
use pc_diagnostic_agent.Storage.Rows.{Time, minutes, Incident, IncidentType}
use pc_diagnostic_agent.Storage.Tables.{Database}
use pc_diagnostic_agent.Agent.Config.{Config}
use pc_diagnostic_agent.Diagnostics.EventAnalyzer.Summary.{Summary}
use pc_diagnostic_agent.Diagnostics.Diagnosis.Queries.{max_of}
use pc_diagnostic_agent.Diagnostics.Diagnosis.Engine.{Diagnosis}
use pc_diagnostic_agent.Simulation.Runner.{Simulated}
use pc_diagnostic_agent.Printed.{Cell, Line, say, yes_no}
use pc_diagnostic_agent.Reports.Sections.{Row, Block}
use pc_diagnostic_agent.Cli.Diagnostics.{flag, number, reading}
use pc_diagnostic_agent.Cli.Simulate.{gap_of}

-- `_cleanly` and `_unexpectedly`.
unfoldable pub cleanly : Option Bool → String
cleanly none = "UNKNOWN"
cleanly (some value) = if value then "YES" else "NO"

unfoldable pub unexpectedly : Option Bool → String
unexpectedly none = "UNKNOWN"
unexpectedly (some value) = if value then "NO" else "YES"

-- The maximum of the disks in the incident's window; the start is not before the epoch.
abbrev max_disk : Database → Config → Time → Option ℤ
max_disk db config boot =
    max_of db (boot - minutes config.incident_window_before_minutes)
      (boot + minutes config.incident_window_after_minutes) "metrics_disk" "percent"

unfoldable pub fact_rows : Config → Simulated → List Row
fact_rows config r =
    let scenario = r.scenario in
    let aggregates = r.diagnosis.aggregates in
    ("Scenario", say scenario.name)
    ∷ ("Previous boot", Cell.time (some scenario.prev_boot) ∷ [])
    ∷ ("Current boot", Cell.time (some scenario.boot) ∷ [])
    ∷ ("Last activity (metrics/heartbeat)", Cell.time (some scenario.last_activity) ∷ [])
    ∷ ("Metric samples", Cell.count (length scenario.snapshots) ∷ [])
    ∷ ("Maximum CPU", Cell.percent (reading (λ a. a.max_cpu_percent) aggregates) ∷ [])
    ∷ ("Maximum RAM", Cell.percent (reading (λ a. a.max_memory_percent) aggregates) ∷ [])
    ∷ ("Maximum disk utilisation", Cell.percent (max_disk r.db config scenario.boot) ∷ [])
    ∷ []

abbrev incident_rows : Option Incident → List Row
incident_rows none = []
incident_rows (some incident) =
    (
      "Estimated hang duration",
      elim incident.duration_estimate [
        | none ↦ say "n/a"
        | some gap ↦ Cell.whole_seconds (pos gap) ∷ Cell.str " seconds" ∷ []
      ],
    )
    ∷ ("Incident confidence", Cell.confidence incident.confidence ∷ [])
    ∷ []

unfoldable pub evidence_rows : Diagnosis → List Row
evidence_rows d =
    ("Kernel-Power 41 present", say (yes_no (flag (λ s. s.kernel_power_detected) d.summary)))
    ∷ ("Clean shutdown event present", say (yes_no (flag (λ s. s.clean_shutdown) d.summary)))
    ∷ ("Event 6008 present", say (yes_no (flag (λ s. s.unexpected_shutdown_event) d.summary)))
    ∷ ("BugCheck present", say (yes_no (flag (λ s. s.bugcheck_detected) d.summary)))
    ∷ ("Disk/storage error events", Cell.count (number (λ s. s.disk_error_count) d.summary) ∷ [])
    ∷ (
      "Display driver error events",
      Cell.count (number (λ s. s.display_error_count) d.summary) ∷ [],
    )
    ∷ incident_rows d.incident

unfoldable pub analysis_rows : Simulated → List Row
unfolding cleanly unexpectedly
analysis_rows r =
    let prev_clean = r.boot_result.previous_session_clean in
    ("Previous session ended cleanly", say (cleanly prev_clean))
    ∷ ("Previous session ended unexpectedly", say (unexpectedly prev_clean))
    ∷ []

-- `" and ".join(bits)`.
abbrev joined : Line → List Line → Line
joined bit [] = bit
joined bit (next ∷ bits) = bit ++ Cell.str " and " ∷ joined next bits

abbrev bit : String → (Summary → Bool) → Diagnosis → Line
bit label field d = Cell.str label ∷ Cell.str (yes_no (flag field d.summary)) ∷ []

abbrev gap_bit : Option Time → List Line
gap_bit none = []
gap_bit (some gap) =
    (Cell.str "diagnostics stopped " ∷ Cell.rounded_seconds gap ∷ Cell.str "s before reboot" ∷ [])
    ∷ []

abbrev bits : Diagnosis → Line
bits d = joined (bit "previous clean shutdown = " (λ s. s.clean_shutdown) d) (
    bit "Kernel-Power 41 = " (λ s. s.kernel_power_detected) d
    ∷ bit "BugCheck = " (λ s. s.bugcheck_detected) d
    ∷ gap_bit (gap_of d.inference))

abbrev gap_text : Option Time → Line
gap_text none = []
gap_text (some gap) = Cell.str " (gap " ∷ Cell.rounded_seconds gap ∷ Cell.str "s)" ∷ []

-- `_inference_text`.
unfoldable pub inference_text : Diagnosis → Line
inference_text d = elim d.incident [
  | none ↦
      say
        "The previous session ended with a clean shutdown signal (EventLog 6006 / User32 1074 in the boot window). No Kernel-Power 41, event 6008 or BugCheck was detected, so the engine correctly created NO incident for this normal restart."
  | some incident ↦ elim incident.incident_type [
    | IncidentType.hard_hang ↦
        bits d
        ++ Cell.str ". The diagnostic gap" ∷ gap_text (gap_of d.inference)
        ++ say
            " meets the hard-hang threshold (>= 5 x collection interval = 150s), the previous session was NOT clean, there is no BugCheck, and Kernel-Power 41 is present. The engine infers a probable hard hang at HIGH confidence."
    | IncidentType.power_loss ↦
        bits d
        ++ say
            ". The gap is under 2 x the collection interval (<= 60s), so activity stopped essentially at reboot time with no clean shutdown and no BugCheck. The engine infers an abrupt power loss at LOW confidence (Kernel-Power 41 alone is not proof of a PSU fault)."
    | IncidentType.bsod ↦
        bits d
        ++ say
            ". A BugCheck 1001 event was recorded at boot; that is direct crash evidence, so the engine classifies the transition as BSOD at HIGH confidence."
    | IncidentType.unexpected_reboot ↦
        bits d ++ say ". No strong inference applicable; inspect the incident report."
    | IncidentType.unknown ↦
        bits d ++ say ". No strong inference applicable; inspect the incident report."
  ]
]

-- `_annotation_html`.
unfoldable pub annotation : Config → Simulated → List Block
annotation config r =
    Block.paragraph "SIMULATION / TEST DATA — NOT PRODUCTION" (
      say
        "This report was generated from fully synthetic data by the simulate-incident harness. It exercises the diagnostic pipeline only and contains no evidence about any real machine.")
    ∷ Block.table "FACT" (fact_rows config r)
    ∷ Block.table "EVIDENCE" (evidence_rows r.diagnosis)
    ∷ Block.table "SESSION ANALYSIS" (analysis_rows r)
    ∷ Block.paragraph "INFERENCE" (inference_text r.diagnosis)
    ∷ Block.paragraph "HYPOTHESIS" (
        say
          "The classification above is a hypothesis inferred from synthetic events. It does NOT prove a real hardware, driver or power fault on any machine. In production, act only on live logs and repeatable reproductions.")
    ∷ []
