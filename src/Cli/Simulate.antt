-- ===== src/Cli/Simulate.antt =====
-- `cmd_simulate_incident` and `_inference_summary`, cli/commands.py. The paths that the run returns are
-- arguments.
use pc_diagnostic_agent.Prelude.{
  String, Bool, not, Option, none, some, List, [], ◌∷◌, ◌++◌, if◌then◌else◌, length, map, truthy,
  ◌⊎◌, inl, inr,
}
use pc_diagnostic_agent.Prelude.Int.{pos}
use pc_diagnostic_agent.Storage.Rows.{Time, Finding, Incident, IncidentType}
use pc_diagnostic_agent.Diagnostics.HangDetector.{TerminationInference}
use pc_diagnostic_agent.Diagnostics.Diagnosis.Engine.{Diagnosis}
use pc_diagnostic_agent.Simulation.Scenarios.{Scenario}
use pc_diagnostic_agent.Simulation.Runner.{Simulated}
use pc_diagnostic_agent.Printed.{Cell, Line, say, yes_no}
use pc_diagnostic_agent.Cli.{Output}
use pc_diagnostic_agent.Cli.Diagnostics.{
  item, flag, number, reading, findings_lines, recommended_steps, no_incident, classification,
}

-- `inference.hang_gap_seconds`, where there is an inference.
abbrev pub gap_of : Option TerminationInference → Option Time
gap_of none = none
gap_of (some inference) = inference.hang_gap_seconds

abbrev incident_lines : Scenario → Option Incident → List Line
incident_lines scenario none = [] ∷ no_incident
incident_lines scenario (some incident) =
    ([] ∷ classification incident)
    ++ item "Previous boot:" (Cell.time (some scenario.prev_boot))
    ++ item "Last healthy heartbeat:" (Cell.time incident.last_metric_timestamp)
    ++ item "Current boot:" (Cell.time (some incident.reboot_timestamp))

abbrev evidence_lines : Option Incident → List Finding → List Line
evidence_lines none findings = []
evidence_lines (some incident) findings =
    []
      ∷ say "Incident evidence:"
      ∷ map (λ e. Cell.str "  - " ∷ Cell.evidence e ∷ []) incident.evidence
    ++ findings_lines findings
    ++ recommended_steps

abbrev row : String → Cell → Line
row label value = Cell.str label ∷ value ∷ []

-- `_inference_summary`. The gap is printed in whole seconds, rounded.
unfoldable pub inference_summary : Diagnosis → Line
inference_summary result = elim result.incident [
  | none ↦
      say
        "Clean shutdown signals (6006 / User32 1074) present, no Kernel-Power 41, 6008 or BugCheck -> normal restart, NO incident."
  | some incident ↦
      let base =
        if not (flag (λ s. s.clean_shutdown) result.summary) then "not clean" else "clean" in
      elim incident.incident_type [
        | IncidentType.hard_hang ↦
            (Cell.str "Session "
              ∷ Cell.str base
              ∷ Cell.str ", Kernel-Power 41 present, no BugCheck"
              ∷ [])
            ++ elim (gap_of result.inference) [
              | none ↦ []
              | some gap ↦ Cell.str ", gap " ∷ Cell.rounded_seconds gap ∷ Cell.str "s >= 150s" ∷ []
            ]
            ++ say " -> HARD_HANG (HIGH)."
        | IncidentType.power_loss ↦
            Cell.str "Session "
            ∷ Cell.str base
            ∷ Cell.str ", Kernel-Power 41 present, activity stopped at reboot -> POWER_LOSS (LOW)."
            ∷ []
        | IncidentType.bsod ↦ say "BugCheck 1001 recorded at boot -> BSOD (HIGH)."
        | IncidentType.unexpected_reboot ↦
            Cell.str "Classification: "
            ∷ Cell.kind incident.incident_type
            ∷ Cell.str " ("
            ∷ Cell.confidence incident.confidence
            ∷ Cell.str ")."
            ∷ []
        | IncidentType.unknown ↦
            Cell.str "Classification: "
            ∷ Cell.kind incident.incident_type
            ∷ Cell.str " ("
            ∷ Cell.confidence incident.confidence
            ∷ Cell.str ")."
            ∷ []
      ]
]

-- The four lines of the session analysis: `bool` of a missing state is false.
unfoldable pub session_analysis : Option Bool → List Line
session_analysis previous_session_clean =
    let clean = truthy previous_session_clean in
    say "SESSION ANALYSIS"
    ∷ row "  Previous session ended cleanly:      " (Cell.str (yes_no clean))
    ∷ row "  Previous session ended unexpectedly: " (Cell.str (yes_no (not clean)))
    ∷ []

unfoldable pub evidence_block : Diagnosis → List Line
evidence_block result =
    say "EVIDENCE"
    ∷ row "  Kernel-Power 41 present:       "
        (Cell.str (yes_no (flag (λ s. s.kernel_power_detected) result.summary)))
    ∷ row "  Clean shutdown event present:  "
        (Cell.str (yes_no (flag (λ s. s.clean_shutdown) result.summary)))
    ∷ row "  Event 6008 present:            "
        (Cell.str (yes_no (flag (λ s. s.unexpected_shutdown_event) result.summary)))
    ∷ row "  BugCheck present:              "
        (Cell.str (yes_no (flag (λ s. s.bugcheck_detected) result.summary)))
    ∷ (Cell.str "  Gap to reboot:                 "
        ∷ elim (gap_of result.inference) [
          | none ↦ Cell.str "n/a"
          | some gap ↦ Cell.whole_seconds (pos gap)
        ]
        ∷ Cell.str "s"
        ∷ [])
    ∷ []

unfoldable pub fact_block : Scenario → List Line
fact_block scenario =
    say "FACT"
    ∷ row "  Previous boot: " (Cell.time (some scenario.prev_boot))
    ∷ row "  Current boot:  " (Cell.time (some scenario.boot))
    ∷ row "  Last activity: " (Cell.time (some scenario.last_activity))
    ∷ (Cell.str "  Metric samples: "
        ∷ Cell.count (length scenario.snapshots)
        ∷ Cell.str " (every 30s, synthetic)"
        ∷ [])
    ∷ []

-- The lines on what was logged.
abbrev signal_lines : Diagnosis → List Line
signal_lines result =
    item "Kernel-Power 41:" (Cell.str (yes_no (flag (λ s. s.kernel_power_detected) result.summary)))
    ++ item "BugCheck:" (Cell.str (yes_no (flag (λ s. s.bugcheck_detected) result.summary)))
    ++ item "Clean shutdown event:"
        (Cell.str (yes_no (flag (λ s. s.clean_shutdown) result.summary)))
    ++ ([]
        ∷ say "WHEA:"
        ∷ (Cell.count (number (λ s. s.whea_count) result.summary) ∷ Cell.str " events" ∷ [])
        ∷ [])
    ++ item "Disk errors:" (Cell.count (number (λ s. s.disk_error_count) result.summary))
    ++ item "Display driver errors:"
        (Cell.count (number (λ s. s.display_error_count) result.summary))
    ++ item "Maximum CPU:" (Cell.percent (reading (λ a. a.max_cpu_percent) result.aggregates))
    ++ item "Maximum RAM:" (Cell.percent (reading (λ a. a.max_memory_percent) result.aggregates))

-- What is printed of a run.
unfoldable pub simulation_lines : String → String → String → Simulated → List Line
simulation_lines workspace db_path report_path r =
    (say "Scenario:"
      ∷ say r.scenario.name
      ∷ []
      ∷ say "Workspace:"
      ∷ say workspace
      ∷ []
      ∷ say "Simulation database:"
      ∷ say db_path
      ∷ [])
    ++ incident_lines r.scenario r.diagnosis.incident
    ++ signal_lines r.diagnosis
    ++ evidence_lines r.diagnosis.incident r.diagnosis.findings
    ++ ([] ∷ fact_block r.scenario)
    ++ ([] ∷ evidence_block r.diagnosis)
    ++ ([] ∷ session_analysis r.boot_result.previous_session_clean)
    ++ ([]
        ∷ say "INFERENCE"
        ∷ (Cell.str "  " ∷ inference_summary r.diagnosis)
        ∷ []
        ∷ say "HYPOTHESIS"
        ∷ say "  This is SYNTHETIC data. It validates the classification pipeline only and"
        ∷ say "  proves no real hardware, driver or power fault on any machine."
        ∷ [])
    ++ ([] ∷ say "Report written to:" ∷ say report_path ∷ [])

-- `cmd_simulate_incident`: the run, or the text of the OSError that it raises.
unfoldable pub cmd_simulate_incident : String → String → String → String ⊎ Simulated → Output
cmd_simulate_incident workspace db_path report_path (inl error) = record {
  lines =
      (Cell.str "Simulation failed: " ∷ Cell.str error ∷ [])
      ∷ say "Tip: pass --workspace to an isolated writable directory."
      ∷ [];
  exit = 1;
}
cmd_simulate_incident workspace db_path report_path (inr r) = record {
  lines = simulation_lines workspace db_path report_path r;
  exit = 0;
}
