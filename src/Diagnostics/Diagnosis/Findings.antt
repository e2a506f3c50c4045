-- ===== src/Diagnostics/Diagnosis/Findings.antt =====
-- `_build_findings` and what it calls, diagnostics/diagnosis.py. Each block of the source that may
-- append a finding is a function that returns what it appends.
pub mod Exact
pub mod Graded
use pc_diagnostic_agent.Prelude.{
  ℕ, String, Option, none, some, List, [], ◌∷◌, ◌++◌, leb, ltb, ◌==◌, if◌then◌else◌,
}
use Prim.Native.Nat.{min}
use pc_diagnostic_agent.Prelude.Int.{ℤ, leb_ℤ}
use pc_diagnostic_agent.Prelude.Sort.{sort_by, down}
use pc_diagnostic_agent.Storage.Rows.{
  Time, Level, low, medium, high, FindingType, Finding, EvidenceLine, Event,
}
use pc_diagnostic_agent.Agent.Config.{Config}
use pc_diagnostic_agent.Diagnostics.EventAnalyzer.Summary.{Summary}
use pc_diagnostic_agent.Diagnostics.HangDetector.{TerminationInference}
use pc_diagnostic_agent.Diagnostics.Diagnosis.Queries.{Aggregates}

unfoldable pub severity_rank : Level → ℕ
severity_rank high = 3
severity_rank medium = 2
severity_rank low = 1

abbrev earlier_of : Time → Option Time → Option Time
earlier_of t none = some t
earlier_of t (some m) = some (min t m)

-- The earliest timestamp; a timestamp 0 is passed over.
unfoldable pub first_ts : List Event → Option Time
first_ts [] = none
first_ts (e ∷ events) =
    let rest = first_ts events in if e.timestamp == 0 then rest else earlier_of e.timestamp rest

unfoldable pub hardware_finding : Summary → List Finding
hardware_finding summary =
    if ltb 0 summary.whea_count
    then (let level = if leb 3 summary.whea_count then high else medium in
        record {
          type = FindingType.hardware;
          severity = level;
          confidence = level;
          evidence = EvidenceLine.whea_errors summary.whea_count ∷ [];
          timestamp = first_ts summary.whea_events;
          explanation =
              "Windows Hardware Error Architecture (WHEA) events occurred around the incident window. This points to a hardware-level fault and warrants hardware diagnostics.";
        }
        ∷ [])
    else []

unfoldable pub disk_finding : Summary → List Finding
disk_finding summary =
    if ltb 0 summary.disk_error_count
    then record {
      type = FindingType.disk;
      severity = medium;
      confidence = medium;
      evidence = EvidenceLine.disk_errors summary.disk_error_count ∷ [];
      timestamp = first_ts summary.disk_events;
      explanation =
          "Disk or filesystem/storage driver error events were logged. Storage problems can cause freezes.";
    }
      ∷ []
    else []

unfoldable pub display_finding : Summary → List Finding
display_finding summary =
    if ltb 0 summary.display_error_count
    then record {
      type = FindingType.gpu;
      severity = medium;
      confidence = medium;
      evidence = EvidenceLine.display_errors summary.display_error_count ∷ [];
      timestamp = first_ts summary.display_events;
      explanation =
          "Display driver errors were logged. A failing or buggy GPU driver can cause hard hangs.";
    }
      ∷ []
    else []

-- A finding for a reading that reaches its threshold.
abbrev threshold_finding :
    Option ℤ → ℤ → FindingType → Level → Level → (ℤ → EvidenceLine) → String → List Finding
threshold_finding none threshold type severity confidence line explanation = []
threshold_finding (some x) threshold type severity confidence line explanation =
    if leb_ℤ threshold x
    then record {
      type = type;
      severity = severity;
      confidence = confidence;
      evidence = line x ∷ [];
      timestamp = none;
      explanation = explanation;
    }
      ∷ []
    else []

unfoldable pub thermal_finding : Aggregates → Config → List Finding
thermal_finding aggregates config =
    threshold_finding aggregates.max_temperature config.temperature_critical_celsius
      FindingType.thermal high medium EvidenceLine.temperature_reached
      "A critical temperature threshold was exceeded. Overheating can trigger sudden shutdowns or throttling-induced hangs."

unfoldable pub memory_finding : Aggregates → Config → List Finding
memory_finding aggregates config =
    threshold_finding aggregates.max_memory_percent config.memory_warning_percent FindingType.memory
      medium low EvidenceLine.memory_peaked
      "Sustained high memory pressure was observed. This is evidence, not proof of a defect."

unfoldable pub cpu_finding : Aggregates → Config → List Finding
cpu_finding aggregates config =
    threshold_finding aggregates.max_cpu_percent config.cpu_warning_percent FindingType.cpu low low
      EvidenceLine.cpu_peaked "High CPU utilisation was observed before the incident."

abbrev pub stopped_line : Option Time → List EvidenceLine
stopped_line none = []
stopped_line (some gap) = EvidenceLine.diagnostics_stopped gap ∷ []

unfoldable pub hang_evidence : TerminationInference → List EvidenceLine
hang_evidence inference =
    (EvidenceLine.no_clean_shutdown_event ∷ EvidenceLine.unclean_reboot ∷ EvidenceLine.no_bugcheck
      ∷ [])
    ++ stopped_line inference.hang_gap_seconds

unfoldable pub termination_finding : TerminationInference → List Finding
termination_finding inference =
    if inference.probable_hard_hang
    then record {
      type = FindingType.hard_hang;
      severity = high;
      confidence = inference.confidence;
      evidence = hang_evidence inference;
      timestamp = none;
      explanation =
          "The system stopped writing diagnostics before an unclean reboot with no BugCheck. This is consistent with a hard hang followed by a forced restart.";
    }
      ∷ []
    else if inference.probable_power_loss
    then record {
      type = FindingType.power_loss;
      severity = high;
      confidence = inference.confidence;
      evidence = EvidenceLine.kernel_power_present ∷ EvidenceLine.no_clean_shutdown ∷ [];
      timestamp = none;
      explanation =
          "Abrupt power interruption is possible. Kernel-Power 41 alone does not prove a PSU failure.";
    }
      ∷ []
    else if inference.probable_crash
    then record {
      type = FindingType.crash;
      severity = high;
      confidence = high;
      evidence = EvidenceLine.bugcheck_event ∷ [];
      timestamp = none;
      explanation = "A BugCheck (blue screen) was recorded.";
    }
      ∷ []
    else []

abbrev pub insufficient_finding : Finding
insufficient_finding = record {
  type = FindingType.insufficient;
  severity = low;
  confidence = low;
  evidence = [];
  timestamp = none;
  explanation = "Not enough evidence to propose a cause.";
}

-- `if not findings: findings.append(…)`.
abbrev pub or_insufficient : List Finding → List Finding
or_insufficient [] = insufficient_finding ∷ []
or_insufficient (f ∷ fs) = f ∷ fs

-- The findings in the order in which they are appended.
unfoldable pub collected_findings :
    Summary → Aggregates → TerminationInference → Config → List Finding
collected_findings summary aggregates inference config =
    hardware_finding summary
    ++ (disk_finding summary
        ++ (display_finding summary
            ++ (thermal_finding aggregates config
                ++ (memory_finding aggregates config
                    ++ (cpu_finding aggregates config ++ termination_finding inference)))))

unfoldable pub build_findings : Summary → Aggregates → TerminationInference → Config → List Finding
build_findings summary aggregates inference config =
    sort_by (down (λ f. severity_rank f.severity))
      (or_insufficient (collected_findings summary aggregates inference config))
