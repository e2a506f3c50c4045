-- ===== src/Diagnostics/Diagnosis/Engine/Verdict.antt =====
-- Which incident `run_diagnosis` reports, diagnostics/diagnosis.py, against the rules that README.md
-- gives under "Incident Classification".
use pc_diagnostic_agent.Prelude.{
  ℕ, ◌+◌, ◌*◌, ◌≡◌, refl, ◌∙◌, Bool, not, ◌&&◌, ◌||◌, Option, none, some, List, leb, any, truthy,
  Bool-cases, inl, inr, arith, if◌then◌else◌,
}
use pc_diagnostic_agent.Storage.Rows.{
  Time, seconds, Level, low, medium, high, IncidentType, bsod, Finding,
}
use pc_diagnostic_agent.Storage.Tables.{Database}
use pc_diagnostic_agent.Storage.Events.{events_between}
use pc_diagnostic_agent.Storage.Events.Window.{within, any-events_between}
use pc_diagnostic_agent.Agent.Config.{Config}
use pc_diagnostic_agent.Diagnostics.EventAnalyzer.Category.{
  Category, bugcheck, kernel_power, shutdown_unexpected,
}
use pc_diagnostic_agent.Diagnostics.EventAnalyzer.Counts.{
  in_category, Describes, summarize-Describes,
}
use pc_diagnostic_agent.Diagnostics.CrashDetector.{Crash, detect_crash}
use pc_diagnostic_agent.Diagnostics.HangDetector.{infer_termination}
use pc_diagnostic_agent.Diagnostics.Diagnosis.Queries.{last_metric_timestamp}
use pc_diagnostic_agent.Diagnostics.Diagnosis.Queries.LastActivity.{
  Precedes, last_metric_timestamp-IsLatest,
}
use pc_diagnostic_agent.Diagnostics.Diagnosis.Evidence.{incident_type, incident_confidence}
use pc_diagnostic_agent.Diagnostics.Diagnosis.Engine.{
  BootFacts, Diagnosis, transition_start, transition_summary, crash_of, inference_of, warranted,
  incident_of, findings_of, run_diagnosis,
}

abbrev pub Verdict : Type 0
Verdict = Option (IncidentType × Level)

-- Kernel-Power 41 with no clean shutdown and no BugCheck: the time without activity decides.
abbrev pub gap_verdict : Option Time → Time → ℕ → Verdict
gap_verdict none reboot interval = some (IncidentType.hard_hang, low)
gap_verdict (some last) reboot interval =
    if leb (last + seconds (5 * interval)) reboot
    then some (IncidentType.hard_hang, high)
    else if leb (last + seconds (2 * interval)) reboot
    then some (IncidentType.hard_hang, medium)
    else some (IncidentType.power_loss, low)

-- The rules, in words of what was seen: a BugCheck, a clean shutdown, Kernel-Power 41, event 6008.
abbrev pub expected_verdict : Bool → Bool → Bool → Bool → Verdict → Verdict
expected_verdict bug clean kp41 e6008 by_gap =
    if bug
    then some (bsod, high)
    else if clean
    then none
    else if kp41
    then by_gap
    else if e6008
    then some (IncidentType.hard_hang, low)
    else none

abbrev pub verdict : Diagnosis → Verdict
verdict d = elim d.incident [ none ↦ none | some i ↦ some (i.incident_type, i.confidence) ]

crash_verdict :
    (crash : Crash) (findings : List Finding) (last : Option Time) (reboot : Time) (interval : ℕ)
    → Precedes last reboot
    → crash.unexpected_shutdown ≡ (
        not crash.clean_shutdown
        && (crash.kernel_power_detected || crash.unexpected_shutdown_event))
    → (if warranted crash
        then some (
          incident_type (infer_termination crash last reboot interval) crash,
          incident_confidence (infer_termination crash last reboot interval) crash findings,
        )
        else none)
      ≡ expected_verdict crash.bugcheck_detected crash.clean_shutdown crash.kernel_power_detected
          crash.unexpected_shutdown_event
          (gap_verdict last reboot interval)
unfolding warranted incident_type incident_confidence infer_termination
crash_verdict crash findings none reboot interval k h = ground arith
crash_verdict crash findings (some t) reboot interval k h = ground arith

module _ (db : Database) (boot : BootFacts) (config : Config) where
  -- Whether an event of a category was logged between the previous boot and two minutes after this.
  abbrev pub saw : Category → Bool
  saw c =
      any
        (λ e.
          within (transition_start boot config) (boot.boot_time + seconds 120) e && in_category c e)
        db.events

  saw-any :
      (c : Category)
      → any
          (in_category c)
          (events_between db (transition_start boot config) (boot.boot_time + seconds 120))
        ≡ saw c
  saw-any c = any-events_between (in_category c) db (transition_start boot config) _

  transition-Describes :
      Describes
        (events_between db (transition_start boot config) (boot.boot_time + seconds 120))
        (transition_summary db boot config)
  unfolding transition_summary
  transition-Describes = summarize-Describes _

  record CrashOf (crash : Crash) : Type 0 where
    bug : crash.bugcheck_detected ≡ saw bugcheck
    kp41 : crash.kernel_power_detected ≡ saw kernel_power
    e6008 : crash.unexpected_shutdown_event ≡ saw shutdown_unexpected
    clean : crash.clean_shutdown ≡ truthy boot.previous_session_clean
    unexpected : crash.unexpected_shutdown ≡ (
        not crash.clean_shutdown
        && (crash.kernel_power_detected || crash.unexpected_shutdown_event))

  crash_of-CrashOf : CrashOf (crash_of db boot config)
  unfolding crash_of detect_crash
  crash_of-CrashOf =
      let d = transition-Describes in
      record {
        bug = d.bugcheck_detected ∙ saw-any bugcheck;
        kp41 = d.kernel_power_detected ∙ saw-any kernel_power;
        e6008 = d.unexpected_shutdown_event ∙ saw-any shutdown_unexpected;
        clean = refl;
        unexpected = refl;
      }

  -- The verdict is that of the parts.
  verdict_of_parts :
      (persist : Bool)
      → verdict (run_diagnosis db boot config persist).0 ≡ (
          if warranted (crash_of db boot config)
          then some
              ((incident_of db boot config).incident_type, (incident_of db boot config).confidence)
          else none)
  unfolding run_diagnosis
  verdict_of_parts persist = elim (Bool-cases (warranted (crash_of db boot config))) [
    | inl w ↦ rw w
    | inr w ↦ rw w
  ]

  last_activity-Precedes : Precedes (last_metric_timestamp db boot.boot_time) boot.boot_time
  last_activity-Precedes = (last_metric_timestamp-IsLatest db boot.boot_time).precedes

  parts-crash_verdict :
      (if warranted (crash_of db boot config)
        then some
            ((incident_of db boot config).incident_type, (incident_of db boot config).confidence)
        else none)
      ≡ expected_verdict
          (crash_of db boot config).bugcheck_detected
          (crash_of db boot config).clean_shutdown
          (crash_of db boot config).kernel_power_detected
          (crash_of db boot config).unexpected_shutdown_event
          (gap_verdict
            (last_metric_timestamp db boot.boot_time)
            boot.boot_time
            config.collection_interval_seconds)
  unfolding incident_of inference_of
  parts-crash_verdict =
      crash_verdict (crash_of db boot config) (findings_of db boot config)
        (last_metric_timestamp db boot.boot_time) boot.boot_time config.collection_interval_seconds
        last_activity-Precedes crash_of-CrashOf.unexpected

-- The incident that is reported, its type and its confidence follow from what was logged between the
-- previous boot and two minutes after this one, from whether the previous session is known to have
-- ended cleanly, and from the time between the last activity and the boot: a BugCheck is a BSOD
-- (HIGH), else a clean session is no incident, else Kernel-Power 41 is a hard hang or, below two
-- collection intervals, a power loss, else event 6008 is a hard hang (LOW), else there is no incident.
pub run_diagnosis-verdict :
    (db : Database) (boot : BootFacts) (config : Config) (persist : Bool)
    → verdict (run_diagnosis db boot config persist).0
      ≡ expected_verdict
          (saw db boot config bugcheck)
          (truthy boot.previous_session_clean)
          (saw db boot config kernel_power)
          (saw db boot config shutdown_unexpected)
          (gap_verdict
            (last_metric_timestamp db boot.boot_time)
            boot.boot_time
            config.collection_interval_seconds)
run_diagnosis-verdict db boot config persist =
    let c = crash_of-CrashOf db boot config in
    verdict_of_parts db boot config persist
    ∙ parts-crash_verdict db boot config
    ∙ cc (c.bug, c.clean, c.kp41, c.e6008)
