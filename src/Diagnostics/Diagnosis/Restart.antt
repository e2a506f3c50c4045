-- ===== src/Diagnostics/Diagnosis/Restart.antt =====
-- What the engine reports when the service is restarted in the same boot: diagnostics/diagnosis.py on
-- the result of diagnostics/boot_detector.py.
use pc_diagnostic_agent.Prelude.{
  ◌+◌, ◌≡◌, ◌≢◌, ap, ◌∙◌, Bool, true, false, Option, none, some, any, truthy, ◌&&◌,
}
use pc_diagnostic_agent.Storage.Rows.{Time, seconds, Session}
use pc_diagnostic_agent.Storage.Tables.{Database}
use pc_diagnostic_agent.Storage.Valid.{IsValid}
use pc_diagnostic_agent.Storage.Events.Window.{within}
use pc_diagnostic_agent.Storage.Sessions.{latest_session}
use pc_diagnostic_agent.Agent.Config.{Config}
use pc_diagnostic_agent.Diagnostics.EventAnalyzer.Category.{
  Category, kernel_power, bugcheck, shutdown_clean, shutdown_unexpected,
}
use pc_diagnostic_agent.Diagnostics.EventAnalyzer.Counts.{in_category}
use pc_diagnostic_agent.Diagnostics.BootDetector.{detect_boot, service_restart}
use pc_diagnostic_agent.Diagnostics.BootDetector.Reboot.{is_restart, boot_of}
use pc_diagnostic_agent.Diagnostics.BootDetector.Starts.{restart_lem}
use pc_diagnostic_agent.Diagnostics.BootDetector.Outcome.{
  logged, detect_boot-Outcome, events-detect_boot,
}
use pc_diagnostic_agent.Diagnostics.Diagnosis.Queries.{last_metric_timestamp}
use pc_diagnostic_agent.Diagnostics.Diagnosis.Engine.{BootFacts, boot_facts, run_diagnosis}
use pc_diagnostic_agent.Diagnostics.Diagnosis.Engine.Verdict.{
  Verdict, verdict, saw, gap_verdict, expected_verdict, run_diagnosis-verdict,
}

-- What the engine sees of a transition is what was logged in it.
saw-logged :
    (db db' : Database) (prev : Session) (b : Time) (boot : BootFacts) (config : Config)
    (c : Category)
    → db'.events ≡ db.events
    → boot.boot_time ≡ b
    → boot.previous_boot_time ≡ some prev.boot_time
    → saw db' boot config c ≡ logged db prev b c
saw-logged db db' prev b boot config c es eb ep =
    rw ep (rw eb (ap (any (λ e. within prev.boot_time (b + seconds 120) e && in_category c e)) es))

-- What the engine is told by a service restart.
abbrev Told : Time → Session → BootFacts → Type 0
Told b prev facts =
    (facts.boot_time ≡ b)
    × (facts.previous_boot_time ≡ some prev.boot_time)
    × (truthy facts.previous_session_clean ≡ false)

restart_facts :
    (now later b : Time) (psutil : Option Time) (db : Database) (prev : Session)
    → IsValid db
    → latest_session db ≡ some prev
    → is_restart db b ≡ false
    → Told b prev
        (boot_facts (detect_boot later (some b) psutil (detect_boot now (some b) psutil db).1).0)
unfolding boot_facts service_restart
restart_facts now later b psutil db prev valid e new =
    let lem = restart_lem now later b psutil db valid new in
    (
      ap (λ r. r.boot_time) lem,
      ap (λ r. r.previous_boot_time) lem ∙ ap boot_of e,
      ap (λ r. truthy r.previous_session_clean) lem,
    )

expected_clean :
    (bug clean kp41 e6008 : Bool) (v : Verdict)
    → bug ≡ false
    → clean ≡ true
    → expected_verdict bug clean kp41 e6008 v ≡ none
expected_clean bug clean kp41 e6008 v hb hc = rw (hb, hc)

expected_gap :
    (bug clean kp41 e6008 : Bool) (v : Verdict)
    → bug ≡ false
    → clean ≡ false
    → kp41 ≡ true
    → expected_verdict bug clean kp41 e6008 v ≡ v
expected_gap bug clean kp41 e6008 v hb hc hk = rw (hb, hc, hk)

-- The tables after a start, and what the engine is told by it.
abbrev pub after_start : Time → Time → Option Time → Database → Database
after_start now b psutil db = (detect_boot now (some b) psutil db).1

abbrev pub start_facts : Time → Time → Option Time → Database → BootFacts
start_facts now b psutil db = boot_facts (detect_boot now (some b) psutil db).0

-- A clean shutdown that comes with a Kernel-Power 41 and no BugCheck is no incident at the start that
-- finds it. But a service restart in the same boot, over the same events, reports a hard hang or a
-- power loss: it does not know any more that the session was clean.
pub restart_reports :
    (now later b : Time) (psutil : Option Time) (db : Database) (prev : Session) (config : Config)
    → IsValid db
    → latest_session db ≡ some prev
    → is_restart db b ≡ false
    → prev.boot_time ≢ 0
    → logged db prev b shutdown_clean ≡ true
    → logged db prev b kernel_power ≡ true
    → logged db prev b bugcheck ≡ false
    → (verdict
          (run_diagnosis (after_start now b psutil db) (start_facts now b psutil db) config true).0
        ≡ none)
      × (verdict
            (run_diagnosis
              (after_start now b psutil db)
              (start_facts later b psutil (after_start now b psutil db))
              config
              true).0
          ≡ gap_verdict
              (last_metric_timestamp (after_start now b psutil db) b)
              b
              config.collection_interval_seconds)
restart_reports now later b psutil db prev config valid e new known clean kp41 bug =
    let after = (detect_boot now (some b) psutil db).1 in
    let start = boot_facts (detect_boot now (some b) psutil db).0 in
    let again = boot_facts (detect_boot later (some b) psutil after).0 in
    let es = events-detect_boot now b psutil db in
    let o = detect_boot-Outcome now b psutil db prev e new known in
    let (again_b, again_p, again_c) = restart_facts now later b psutil db prev valid e new in
    let seen = λ (c : Category).
      saw-logged db after prev b start config c es (unfold boot_facts in o.boot_time)
        (unfold boot_facts in o.previous_boot_time) in
    let seen_again =
      λ (c : Category). saw-logged db after prev b again config c es again_b again_p in
    (
      run_diagnosis-verdict after start config true
          ∙ expected_clean (saw after start config bugcheck) (truthy start.previous_session_clean)
              (saw after start config kernel_power) (saw after start config shutdown_unexpected)
              (gap_verdict (last_metric_timestamp after start.boot_time) start.boot_time
                config.collection_interval_seconds)
              (seen bugcheck ∙ bug) (unfold boot_facts in ap truthy o.clean ∙ clean),
      run_diagnosis-verdict after again config true
          ∙ expected_gap (saw after again config bugcheck) (truthy again.previous_session_clean)
              (saw after again config kernel_power) (saw after again config shutdown_unexpected)
              (gap_verdict (last_metric_timestamp after again.boot_time) again.boot_time
                config.collection_interval_seconds)
              (seen_again bugcheck ∙ bug) again_c (seen_again kernel_power ∙ kp41)
          ∙ ap
              (λ t.
                gap_verdict (last_metric_timestamp after t) t config.collection_interval_seconds)
              again_b,
    )
