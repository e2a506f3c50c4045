-- ===== src/Diagnostics/Diagnosis/Latest.antt =====
-- That `diagnose_latest`, which the command line calls, finds what the start of the agent found:
-- diagnostics/diagnosis.py.
use mathlib.Core.Path.{ap₂}
use pc_diagnostic_agent.Prelude.{
  ◌++◌, suc, ◌+◌, ◌≡◌, refl, ap, sym, ◌∙◌, not, ◌&&◌, ◌||◌, false, Option, some, List, [], ◌∷◌,
  ◌==◌, ◌≢◌, head?, where_rows, ltb, arith, ==_iff,
}
use pc_diagnostic_agent.Prelude.Int.{sub_ℕ}
use pc_diagnostic_agent.Prelude.Sort.{sort_by, down}
use pc_diagnostic_agent.Storage.Rows.{Time, seconds, Session}
use pc_diagnostic_agent.Storage.Tables.{Database}
use pc_diagnostic_agent.Storage.Valid.{IsValid}
use pc_diagnostic_agent.Storage.Events.{events_between}
use pc_diagnostic_agent.Storage.Sessions.{
  SessionField, previous_session_clean, unexpected_shutdown, kernel_power_detected,
  bugcheck_detected, uptime_before_boot, set_field, set_fields, update_rows, update_session,
  latest_session, session_before,
}
use pc_diagnostic_agent.Storage.Sessions.Opened.{session_row}
use pc_diagnostic_agent.Storage.Sessions.Before.{updated, latest-update_rows, session_before_last}
use pc_diagnostic_agent.Agent.Config.{Config}
use pc_diagnostic_agent.Diagnostics.EventAnalyzer.Summary.{summarize}
use pc_diagnostic_agent.Diagnostics.BootDetector.{
  BootResult, finalise_previous, open_session, reboot, detect_boot,
}
use pc_diagnostic_agent.Diagnostics.BootDetector.Reboot.{
  is_restart, boot_of, before_open, before_open-IsValid, last_session-before_open, reboot_lem,
  open_session_rows, detect_boot_new,
}
use pc_diagnostic_agent.Diagnostics.BootDetector.Starts.{detect_boot-OpensSession}
use pc_diagnostic_agent.Diagnostics.BootDetector.Outcome.{Outcome, detect_boot-Outcome}
use pc_diagnostic_agent.Diagnostics.Diagnosis.Engine.{
  boot_facts, run_diagnosis, latest_boot_facts, diagnose_session, diagnose_latest,
}

module _ (prev : Session) (b : Time) (db : Database) where
  -- The columns that the reboot fills in the row of the previous session.
  abbrev pub outcome_fields : List SessionField
  outcome_fields =
      let summary = summarize (events_between db prev.boot_time (b + seconds 120)) in
      previous_session_clean summary.clean_shutdown
      ∷ unexpected_shutdown (
          not summary.clean_shutdown
          && (summary.kernel_power_detected || summary.unexpected_shutdown_event))
      ∷ kernel_power_detected summary.kernel_power_detected
      ∷ bugcheck_detected summary.bugcheck_detected
      ∷ uptime_before_boot (sub_ℕ b prev.boot_time)
      ∷ []

  -- The row of the previous session after the reboot.
  abbrev pub ended : Session
  ended = set_fields outcome_fields prev

  ended_clean :
      (now : Time)
      → (prev.boot_time == 0) ≡ false
      → ended.previous_session_clean ≡ (reboot (some prev) b now db).0.previous_session_clean
  unfolding reboot finalise_previous set_fields set_field
  ended_clean now known = rw known refl

  ended_same : (ended.session_id ≡ prev.session_id) × (ended.boot_time ≡ prev.boot_time)
  unfolding set_fields set_field
  ended_same = (refl, refl)

  before_open-sessions :
      (prev.boot_time == 0) ≡ false
      → (before_open (some prev) b db).sessions
        ≡ update_rows prev.session_id outcome_fields db.sessions
  unfolding finalise_previous update_session
  before_open-sessions known = rw known refl

  -- The sessions after the reboot.
  pub reboot-sessions :
      (now : Time)
      → IsValid db
      → (prev.boot_time == 0) ≡ false
      → (reboot (some prev) b now db).1.sessions
        ≡ update_rows prev.session_id outcome_fields db.sessions
          ++ session_row (suc db.last_session) b (some prev.boot_time) now ∷ []
  reboot-sessions now valid known =
      let db₁ = before_open (some prev) b db in
      let (new_id, rows, counter) =
        open_session_rows b now (some prev.boot_time) db₁
          (before_open-IsValid (some prev) b db valid) in
      ap (λ d. d.sessions) (reboot_lem (some prev) b now db).0
      ∙ rows
      ∙ ap₂ (λ l n. l ++ session_row (suc n) b (some prev.boot_time) now ∷ [])
          (before_open-sessions known) (last_session-before_open (some prev) b db)

  -- The session before the one that the reboot opens is the one that ended.
  reboot-session_before :
      (now : Time)
      → IsValid db
      → latest_session db ≡ some prev
      → (prev.boot_time == 0) ≡ false
      → session_before (suc db.last_session) (reboot (some prev) b now db).1 ≡ some ended
  unfolding latest_session
  reboot-session_before now valid e known =
      let db₁ = before_open (some prev) b db in
      let valid₁ = before_open-IsValid (some prev) b db valid in
      let (new_id, rows, counter) = open_session_rows b now (some prev.boot_time) db₁ valid₁ in
      let opened = (open_session b now (some prev.boot_time) db₁).1 in
      let last = last_session-before_open (some prev) b db in
      let newest = down (λ (r : Session). r.session_id) in
      let self : updated prev.session_id outcome_fields prev ≡ ended =
        rw ((==_iff prev.session_id prev.session_id).1 refl) refl in
      ap (session_before (suc db.last_session)) (reboot_lem (some prev) b now db).0
      ∙ ap (λ n. session_before (suc n) opened) (sym last)
      ∙ session_before_last opened db₁.sessions
          (session_row (suc db₁.last_session) b (some prev.boot_time) now) db₁.last_session rows
          valid₁.sessions refl
      ∙ ap (λ l. head? (sort_by newest l)) (before_open-sessions known)
      ∙ latest-update_rows prev.session_id outcome_fields db.sessions prev e
      ∙ ap some self

-- The facts that `diagnose_latest` puts together of the two latest sessions.
facts_read :
    (db : Database) (prev ended_row : Session) (id b now : Time) (r : BootResult)
    → Outcome db prev b r
    → prev.boot_time ≢ 0
    → ended_row.session_id ≡ prev.session_id
    → ended_row.previous_session_clean ≡ r.previous_session_clean
    → latest_boot_facts (session_row id b (some prev.boot_time) now) (some ended_row) ≡ boot_facts r
unfolding latest_boot_facts boot_facts
facts_read db prev ended_row id b now r o known same clean =
    rw ((let z : (prev.boot_time == 0) ≡ false = ground arith in z)) (λ i. record {
      boot_time = sym o.boot_time i;
      previous_boot_time = sym o.previous_boot_time i;
      previous_session_id = (ap some same ∙ sym o.previous_session_id) i;
      previous_session_clean = clean i;
    })

-- After a reboot, with whatever was logged and measured since in the tables, the command line's
-- diagnosis is the one that the start of the agent makes: it reads back from the sessions what the start
-- had found.
pub diagnose_latest-run_diagnosis :
    (now b : Time) (psutil : Option Time) (db later : Database) (prev : Session) (config : Config)
    → IsValid db
    → latest_session db ≡ some prev
    → is_restart db b ≡ false
    → prev.boot_time ≢ 0
    → later.sessions ≡ (detect_boot now (some b) psutil db).1.sessions
    → diagnose_latest later config
      ≡ (run_diagnosis later (boot_facts (detect_boot now (some b) psutil db).0) config false).0
unfolding diagnose_latest diagnose_session latest_session session_before
diagnose_latest-run_diagnosis now b psutil db later prev config valid e new known same =
    let start = detect_boot now (some b) psutil db in
    let row = session_row (suc db.last_session) b (some prev.boot_time) now in
    let last = ended prev b db in
    let nonzero : (prev.boot_time == 0) ≡ false = ground arith in
    let rebooted : start ≡ reboot (some prev) b now db =
      detect_boot_new now b psutil db new ∙ ap (λ o. reboot o b now db) e in
    let is_latest : latest_session later ≡ some row =
      ap (λ l. head? (sort_by (down (λ (s : Session). s.session_id)) l)) same
      ∙ (detect_boot-OpensSession now b psutil db valid new).latest
      ∙ ap (λ o. some (session_row (suc db.last_session) b (boot_of o) now)) e in
    let is_before : session_before (suc db.last_session) later ≡ some last =
      ap
        (λ l. head? (
          sort_by (down (λ s. s.session_id))
            (where_rows (λ (s : Session). ltb s.session_id (suc db.last_session)) l)))
        same
      ∙ ap (λ r. session_before (suc db.last_session) r.1) rebooted
      ∙ reboot-session_before prev b db now valid e nonzero in
    ap (λ o. diagnose_session o later config) is_latest
    ∙ ap (λ o. (run_diagnosis later (latest_boot_facts row o) config false).0) is_before
    ∙ ap (λ f. (run_diagnosis later f config false).0)
        (facts_read db prev last (suc db.last_session) b now start.0
          (detect_boot-Outcome now b psutil db prev e new known) known (ended_same prev b db).0
          (ended_clean prev b db now nonzero ∙ ap (λ r. r.0.previous_session_clean) (sym rebooted)))
