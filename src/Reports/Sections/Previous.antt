-- ===== src/Reports/Sections/Previous.antt =====
-- What a report says of the session that a reboot ended, reports/report_generator.py.
use pc_diagnostic_agent.Prelude.{
  refl, true, Bool, List, [], ◌∷◌, if◌then◌else◌, suc, ◌+◌, ◌≡◌, ◌≢◌, ap, ◌∙◌, not, ◌&&◌, ◌||◌,
  false, Option, some, ◌==◌, arith,
}
use pc_diagnostic_agent.Prelude.Int.{sub_ℕ}
use pc_diagnostic_agent.Storage.Rows.{Time, seconds, Session}
use pc_diagnostic_agent.Storage.Tables.{Database}
use pc_diagnostic_agent.Storage.Valid.{IsValid}
use pc_diagnostic_agent.Storage.Events.{events_between}
use pc_diagnostic_agent.Storage.Events.Window.{any-events_between}
use pc_diagnostic_agent.Storage.Sessions.{set_field, set_fields, latest_session, get_session}
use pc_diagnostic_agent.Storage.Sessions.Opened.{session_row}
use pc_diagnostic_agent.Storage.Sessions.Before.{get_session-update_rows}
use pc_diagnostic_agent.Diagnostics.EventAnalyzer.Category.{
  Category, kernel_power, bugcheck, shutdown_clean, shutdown_unexpected,
}
use pc_diagnostic_agent.Diagnostics.EventAnalyzer.Counts.{in_category, summarize-Describes}
use pc_diagnostic_agent.Diagnostics.BootDetector.{detect_boot, reboot}
use pc_diagnostic_agent.Diagnostics.BootDetector.Reboot.{is_restart, detect_boot_new}
use pc_diagnostic_agent.Diagnostics.BootDetector.Outcome.{logged}
use pc_diagnostic_agent.Diagnostics.Diagnosis.Latest.{outcome_fields, ended, reboot-sessions}
use pc_diagnostic_agent.Reports.Sections.{
  Row, recorded, fmt_duration, session_rows, previous_session,
}
use pc_diagnostic_agent.Printed.{Cell, say}

-- The row of a session with the outcome that the logged events show.
abbrev with_outcome : Database → Session → Time → Session
with_outcome db prev b = record prev {
  previous_session_clean = some (logged db prev b shutdown_clean);
  unexpected_shutdown = some (
      not (logged db prev b shutdown_clean)
      && (logged db prev b kernel_power || logged db prev b shutdown_unexpected));
  kernel_power_detected = some (logged db prev b kernel_power);
  bugcheck_detected = some (logged db prev b bugcheck);
  uptime_before_boot = some (sub_ℕ b prev.boot_time);
}

ended-with_outcome :
    (prev : Session) (b : Time) (db : Database) → ended prev b db ≡ with_outcome db prev b
unfolding set_fields set_field
ended-with_outcome prev b db =
    let d = summarize-Describes (events_between db prev.boot_time (b + seconds 120)) in
    let seen =
      λ (c : Category). any-events_between (in_category c) db prev.boot_time (b + seconds 120) in
    let clean = d.clean_shutdown ∙ seen shutdown_clean in
    let kp41 = d.kernel_power_detected ∙ seen kernel_power in
    let e6008 = d.unexpected_shutdown_event ∙ seen shutdown_unexpected in
    let bug = d.bugcheck_detected ∙ seen bugcheck in
    λ i. record prev {
      previous_session_clean = some (clean i);
      unexpected_shutdown = some (not (clean i) && (kp41 i || e6008 i));
      kernel_power_detected = some (kp41 i);
      bugcheck_detected = some (bug i);
      uptime_before_boot = some (sub_ℕ b prev.boot_time);
    }

-- The rows that are shown of a session that ended cleanly or not, with or without a Kernel-Power 41 and a
-- BugCheck.
abbrev pub shown_rows : Session → Time → Bool → Bool → Bool → List Row
shown_rows prev b clean kp41 bug =
    ("Previous boot", Cell.time (some prev.boot_time) ∷ [])
    ∷ ("Previous session ended cleanly", say (if clean then "Yes" else "No"))
    ∷ ("Previous session ended unexpectedly", say (if clean then "No" else "Yes"))
    ∷ ("Kernel-Power 41", say (if kp41 then "Yes" else "No"))
    ∷ ("BugCheck", say (if bug then "Yes" else "No"))
    ∷ ("Uptime before boot", fmt_duration (some (sub_ℕ b prev.boot_time)))
    ∷ []

session_rows-shown :
    (prev : Session) (b : Time) (clean kp41 bug e6008 : Bool)
    → session_rows (record prev {
      previous_session_clean = some clean;
      unexpected_shutdown = some e6008;
      kernel_power_detected = some kp41;
      bugcheck_detected = some bug;
      uptime_before_boot = some (sub_ℕ b prev.boot_time);
    })
      ≡ shown_rows prev b clean kp41 bug
unfolding session_rows
session_rows-shown prev b true kp41 bug e6008 = refl
session_rows-shown prev b false kp41 bug e6008 = refl

-- After a reboot, with whatever was stored since that leaves the sessions alone, a report on the
-- incident shows of the previous session what the events logged since its boot say: "Yes" for a clean
-- end just if a clean shutdown was logged, and for an unexpected end just if none was, "Yes" for the
-- Kernel-Power 41 and for the BugCheck just if one was, its boot time, and its length.
pub previous_session-detect_boot :
    (now b : Time) (psutil : Option Time) (db later : Database) (prev : Session)
    → IsValid db
    → latest_session db ≡ some prev
    → get_session prev.session_id db ≡ some prev
    → is_restart db b ≡ false
    → prev.boot_time ≢ 0
    → prev.session_id ≢ 0
    → later.sessions ≡ (detect_boot now (some b) psutil db).1.sessions
    → previous_session (some prev.session_id) later
      ≡ recorded (
          shown_rows prev b
            (logged db prev b shutdown_clean)
            (logged db prev b kernel_power)
            (logged db prev b bugcheck))
unfolding previous_session
previous_session-detect_boot now b psutil db later prev valid e found new known numbered same =
    let nonzero : (prev.session_id == 0) ≡ false = ground arith in
    let booted : (prev.boot_time == 0) ≡ false = ground arith in
    let rows =
      same
      ∙ ap (λ r. r.1.sessions) (detect_boot_new now b psutil db new)
      ∙ ap (λ o. (reboot o b now db).1.sessions) e
      ∙ reboot-sessions prev b db now valid booted in
    rw
      (
        nonzero,
        get_session-update_rows db later (outcome_fields prev b db) prev
            (session_row (suc db.last_session) b (some prev.boot_time) now) found rows,
      )
      (ap (λ s. recorded (session_rows s)) (ended-with_outcome prev b db)
        ∙ ap recorded (session_rows-shown prev b _ _ _ _))
