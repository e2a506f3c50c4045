-- ===== src/Diagnostics/BootDetector/Outcome.antt =====
-- What `detect_boot` finds out about the previous session, diagnostics/boot_detector.py.
use pc_diagnostic_agent.Prelude.{
  ◌+◌, ◌≡◌, ◌≢◌, refl, sym, ap, ◌∙◌, subst, Bool, false, not, ◌&&◌, ◌||◌, Option, none, some, arith,
  any, ◌==◌, Bool-cases, inl, inr,
}
use pc_diagnostic_agent.Prelude.Int.{sub_ℕ}
use pc_diagnostic_agent.Storage.Rows.{Time, seconds, Session}
use pc_diagnostic_agent.Storage.Tables.{Database}
use pc_diagnostic_agent.Storage.Events.{events_between}
use pc_diagnostic_agent.Storage.Events.Window.{within, any-events_between}
use pc_diagnostic_agent.Storage.Sessions.{update_session, create_session, latest_session}
use pc_diagnostic_agent.Diagnostics.EventAnalyzer.Category.{
  Category, kernel_power, bugcheck, shutdown_clean, shutdown_unexpected,
}
use pc_diagnostic_agent.Diagnostics.EventAnalyzer.Counts.{in_category, summarize-Describes}
use pc_diagnostic_agent.Diagnostics.BootDetector.{
  BootResult, finalise_previous, open_session, reboot, detect_boot,
}
use pc_diagnostic_agent.Diagnostics.BootDetector.Reboot.{
  is_restart, boot_of, detect_boot_new, detect_boot_same, continues-some, before_open, reboot_lem,
}

-- Whether an event of a category was logged from the previous boot to two minutes after this one.
abbrev pub logged : Database → Session → Time → Category → Bool
logged db prev b c =
    any (λ e. within prev.boot_time (b + seconds 120) e && in_category c e) db.events

-- The outcome of the previous session that the events show.
pub record Outcome (db : Database) (prev : Session) (b : Time) (r : BootResult) : Type 0 where
  pub boot_time : r.boot_time ≡ b
  pub previous_boot_time : r.previous_boot_time ≡ some prev.boot_time
  pub previous_session_id : r.previous_session_id ≡ some prev.session_id
  pub clean : r.previous_session_clean ≡ some (logged db prev b shutdown_clean)
  pub kp41 : r.kernel_power_detected ≡ logged db prev b kernel_power
  pub bug : r.bugcheck_detected ≡ logged db prev b bugcheck
  pub unexpected : r.unexpected_shutdown ≡ (
      not (logged db prev b shutdown_clean)
      && (logged db prev b kernel_power || logged db prev b shutdown_unexpected))
  pub uptime : r.uptime_before_boot ≡ some (sub_ℕ b prev.boot_time)

finalise_previous-Outcome :
    (db : Database) (prev : Session) (b : Time) → Outcome db prev b (finalise_previous prev b db).0
unfolding finalise_previous
finalise_previous-Outcome db prev b =
    let d = summarize-Describes (events_between db prev.boot_time (b + seconds 120)) in
    let seen =
      λ (c : Category). any-events_between (in_category c) db prev.boot_time (b + seconds 120) in
    let clean = d.clean_shutdown ∙ seen shutdown_clean in
    let kp41 = d.kernel_power_detected ∙ seen kernel_power in
    let e6008 = d.unexpected_shutdown_event ∙ seen shutdown_unexpected in
    record {
      boot_time = refl;
      previous_boot_time = refl;
      previous_session_id = refl;
      clean = ap some clean;
      kp41 = kp41;
      bug = d.bugcheck_detected ∙ seen bugcheck;
      unexpected = λ i. not (clean i) && (kp41 i || e6008 i);
      uptime = refl;
    }

reboot-Outcome :
    (db : Database) (prev : Session) (b now : Time)
    → (prev.boot_time == 0) ≡ false
    → Outcome db prev b (reboot (some prev) b now db).0
unfolding reboot
reboot-Outcome db prev b now h =
    let o = finalise_previous-Outcome db prev b in
    rw h (record {
      boot_time = o.boot_time;
      previous_boot_time = o.previous_boot_time;
      previous_session_id = o.previous_session_id;
      clean = o.clean;
      kp41 = o.kp41;
      bug = o.bug;
      unexpected = o.unexpected;
      uptime = o.uptime;
    })

-- After a reboot the result says of the previous session what the events logged since its boot say:
-- it was clean if there is a 6006 or 1074, and ended unexpectedly if it was not and there is a
-- Kernel-Power 41 or a 6008. The boot time 0 of a previous session counts as unknown.
pub detect_boot-Outcome :
    (now b : Time) (psutil : Option Time) (db : Database) (prev : Session)
    → latest_session db ≡ some prev
    → is_restart db b ≡ false
    → prev.boot_time ≢ 0
    → Outcome db prev b (detect_boot now (some b) psutil db).0
detect_boot-Outcome now b psutil db prev e new known =
    subst (λ r. Outcome db prev b r.0) (sym (detect_boot_new now b psutil db new))
      (subst (λ o. Outcome db prev b (reboot o b now db).0) (sym e)
        (reboot-Outcome db prev b now (ground arith)))

events-open_session :
    (b now : Time) (previous : Option Time) (db : Database)
    → (open_session b now previous db).1.events ≡ db.events
unfolding open_session create_session update_session
events-open_session b now none db = refl
events-open_session b now (some t) db = refl

events-before_open :
    (prev : Option Session) (b : Time) (db : Database) → (before_open prev b db).events ≡ db.events
unfolding finalise_previous update_session
events-before_open none b db = refl
events-before_open (some prev) b db = ground arith

-- No start changes the events.
pub events-detect_boot :
    (now b : Time) (psutil : Option Time) (db : Database)
    → (detect_boot now (some b) psutil db).1.events ≡ db.events
events-detect_boot now b psutil db = elim (Bool-cases (is_restart db b)) [
  | inl old ↦
      let (s, e, h) = continues-some (latest_session db) b old in
      ap (λ r. r.1.events) (detect_boot_same now b psutil db s e h)
  | inr new ↦
      let prev = latest_session db in
      ap (λ r. r.1.events) (detect_boot_new now b psutil db new)
      ∙ ap (λ d. d.events) (reboot_lem prev b now db).0
      ∙ events-open_session b now (boot_of prev) (before_open prev b db)
      ∙ events-before_open prev b db
]
