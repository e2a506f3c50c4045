-- ===== src/Diagnostics/BootDetector.antt =====
-- diagnostics/boot_detector.py: whether a start of the agent is a reboot, and what ended the session
-- before it.
pub mod Reboot
pub mod Starts
pub mod Outcome
use pc_diagnostic_agent.Prelude.{
  ℕ, ◌+◌, Bool, false, not, ◌&&◌, ◌||◌, Option, none, some, [], ◌∷◌, ◌==◌, ltb, abs_diff, truthy,
  if◌then◌else◌,
}
use pc_diagnostic_agent.Prelude.Int.{ℤ, sub_ℕ}
use pc_diagnostic_agent.Storage.Rows.{Time, seconds, Session}
use pc_diagnostic_agent.Storage.Tables.{Database}
use pc_diagnostic_agent.Storage.Events.{events_between}
use pc_diagnostic_agent.Storage.Sessions.{
  create_session, update_session, latest_session, session_before, previous_boot_time,
  uptime_before_boot, previous_session_clean, unexpected_shutdown, kernel_power_detected,
  bugcheck_detected,
}
use pc_diagnostic_agent.Diagnostics.EventAnalyzer.Summary.{summarize}

pub record BootResult : Type 0 where
  pub boot_time : Time
  pub previous_boot_time : Option Time
  pub previous_session_id : Option ℕ
  pub previous_session_clean : Option Bool
  pub unexpected_shutdown : Bool
  pub kernel_power_detected : Bool
  pub bugcheck_detected : Bool
  pub uptime_before_boot : Option ℤ
  pub session_id : ℕ

-- The boot time: the argument, else what psutil answers, else, where that raises, the present.
unfoldable pub resolve_boot_time : Option Time → Option Time → Time → Time
resolve_boot_time (some boot_time) psutil_boot_time now = boot_time
resolve_boot_time none (some boot_time) now = boot_time
resolve_boot_time none none now = now

-- Same OS boot as the latest session: less than a minute between the boot times.
unfoldable pub same_boot : Session → Time → Bool
same_boot prev boot_time = ltb (abs_diff prev.boot_time boot_time) (seconds 60)

abbrev pub id_of : Option Session → Option ℕ
id_of none = none
id_of (some s) = some s.session_id

-- The result of a service restart: the metadata of the session that goes on.
unfoldable pub service_restart : Session → Time → Database → BootResult
service_restart prev boot_time db = record {
  boot_time = boot_time;
  previous_boot_time = prev.previous_boot_time;
  previous_session_id = id_of (session_before prev.session_id db);
  previous_session_clean = prev.previous_session_clean;
  unexpected_shutdown = truthy prev.unexpected_shutdown;
  kernel_power_detected = truthy prev.kernel_power_detected;
  bugcheck_detected = truthy prev.bugcheck_detected;
  uptime_before_boot = prev.uptime_before_boot;
  session_id = prev.session_id;
}

-- The result, but for the session's id, of a start with no session before it.
abbrev pub first_boot : Time → Option Session → BootResult
first_boot boot_time prev = record {
  boot_time = boot_time;
  previous_boot_time = elim prev [ none ↦ none | some s ↦ some s.boot_time ];
  previous_session_id = id_of prev;
  previous_session_clean = none;
  unexpected_shutdown = false;
  kernel_power_detected = false;
  bugcheck_detected = false;
  uptime_before_boot = none;
  session_id = 0;
}

-- The outcome that the events around the boot show, written to the previous session's row.
unfoldable pub finalise_previous : Session → Time → Database → BootResult × Database
finalise_previous prev boot_time db =
    let summary = summarize (events_between db prev.boot_time (boot_time + seconds 120)) in
    let clean = summary.clean_shutdown in
    let kp41 = summary.kernel_power_detected in
    let bugcheck = summary.bugcheck_detected in
    let unexpected = not clean && (kp41 || summary.unexpected_shutdown_event) in
    let uptime = sub_ℕ boot_time prev.boot_time in
    (
      record (first_boot boot_time (some prev)) {
        previous_session_clean = some clean;
        kernel_power_detected = kp41;
        bugcheck_detected = bugcheck;
        unexpected_shutdown = unexpected;
        uptime_before_boot = some uptime;
      },
      update_session prev.session_id
          (previous_session_clean clean
            ∷ unexpected_shutdown unexpected
            ∷ kernel_power_detected kp41
            ∷ bugcheck_detected bugcheck
            ∷ uptime_before_boot uptime
            ∷ [])
          db,
    )

-- The new session's row, which also keeps the boot time of the session before it.
unfoldable pub open_session : Time → Time → Option Time → Database → ℕ × Database
open_session boot_time now none db = create_session boot_time now db
open_session boot_time now (some previous) db =
    let (session_id, db') = create_session boot_time now db in
    (session_id, update_session session_id (previous_boot_time previous ∷ []) db')

-- A reboot: `if previous_boot_time` also skips the boot time 0.
unfoldable pub reboot : Option Session → Time → Time → Database → BootResult × Database
reboot none boot_time now db =
    let (session_id, db') = open_session boot_time now none db in
    (record (first_boot boot_time none) { session_id = session_id }, db')
reboot (some prev) boot_time now db =
    let (result, db₁) =
      if prev.boot_time == 0
      then (first_boot boot_time (some prev), db)
      else finalise_previous prev boot_time db in
    let (session_id, db₂) = open_session boot_time now (some prev.boot_time) db₁ in
    (record result { session_id = session_id }, db₂)

abbrev pub dispatch : Option Session → Time → Time → Database → BootResult × Database
dispatch none boot_time now db = reboot none boot_time now db
dispatch (some prev) boot_time now db =
    if same_boot prev boot_time
    then (service_restart prev boot_time db, db)
    else reboot (some prev) boot_time now db

unfoldable pub detect_boot : Time → Option Time → Option Time → Database → BootResult × Database
detect_boot now boot_time psutil_boot_time db =
    dispatch (latest_session db) (resolve_boot_time boot_time psutil_boot_time now) now db
