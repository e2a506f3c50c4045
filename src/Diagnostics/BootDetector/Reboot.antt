-- ===== src/Diagnostics/BootDetector/Reboot.antt =====
-- The two starts that `detect_boot` tells apart, a reboot and a service restart,
-- diagnostics/boot_detector.py.
use pc_diagnostic_agent.Prelude.{
  suc, ◌≡◌, refl, Bool, true, false, Option, none, some, [], ◌∷◌, ◌++◌, arith, ◌==◌, length,
  Bool-cases, inl, inr, if◌then◌else◌,
}
use pc_diagnostic_agent.Storage.Rows.{Time, Session}
use pc_diagnostic_agent.Storage.Tables.{Database}
use pc_diagnostic_agent.Storage.Valid.{IsValid}
use pc_diagnostic_agent.Storage.Sessions.{
  set_field, set_fields, update_session, create_session, latest_session,
}
use pc_diagnostic_agent.Storage.Sessions.Opened.{
  session_row, update_rows_last, length-update_rows, update_session-IsValid, create_session-IsValid,
}
use pc_diagnostic_agent.Diagnostics.BootDetector.{
  same_boot, service_restart, finalise_previous, open_session, reboot, detect_boot,
  resolve_boot_time, dispatch,
}

-- Whether the latest session is one of this boot.
abbrev pub continues : Option Session → Time → Bool
continues none boot_time = false
continues (some prev) boot_time = same_boot prev boot_time

abbrev pub is_restart : Database → Time → Bool
is_restart db boot_time = continues (latest_session db) boot_time

abbrev pub boot_of : Option Session → Option Time
boot_of none = none
boot_of (some s) = some s.boot_time

pub open_session_rows :
    (boot_time now : Time) (previous : Option Time) (db : Database)
    → IsValid db
    → ((open_session boot_time now previous db).0 ≡ suc db.last_session)
      × ((open_session boot_time now previous db).1.sessions
          ≡ db.sessions ++ session_row (suc db.last_session) boot_time previous now ∷ [])
      × ((open_session boot_time now previous db).1.last_session ≡ suc db.last_session)
unfolding open_session create_session update_session set_fields set_field
open_session_rows boot_time now none db valid = (refl, refl, refl)
open_session_rows boot_time now (some previous) db valid = (
  refl,
  update_rows_last db.last_session _ db.sessions
      (session_row (suc db.last_session) boot_time none now) valid.sessions refl,
  refl,
)

pub open_session-IsValid :
    (boot_time now : Time) (previous : Option Time) (db : Database)
    → IsValid db
    → IsValid (open_session boot_time now previous db).1
unfolding open_session
open_session-IsValid boot_time now none db valid = create_session-IsValid boot_time now db valid
open_session-IsValid boot_time now (some previous) db valid =
    update_session-IsValid _ _ _ (create_session-IsValid boot_time now db valid)

-- The tables as the new session finds them.
abbrev pub before_open : Option Session → Time → Database → Database
before_open none boot_time db = db
before_open (some prev) boot_time db =
    if prev.boot_time == 0 then db else (finalise_previous prev boot_time db).1

pub before_open-IsValid :
    (prev : Option Session) (boot_time : Time) (db : Database)
    → IsValid db
    → IsValid (before_open prev boot_time db)
before_open-IsValid none boot_time db valid = valid
before_open-IsValid (some prev) boot_time db valid =
    elim (prev.boot_time == 0)
      as (λ b. IsValid (if b then db else (finalise_previous prev boot_time db).1)) [
        | true ↦ valid
        | false ↦ unfold finalise_previous in update_session-IsValid prev.session_id _ db valid
      ]

pub last_session-before_open :
    (prev : Option Session) (boot_time : Time) (db : Database)
    → (before_open prev boot_time db).last_session ≡ db.last_session
unfolding finalise_previous update_session
last_session-before_open none boot_time db = refl
last_session-before_open (some prev) boot_time db = ground arith

pub length-before_open :
    (prev : Option Session) (boot_time : Time) (db : Database)
    → length (before_open prev boot_time db).sessions ≡ length db.sessions
length-before_open none boot_time db = refl
length-before_open (some prev) boot_time db = elim (Bool-cases (prev.boot_time == 0)) [
  | inl z ↦ rw z
  | inr z ↦
      rw z (
        unfold finalise_previous update_session in length-update_rows prev.session_id _ db.sessions)
]

pub reboot_lem :
    (prev : Option Session) (boot_time now : Time) (db : Database)
    → ((reboot prev boot_time now db).1
        ≡ (open_session boot_time now (boot_of prev) (before_open prev boot_time db)).1)
      × ((reboot prev boot_time now db).0.session_id
          ≡ (open_session boot_time now (boot_of prev) (before_open prev boot_time db)).0)
unfolding reboot
reboot_lem none boot_time now db = (refl, refl)
reboot_lem (some prev) boot_time now db = ground arith

pub continues-some :
    (latest : Option Session) (b : Time)
    → continues latest b ≡ true
    → (s : Session) × (latest ≡ some s) × (same_boot s b ≡ true)
continues-some none b h = cc
continues-some (some s) b h = (s, refl, h)

dispatch_new :
    (latest : Option Session) (b now : Time) (db : Database)
    → continues latest b ≡ false
    → dispatch latest b now db ≡ reboot latest b now db
dispatch_new none b now db h = refl
dispatch_new (some prev) b now db h = rw h

pub detect_boot_new :
    (now b : Time) (psutil : Option Time) (db : Database)
    → is_restart db b ≡ false
    → detect_boot now (some b) psutil db ≡ reboot (latest_session db) b now db
unfolding detect_boot resolve_boot_time
detect_boot_new now b psutil db h = dispatch_new (latest_session db) b now db h

pub detect_boot_same :
    (now b : Time) (psutil : Option Time) (db : Database) (prev : Session)
    → latest_session db ≡ some prev
    → same_boot prev b ≡ true
    → detect_boot now (some b) psutil db ≡ (service_restart prev b db, db)
unfolding detect_boot resolve_boot_time
detect_boot_same now b psutil db prev e h = rw (e, h)
