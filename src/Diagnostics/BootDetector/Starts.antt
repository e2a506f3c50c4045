-- ===== src/Diagnostics/BootDetector/Starts.antt =====
-- What a start of the agent does to the sessions, diagnostics/boot_detector.py.
use pc_diagnostic_agent.Prelude.{
  ℕ, suc, ◌≡◌, refl, sym, ap, ◌∙◌, subst, true, false, Option, none, some, [], ◌∷◌, arith, length,
  length-append, Bool-cases, inl, inr,
}
use pc_diagnostic_agent.Storage.Rows.{Time, Session}
use pc_diagnostic_agent.Storage.Tables.{Database}
use pc_diagnostic_agent.Storage.Valid.{IsValid}
use pc_diagnostic_agent.Storage.Sessions.{latest_session}
use pc_diagnostic_agent.Storage.Sessions.Opened.{session_row, latest_session_last}
use pc_diagnostic_agent.Diagnostics.BootDetector.{
  BootResult, same_boot, service_restart, open_session, reboot, detect_boot,
}
use pc_diagnostic_agent.Diagnostics.BootDetector.Reboot.{
  is_restart, boot_of, continues-some, detect_boot_new, detect_boot_same, reboot_lem,
  open_session_rows, open_session-IsValid, before_open, before_open-IsValid,
  last_session-before_open, length-before_open,
}

-- A new session has a fresh id and is the latest session, with the boot time and that of the session
-- before it; no other row is added and the tables stay well-formed.
pub record OpensSession (db : Database) (now b : Time) (result : BootResult) (after : Database)
    : Type 0 where
  pub fresh : result.session_id ≡ suc db.last_session
  pub latest :
      latest_session after
      ≡ some (session_row (suc db.last_session) b (boot_of (latest_session db)) now)
  pub one_more : length after.sessions ≡ suc (length db.sessions)
  pub valid : IsValid after

reboot-OpensSession :
    (now b : Time) (db : Database)
    → IsValid db
    → OpensSession db now b
        (reboot (latest_session db) b now db).0
        (reboot (latest_session db) b now db).1
reboot-OpensSession now b db valid =
    let prev = latest_session db in
    let db₁ = before_open prev b db in
    let valid₁ = before_open-IsValid prev b db valid in
    let (db_eq, id_eq) = reboot_lem prev b now db in
    let (new_id, rows, counter) = open_session_rows b now (boot_of prev) db₁ valid₁ in
    let last = last_session-before_open prev b db in
    let opened = (open_session b now (boot_of prev) db₁).1 in
    record {
      fresh = id_eq ∙ new_id ∙ ap suc last;
      latest =
          ap latest_session db_eq
          ∙ latest_session_last opened db₁.sessions
              (session_row (suc db₁.last_session) b (boot_of prev) now) db₁.last_session rows
              valid₁.sessions (omega arith)
          ∙ ap (λ n. some (session_row (suc n) b (boot_of prev) now)) last;
      one_more =
          ap (λ d. length d.sessions) db_eq
          ∙ ap length rows
          ∙ omega (
            arith,
            length-append db₁.sessions
                (session_row (suc db₁.last_session) b (boot_of prev) now ∷ []),
            length-before_open prev b db,
          );
      valid = subst IsValid (sym db_eq) (open_session-IsValid b now (boot_of prev) db₁ valid₁);
    }

-- In a valid database, a start whose boot time is a minute or more from that of the latest session
-- opens a session.
pub detect_boot-OpensSession :
    (now b : Time) (psutil : Option Time) (db : Database)
    → IsValid db
    → is_restart db b ≡ false
    → OpensSession db now b
        (detect_boot now (some b) psutil db).0
        (detect_boot now (some b) psutil db).1
detect_boot-OpensSession now b psutil db valid new =
    subst (λ r. OpensSession db now b r.0 r.1) (sym (detect_boot_new now b psutil db new))
      (reboot-OpensSession now b db valid)

-- What a second start in the same boot leaves as it is: the tables and the session.
abbrev pub Again : Time → Time → Option Time → BootResult × Database → Type 0
Again now b psutil r =
    ((detect_boot now (some b) psutil r.1).1 ≡ r.1)
    × ((detect_boot now (some b) psutil r.1).0.session_id ≡ r.0.session_id)

restarts :
    (now b : Time) (psutil : Option Time) (s : Session) (r : BootResult × Database)
    → latest_session r.1 ≡ some s
    → same_boot s b ≡ true
    → s.session_id ≡ r.0.session_id
    → Again now b psutil r
restarts now b psutil s r e h id =
    let same = detect_boot_same now b psutil r.1 s e h in
    (ap (λ q. q.1) same, ap (λ q. q.0.session_id) same ∙ unfold service_restart in id)

same_boot_self :
    (id : ℕ) (b now : Time) (previous : Option Time)
    → same_boot (session_row id b previous now) b ≡ true
unfolding same_boot
same_boot_self id b now previous = ground arith

-- A service restart makes no duplicate: after any start in a valid database, a second start with the
-- same boot time changes nothing in the tables and goes on with the same session.
pub detect_boot-Again :
    (now later b : Time) (psutil : Option Time) (db : Database)
    → IsValid db
    → Again later b psutil (detect_boot now (some b) psutil db)
detect_boot-Again now later b psutil db valid = elim (Bool-cases (is_restart db b)) [
  | inl old ↦
      let (s, e, h) = continues-some (latest_session db) b old in
      subst (Again later b psutil) (sym (detect_boot_same now b psutil db s e h)) (
        restarts later b psutil s (service_restart s b db, db) e h (unfold service_restart in refl))
  | inr new ↦
      let opened = detect_boot-OpensSession now b psutil db valid new in
      restarts later b psutil
        (session_row (suc db.last_session) b (boot_of (latest_session db)) now)
        (detect_boot now (some b) psutil db) opened.latest (same_boot_self _ b now _)
        (sym opened.fresh)
]

-- What a start knows of how the previous session ended.
abbrev pub KnowsNothing : BootResult → Type 0
KnowsNothing r =
    (r.previous_session_clean ≡ none)
    × (r.unexpected_shutdown ≡ false)
    × (r.kernel_power_detected ≡ false)
    × (r.bugcheck_detected ≡ false)
    × (r.uptime_before_boot ≡ none)

restart-KnowsNothing :
    (id b now later : Time) (previous : Option Time) (db : Database)
    → KnowsNothing (service_restart (session_row id b previous now) later db)
unfolding service_restart
restart-KnowsNothing id b now later previous db = (refl, refl, refl, refl, refl)

-- The service restart behind a start that opened a session.
pub restart_lem :
    (now later b : Time) (psutil : Option Time) (db : Database)
    → IsValid db
    → is_restart db b ≡ false
    → (detect_boot later (some b) psutil (detect_boot now (some b) psutil db).1).0
      ≡ service_restart
          (session_row (suc db.last_session) b (boot_of (latest_session db)) now)
          b
          (detect_boot now (some b) psutil db).1
restart_lem now later b psutil db valid new =
    let opened = detect_boot-OpensSession now b psutil db valid new in
    let row = session_row (suc db.last_session) b (boot_of (latest_session db)) now in
    ap (λ r. r.0)
      (detect_boot_same later b psutil (detect_boot now (some b) psutil db).1 row opened.latest
        (same_boot_self _ b now _))

-- After a start that opened a session, a service restart in the same boot does not get back what the
-- first start found: the outcome was written to the row of the previous session, and the restart
-- reads it from the row of the session that goes on.
pub detect_boot-KnowsNothing :
    (now later b : Time) (psutil : Option Time) (db : Database)
    → IsValid db
    → is_restart db b ≡ false
    → KnowsNothing (detect_boot later (some b) psutil (detect_boot now (some b) psutil db).1).0
detect_boot-KnowsNothing now later b psutil db valid new =
    subst KnowsNothing (sym (restart_lem now later b psutil db valid new))
      (restart-KnowsNothing (suc db.last_session) b now b (boot_of (latest_session db)) _)
