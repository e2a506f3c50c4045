-- ===== src/Watchdog/Silent.antt =====
-- The restarts that the watchdog asks for when the agent has stopped, watchdog/watchdog.py.
use pc_diagnostic_agent.Prelude.{
  min, map, take, ℕ, zero, suc, ◌+◌, ◌-◌, ◌*◌, ◌/◌, ◌≤◌, ◌<◌, ◌≡◌, refl, ap, sym, ◌∙◌, true, false,
  some, List, [], ◌∷◌, ltb, leb, if◌then◌else◌, Bool-cases, inl, inr, arith, length-take-min,
  length,
}
use pc_diagnostic_agent.Storage.Rows.{Time, seconds}
use pc_diagnostic_agent.Storage.Tables.{Database}
use pc_diagnostic_agent.Storage.State.{get_heartbeat, set_state}
use pc_diagnostic_agent.Watchdog.{Watchdog, new_watchdog, check, may_restart, record_failure}
use pc_diagnostic_agent.Watchdog.Sequence.{
  Observation, run, must_restart, check_restart, check_idle,
}

-- The observations of an agent that leaves the heartbeat alone: every check is more than
-- `stale_after` after it.
abbrev pub Silent : Time → Time → List Observation → Type 0
Silent heartbeat stale_after [] = Unit
Silent heartbeat stale_after ((now, step) ∷ observations) =
    ((db : Database) → get_heartbeat db ≡ some heartbeat → get_heartbeat (step db) ≡ some heartbeat)
    × (heartbeat + stale_after < now)
    × Silent heartbeat stale_after observations

-- Of the times, those that are due: the first a backoff after the last restart, and then each that is a
-- backoff after the one before that was due.
unfoldable pub due : Time → Time → List Time → List Time
due backoff last [] = []
due backoff last (t ∷ times) =
    let waited = due backoff last times in
    let restarted = due backoff t times in if leb (last + backoff) t then t ∷ restarted else waited

check_heartbeat :
    (now : Time) (w : Watchdog) (db : Database)
    → get_heartbeat (check now w db).2 ≡ get_heartbeat db
unfolding check record_failure set_state get_heartbeat
check_heartbeat now w db = ground arith

must_restart_silent :
    (now heartbeat : Time) (w : Watchdog) (db : Database)
    → get_heartbeat db ≡ some heartbeat
    → heartbeat + w.stale_after < now
    → must_restart now w db ≡ may_restart now w
must_restart_silent now heartbeat w db h stale = ground arith

take_nil : (n : ℕ) → take {A = Time} n [] ≡ []
take_nil zero = refl
take_nil (suc n) = refl

take_none : (n : ℕ) (times : List Time) → n ≡ 0 → take n times ≡ []
take_none n times e = rw e refl

due_now :
    (backoff last t : Time) (times : List Time)
    → leb (last + backoff) t ≡ true
    → due backoff last (t ∷ times) ≡ t ∷ due backoff t times
unfolding due
due_now backoff last t times h = rw h refl

due_later :
    (backoff last t : Time) (times : List Time)
    → leb (last + backoff) t ≡ false
    → due backoff last (t ∷ times) ≡ due backoff last times
unfolding due
due_later backoff last t times h = rw h refl

take_first :
    (max_restarts restarts : ℕ) (t : Time) (times : List Time)
    → restarts < max_restarts
    → take (max_restarts - restarts) (t ∷ times) ≡ t ∷ take (max_restarts - suc restarts) times
take_first max_restarts restarts t times h =
    let e : max_restarts - restarts ≡ suc (max_restarts - suc restarts) = omega arith in rw e refl

-- When the agent has stopped writing its heartbeat, which at each check is older than the limit, the
-- watchdog asks for a restart at just those of its checks that are due, the first a backoff after the last
-- restart and each a backoff after the one before, until its budget is spent: whatever the times of the
-- checks.
pub run-Silent :
    (observations : List Observation) (heartbeat : Time) (w : Watchdog) (db : Database)
    → get_heartbeat db ≡ some heartbeat
    → Silent heartbeat w.stale_after observations
    → (run observations w db).0
      ≡ take
          (w.max_restarts - w.restarts)
          (due w.backoff_seconds w.last_restart (map (λ o. o.0) observations))
unfolding run due
run-Silent [] heartbeat w db h s = sym (take_nil (w.max_restarts - w.restarts))
run-Silent ((now, step) ∷ observations) heartbeat w db h s =
    let seen = s.0 db h in
    let c = check now w (step db) in
    let must = must_restart_silent now heartbeat w (step db) seen s.1 in
    let still = check_heartbeat now w (step db) ∙ seen in
    let budget = ltb w.restarts w.max_restarts in
    let times = map (λ (o : Observation). o.0) observations in
    elim (Bool-cases (may_restart now w)) [
      | inl may ↦
          let r = check_restart now w (step db) (must ∙ may) in
          let rest = run-Silent observations heartbeat c.1 c.2 still (rw r.3.2 s.2) in
          rw (r.0, due_now w.backoff_seconds w.last_restart now times (ground arith))
            (ap (λ l. now ∷ l) (rw (r.3.0, r.1, r.3.1, r.2) at rest)
              ∙ sym
                  (take_first w.max_restarts w.restarts now (due w.backoff_seconds now times) r.4))
      | inr not ↦
          let r = check_idle now w (step db) (must ∙ not) in
          let rest = run-Silent observations heartbeat c.1 c.2 still (rw r.3.2 s.2) in
          let same = rw (r.3.0, r.1, r.3.1, r.2) at rest in
          elim (Bool-cases (leb (w.last_restart + w.backoff_seconds) now)) [
            | inl late ↦
                let spent : w.max_restarts - w.restarts ≡ 0 = ground arith in
                rw r.0 (
                  same
                  ∙ take_none _ (due w.backoff_seconds w.last_restart times) spent
                  ∙ sym (take_none _ (due w.backoff_seconds w.last_restart (now ∷ times)) spent))
            | inr early ↦ rw (r.0, due_later w.backoff_seconds w.last_restart now times early) same
          ]
    ]

-- Times at which the watchdog checks, its interval of ten seconds apart.
abbrev pub every_ten_seconds : Time → ℕ → List Time
every_ten_seconds t zero = []
every_ten_seconds t (suc n) = t ∷ every_ten_seconds (t + seconds 10) n

-- So many checks that come before one is due.
abbrev Waits : ℕ → Time → Time → Type 0
Waits zero last t = last + seconds 60 ≤ t
Waits (suc j) last t = t + seconds 10 * suc j ≡ last + seconds 60

length-due :
    (n j : ℕ) (last t : Time)
    → Waits j last t
    → length (due (seconds 60) last (every_ten_seconds t n)) ≡ (n - j + 5) / 6
unfolding due
length-due zero j last t h = omega arith
length-due (suc n) zero last t h =
    let rest = length-due n 5 t (t + seconds 10) (omega arith) in
    rw (due_now (seconds 60) last t (every_ten_seconds (t + seconds 10) n) (ground arith))
      (omega arith)
length-due (suc n) (suc zero) last t h =
    let rest = length-due n zero last (t + seconds 10) (omega arith) in
    rw (due_later (seconds 60) last t (every_ten_seconds (t + seconds 10) n) (ground arith))
      (omega arith)
length-due (suc n) (suc (suc j)) last t h =
    let rest = length-due n (suc j) last (t + seconds 10) (omega arith) in
    rw (due_later (seconds 60) last t (every_ten_seconds (t + seconds 10) n) (ground arith))
      (omega arith)

-- With the settings of the program, a check each ten seconds and a backoff of a minute, a new watchdog of
-- an agent that has stopped, whose heartbeat is more than 90 seconds old at each check, has asked after n
-- checks for (n + 5) / 6 restarts, which is one more at each sixth check from the first on, but for no more
-- than five.
pub run-every_ten_seconds :
    (observations : List Observation) (heartbeat t : Time) (db : Database)
    → get_heartbeat db ≡ some heartbeat
    → Silent heartbeat (seconds 90) observations
    → heartbeat + seconds 90 < t
    → map (λ o. o.0) observations ≡ every_ten_seconds t (length observations)
    → length (run observations new_watchdog db).0 ≡ min 5 ((length observations + 5) / 6)
run-every_ten_seconds observations heartbeat t db h s late times =
    let times' = every_ten_seconds t (length observations) in
    ap length (run-Silent observations heartbeat new_watchdog db h s)
    ∙ length-take-min 5 (due (seconds 60) 0 (map (λ (o : Observation). o.0) observations))
    ∙ ap (λ l. min 5 (length (due (seconds 60) 0 l))) times
    ∙ ap (min 5) (length-due (length observations) 0 0 t (omega arith) ∙ omega arith)
