-- ===== src/Watchdog/Sequence.antt =====
-- The loop of the watchdog's thread, watchdog/watchdog.py, as the sequence of its checks. Between two
-- checks the rest of the agent changes the tables in whatever way.
use pc_diagnostic_agent.Prelude.{
  suc, ◌+◌, ◌≤◌, ◌<◌, ◌≡◌, Bool, true, false, ◌&&◌, none, some, List, [], ◌∷◌, ltb, if◌then◌else◌,
  Bool-cases, inl, inr, arith, length,
}
use pc_diagnostic_agent.Storage.Rows.{Time}
use pc_diagnostic_agent.Storage.Tables.{Database}
use pc_diagnostic_agent.Storage.State.{get_heartbeat}
use pc_diagnostic_agent.Watchdog.{Watchdog, check, may_restart}

-- What the watchdog meets at one check: the clock, and what has happened to the tables since the last.
abbrev pub Observation : Type 0
Observation = Time × (Database → Database)

-- `run`: the times at which `on_restart` is called, and the state after the last check.
unfoldable pub run : List Observation → Watchdog → Database → List Time × Watchdog × Database
run [] w db = ([], w, db)
run ((now, step) ∷ observations) w db =
    let (asked, w', db') = check now w (step db) in
    let (times, w'', db'') = run observations w' db' in
    (if asked then now ∷ times else times, w'', db'')

-- The condition of the source, on the state that a check meets.
abbrev pub must_restart : Time → Watchdog → Database → Bool
must_restart now w db = elim (get_heartbeat db) [
  | none ↦ false
  | some heartbeat ↦ ltb (heartbeat + w.stale_after) now && may_restart now w
]

abbrev pub SameSettings : Watchdog → Watchdog → Type 0
SameSettings w w' =
    (w'.max_restarts ≡ w.max_restarts)
    × (w'.backoff_seconds ≡ w.backoff_seconds)
    × (w'.stale_after ≡ w.stale_after)

-- Where the condition holds, the check asks for a restart and counts it; it is within the budget and
-- a backoff after the last one.
pub check_restart :
    (now : Time) (w : Watchdog) (db : Database)
    → must_restart now w db ≡ true
    → ((check now w db).0 ≡ true)
      × ((check now w db).1.restarts ≡ suc w.restarts)
      × ((check now w db).1.last_restart ≡ now)
      × SameSettings w (check now w db).1
      × (w.restarts < w.max_restarts)
      × (w.last_restart + w.backoff_seconds ≤ now)
unfolding check
check_restart now w db h = ground arith

-- Where it does not, nothing is asked or counted.
pub check_idle :
    (now : Time) (w : Watchdog) (db : Database)
    → must_restart now w db ≡ false
    → ((check now w db).0 ≡ false)
      × ((check now w db).1.restarts ≡ w.restarts)
      × ((check now w db).1.last_restart ≡ w.last_restart)
      × SameSettings w (check now w db).1
unfolding check
check_idle now w db h = ground arith

-- The times are a backoff apart, the first from the time that is given.
abbrev pub Spaced : Time → Time → List Time → Type 0
Spaced backoff last [] = Unit
Spaced backoff last (t ∷ times) = (last + backoff ≤ t) × Spaced backoff t times

-- Over any sequence of checks, whatever the agent does to the tables between them, the watchdog that
-- starts within its budget asks for as many restarts as it counts, stays within the budget, and asks
-- for no restart earlier than a backoff after the one before.
pub run_bounded :
    (observations : List Observation) (w : Watchdog) (db : Database)
    → w.restarts ≤ w.max_restarts
    → (length (run observations w db).0 + w.restarts ≡ (run observations w db).1.restarts)
      × ((run observations w db).1.restarts ≤ w.max_restarts)
      × Spaced w.backoff_seconds w.last_restart (run observations w db).0
unfolding run
run_bounded [] w db within = (omega arith, within, tt)
run_bounded ((now, step) ∷ observations) w db within =
    let c = check now w (step db) in
    elim (Bool-cases (must_restart now w (step db))) [
      | inl e ↦
          let h = check_restart now w (step db) e in
          let rest = run_bounded observations c.1 c.2 (omega arith) in
          rw h.0 (omega arith, omega arith, (h.5, rw h.3.1 at (rw h.2 at rest.2)))
      | inr e ↦
          let h = check_idle now w (step db) e in
          let rest = run_bounded observations c.1 c.2 (omega arith) in
          rw h.0 (omega arith, omega arith, rw h.3.1 at (rw h.2 at rest.2))
    ]
