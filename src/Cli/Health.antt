-- ===== src/Cli/Health.antt =====
-- What the exit code of `pcdiag health` tells, and the age of the heartbeat while the agent runs:
-- cli/commands.py, with agent/scheduler.py.
use pc_diagnostic_agent.Prelude.{
  All, ◌<◌, ℕ, ◌+◌, ◌≤◌, ◌≡◌, ◌↔◌, refl, String, Bool, true, Option, none, some, List, [], ◌∷◌,
  ◌++◌, is_empty, if◌then◌else◌, arith,
}
use pc_diagnostic_agent.Storage.Rows.{Time, seconds}
use pc_diagnostic_agent.Storage.Tables.{Database}
use pc_diagnostic_agent.Storage.State.{get_heartbeat}
use pc_diagnostic_agent.Agent.Scheduler.{Loop}
use pc_diagnostic_agent.Agent.Scheduler.Cycles.{
  Keeps, IsBeating, high_interval, passes, loop-IsFresh,
}
use pc_diagnostic_agent.Printed.{Cell}
use pc_diagnostic_agent.Cli.Status.{cmd_health, heartbeat_problems}

-- A heartbeat that is at most three minutes old.
abbrev pub IsRecent : Time → Option Time → Type 0
IsRecent now none = ⊥
IsRecent now (some hb) = now ≤ hb + seconds 180

health_iff :
    (now : Time) (hb : Option Time) (error : Option String)
    → (is_empty (
          elim error [ none ↦ [] | some e ↦ (Cell.str "database error: " ∷ Cell.str e ∷ []) ∷ [] ]
          ++ heartbeat_problems now hb)
        ≡ true)
      ↔ ((error ≡ none) × IsRecent now hb)
unfolding heartbeat_problems
health_iff now hb (some e) = (λ h. cc, λ h. cc (h.0))
health_iff now none none = (λ h. cc, λ h. absurd h.1)
health_iff now (some t) none = (λ h. (refl, ground arith), λ h. ground arith)

abbrev exit_of : Bool → ℕ
exit_of ok = if ok then 0 else 1

zero_if : (ok : Bool) → exit_of ok ≡ 0 → ok ≡ true
zero_if b h = ground arith

-- `pcdiag health` exits with 0 just when the database answers and there is a heartbeat that is at most
-- 180 seconds old.
pub cmd_health-exit :
    (now later : Time) (error : Option String) (db : Database)
    → ((cmd_health now later error db).exit ≡ 0)
      ↔ ((error ≡ none) × IsRecent now (get_heartbeat db))
unfolding cmd_health
cmd_health-exit now later error db =
    let h = health_iff now (get_heartbeat db) error in
    (λ e. h.0 (zero_if _ e), λ k. rw (h.1 k) refl)

-- While the loop of the scheduler runs, `pcdiag health` exits with 0: at any time up to two minutes
-- after a pass, with an interval of at most a minute and a database that answers.
pub cmd_health-loop :
    (wakes : List (Time × ℕ)) (last session_id : ℕ) (l : Loop) (now later : Time)
    → All Keeps l.scheduler.low_frequency
    → 0 < high_interval l
    → high_interval l ≤ seconds 60
    → All (λ (w : Time × ℕ). high_interval l ≤ w.0) wakes
    → high_interval l ≤ last
    → IsBeating l
    → now ≤ last + seconds 120
    → (cmd_health now later none (passes wakes last session_id l).db).exit ≡ 0
cmd_health-loop wakes last session_id l now later keeps positive short all_late late beats soon =
    let (beat, fresh) = loop-IsFresh wakes last session_id l keeps positive all_late late beats in
    (cmd_health-exit now later none (passes wakes last session_id l).db).1
      (refl, rw beat (omega arith))
