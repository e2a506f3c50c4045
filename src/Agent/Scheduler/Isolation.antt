-- ===== src/Agent/Scheduler/Isolation.antt =====
-- The isolation of the collectors, `run_isolated` of collectors/base.py as agent/scheduler.py uses it.
use pc_diagnostic_agent.Prelude.{ℕ, ◌≡◌, refl, none, List, [], ◌∷◌, ◌++◌}
use pc_diagnostic_agent.Storage.Tables.{Database}
use pc_diagnostic_agent.Storage.Metrics.{Snapshot}
use pc_diagnostic_agent.Agent.Scheduler.{Collector, gather}

-- A collector that fails: it raises, and has changed nothing.
abbrev pub Fails : Collector → Type 0
Fails collect = (now session_id : ℕ) (db : Database) → collect now session_id db ≡ (none, db)

-- A collector that fails has no effect on what the others gather, wherever it stands among them.
pub gather-Fails :
    (before after : List Collector) (failing : Collector) (now session_id : ℕ) (snapshot : Snapshot)
    (db : Database)
    → Fails failing
    → gather (before ++ (failing ∷ after)) now session_id snapshot db
      ≡ gather (before ++ after) now session_id snapshot db
unfolding gather
gather-Fails [] after failing now session_id snapshot db h = rw (gather, h now session_id db) refl
gather-Fails (collect ∷ before) after failing now session_id snapshot db h =
    gather-Fails before after failing now session_id _ (collect now session_id db).1 h
