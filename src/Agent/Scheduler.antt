-- ===== src/Agent/Scheduler.antt =====
-- The collection scheduler, agent/scheduler.py. A collector is a function of the clock, the session and
-- the tables to its snapshot, none where it raises, and to the tables after it. The heartbeat file and
-- the log are left out. sqlite3's own errors are not modelled, so a cycle runs to its end.
pub mod Cycles
pub mod Isolation
pub mod Watched
use pc_diagnostic_agent.Prelude.{
  ℕ, ◌+◌, max, String, Bool, Option, none, some, List, [], ◌∷◌, leb, if◌then◌else◌,
}
use pc_diagnostic_agent.Prelude.Dict.{Dict, put, string_eq}
use pc_diagnostic_agent.Storage.Rows.{Time, seconds, Value}
use pc_diagnostic_agent.Storage.Tables.{Database}
use pc_diagnostic_agent.Storage.Metrics.{Snapshot, insert_snapshot}
use pc_diagnostic_agent.Storage.State.{update_heartbeat}
use pc_diagnostic_agent.Storage.Retention.{prune_metrics}
use pc_diagnostic_agent.Agent.Config.{Config}

abbrev pub Collector : Type 0
Collector = Time → ℕ → Database → Option Snapshot × Database

pub record Scheduler : Type 0 where
  pub config : Config
  pub high_frequency : List Collector
  pub low_frequency : List Collector
  pub last_retention : Time

-- `snapshot.update(result)`.
unfoldable pub update : Snapshot → Snapshot → Snapshot
update snapshot [] = snapshot
update snapshot ((table, rows) ∷ result) = update (put snapshot table rows) result

abbrev pub merge : Snapshot → Option Snapshot → Snapshot
merge snapshot none = snapshot
merge snapshot (some result) = update snapshot result

-- The loop over the collectors. `run_isolated` makes none of a collector that raises.
unfoldable pub gather : List Collector → Time → ℕ → Snapshot → Database → Snapshot × Database
gather [] now session_id snapshot db = (snapshot, db)
gather (collect ∷ collectors) now session_id snapshot db =
    let (result, db') = collect now session_id db in
    gather collectors now session_id (merge snapshot result) db'

unfoldable pub collect_high : Scheduler → Time → ℕ → Database → ℕ × Database
collect_high s now session_id db =
    let (snapshot, db₁) = gather s.high_frequency now session_id [] db in
    let (inserted, db₂) = insert_snapshot snapshot now session_id db₁ in
    (inserted, update_heartbeat now db₂)

-- The time between two prunings.
abbrev pub retention_interval : Config → Time
retention_interval config = seconds (max 300 config.low_frequency_interval_seconds)

-- An empty snapshot, which is not inserted, would insert nothing. `clock` is what retention reads.
unfoldable pub collect_low : Scheduler → Time → Time → ℕ → Database → Scheduler × Database
collect_low s now clock session_id db =
    let (snapshot, db₁) = gather s.low_frequency now session_id [] db in
    let (inserted, db₂) = insert_snapshot snapshot now session_id db₁ in
    if leb (s.last_retention + retention_interval s.config) now
    then (record s { last_retention = now }, (prune_metrics clock s.config.retention_hours db₂).1)
    else (s, db₂)

-- The state of `loop`.
pub record Loop : Type 0 where
  pub scheduler : Scheduler
  pub last_high : Time
  pub last_low : Time
  pub db : Database

abbrev pub new_loop : Scheduler → Database → Loop
new_loop s db = record { scheduler = s; last_high = 0; last_low = 0; db = db }

abbrev pub high_due : Loop → Time → Bool
high_due l now = leb (l.last_high + seconds l.scheduler.config.collection_interval_seconds) now

abbrev pub low_due : Loop → Time → Bool
low_due l now = leb (l.last_low + seconds l.scheduler.config.low_frequency_interval_seconds) now

-- The two halves of the body of the loop.
unfoldable pub high_cycle : Time → ℕ → Loop → Loop
high_cycle now session_id l =
    if high_due l now
    then record l { db = (collect_high l.scheduler now session_id l.db).1; last_high = now }
    else l

unfoldable pub low_cycle : Time → ℕ → Loop → Loop
low_cycle now session_id l =
    let (s, db) = collect_low l.scheduler now now session_id l.db in
    if low_due l now then record l { scheduler = s; db = db; last_low = now } else l

abbrev pub pass : Time → ℕ → Loop → Loop
pass now session_id l = low_cycle now session_id (high_cycle now session_id l)

-- `loop`: a pass for each time at which the loop wakes up before the stop event is set, with the
-- session that `session_provider` gives then.
unfoldable pub loop : List (Time × ℕ) → Loop → Loop
loop [] l = l
loop ((now, session_id) ∷ wakes) l = loop wakes (pass now session_id l)
