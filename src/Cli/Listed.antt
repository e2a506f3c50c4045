-- ===== src/Cli/Listed.antt =====
-- What `pcdiag events` and the CSV file of `pcdiag export` list, cli/commands.py.
use mathlib.Core.List.{Perm}
use pc_diagnostic_agent.Prelude.{ℕ, ◌≤◌, ◌++◌, drop, length}
use pc_diagnostic_agent.Prelude.Sort.{sort_by, Sorted, down}
use pc_diagnostic_agent.Prelude.Top.{IsAbove, first-IsAbove, first-Sorted}
use pc_diagnostic_agent.Storage.Rows.{Event}
use pc_diagnostic_agent.Storage.Tables.{Database}
use pc_diagnostic_agent.Cli.Status.{recent_events}

-- By the time of an event.
abbrev pub by_time : Event → ℕ
by_time e = e.timestamp

-- `pcdiag events` lists the newest events, at most as many as its limit, the newest first: with the
-- others they are all the events, and none of the others is later than one that is listed.
pub recent_events-IsAbove :
    (limit : ℕ) (db : Database)
    → Perm (recent_events limit db ++ drop limit (sort_by (down by_time) db.events)) db.events
      × IsAbove by_time (recent_events limit db) (drop limit (sort_by (down by_time) db.events))
      × (length (recent_events limit db) ≤ limit)
      × Sorted (down by_time) (recent_events limit db)
unfolding recent_events
recent_events-IsAbove limit db =
    let (all, above, short) = first-IsAbove by_time limit db.events in
    (all, above, short, first-Sorted by_time limit db.events)
