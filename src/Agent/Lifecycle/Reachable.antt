-- ===== src/Agent/Lifecycle/Reachable.antt =====
-- The tables that the agent can reach, from the empty database by any sequence of its operations:
-- agent/lifecycle.py and what it calls.
use pc_diagnostic_agent.Prelude.{
  ℕ, refl, sym, subst, String, Bool, true, false, Option, none, some, if◌then◌else◌,
}
use pc_diagnostic_agent.Storage.Rows.{Time, Session, StateText}
use pc_diagnostic_agent.Storage.Tables.{Database, new_database}
use pc_diagnostic_agent.Storage.Valid.{IsValid, new_database-IsValid}
use pc_diagnostic_agent.Storage.Metrics.{Snapshot, insert_snapshot}
use pc_diagnostic_agent.Storage.State.{update_heartbeat, set_state}
use pc_diagnostic_agent.Storage.Retention.{prune_metrics}
use pc_diagnostic_agent.Storage.Sessions.{latest_session}
use pc_diagnostic_agent.Agent.Config.{Config}
use pc_diagnostic_agent.Agent.Lifecycle.{startup_analysis}
use pc_diagnostic_agent.Agent.Lifecycle.Core.{
  IsValid-core, core-insert_snapshot, core-prune_metrics, core-collect,
}
use pc_diagnostic_agent.Collectors.WindowsEvents.{EventLog, collect}
use pc_diagnostic_agent.Diagnostics.BootDetector.{
  detect_boot, dispatch, reboot, resolve_boot_time, same_boot, service_restart,
}
use pc_diagnostic_agent.Diagnostics.BootDetector.Reboot.{
  reboot_lem, before_open, before_open-IsValid, open_session-IsValid,
}
use pc_diagnostic_agent.Diagnostics.Diagnosis.Engine.{BootFacts, run_diagnosis}
use pc_diagnostic_agent.Diagnostics.Diagnosis.Engine.Persist.{run_diagnosis-IsValid}

-- One operation of the agent.
pub data Step : Database → Database → Type 0 where
  metrics :
      {db : Database} (snapshot : Snapshot) (now session_id : ℕ)
      → Step db (insert_snapshot snapshot now session_id db).1
  heartbeat : {db : Database} (now : Time) → Step db (update_heartbeat now db)
  state :
      {db : Database} (now : Time) (key : String) (value : StateText)
      → Step db (set_state now key value db)
  prune :
      {db : Database} (now retention_hours : ℕ) → Step db (prune_metrics now retention_hours db).1
  collect_events :
      {db : Database} (now session_id : ℕ) (log : EventLog)
      → Step db (collect now session_id log db)
  boot :
      {db : Database} (now : Time) (boot_time psutil : Option Time)
      → Step db (detect_boot now boot_time psutil db).1
  diagnose :
      {db : Database} (facts : BootFacts) (config : Config) (persist : Bool)
      → Step db (run_diagnosis db facts config persist).1

pub data Reachable : Database → Type 0 where
  new : Reachable new_database
  after : {db db' : Database} → Reachable db → Step db db' → Reachable db'

dispatch-IsValid :
    (prev : Option Session) (b now : Time) (db : Database)
    → IsValid db
    → IsValid (dispatch prev b now db).1
dispatch-IsValid none b now db v =
    subst IsValid (sym (reboot_lem none b now db).0) (open_session-IsValid b now none db v)
dispatch-IsValid (some prev) b now db v =
    elim (same_boot prev b)
      as (λ t.
        IsValid (if t then (service_restart prev b db, db) else reboot (some prev) b now db).1) [
          | true ↦ v
          | false ↦ subst IsValid (sym (reboot_lem (some prev) b now db).0) (
              open_session-IsValid b now (some prev.boot_time) (before_open (some prev) b db)
                (before_open-IsValid (some prev) b db v))
        ]

Step-IsValid : {db db' : Database} → Step db db' → IsValid db → IsValid db'
unfolding detect_boot update_heartbeat set_state
Step-IsValid {db} (Step.metrics snapshot now s) v =
    IsValid-core db _ (core-insert_snapshot snapshot now s db) v
Step-IsValid {db} (Step.heartbeat now) v = IsValid-core db _ refl v
Step-IsValid {db} (Step.state now key value) v = IsValid-core db _ refl v
Step-IsValid {db} (Step.prune now h) v = IsValid-core db _ (core-prune_metrics now h db) v
Step-IsValid {db} (Step.collect_events now s log) v =
    IsValid-core db _ (core-collect now s log db) v
Step-IsValid {db} (Step.boot now b psutil) v =
    dispatch-IsValid (latest_session db) (resolve_boot_time b psutil now) now db v
Step-IsValid {db} (Step.diagnose facts config persist) v =
    run_diagnosis-IsValid db facts config persist v

-- From the empty tables, by any sequence of the operations above, the tables stay well-formed: every
-- automatic id is at most its counter, and every finding belongs to an incident id that was given out.
pub Reachable-IsValid : (db : Database) → Reachable db → IsValid db
Reachable-IsValid db Reachable.new = new_database-IsValid
Reachable-IsValid db (Reachable.after {db = before} r s) =
    Step-IsValid s (Reachable-IsValid before r)

-- A start of the agent takes tables that can be reached to tables that can be reached: it is a sequence
-- of such operations.
pub startup_analysis-Reachable :
    (now : Time) (psutil : Option Time) (log : EventLog) (config : Config) (db : Database)
    → Reachable db
    → Reachable (startup_analysis now psutil log config db).2
unfolding startup_analysis
startup_analysis-Reachable now psutil log config db r =
    Reachable.after
      (Reachable.after (Reachable.after r (Step.boot now none psutil))
        (Step.collect_events now _ log))
      (Step.diagnose _ config true)
