-- ===== src/Agent/Lifecycle/IncidentsApart.antt =====
-- Incidents stay apart, over everything that the agent does: diagnostics/diagnosis.py.
use pc_diagnostic_agent.Prelude.{
  ℕ, suc, ◌+◌, ◌-◌, ◌≡◌, refl, sym, ap, subst, Bool, true, false, not, ◌&&◌, Option, none, some,
  List, [], ◌∷◌, ◌++◌, All, All-append, arith, any, ltb, leb, abs_diff, if◌then◌else◌,
}
use pc_diagnostic_agent.Storage.Rows.{Time, seconds, Session, IncidentRow, Incident, Finding}
use pc_diagnostic_agent.Storage.Tables.{Database}
use pc_diagnostic_agent.Storage.State.{update_heartbeat, set_state}
use pc_diagnostic_agent.Storage.Sessions.{latest_session, create_session, update_session}
use pc_diagnostic_agent.Storage.Incidents.{create_incident}
use pc_diagnostic_agent.Storage.Incidents.Stored.{create_incident_lem, incident_row}
use pc_diagnostic_agent.Agent.Config.{Config}
use pc_diagnostic_agent.Agent.Lifecycle.Core.{
  core-insert_snapshot, core-prune_metrics, core-collect,
}
use pc_diagnostic_agent.Diagnostics.BootDetector.{
  detect_boot, dispatch, reboot, open_session, resolve_boot_time, finalise_previous,
}
use pc_diagnostic_agent.Diagnostics.Diagnosis.Engine.{
  BootFacts, run_diagnosis, warranted, crash_of, incident_exists, incident_of, findings_of,
}
use pc_diagnostic_agent.Diagnostics.Diagnosis.Engine.Persist.{run_diagnosis_writes}
use pc_diagnostic_agent.Agent.Lifecycle.Reachable.{Step, Reachable}

dispatch_incidents :
    (prev : Option Session) (b now : Time) (db : Database)
    → (dispatch prev b now db).1.incidents ≡ db.incidents
unfolding reboot open_session finalise_previous create_session update_session
dispatch_incidents none b now db = refl
dispatch_incidents (some prev) b now db = ground arith

-- More than five seconds between the reboot times of two incidents.
abbrev pub Apart : IncidentRow → IncidentRow → Type 0
Apart a b = ltb (seconds 5) (abs_diff a.reboot_timestamp b.reboot_timestamp) ≡ true

abbrev pub AllApart : List IncidentRow → Type 0
AllApart [] = Unit
AllApart (row ∷ rows) = All (Apart row) rows × AllApart rows

AllApart-append :
    (rows : List IncidentRow) (row : IncidentRow)
    → AllApart rows
    → All (λ r. Apart r row) rows
    → AllApart (rows ++ (row ∷ []))
AllApart-append [] row h k = (tt, tt)
AllApart-append (r ∷ rows) row h k =
    (All-append (Apart r) rows (row ∷ []) h.0 (k.0, tt), AllApart-append rows row h.1 k.1)

-- Where `_incident_exists` finds none, every incident is apart from the new one.
not_exists-Apart :
    (row : IncidentRow) (rows : List IncidentRow)
    → any
        (λ (r : IncidentRow).
          leb (row.reboot_timestamp - seconds 5) r.reboot_timestamp
          && leb r.reboot_timestamp (row.reboot_timestamp + seconds 5))
        rows
      ≡ false
    → All (λ r. Apart r row) rows
not_exists-Apart row [] h = tt
not_exists-Apart row (r ∷ rows) h = (ground arith, not_exists-Apart row rows (ground arith))

create_incident-AllApart :
    (incident : Incident) (fs : List Finding) (db : Database)
    → AllApart db.incidents
    → incident_exists db incident.reboot_timestamp ≡ false
    → AllApart (create_incident incident fs db).1.incidents
unfolding incident_exists
create_incident-AllApart incident fs db h e =
    let row = incident_row (suc db.last_incident) incident in
    subst (λ (r : ℕ × Database). AllApart r.1.incidents) (sym (create_incident_lem incident fs db))
      (AllApart-append db.incidents row h (not_exists-Apart row db.incidents e))

stored_or_not :
    (w p e : Bool) (a b : Database)
    → (e ≡ false → AllApart a.incidents)
    → AllApart b.incidents
    → AllApart (if w && (p && not e) then a else b).incidents
stored_or_not true true true a b h k = k
stored_or_not true true false a b h k = h refl
stored_or_not true false e a b h k = k
stored_or_not false p e a b h k = k

run_diagnosis-AllApart :
    (db : Database) (boot : BootFacts) (config : Config) (persist : Bool)
    → AllApart db.incidents
    → AllApart (run_diagnosis db boot config persist).1.incidents
unfolding incident_of
run_diagnosis-AllApart db boot config persist h =
    let incident = incident_of db boot config in
    let findings = findings_of db boot config in
    subst (λ (d : Database). AllApart d.incidents)
      (sym (run_diagnosis_writes db boot config persist))
      (stored_or_not (warranted (crash_of db boot config)) persist
        (incident_exists db boot.boot_time) (create_incident incident findings db).1 db
        (λ e. create_incident-AllApart incident findings db h e) h)

Step-AllApart : {db db' : Database} → Step db db' → AllApart db.incidents → AllApart db'.incidents
unfolding detect_boot update_heartbeat set_state
Step-AllApart {db} (Step.metrics snapshot now s) h =
    subst AllApart (sym (ap (λ c. c.incidents) (core-insert_snapshot snapshot now s db))) h
Step-AllApart {db} (Step.heartbeat now) h = h
Step-AllApart {db} (Step.state now key value) h = h
Step-AllApart {db} (Step.prune now hours) h =
    subst AllApart (sym (ap (λ c. c.incidents) (core-prune_metrics now hours db))) h
Step-AllApart {db} (Step.collect_events now s log) h =
    subst AllApart (sym (ap (λ c. c.incidents) (core-collect now s log db))) h
Step-AllApart {db} (Step.boot now b psutil) h =
    subst AllApart
      (sym (dispatch_incidents (latest_session db) (resolve_boot_time b psutil now) now db)) h
Step-AllApart {db} (Step.diagnose facts config persist) h =
    run_diagnosis-AllApart db facts config persist h

-- From the empty tables, by any sequence of the agent's operations, no two incidents in the tables have
-- reboot times within five seconds of each other.
pub Reachable-AllApart : (db : Database) → Reachable db → AllApart db.incidents
Reachable-AllApart db Reachable.new = tt
Reachable-AllApart db (Reachable.after {db = before} r s) =
    Step-AllApart s (Reachable-AllApart before r)
