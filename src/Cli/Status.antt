-- ===== src/Cli/Status.antt =====
-- The commands that list what the tables hold, cli/commands.py: `status`, `incidents`, `events` and
-- `health`. The paths, the answer of the service manager and the clock are arguments.
use pc_diagnostic_agent.Prelude.{
  ℕ, ◌+◌, String, Bool, Option, none, some, List, [], ◌∷◌, ◌++◌, map, ltb, head?, take,
  if◌then◌else◌, is_empty,
}
use pc_diagnostic_agent.Prelude.Int.{sub_ℕ}
use pc_diagnostic_agent.Prelude.Sort.{sort_by, down}
use pc_diagnostic_agent.Storage.Rows.{Time, seconds, Session, Event, IncidentRow}
use pc_diagnostic_agent.Storage.Tables.{Database}
use pc_diagnostic_agent.Storage.Events.{clip_text}
use pc_diagnostic_agent.Storage.Sessions.{latest_session}
use pc_diagnostic_agent.Storage.Incidents.{list_incidents}
use pc_diagnostic_agent.Storage.State.{get_heartbeat}
use pc_diagnostic_agent.Printed.{Cell, Line, say}
use pc_diagnostic_agent.Cli.{Output, non_zero, level_name}

-- `format_local(t) if t else default`.
abbrev time_or : Option Time → String → Cell
time_or t default = elim (non_zero t) [ none ↦ Cell.str default | some s ↦ Cell.time (some s) ]

abbrev latest_boot : Option Session → Option Time
latest_boot none = none
latest_boot (some s) = some s.boot_time

abbrev latest_kind : Option IncidentRow → Cell
latest_kind none = Cell.str "none"
latest_kind (some i) = Cell.kind i.incident_type

-- `cmd_status`; `service` is none where the query raises.
unfoldable pub cmd_status : String → String → Option String → Database → Output
cmd_status data_dir database_path service db = record {
  lines =
      say "Agent: installed"
      ∷ (Cell.str "Data directory: " ∷ Cell.str data_dir ∷ [])
      ∷ (Cell.str "Database: " ∷ Cell.str database_path ∷ [])
      ∷ (Cell.str "Heartbeat: " ∷ time_or (get_heartbeat db) "never" ∷ [])
      ∷ (Cell.str "Current boot: " ∷ time_or (latest_boot (latest_session db)) "n/a" ∷ [])
      ∷ (Cell.str "Latest incident: " ∷ latest_kind (head? (list_incidents 1 db)) ∷ [])
      ∷ elim service [
        | none ↦ say "Service: unknown (run as administrator for full status)"
        | some svc ↦ Cell.str "Service: " ∷ Cell.str svc ∷ []
      ]
      ∷ [];
  exit = 0;
}

unfoldable pub incident_line : IncidentRow → Line
incident_line inc =
    Cell.str "#"
    ∷ Cell.count inc.incident_id
    ∷ Cell.str " "
    ∷ Cell.kind inc.incident_type
    ∷ Cell.str " confidence="
    ∷ Cell.confidence inc.confidence
    ∷ Cell.str " at "
    ∷ Cell.time (some inc.detected_at)
    ∷ []

-- What is printed where there is nothing to list.
abbrev lines_or : List Line → String → List Line
lines_or [] default = say default ∷ []
lines_or (l ∷ lines) default = l ∷ lines

unfoldable pub cmd_incidents : ℕ → Database → Output
cmd_incidents limit db = record {
  lines = lines_or (map incident_line (list_incidents limit db)) "No incidents recorded.";
  exit = 0;
}

-- `SELECT … FROM events ORDER BY timestamp DESC LIMIT ?`.
unfoldable pub recent_events : ℕ → Database → List Event
recent_events limit db = take limit (sort_by (down (λ e. e.timestamp)) db.events)

-- The message below an event: its first 200 characters, if there is one.
abbrev message_lines : Bool → Option String → List Line
message_lines verbose none = []
message_lines verbose (some String.[]) = []
message_lines verbose (some message) =
    if verbose then (Cell.str "    " ∷ Cell.str (clip_text 200 message) ∷ []) ∷ [] else []

unfoldable pub event_lines : Bool → List Event → List Line
event_lines verbose [] = []
event_lines verbose (r ∷ rows) =
    (Cell.time (some r.timestamp)
      ∷ Cell.str " | "
      ∷ Cell.or_none r.provider
      ∷ Cell.str " | Event "
      ∷ Cell.event_id r.event_id
      ∷ Cell.str " | "
      ∷ level_name r.level
      ∷ [])
    ∷ (message_lines verbose r.message ++ event_lines verbose rows)

unfoldable pub cmd_events : ℕ → Bool → Database → Output
cmd_events limit verbose db = record {
  lines = lines_or (event_lines verbose (recent_events limit db)) "No events recorded yet.";
  exit = 0;
}

-- What is wrong with the heartbeat: an age above 180 seconds. A heartbeat after `now` has a negative
-- age, which is no problem.
unfoldable pub heartbeat_problems : Time → Option Time → List Line
heartbeat_problems now none = say "no heartbeat recorded (agent may not be running)" ∷ []
heartbeat_problems now (some hb) =
    if ltb (hb + seconds 180) now
    then (Cell.str "heartbeat stale by " ∷ Cell.whole_seconds (sub_ℕ now hb) ∷ Cell.str "s" ∷ [])
      ∷ []
    else []

-- The age that is printed.
abbrev age_cell : Time → Option Time → Cell
age_cell now hb = elim (non_zero hb) [
  | none ↦ Cell.str "n/a"
  | some t ↦ Cell.whole_seconds (sub_ℕ now t)
]

-- `cmd_health`; `error` is what the query of the database raises, and `later` the clock at the second
-- reading.
unfoldable pub cmd_health : Time → Time → Option String → Database → Output
cmd_health now later error db =
    let problems =
      elim error [ none ↦ [] | some e ↦ (Cell.str "database error: " ∷ Cell.str e ∷ []) ∷ [] ]
      ++ heartbeat_problems now (get_heartbeat db) in
    let ok = is_empty problems in
    record {
      lines =
          say (if ok then "Overall health: OK" else "Overall health: PROBLEMS")
          ∷ (Cell.str "Heartbeat age: " ∷ age_cell later (get_heartbeat db) ∷ Cell.str "s" ∷ [])
          ∷ map (λ p. Cell.str "  - " ∷ p) problems;
      exit = if ok then 0 else 1;
    }
