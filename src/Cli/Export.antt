-- ===== src/Cli/Export.antt =====
-- The `export` and `service` commands and `main`, cli/commands.py. The writing of the files and the
-- quoting of the CSV module are left out: a row of the CSV file is the list of the
-- values that the writer gets.
use pc_diagnostic_agent.Prelude.{
  ℕ, String, Bool, Option, none, some, List, [], ◌∷◌, ◌++◌, map, if◌then◌else◌, any,
}
use pc_diagnostic_agent.Prelude.Sort.{sort_by, up}
use pc_diagnostic_agent.Prelude.Dict.{string_eq}
use pc_diagnostic_agent.Storage.Rows.{Event}
use pc_diagnostic_agent.Storage.Tables.{Database}
use pc_diagnostic_agent.Printed.{Cell, Line}
use pc_diagnostic_agent.Cli.{level_name}
use text.Mathlib.Text.{◌==◌ as str_eq}

unfoldable pub csv_row : Event → Line
csv_row r =
    Cell.time (some r.timestamp)
    ∷ Cell.or_none r.provider
    ∷ Cell.event_id r.event_id
    ∷ level_name r.level
    ∷ Cell.or_none r.message
    ∷ []

-- `_events_csv`: a header and a row for each event, by time.
unfoldable pub events_csv : Database → List Line
events_csv db =
    (Cell.str "timestamp"
      ∷ Cell.str "provider"
      ∷ Cell.str "event_id"
      ∷ Cell.str "level"
      ∷ Cell.str "message"
      ∷ [])
    ∷ map csv_row (sort_by (up (λ e. e.timestamp)) db.events)

abbrev file_if : Bool → String → List String
file_if test path = if test then path ∷ [] else []

-- The files that `cmd_export` puts into the archive besides events.csv: the database and the log only
-- if they are there.
unfoldable pub export_files : String → String → Bool → String → Bool → String → List String
export_files report_path database_path has_database log_path has_log sysinfo_path =
    report_path ∷ file_if has_database database_path
    ++ file_if has_log log_path
    ++ sysinfo_path ∷ []

-- What `cmd_service` does with an action: the arguments that it hands to the service framework of
-- pywin32, if it calls it, and the exit code. The framework's own exit is not seen.
unfoldable pub cmd_service : Bool → String → Option (List String) × ℕ
cmd_service has_pywin32 action =
    let one_of = λ (actions : List String). any (λ a. str_eq a action) actions in
    if has_pywin32
    then (if one_of ("install" ∷ "remove" ∷ "start" ∷ "stop" ∷ "restart" ∷ "update" ∷ [])
        then (if one_of ("install" ∷ "update" ∷ [])
            then (some ("pcdiag-service" ∷ "--startup" ∷ "auto" ∷ action ∷ []), 0)
            else (some ("pcdiag-service" ∷ action ∷ []), 0))
        else (none, 1))
    else (none, 1)

-- `main`: the command's exit code, where `none` is a KeyboardInterrupt.
unfoldable pub main : Option ℕ → ℕ
main none = 130
main (some code) = code
