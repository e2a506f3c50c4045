-- ===== src/Cli/Report.antt =====
-- The `report` command, cli/commands.py, with the files that it reads and writes.
use pc_diagnostic_agent.Prelude.{ℕ, String, Option, none, some, List, [], ◌∷◌, ◌>>=◌}
use pc_diagnostic_agent.Prelude.Dict.{put}
use pc_diagnostic_agent.Common.Paths.{FilePath, path_eq, join, database_path, reports_dir}
use pc_diagnostic_agent.Disk.{Disk, Content, open_database}
use pc_diagnostic_agent.Storage.Rows.{Time}
use pc_diagnostic_agent.Storage.Connection.{File}
use pc_diagnostic_agent.Agent.Config.{Config}
use pc_diagnostic_agent.Reports.Sections.{Section, report_sections}
use pc_diagnostic_agent.Printed.{Cell}
use pc_diagnostic_agent.Cli.{Output}

abbrev pub report_file : FilePath → FilePath
report_file root = join (reports_dir root) "report.html"

-- The printed line names the file, whose path as a text is an argument.
abbrev report_output : String → Output
report_output path = record {
  lines = (Cell.str "Report written to: " ∷ Cell.str path ∷ []) ∷ [];
  exit = 0;
}

-- Where the report raises, nothing is printed or written.
abbrev pub write_report : FilePath → String → Option (List Section) → Disk → Option Output × Disk
write_report root path none disk = (none, disk)
write_report root path (some sections) disk =
    (some (report_output path), put disk (report_file root) (Content.report sections))

-- What the command does with the file of the database that it opened.
abbrev pub report_on :
    Time → Config → FilePath → String → Option ℕ → Disk → Option File → Option Output × Disk
report_on now config root path incident disk none = (none, disk)
report_on now config root path incident disk (some file) =
    write_report root path (file.tables >>= report_sections now config incident [])
      (put disk (database_path root) (Content.database file))

-- `cmd_report`: what it prints, or none for an exception. A database that is missing is made.
unfoldable pub cmd_report :
    Time → Config → FilePath → String → Option ℕ → Disk → Option Output × Disk
cmd_report now config root path incident disk =
    report_on now config root path incident disk (open_database disk (database_path root))
