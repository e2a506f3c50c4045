-- ===== src/Disk.antt =====
-- The files that the agent reads and writes: a dictionary from paths to contents. Directories are left
-- out, and so are the files that sqlite3 has beside a database while it is open.
use pc_diagnostic_agent.Prelude.{String, Option, none, some, List}
use pc_diagnostic_agent.Prelude.Dict.{Dict, get}
use pc_diagnostic_agent.Common.Paths.{FilePath, path_eq}
use pc_diagnostic_agent.Storage.Connection.{File, new_file, apply_migrations}
use pc_diagnostic_agent.Reports.Sections.{Section}

pub data Content : Type 0 where
  database : File → Content
  report : List Section → Content
  other : String → Content

abbrev pub Disk : Type 0
Disk = Dict FilePath Content

-- The file that `connect` opens: a new one where there is none, an error where it is no database.
abbrev pub database_of : Option Content → Option File
database_of none = some new_file
database_of (some (Content.database file)) = some file
database_of (some (Content.report sections)) = none
database_of (some (Content.other text)) = none

-- `Database(path).connect()`.
unfoldable pub open_database : Disk → FilePath → Option File
open_database disk path = elim (database_of (get disk path)) [
  | none ↦ none
  | some file ↦ some (apply_migrations file)
]
