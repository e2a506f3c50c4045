-- ===== src/Storage/Connection.antt =====
-- The connection to the database file, storage/database.py: `connect`, `_apply_migrations` and `close`.
-- The file holds the versions of the schema that were written to it and, once they were created, the
-- tables; the pragmas and the indexes, which change no answer, are left out.
pub mod Migrated
use pc_diagnostic_agent.Prelude.{
  ℕ, ◌+◌, ◌≤◌, ◌≡◌, refl, ap, ◌∙◌, Bool, true, false, Option, none, some, List, [], ◌∷◌, ◌++◌,
  head?, leb, any, if◌then◌else◌, arith, Bool-cases, Option-cases, inl, inr,
}
use pc_diagnostic_agent.Prelude.Sort.{sort_by, down}
use pc_diagnostic_agent.Storage.Tables.{Database, new_database}

pub record File : Type 0 where
  pub schema_version : List ℕ
  pub tables : Option Database

-- A file that sqlite3 has just made.
abbrev pub new_file : File
new_file = record { schema_version = []; tables = none }

-- SCHEMA_VERSION.
abbrev pub latest_version : ℕ
latest_version = 1

-- `SELECT version FROM schema_version ORDER BY version DESC LIMIT 1`, 0 where there is no row.
unfoldable pub current_version : File → ℕ
current_version file = elim (head? (sort_by (down (λ (v : ℕ). v)) file.schema_version)) [
  | none ↦ 0
  | some version ↦ version
]

-- CREATE TABLE IF NOT EXISTS: tables that are there stay as they are.
abbrev pub create_tables : Option Database → Database
create_tables none = new_database
create_tables (some db) = db

-- `_apply_migrations`. The table of the versions has no key, so that the row is always a new one.
unfoldable pub apply_migrations : File → File
apply_migrations file = if leb latest_version (current_version file) then file else record {
  schema_version = file.schema_version ++ latest_version ∷ [];
  tables = some (create_tables file.tables);
}

-- `Database`: the file behind an open connection, and the file of a closed one.
pub data Connection : Type 0 where
  closed open_on : File → Connection

unfoldable pub connect : File → Connection
connect file = Connection.open_on (apply_migrations file)

unfoldable pub close : Connection → Connection
close (Connection.closed file) = Connection.closed file
close (Connection.open_on file) = Connection.closed file
