-- ===== src/Cli.antt =====
-- The command line, cli/commands.py. A command is a function from the tables to what it prints and its
-- exit code: it returns no tables, since none of these commands writes to them. Report is on the files.
pub mod Status
pub mod Diagnostics
pub mod Simulate
pub mod Export
pub mod Health
pub mod Listed
pub mod Report
use pc_diagnostic_agent.Prelude.{
  ℕ, String, Bool, Option, none, some, List, [], ◌∷◌, ◌==◌, if◌then◌else◌,
}
use pc_diagnostic_agent.Prelude.Int.{ℤ, pos}
use pc_diagnostic_agent.Printed.{Cell, Line, say}
use pc_diagnostic_agent.Storage.Rows.{Time, RawId, Level, IncidentType, FindingType, EvidenceLine}

pub record Output : Type 0 where
  pub lines : List Line
  pub exit : ℕ

-- `x if x else …`: the time 0 counts as none.
abbrev pub non_zero : Option Time → Option Time
non_zero none = none
non_zero (some t) = if t == 0 then none else some t

-- `_level_name`: the names of the levels 1 to 5, else the number.
unfoldable pub level_name : Option ℤ → Cell
level_name none = Cell.integer none
level_name (some (ℤ.negsuc n)) = Cell.integer (some (ℤ.negsuc n))
level_name (some (pos n)) =
    if n == 1
    then Cell.str "Error"
    else if n == 2
    then Cell.str "Warning"
    else if n == 3
    then Cell.str "Information"
    else if n == 4
    then Cell.str "AuditSuccess"
    else if n == 5
    then Cell.str "AuditFailure"
    else Cell.integer (some (pos n))
