-- ===== src/Printed.antt =====
-- What is printed: the texts of cli/commands.py, reports/report_generator.py and simulation/runner.py,
-- kept as what they tell. `time` is the text of `format_local` (common/time_utils.py) and `clock` that
-- of `format_clock`, `percent` is that of `_pct`, `degrees` of `_temp`, `whole_seconds` of `int` of a
-- length of time, and `rounded` and `rounded_seconds` of the format `:.0f`. `hundredths` is a float that
-- was rounded to them, `gigahertz` the format `:.2f` of megahertz divided by 1000, and `epoch` a time as
-- the number of its seconds.
use pc_diagnostic_agent.Prelude.{ℕ, String, Bool, Option, List, [], ◌∷◌, if◌then◌else◌}
use pc_diagnostic_agent.Prelude.Int.{ℤ}
use pc_diagnostic_agent.Storage.Rows.{Time, RawId, Level, IncidentType, FindingType, EvidenceLine}

pub data Cell : Type 0 where
  str : String → Cell
  or_none : Option String → Cell
  time : Option Time → Cell
  percent degrees : Option ℤ → Cell
  count : ℕ → Cell
  hundredths gigahertz : ℕ → Cell
  epoch : Time → Cell
  clock : Time → Cell
  rounded : ℤ → Cell
  whole_seconds : ℤ → Cell
  rounded_seconds : Time → Cell
  integer : Option ℤ → Cell
  event_id : RawId → Cell
  kind : IncidentType → Cell
  confidence : Level → Cell
  finding : FindingType → Cell
  evidence : EvidenceLine → Cell

-- A printed line, in parts.
abbrev pub Line : Type 0
Line = List Cell

-- A line that is one text.
abbrev pub say : String → Line
say s = Cell.str s ∷ []

abbrev pub yes_no : Bool → String
yes_no b = if b then "YES" else "NO"
