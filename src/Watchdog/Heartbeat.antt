-- ===== src/Watchdog/Heartbeat.antt =====
-- The heartbeat file, watchdog/heartbeat.py. Python's `str` of a time and `float` of a text are
-- arguments, and so is whether the file can be written.
use pc_diagnostic_agent.Prelude.{String, Bool, true, false, Option, none, some, ◌≡◌}
use pc_diagnostic_agent.Prelude.Dict.{get, put, get-put, beq_refl}
use pc_diagnostic_agent.Prelude.Text.{strip_text}
use pc_diagnostic_agent.Common.Paths.{FilePath, path_eq}
use pc_diagnostic_agent.Disk.{Disk, Content}
use pc_diagnostic_agent.Storage.Rows.{Time}

unfoldable pub write_heartbeat_file : (Time → String) → Bool → FilePath → Time → Disk → Disk
write_heartbeat_file to_str true path timestamp disk =
    put disk path (Content.other (to_str timestamp))
write_heartbeat_file to_str false path timestamp disk = disk

-- A database and a report are no numbers.
abbrev number_of : (String → Option Time) → Option Content → Option Time
number_of to_float none = none
number_of to_float (some (Content.database file)) = none
number_of to_float (some (Content.report sections)) = none
number_of to_float (some (Content.other text)) = to_float (strip_text text)

unfoldable pub read_heartbeat_file : (String → Option Time) → FilePath → Disk → Option Time
read_heartbeat_file to_float path disk = number_of to_float (get disk path)

-- Where `float` reads what `str` prints, the time that was written is read.
pub read_heartbeat_file-write :
    (to_str : Time → String) (to_float : String → Option Time) (path : FilePath) (t : Time)
    (disk : Disk)
    → to_float (strip_text (to_str t)) ≡ some t
    → read_heartbeat_file to_float path (write_heartbeat_file to_str true path t disk) ≡ some t
unfolding read_heartbeat_file write_heartbeat_file
read_heartbeat_file-write to_str to_float path t disk h =
    rw (read_heartbeat_file, get-put disk path path (Content.other (to_str t)), beq_refl path) h
