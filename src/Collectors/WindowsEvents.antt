-- ===== src/Collectors/WindowsEvents.antt =====
-- The collector of the Windows event log, collectors/windows_events.py. What win32evtlog answers is
-- the argument `log`: none where OpenEventLog raises, else the answers of ReadEventLog in their order,
-- a batch or none where the call raises; after the last of them there is nothing to read.
pub mod Cursor
pub mod Once
use pc_diagnostic_agent.Prelude.{
  ℕ, ◌+◌, max, String, Bool, true, false, ◌&&◌, Option, none, some, List, [], ◌∷◌, ◌++◌, map,
  reverse, ltb, leb, length, if◌then◌else◌,
}
use pc_diagnostic_agent.Prelude.Int.{ℤ, pos, low16}
use pc_diagnostic_agent.Storage.Rows.{
  Time, seconds, EventInput, RawId, absent, int, not_an_int, StateText, str_int, str_float,
}
use pc_diagnostic_agent.Storage.Tables.{Database}
use pc_diagnostic_agent.Storage.Events.{clip, insert_events}
use pc_diagnostic_agent.Storage.State.{get_state, set_state}
use pc_diagnostic_agent.Prelude.Text.{join}

-- A record of the log. `time_generated` is the time that `mktime` makes of TimeGenerated, none where
-- the attribute is missing or `mktime` raises. `formatted` is SafeFormatMessage's text, none where it
-- raises.
pub record LogRecord : Type 0 where
  pub source_name : Option String
  pub event_id : RawId
  pub event_type : Option ℤ
  pub record_number : Option ℕ
  pub time_generated : Option Time
  pub computer_name : Option String
  pub formatted : Option String
  pub string_inserts : List String

-- `getattr(rec, "RecordNumber", 0) or 0`.
abbrev pub record_id : LogRecord → ℕ
record_id rec = elim rec.record_number [ none ↦ 0 | some n ↦ n ]

-- `_time_generated_to_epoch`, with what the clock says where the record has no time.
abbrev pub epoch : Time → LogRecord → Time
epoch clock rec = elim rec.time_generated [ none ↦ clock | some t ↦ t ]

-- `_normalize_event_id`.
abbrev pub normalize_event_id : RawId → RawId
normalize_event_id absent = absent
normalize_event_id (int raw) = int (pos (low16 raw))
normalize_event_id not_an_int = absent

-- `_format_message`, before it is cut.
abbrev pub raw_message : LogRecord → Option String
raw_message rec = elim rec.formatted [
  | some message ↦ some message
  | none ↦ elim rec.string_inserts [ [] ↦ none | s ∷ inserts ↦ some (join " | " (s ∷ inserts)) ]
]

abbrev pub format_message : LogRecord → Option String
format_message rec = clip (raw_message rec) 4000

-- `_int_or_none` and `_float_or_none` of a value of the agent's state.
abbrev pub int_or_none : Option StateText → Option ℕ
int_or_none (some (str_int n)) = some n
int_or_none _ = none

abbrev pub float_or_none : Option StateText → Option Time
float_or_none none = none
float_or_none (some (str_int n)) = some (seconds n)
float_or_none (some (str_float t)) = some t

-- The test that stops the reading: the record is not newer than the cursor.
abbrev pub seen : ℕ → Time → Time → LogRecord → Bool
seen last_id last_ts clock rec = leb (record_id rec) last_id && leb (epoch clock rec) last_ts

-- The loop over a batch: the records before the first one seen, and whether there is such a one.
unfoldable pub read_batch : ℕ → Time → Time → List LogRecord → List LogRecord × Bool
read_batch last_id last_ts clock [] = ([], false)
read_batch last_id last_ts clock (rec ∷ batch) =
    let (records, stop) = read_batch last_id last_ts clock batch in
    if seen last_id last_ts clock rec then ([], true) else (rec ∷ records, stop)

-- The loop over the batches, with the number of records read so far. MAX_EVENTS_PER_RUN is 1000.
unfoldable pub read_batches : ℕ → ℕ → Time → Time → List (Option (List LogRecord)) → List LogRecord
read_batches n last_id last_ts clock [] = []
read_batches n last_id last_ts clock (none ∷ batches) = []
read_batches n last_id last_ts clock (some [] ∷ batches) = []
read_batches n last_id last_ts clock (some (rec ∷ recs) ∷ batches) =
    let (records, stop) = read_batch last_id last_ts clock (rec ∷ recs) in
    let rest = read_batches (n + length records) last_id last_ts clock batches in
    if ltb n 1000 then (if stop then records else records ++ rest) else []

abbrev pub EventLog : Type 0
EventLog = Option (List (Option (List LogRecord)))

-- `_read_new`.
unfoldable pub read_new : ℕ → Time → Time → EventLog → List LogRecord
read_new last_id last_ts clock none = []
read_new last_id last_ts clock (some batches) =
    reverse (read_batches 0 last_id last_ts clock batches)

abbrev pub event_row : Time → LogRecord → EventInput
event_row clock rec = record {
  timestamp = some (epoch clock rec);
  fields = record {
    provider = rec.source_name;
    event_id = normalize_event_id rec.event_id;
    level = rec.event_type;
    channel = some "System";
    record_id = elim rec.record_number [ none ↦ none | some n ↦ some (pos n) ];
    message = format_message rec;
    computer = rec.computer_name;
    process_id = none;
    thread_id = none;
  };
}

-- `max_id` and `max_ts` after the loop over the records.
unfoldable pub max_record_id : ℕ → List LogRecord → ℕ
max_record_id max_id [] = max_id
max_record_id max_id (rec ∷ records) = max_record_id (max max_id (record_id rec)) records

unfoldable pub max_epoch : Time → Time → List LogRecord → Time
max_epoch clock max_ts [] = max_ts
max_epoch clock max_ts (rec ∷ records) = max_epoch clock (max max_ts (epoch clock rec)) records

-- The cursor that the agent's state holds.
unfoldable pub last_record_id : Database → ℕ
last_record_id db = elim (int_or_none (get_state "event_last_record_id:System" db)) [
  | none ↦ 0
  | some n ↦ n
]

unfoldable pub last_timestamp : Database → Time
last_timestamp db = elim (float_or_none (get_state "event_last_timestamp:System" db)) [
  | none ↦ 0
  | some t ↦ t
]

-- The rest of `collect` once the records are read: the rows, the cursor, and the early return where
-- there is nothing new.
unfoldable pub store_records : Time → ℕ → ℕ → Time → List LogRecord → Database → Database
store_records clock session_id last_id last_ts [] db = db
store_records clock session_id last_id last_ts (rec ∷ recs) db =
    let records = rec ∷ recs in
    let db' = (insert_events (map (event_row clock) records) session_id db).1 in
    set_state clock "event_last_timestamp:System" (str_float (max_epoch clock last_ts records))
      (set_state clock "event_last_record_id:System" (str_int (max_record_id last_id records)) db')

-- `collect` of `WindowsEventCollector("System")` with a database and pywin32 at hand.
unfoldable pub collect : Time → ℕ → EventLog → Database → Database
collect clock session_id log db =
    let last_id = last_record_id db in
    let last_ts = last_timestamp db in
    store_records clock session_id last_id last_ts (read_new last_id last_ts clock log) db
