-- ===== src/Examples/Logs.antt =====
-- The theorems on the collector of the event log at a concrete log: collectors/windows_events.py.
use pc_diagnostic_agent.Prelude.{
  ℕ, ◌≡◌, ◌<◌, ◌++◌, refl, true, none, some, [], ◌∷◌, reverse, arith, length, All, is_some,
}
use pc_diagnostic_agent.Prelude.Int.{pos}
use pc_diagnostic_agent.Prelude.Dict.{get, string_eq}
use pc_diagnostic_agent.Storage.Rows.{Time, RawId, hours}
use pc_diagnostic_agent.Storage.Tables.{new_database}
use pc_diagnostic_agent.Storage.State.{get_state}
use pc_diagnostic_agent.Collectors.WindowsEvents.{
  LogRecord, last_record_id, last_timestamp, collect,
}
use pc_diagnostic_agent.Collectors.WindowsEvents.Cursor.{
  Batches, log_of, records_of, unseen, IsNewestFirst,
}
use pc_diagnostic_agent.Collectors.WindowsEvents.Once.{rows_of, collect_appends, collect_idempotent}

abbrev pub log_record : ℕ → Time → LogRecord
log_record n t = record {
  source_name = some "EventLog";
  event_id = RawId.int (pos 6008);
  event_type = some (pos 1);
  record_number = some n;
  time_generated = some t;
  computer_name = none;
  formatted = some "The previous system shutdown was unexpected.";
  string_inserts = [];
}

-- Two batches, the newest record first.
abbrev pub batches : Batches
batches = (log_record 9 (hours 9), log_record 8 (hours 8) ∷ []) ∷ (log_record 7 (hours 7), []) ∷ []

newest_first : IsNewestFirst (hours 10) (records_of batches)
unfolding records_of
newest_first =
    ((
      ((omega arith, omega arith), ((omega arith, omega arith), tt)),
      (((omega arith, omega arith), tt), (tt, tt)),
    ))

room :
    length (
      unseen
        (last_record_id new_database)
        (last_timestamp new_database)
        (hours 10)
        (records_of batches))
    < 1000
unfolding records_of last_record_id last_timestamp get_state get
room = omega arith

room_after : length (unseen 7 (hours 7) (hours 10) (records_of batches)) < 1000
unfolding records_of
room_after = omega arith

dated : All (λ (r : LogRecord). is_some r.time_generated ≡ true) (records_of batches)
unfolding records_of
dated = (refl, (refl, (refl, tt)))

collect_appends_example :
    (collect (hours 10) 1 (log_of batches) new_database).events
    ≡ []
      ++ rows_of (hours 10) 1 (
          reverse (
            unseen
              (last_record_id new_database)
              (last_timestamp new_database)
              (hours 10)
              (records_of batches)))
collect_appends_example = collect_appends (hours 10) 1 batches new_database newest_first room

collect_idempotent_example :
    collect (hours 11) 2 (log_of batches) (collect (hours 10) 1 (log_of batches) new_database)
    ≡ collect (hours 10) 1 (log_of batches) new_database
collect_idempotent_example =
    collect_idempotent (hours 10) (hours 11) 1 2 batches new_database newest_first room dated
