-- ===== src/Collectors/WindowsEvents/Once.antt =====
-- Each event of the log is stored once: `collect` of collectors/windows_events.py.
use pc_diagnostic_agent.Prelude.{
  ℕ, ◌≤◌, ◌<◌, ◌≡◌, refl, sym, ap, ◌∙◌, max, true, List, [], ◌∷◌, ◌++◌, subst, All-unreverse, map,
  reverse, length, All, is_some, Bool-cases, inl, inr, arith, append-nil,
}
use pc_diagnostic_agent.Prelude.Dict.{string_eq}
use pc_diagnostic_agent.Storage.Rows.{Time, Event}
use pc_diagnostic_agent.Storage.Tables.{Database}
use pc_diagnostic_agent.Storage.Events.{accepted_events, insert_events}
use pc_diagnostic_agent.Storage.State.{set_state}
use pc_diagnostic_agent.Storage.State.Stored.{get_state-set_state}
use pc_diagnostic_agent.Collectors.WindowsEvents.{
  LogRecord, record_id, epoch, seen, read_new, event_row, max_record_id, max_epoch, last_record_id,
  last_timestamp, collect, store_records,
}
use pc_diagnostic_agent.Collectors.WindowsEvents.Cursor.{
  Batches, log_of, records_of, unseen, is_seen, IsNewestFirst, read_new-unseen, IsSuffix-All,
  none_left, read_batches-unseen,
}

-- The rows of events that a list of records becomes.
abbrev pub rows_of : Time → ℕ → List LogRecord → List Event
rows_of clock session_id records = accepted_events session_id (map (event_row clock) records)

store_records_events :
    (clock session_id last_id last_ts : ℕ) (records : List LogRecord) (db : Database)
    → (store_records clock session_id last_id last_ts records db).events
      ≡ db.events ++ rows_of clock session_id records
unfolding store_records insert_events set_state accepted_events
store_records_events clock session_id last_id last_ts [] db = sym (append-nil db.events)
store_records_events clock session_id last_id last_ts (rec ∷ recs) db = refl

-- `collect` adds to the events the rows of exactly the records that are newer than the cursor, in the
-- order of time, after those that are there: provided that the log is read without an error, is
-- newest first, and has fewer than 1000 of them.
pub collect_appends :
    (clock session_id : ℕ) (batches : Batches) (db : Database)
    → IsNewestFirst clock (records_of batches)
    → length (unseen (last_record_id db) (last_timestamp db) clock (records_of batches)) < 1000
    → (collect clock session_id (log_of batches) db).events
      ≡ db.events
        ++ rows_of clock session_id
            (reverse (unseen (last_record_id db) (last_timestamp db) clock (records_of batches)))
unfolding collect
collect_appends clock session_id batches db h room =
    let last_id = last_record_id db in
    let last_ts = last_timestamp db in
    store_records_events clock session_id last_id last_ts
      (read_new last_id last_ts clock (log_of batches)) db
    ∙ ap (λ records. db.events ++ rows_of clock session_id records)
        (read_new-unseen last_id last_ts clock batches h room)

max_record_id_covers :
    (last_id : ℕ) (records : List LogRecord)
    → (last_id ≤ max_record_id last_id records)
      × All (λ r. record_id r ≤ max_record_id last_id records) records
unfolding max_record_id
max_record_id_covers last_id [] = (omega arith, tt)
max_record_id_covers last_id (rec ∷ records) =
    let (least, rest) = max_record_id_covers (max last_id (record_id rec)) records in
    (omega arith, (omega arith, rest))

max_epoch_covers :
    (clock last_ts : Time) (records : List LogRecord)
    → (last_ts ≤ max_epoch clock last_ts records)
      × All (λ r. epoch clock r ≤ max_epoch clock last_ts records) records
unfolding max_epoch
max_epoch_covers clock last_ts [] = (omega arith, tt)
max_epoch_covers clock last_ts (rec ∷ records) =
    let (least, rest) = max_epoch_covers clock (max last_ts (epoch clock rec)) records in
    (omega arith, (omega arith, rest))

-- The cursor after `collect` has stored some records.
store_records_cursor :
    (clock session_id : ℕ) (records : List LogRecord) (db : Database)
    → let db' = store_records clock session_id (last_record_id db) (last_timestamp db) records db in
      (last_record_id db' ≡ max_record_id (last_record_id db) records)
      × (last_timestamp db' ≡ max_epoch clock (last_timestamp db) records)
unfolding store_records last_record_id last_timestamp max_record_id max_epoch
store_records_cursor clock session_id [] db = (refl, refl)
store_records_cursor clock session_id (rec ∷ recs) db = (
  rw (last_record_id, get_state-set_state, get_state-set_state),
  rw (last_timestamp, get_state-set_state),
)

-- A record with a time of its own is covered whatever the clock says.
seen_covered :
    (clock clock' id ts : ℕ) (rec : LogRecord)
    → is_some rec.time_generated ≡ true
    → record_id rec ≤ id
    → epoch clock rec ≤ ts
    → seen id ts clock' rec ≡ true
seen_covered clock clock' id ts rec dated a b = ground arith

seen_bounds :
    (last_id last_ts clock : ℕ) (rec : LogRecord)
    → seen last_id last_ts clock rec ≡ true
    → (record_id rec ≤ last_id) × (epoch clock rec ≤ last_ts)
seen_bounds last_id last_ts clock rec e = ground arith

-- Records whose new ones a later cursor covers are all behind it, whatever the clock says, if each
-- has its own time.
All-seen :
    (last_id last_ts clock clock' id ts : ℕ) (records : List LogRecord)
    → last_id ≤ id
    → last_ts ≤ ts
    → All (λ r. is_some r.time_generated ≡ true) records
    → All (λ r. (record_id r ≤ id) × (epoch clock r ≤ ts)) (unseen last_id last_ts clock records)
    → All (λ r. seen id ts clock' r ≡ true) records
All-seen last_id last_ts clock clock' id ts [] a b dated h = tt
All-seen last_id last_ts clock clock' id ts (rec ∷ records) a b dated h =
    elim (Bool-cases (seen last_id last_ts clock rec)) [
      | inl e ↦
          let (old_id, old_ts) = seen_bounds last_id last_ts clock rec e in
          (
            seen_covered clock clock' id ts rec dated.0 (omega arith) (omega arith),
            All-seen last_id last_ts clock clock' id ts records a b dated.1 (rw e at h),
          )
      | inr e ↦
          let covered = rw e at h in
          (
            seen_covered clock clock' id ts rec dated.0 covered.0.0 covered.0.1,
            All-seen last_id last_ts clock clock' id ts records a b dated.1 covered.1,
          )
    ]

both :
    (clock id ts : ℕ) (records : List LogRecord)
    → All (λ r. record_id r ≤ id) records
    → All (λ r. epoch clock r ≤ ts) records
    → All (λ r. (record_id r ≤ id) × (epoch clock r ≤ ts)) records
both clock id ts [] h k = tt
both clock id ts (rec ∷ records) h k = ((h.0, k.0), both clock id ts records h.1 k.1)

read_new_nothing :
    (id ts clock : ℕ) (batches : Batches)
    → All (λ r. seen id ts clock r ≡ true) (records_of batches)
    → read_new id ts clock (log_of batches) ≡ []
unfolding read_new
read_new_nothing id ts clock batches h =
    let p = is_seen id ts clock in
    let nothing = none_left p (records_of batches) h in
    ap reverse (
      read_batches-unseen id ts clock 0 batches (IsSuffix-All p (records_of batches) h)
        (rw nothing (omega arith))
      ∙ nothing)

-- The cursor after `collect` covers every record that it has read, or had read before.
cursor_covers :
    (clock clock' last_id last_ts : ℕ) (batches : Batches)
    → IsNewestFirst clock (records_of batches)
    → length (unseen last_id last_ts clock (records_of batches)) < 1000
    → All (λ r. is_some r.time_generated ≡ true) (records_of batches)
    → let read = read_new last_id last_ts clock (log_of batches) in
      All
        (λ r. seen (max_record_id last_id read) (max_epoch clock last_ts read) clock' r ≡ true)
        (records_of batches)
cursor_covers clock clock' last_id last_ts batches h room dated =
    let read = read_new last_id last_ts clock (log_of batches) in
    let id = max_record_id last_id read in
    let ts = max_epoch clock last_ts read in
    let (id_grows, ids) = max_record_id_covers last_id read in
    let (ts_grows, times) = max_epoch_covers clock last_ts read in
    let Covered = λ (r : LogRecord). (record_id r ≤ id) × (epoch clock r ≤ ts) in
    All-seen last_id last_ts clock clock' id ts (records_of batches) id_grows ts_grows dated (
      All-unreverse Covered (unseen last_id last_ts clock (records_of batches)) (
        subst (All Covered) (read_new-unseen last_id last_ts clock batches h room)
          (both clock id ts read ids times)))

-- A second `collect` of the same log, whatever the clock says and in any session, changes nothing:
-- provided that the log is read without an error, is newest first, has fewer than 1000 records that
-- are newer than the cursor, and each of its records has a time of its own.
pub collect_idempotent :
    (clock clock' session_id session_id' : ℕ) (batches : Batches) (db : Database)
    → IsNewestFirst clock (records_of batches)
    → length (unseen (last_record_id db) (last_timestamp db) clock (records_of batches)) < 1000
    → All (λ r. is_some r.time_generated ≡ true) (records_of batches)
    → collect clock' session_id' (log_of batches) (collect clock session_id (log_of batches) db)
      ≡ collect clock session_id (log_of batches) db
unfolding collect store_records
collect_idempotent clock clock' session_id session_id' batches db h room dated =
    let last_id = last_record_id db in
    let last_ts = last_timestamp db in
    let read = read_new last_id last_ts clock (log_of batches) in
    let (id_after, ts_after) = store_records_cursor clock session_id read db in
    rw (
      id_after,
      ts_after,
      read_new_nothing (max_record_id last_id read) (max_epoch clock last_ts read) clock' batches
          (cursor_covers clock clock' last_id last_ts batches h room dated),
    )
