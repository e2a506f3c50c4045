-- ===== src/Storage/Events.antt =====
-- `Database.insert_events` and the selection of events by time, storage/database.py and
-- `_events_between` of diagnostics/*.py. An event with no timestamp breaks NOT NULL and is skipped.

pub mod Window
use pc_diagnostic_agent.Prelude.{
  ℕ, zero, suc, String, ◌&&◌, Option, none, some, List, [], ◌∷◌, ◌++◌, leb, where_rows, length,
}
use pc_diagnostic_agent.Prelude.Sort.{sort_by, up}
use pc_diagnostic_agent.Storage.Rows.{Time, EventInput, Event}
use pc_diagnostic_agent.Storage.Tables.{Database}

unfoldable pub clip_text : ℕ → String → String
clip_text zero s = String.[]
clip_text (suc n) String.[] = String.[]
clip_text (suc n) (String.◌∷◌ c s) = String.◌∷◌ c (clip_text n s)

unfoldable pub clip : Option String → ℕ → Option String
clip none limit = none
clip (some value) limit = some (clip_text limit value)

unfoldable pub accepted_events : ℕ → List EventInput → List Event
accepted_events session_id [] = []
accepted_events session_id (row ∷ rows) =
    let rest = accepted_events session_id rows in
    elim row.timestamp [
      | none ↦ rest
      | some ts ↦
          record {
            timestamp = ts;
            session_id = session_id;
            fields = record row.fields { message = clip row.message 4000 };
          }
          ∷ rest
    ]

unfoldable pub insert_events : List EventInput → ℕ → Database → ℕ × Database
insert_events rows session_id db =
    let new = accepted_events session_id rows in
    (length new, record db { events = db.events ++ new })

-- `SELECT * FROM events WHERE timestamp >= ? AND timestamp <= ? ORDER BY timestamp`. A bound
-- before the epoch, which is 0 here, selects the same rows, as no time is negative.
unfoldable pub events_between : Database → Time → Time → List Event
events_between db start end =
    sort_by (up (λ e. e.timestamp))
      (where_rows (λ (e : Event). leb start e.timestamp && leb e.timestamp end) db.events)
