-- ===== src/Storage/Events/Window.antt =====
-- What the selection of events by time finds.
use pc_diagnostic_agent.Prelude.{◌≡◌, ◌∙◌, Bool, ◌&&◌, leb, any, any-where_rows}
use pc_diagnostic_agent.Prelude.Sort.{up, any-sort_by}
use pc_diagnostic_agent.Storage.Rows.{Time, Event}
use pc_diagnostic_agent.Storage.Tables.{Database}
use pc_diagnostic_agent.Storage.Events.{events_between}

-- Whether an event lies in a window, both ends included.
abbrev pub within : Time → Time → Event → Bool
within start end e = leb start e.timestamp && leb e.timestamp end

pub any-events_between :
    (p : Event → Bool) (db : Database) (start end : Time)
    → any p (events_between db start end) ≡ any (λ e. within start end e && p e) db.events
unfolding events_between
any-events_between p db start end =
    any-sort_by (up (λ e. e.timestamp)) p _ ∙ any-where_rows p (within start end) db.events
