-- ===== src/Storage/State.antt =====
-- The heartbeat and the agent's key-value state, storage/database.py.
pub mod Stored
use pc_diagnostic_agent.Prelude.{String, Option, none, some}
use pc_diagnostic_agent.Prelude.Dict.{get, put, string_eq}
use pc_diagnostic_agent.Storage.Rows.{Time, StateText}
use pc_diagnostic_agent.Storage.Tables.{Database}

unfoldable pub update_heartbeat : Time → Database → Database
update_heartbeat timestamp db = record db {
  heartbeat = some (record { timestamp = timestamp; updated_at = timestamp });
}

unfoldable pub get_heartbeat : Database → Option Time
get_heartbeat db = elim db.heartbeat [ none ↦ none | some row ↦ some row.timestamp ]

-- `now` is the clock that `_now_epoch` reads.
unfoldable pub set_state : Time → String → StateText → Database → Database
set_state now key value db = record db {
  agent_state = put db.agent_state key (record { value = value; updated_at = now });
}

unfoldable pub get_state : String → Database → Option StateText
get_state key db = elim (get db.agent_state key) [ none ↦ none | some row ↦ some row.value ]
