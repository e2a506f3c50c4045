-- ===== src/Storage/Sessions.antt =====
-- The session operations of `Database`, storage/database.py.
pub mod Opened
pub mod Before
use pc_diagnostic_agent.Prelude.{
  ℕ, suc, String, Bool, Option, none, some, List, [], ◌∷◌, ◌++◌, ◌==◌, ltb, if◌then◌else◌, head?,
  where_rows,
}
use pc_diagnostic_agent.Prelude.Int.{ℤ}
use pc_diagnostic_agent.Prelude.Sort.{sort_by, down}
use pc_diagnostic_agent.Storage.Rows.{Time, Session}
use pc_diagnostic_agent.Storage.Tables.{Database}

unfoldable pub create_session : Time → Time → Database → ℕ × Database
create_session boot_time created_at db =
    let session_id = suc db.last_session in
    (
      session_id,
      record db {
        sessions =
            db.sessions
            ++ record {
              session_id = session_id;
              boot_time = boot_time;
              previous_boot_time = none;
              uptime_before_boot = none;
              previous_session_clean = none;
              unexpected_shutdown = none;
              kernel_power_detected = none;
              bugcheck_detected = none;
              created_at = created_at;
            }
              ∷ [];
        last_session = session_id;
      },
    )

-- A keyword argument of `update_session`; `other` is one whose name is not in `allowed`.
pub data SessionField : Type 0 where
  previous_boot_time : Time → SessionField
  uptime_before_boot : ℤ → SessionField
  previous_session_clean unexpected_shutdown : Bool → SessionField
  kernel_power_detected bugcheck_detected : Bool → SessionField
  other : String → SessionField

unfoldable pub set_field : SessionField → Session → Session
set_field (previous_boot_time t) s = record s { previous_boot_time = some t }
set_field (uptime_before_boot u) s = record s { uptime_before_boot = some u }
set_field (previous_session_clean b) s = record s { previous_session_clean = some b }
set_field (unexpected_shutdown b) s = record s { unexpected_shutdown = some b }
set_field (kernel_power_detected b) s = record s { kernel_power_detected = some b }
set_field (bugcheck_detected b) s = record s { bugcheck_detected = some b }
set_field (other name) s = s

unfoldable pub set_fields : List SessionField → Session → Session
set_fields [] s = s
set_fields (f ∷ fs) s = set_fields fs (set_field f s)

unfoldable pub update_rows : ℕ → List SessionField → List Session → List Session
update_rows session_id fields [] = []
update_rows session_id fields (s ∷ rest) =
    (if s.session_id == session_id then set_fields fields s else s)
    ∷ update_rows session_id fields rest

-- With no allowed field the source returns early; here the same call leaves each row as it is.
unfoldable pub update_session : ℕ → List SessionField → Database → Database
update_session session_id fields db = record db {
  sessions = update_rows session_id fields db.sessions;
}

unfoldable pub latest_session : Database → Option Session
latest_session db = head? (sort_by (down (λ s. s.session_id)) db.sessions)

unfoldable pub get_session : ℕ → Database → Option Session
get_session session_id db =
    head? (where_rows (λ (s : Session). s.session_id == session_id) db.sessions)

-- `SELECT … FROM sessions WHERE session_id < ? ORDER BY session_id DESC LIMIT 1`.
unfoldable pub session_before : ℕ → Database → Option Session
session_before session_id db = head? (
    sort_by (down (λ s. s.session_id))
      (where_rows (λ (s : Session). ltb s.session_id session_id) db.sessions))
