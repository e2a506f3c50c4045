-- ===== src/Storage/State/Stored.antt =====
-- What is read back of the agent's state, storage/database.py.
use pc_diagnostic_agent.Prelude.{
  ◌≡◌, refl, String, Bool, true, false, Option, none, some, if◌then◌else◌,
}
use pc_diagnostic_agent.Prelude.Dict.{get, get-put, string_eq}
use pc_diagnostic_agent.Storage.Rows.{Time, StateText, StateEntry}
use pc_diagnostic_agent.Storage.Tables.{Database}
use pc_diagnostic_agent.Storage.State.{set_state, get_state}
use text.Mathlib.Text.{◌==◌ as str_eq}

value_of_if :
    (b : Bool) (entry : StateEntry) (rest : Option StateEntry)
    → (elim (if b then some entry else rest) as (λ _. Option StateText) [
      | none ↦ none
      | some row ↦ some row.value
    ])
      ≡ (if b then some entry.value else (elim rest [ none ↦ none | some row ↦ some row.value ]))
value_of_if true entry rest = refl
value_of_if false entry rest = refl

-- A key that has been set has the value that was set last, and every other key has the value that it
-- had.
pub get_state-set_state :
    (now : Time) (key key' : String) (value : StateText) (db : Database)
    → get_state key' (set_state now key value db)
      ≡ (if str_eq key key' then some value else get_state key' db)
unfolding get_state set_state
get_state-set_state now key key' value db =
    rw (get_state, get-put db.agent_state key key' (record { value = value; updated_at = now }))
      (value_of_if (str_eq key key') (record { value = value; updated_at = now })
        (get db.agent_state key'))
