-- ===== src/Application/Stores.antt =====
-- The writes of src/maple_next/persistence/turn_state_store.py that the screens make by themselves, outside
-- the commands of the application.
use maple_next.Base.{ℕ, String, Option}
use maple_next.TurnState.Records.{ConfirmedTurnState, ActionResultDelta}
use maple_next.TurnState.Actions.{PokemonLocalMemory, OpponentEntryEvent}
use maple_next.TurnStateRows.{FixedEvidenceMetadata}
use maple_next.Repository.{Exec}
use maple_next.Repository.TurnStates.{
  append_fixed_evidence_metadata, append_confirmed_turn_state, append_action_result_delta,
}
use maple_next.Repository.Memories.{
  upsert_pokemon_local_state, set_opponent_ability_memory, append_opponent_entry_event,
  mark_opponent_entry_event_handled,
}

pub data StoreWrite : Type 0 where
  evidence : FixedEvidenceMetadata → StoreWrite
  confirmed_state : ConfirmedTurnState → StoreWrite
  result_delta : ActionResultDelta → StoreWrite
  local_state : String → String → ℕ → String → PokemonLocalMemory → StoreWrite
  ability : String → String → ℕ → String → String → Option String → StoreWrite
  entry : OpponentEntryEvent → StoreWrite
  handled : String → String → StoreWrite

unfoldable pub store : StoreWrite → Exec Unit
store (evidence e) = append_fixed_evidence_metadata e
store (confirmed_state state) = append_confirmed_turn_state state
store (result_delta delta) = append_action_result_delta delta
store (local_state session_id match_id generation side memory) =
    upsert_pokemon_local_state session_id match_id generation side memory
store (ability session_id match_id generation entity species name) =
    set_opponent_ability_memory session_id match_id generation entity species name
store (entry e) = append_opponent_entry_event e
store (handled id now) = mark_opponent_entry_event_handled id now
