-- ===== src/Repository/Completions.antt =====
-- src/maple_next/persistence/turn_state_store.py: the completion of a Turn, written with its delta.
use maple_next.Base.{
  String, Option, List, ◌∷◌, any_of, find_first, keep, key_error, member, is_none, identity_error,
  stale_error, Error, Result, ◌>>=◌ as bind, ◌==◌, ◌!=◌, string_eq,
}
use maple_next.Enums.{ActionType, ActionOrder}
use maple_next.BattleMemory.{RichActionCompletionFacts, make_completion}
use maple_next.TurnState.Records.{TurnIdentity, make_identity, identity_eq, ActionResultDelta}
use maple_next.TurnState.Json.{Python}
use maple_next.TurnStateRows.{CompletionRow}
use maple_next.TurnStateRows.OpponentAction.{encode_opponent_action, decode_opponent_action}
use maple_next.Repository.{Exec, ◌>>=◌, ◌>>◌, gets, modify, lift, guard, constraint, rescue}
use maple_next.Repository.Order.{in_order, read_rows}
use maple_next.Repository.TurnStates.{
  find_state_row, get_confirmed_turn_state, append_action_result_delta,
}

-- The arguments of `append_rich_action_completion`.
pub record Completion : Type 0 where
  pub transaction_id : String
  pub identity : TurnIdentity
  pub own_action_type : ActionType
  pub own_action_name : String
  pub opponent_action_type : Option ActionType
  pub opponent_action_name : Option String
  pub action_order : ActionOrder
  pub delta : ActionResultDelta

-- The row that is inserted, with the stored form of the opponent's action.
unfoldable pub completion_row : Completion → String × String → CompletionRow
completion_row c (stored_type, stored_name) = record {
  transaction_id = c.transaction_id;
  identity = c.identity;
  based_on_confirmed_state_id = c.delta.based_on_confirmed_state_id;
  own_action_type = c.own_action_type;
  own_action_name = c.own_action_name;
  opponent_action_type = stored_type;
  opponent_action_name = stored_name;
  action_order = c.action_order;
  delta_id = c.delta.delta_id;
}

unfoldable pub insert_completion : CompletionRow → Exec Unit
unfolding find_state_row
insert_completion new = do
  rows ← gets (λ s. s.completions)
  states ← gets (λ s. s.confirmed_states)
  deltas ← gets (λ s. s.result_deltas)
  constraint (any_of (λ row. row.transaction_id == new.transaction_id) rows)
      "rich_action_completions.transaction_id"
  constraint (any_of (λ row. row.identity.turn_id == new.identity.turn_id) rows)
      "rich_action_completions.turn_id"
  constraint (any_of (λ row. row.delta_id == new.delta_id) rows) "rich_action_completions.delta_id"
  constraint (is_none (find_first (λ row. row.delta_id == new.delta_id) deltas)) "FOREIGN KEY"
  constraint (is_none (find_state_row new.based_on_confirmed_state_id states)) "FOREIGN KEY"
  modify (λ s. record s { completions = new ∷ s.completions })

-- `except KeyError`
abbrev state_not_found : Error → Error
state_not_found (key_error id) = stale_error "BASED_ON_CONFIRMED_STATE_NOT_FOUND"
state_not_found e = e

-- `_record_rich_action_completion_row`, which `append_rich_action_completion` calls in a transaction.
unfoldable pub append_rich_action_completion : Python → Completion → Exec Unit
append_rich_action_completion py c = do
  guard (c.delta.identity != c.identity)
      (identity_error "ACTION_COMPLETION_DELTA_IDENTITY_MISMATCH")
  based_on_state ←
      rescue state_not_found (get_confirmed_turn_state py c.delta.based_on_confirmed_state_id)
  guard (based_on_state.identity != c.identity)
      (identity_error "ACTION_COMPLETION_CONFIRMED_STATE_IDENTITY_MISMATCH")
  stored ← lift (encode_opponent_action c.opponent_action_type c.opponent_action_name)
  append_action_result_delta c.delta
  insert_completion (completion_row c stored)

abbrev facts_of :
    CompletionRow
    → TurnIdentity
    → Option ActionType × Option String
    → Result RichActionCompletionFacts
facts_of row identity (action_type, name) = make_completion (record {
  transaction_id = row.transaction_id;
  identity = identity;
  based_on_confirmed_state_id = row.based_on_confirmed_state_id;
  own_action_type = row.own_action_type;
  own_action_name = row.own_action_name;
  opponent_action_type = action_type;
  opponent_action_name = name;
  action_order = row.action_order;
  delta_id = row.delta_id;
})

-- `_rich_action_completion_facts_from_row`
unfoldable pub completion_from_row : CompletionRow → Result RichActionCompletionFacts
completion_from_row row =
    bind (decode_opponent_action row.opponent_action_type row.opponent_action_name)
      λ opponent. bind (make_identity row.identity) λ identity. facts_of row identity opponent

unfoldable pub list_rich_action_completion_candidates :
    List String → Exec (List RichActionCompletionFacts)
list_rich_action_completion_candidates ids = do
  rows ← gets (λ s. s.completions)
  lift (
      read_rows completion_from_row (
        in_order (λ row. row.identity)
          (keep (λ row. member row.based_on_confirmed_state_id ids) rows)))
