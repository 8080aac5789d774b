-- ===== src/TurnState/Lifecycle.antt =====
-- src/maple_next/domain/turn_state.py: the bindings of the chain confirmed state, delta, draft, the
-- derivation of a draft and its promotion to a confirmed state.
use maple_next.Base.{
  ◌+◌, String, false, ◌||◌, Option, some, leb, Result, ok, identity_error, stale_error, raise_if,
  ◌>>=◌, ◌>>◌, ◌==◌, ◌!=◌, nat_eq, string_eq,
}
use maple_next.TurnState.Known.{derive_field}
use maple_next.TurnState.Side.{derive_side}
use maple_next.TurnState.Records.{
  TurnIdentity, ConfirmationMeta, ConfirmedTurnState, ActionResultDelta, NextTurnStateDraft,
  make_confirmed_state, make_draft,
}

-- `_bind_delta_to_confirmed_state`
unfoldable pub bind_delta : ConfirmedTurnState → ActionResultDelta → Result (Unit {0})
bind_delta previous delta = do
  let identity = delta.identity
  let reference = previous.identity
  raise_if (delta.based_on_confirmed_state_id != previous.confirmed_state_id)
      (stale_error "DELTA_NOT_BASED_ON_CONFIRMED_STATE")
  raise_if (identity.session_id != reference.session_id) (identity_error "SESSION_MISMATCH")
  raise_if (identity.match_id != reference.match_id) (identity_error "MATCH_MISMATCH")
  raise_if (identity.generation != reference.generation) (identity_error "GENERATION_MISMATCH")
  raise_if (identity.turn_id != reference.turn_id || identity.turn_number != reference.turn_number)
      (identity_error "TURN_MISMATCH")
  raise_if (identity.battle_revision != reference.battle_revision)
      (identity_error "REVISION_MISMATCH")
  ok tt

-- `_bind_next_identity`
unfoldable pub bind_next_identity : TurnIdentity → TurnIdentity → Result (Unit {0})
bind_next_identity previous next = do
  raise_if (next.session_id != previous.session_id) (identity_error "SESSION_MISMATCH")
  raise_if (next.match_id != previous.match_id) (identity_error "MATCH_MISMATCH")
  raise_if (next.generation != previous.generation) (identity_error "GENERATION_MISMATCH")
  raise_if (next.turn_number != previous.turn_number + 1) (identity_error "TURN_MISMATCH")
  raise_if (leb next.battle_revision previous.battle_revision) (identity_error "REVISION_MISMATCH")
  raise_if (next.turn_id == previous.turn_id) (identity_error "TURN_ID_NOT_ADVANCED")
  ok tt

unfoldable pub validate_turn_state_full_chain :
    ConfirmedTurnState → ActionResultDelta → NextTurnStateDraft → Result (Unit {0})
validate_turn_state_full_chain confirmed delta draft = do
  bind_delta confirmed delta
  raise_if (draft.based_on_confirmed_state_id != confirmed.confirmed_state_id)
      (stale_error "DRAFT_NOT_BASED_ON_CONFIRMED_STATE")
  raise_if (draft.source_delta_id != delta.delta_id) (stale_error "DRAFT_SOURCE_DELTA_MISMATCH")
  bind_next_identity confirmed.identity draft.identity

unfoldable pub derive_next_turn_state_draft :
    ConfirmedTurnState
    → ActionResultDelta
    → String
    → TurnIdentity
    → String
    → Result NextTurnStateDraft
derive_next_turn_state_draft previous delta draft_id next_identity derived_at_utc = do
  bind_delta previous delta
  bind_next_identity previous.identity next_identity
  self_side ← derive_side previous.self_side delta.self_side
  opponent_side ← derive_side previous.opponent_side delta.opponent_side
  weather ← derive_field previous.weather delta.weather
  terrain ← derive_field previous.terrain delta.terrain
  make_draft (record {
    draft_id = draft_id;
    identity = next_identity;
    based_on_confirmed_state_id = previous.confirmed_state_id;
    source_delta_id = delta.delta_id;
    self_side = self_side;
    opponent_side = opponent_side;
    weather = weather;
    terrain = terrain;
    derived_at_utc = derived_at_utc;
    provider_ready = false;
  })

unfoldable pub confirm_next_turn_state :
    NextTurnStateDraft
    → String
    → ConfirmedTurnState
    → ActionResultDelta
    → ConfirmationMeta
    → Option String
    → Result ConfirmedTurnState
confirm_next_turn_state draft new_id latest source_delta confirmation evidence_id = do
  validate_turn_state_full_chain latest source_delta draft
  make_confirmed_state (record {
    confirmed_state_id = new_id;
    identity = draft.identity;
    previous_confirmed_state_id = some draft.based_on_confirmed_state_id;
    self_side = draft.self_side;
    opponent_side = draft.opponent_side;
    weather = draft.weather;
    terrain = draft.terrain;
    confirmation = confirmation;
    evidence_id = evidence_id;
  })
