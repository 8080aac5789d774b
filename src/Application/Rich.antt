-- ===== src/Application/Rich.antt =====
-- The commands of src/maple_next/application/service.py for a match with rich Turn states:
-- `record_rich_actual_action` and `next_turn_with_action_result`.
use maple_next.Base.{
  ◌+◌, String, Bool, not, ◌||◌, Option, none, some, List, Error, domain_error, key_error, is_blank,
  ◌!=◌, nat_eq, string_eq, option_eq,
}
use maple_next.Enums.{turn_recorded}
use maple_next.Models.{BattleSession, BattleTurn, make_turn, RecordedAction, turn_eq}
use maple_next.TurnState.Records.{
  TurnIdentity, make_identity, identity_eq, ConfirmedTurnState, ActionResultDelta,
  NextTurnStateDraft,
}
use maple_next.TurnState.Same.{confirmed_state_eq, delta_eq}
use maple_next.TurnState.Json.{Python}
use maple_next.TurnState.Lifecycle.{derive_next_turn_state_draft, validate_turn_state_full_chain}
use maple_next.Repository.{Exec, ◌>>=◌, ◌>>◌, guard, lift, pure, required, rescue, transaction}
use maple_next.Repository.Order.{last}
use maple_next.Repository.Sessions.{save_session}
use maple_next.Repository.Rows.{append_turn, get_turn}
use maple_next.Repository.TurnStates.{
  get_confirmed_turn_state, get_latest_confirmed_turn_state_for_identity,
  list_action_result_deltas_based_on, upsert_next_turn_state_draft,
}
use maple_next.Repository.Completions.{Completion, append_rich_action_completion}
use maple_next.Application.Session.{require_session, set_pending_turn}
use maple_next.Application.Turn.{ActionEntry, record_action}

-- `rich_completion`
pub record RichCompletion : Type 0 where
  pub identity : TurnIdentity
  pub delta : ActionResultDelta
  pub transaction_id : String

-- `except KeyError`
abbrev state_missing : Error → Error
state_missing (key_error id) = domain_error "BASED_ON_CONFIRMED_STATE_NOT_FOUND"
state_missing e = e

module _ (py : Python) (rich : RichCompletion) where
  -- The prerequisites, before the first write.
  unfoldable pub check_rich : RecordedAction → Exec Unit
  check_rich action = do
    guard (is_blank rich.transaction_id) (domain_error "RICH_ACTION_COMPLETION_ID_REQUIRED")
    guard (rich.identity.turn_id != action.turn_id) (domain_error "ACTION_COMPLETION_TURN_MISMATCH")
    guard (rich.delta.identity != rich.identity)
        (domain_error "ACTION_COMPLETION_DELTA_IDENTITY_MISMATCH")
    based_on_state ←
        rescue state_missing (get_confirmed_turn_state py rich.delta.based_on_confirmed_state_id)
    guard (based_on_state.identity != rich.identity)
        (domain_error "ACTION_COMPLETION_CONFIRMED_STATE_IDENTITY_MISMATCH")

  abbrev pub completion_of : RecordedAction → Completion
  completion_of action = record {
    transaction_id = rich.transaction_id;
    identity = rich.identity;
    own_action_type = action.action_type;
    own_action_name = action.action_name;
    opponent_action_type = action.opponent_action_type;
    opponent_action_name = action.opponent_action_name;
    action_order = action.action_order;
    delta = rich.delta;
  }

  unfoldable pub complete_rich : RecordedAction → Exec Unit
  complete_rich action = append_rich_action_completion py (completion_of action)

  unfoldable pub record_rich_actual_action : String → ActionEntry → Bool → Exec RecordedAction
  unfolding record_action check_rich complete_rich
  record_rich_actual_action = record_action check_rich complete_rich

-- `not deltas or deltas[-1] != delta`
abbrev pub is_not_last : List ActionResultDelta → ActionResultDelta → Bool
is_not_last deltas delta = last deltas != some delta

abbrev pub identity_of_turn : BattleSession → BattleTurn → TurnIdentity
identity_of_turn session turn = record {
  session_id = session.session_id;
  match_id = session.match_id;
  generation = session.generation;
  turn_id = turn.turn_id;
  turn_number = turn.turn_number;
  battle_revision = session.battle_revision + 1;
}

abbrev pub same_binding : BattleSession → BattleSession → Bool
same_binding session before = not (
    session.session_id != before.session_id
    || session.match_id != before.match_id
    || session.generation != before.generation
    || session.current_turn_id != before.current_turn_id
    || session.battle_revision != before.battle_revision)

abbrev pub or_empty : Option String → String
or_empty none = ""
or_empty (some id) = id

-- What the first phase has derived.
pub record Phase1 : Type 0 where
  pub session : BattleSession
  pub current_turn : BattleTurn
  pub turn : BattleTurn
  pub identity : TurnIdentity
  pub draft : NextTurnStateDraft

module _ (py : Python) (confirmed_state : ConfirmedTurnState) (delta : ActionResultDelta) where
  -- Phase 1: read and derive, outside a transaction.
  unfoldable pub derive_phase : String → String → String → Exec Phase1
  derive_phase turn_id draft_id derived_at_utc = do
    session ← require_session turn_recorded
    current_id ← required (domain_error "CURRENT_TURN_REQUIRED") session.current_turn_id
    current_turn ← get_turn current_id
    guard (confirmed_state.identity.turn_id != current_turn.turn_id)
        (domain_error "CONFIRMED_STATE_NOT_CURRENT_BINDING")
    latest_state ←
        get_latest_confirmed_turn_state_for_identity py session.session_id session.match_id
          session.generation
    guard (latest_state != some confirmed_state)
        (domain_error "CONFIRMED_STATE_NOT_CURRENT_BINDING")
    deltas ← list_action_result_deltas_based_on py confirmed_state.confirmed_state_id
    guard (is_not_last deltas delta) (domain_error "ACTION_RESULT_DELTA_NOT_CURRENT_BINDING")
    turn ←
        lift (make_turn (record { turn_id = turn_id; turn_number = current_turn.turn_number + 1 }))
    identity ← lift (make_identity (identity_of_turn session turn))
    draft ←
        lift (derive_next_turn_state_draft confirmed_state delta draft_id identity derived_at_utc)
    lift (validate_turn_state_full_chain confirmed_state delta draft)
    pure (record {
      session = session;
      current_turn = current_turn;
      turn = turn;
      identity = identity;
      draft = draft;
    })

  -- Phase 2: read every binding again, and write.
  unfoldable pub advance_phase : Phase1 → Exec BattleTurn
  advance_phase before = do
    session ← require_session turn_recorded
    guard (not (same_binding session before.session))
        (domain_error "NEXT_TURN_PHASE1_BINDING_STALE")
    current_turn ← get_turn (or_empty session.current_turn_id)
    guard (current_turn != before.current_turn) (domain_error "NEXT_TURN_PHASE1_BINDING_STALE")
    latest_state ←
        get_latest_confirmed_turn_state_for_identity py session.session_id session.match_id
          session.generation
    guard (latest_state != some confirmed_state) (domain_error "NEXT_TURN_PHASE1_BINDING_STALE")
    deltas ← list_action_result_deltas_based_on py confirmed_state.confirmed_state_id
    guard (is_not_last deltas delta) (domain_error "NEXT_TURN_PHASE1_BINDING_STALE")
    append_turn session.session_id before.turn
    let pending = set_pending_turn session before.turn
    guard (pending.battle_revision != before.identity.battle_revision)
        (domain_error "NEXT_TURN_REVISION_MISMATCH")
    save_session pending
    upsert_next_turn_state_draft before.draft
    pure before.turn

  unfoldable pub next_turn_with_action_result : String → String → String → Exec BattleTurn
  unfolding derive_phase advance_phase
  next_turn_with_action_result turn_id draft_id derived_at_utc = do
    before ← derive_phase turn_id draft_id derived_at_utc
    transaction (advance_phase before)
