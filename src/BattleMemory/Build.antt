-- ===== src/BattleMemory/Build.antt =====
-- `build_battle_memory` of src/maple_next/domain/battle_memory.py: its loops over the confirmed states,
-- the completions and the deltas of a match, and over the Turns before the current one.
use maple_next.Base.{
  ℕ, zero, suc, ◌-◌, String, ◌||◌, Option, none, some, List, [], ◌∷◌, length, keep, any_of,
  find_first, leb, ltb, Result, ok, err, key_error, memory_error, raise_if, ◌>>◌, ◌>>=◌, ◌==◌, ◌!=◌,
  string_eq, nat_eq, option_eq,
}
use maple_next.Enums.{ActionType}
use maple_next.TurnState.Records.{TurnIdentity, identity_eq, ConfirmedTurnState, ActionResultDelta}
use maple_next.TurnState.Same.{confirmed_state_eq}
use maple_next.BattleMemory.{
  BattleMemoryAction, action_confirmed, action_unknown, RichActionCompletionFacts, BattleMemoryTurn,
  make_memory_turn, BattleMemory, make_battle_memory,
}
use maple_next.BattleMemory.Chain.{
  require_same_match, find_state, walk_confirmed_state_chain, position,
}

-- A value that must be there: `if x is None: raise BattleMemoryError(code)`.
abbrev pub expect {ℓ} : {A : Type ℓ} → String → Option A → Result A
expect code none = err (memory_error code)
expect code (some a) = ok a

-- `chain_position[id]`
abbrev pub expect_position : String → Option ℕ → Result ℕ
expect_position id none = err (key_error id)
expect_position id (some place) = ok place

-- The loop over the states; `before` holds the states that it has passed.
unfoldable pub check_states :
    TurnIdentity → List ConfirmedTurnState → List ConfirmedTurnState → Result (Unit {0})
check_states current before [] = ok tt
check_states current before (state ∷ states) = do
  require_same_match state.identity current "MEMORY_FOREIGN_CONFIRMED_STATE"
  raise_if (any_of (λ s. s.confirmed_state_id == state.confirmed_state_id) before)
      (memory_error "MEMORY_DUPLICATE_CONFIRMED_STATE")
  check_states current (state ∷ before) states

unfoldable pub check_completions :
    TurnIdentity
    → List RichActionCompletionFacts
    → List RichActionCompletionFacts
    → Result (Unit {0})
check_completions current before [] = ok tt
check_completions current before (completion ∷ rest) = do
  require_same_match completion.identity current "MEMORY_FOREIGN_COMPLETION"
  raise_if (leb current.turn_number completion.identity.turn_number)
      (memory_error "MEMORY_CURRENT_OR_FUTURE_TURN_COMPLETION")
  raise_if (any_of (λ c. c.identity.turn_number == completion.identity.turn_number) before)
      (memory_error "MEMORY_DUPLICATE_TURN_COMPLETION")
  check_completions current (completion ∷ before) rest

unfoldable pub check_deltas : List ActionResultDelta → List ActionResultDelta → Result (Unit {0})
check_deltas before [] = ok tt
check_deltas before (delta ∷ rest) = do
  raise_if (any_of (λ d. d.delta_id == delta.delta_id) before)
      (memory_error "MEMORY_DUPLICATE_DELTA_ID")
  check_deltas (delta ∷ before) rest

abbrev or_empty : Option String → String
or_empty none = ""
or_empty (some name) = name

abbrev pub opponent_action_of : Option ActionType → Option String → Result BattleMemoryAction
opponent_action_of none name = action_unknown
opponent_action_of (some action_type) name = action_confirmed action_type (or_empty name)

-- What the loop over the Turns reads.
pub record Sources : Type 0 where
  pub states : List ConfirmedTurnState
  pub completions : List RichActionCompletionFacts
  pub deltas : List ActionResultDelta
  pub chain : List String
  pub current_position : ℕ

unfoldable pub find_completion :
    ℕ → List RichActionCompletionFacts → Option RichActionCompletionFacts
find_completion turn_number completions =
    find_first (λ c. c.identity.turn_number == turn_number) completions

unfoldable pub find_delta : String → List ActionResultDelta → Option ActionResultDelta
find_delta id deltas = find_first (λ d. d.delta_id == id) deltas

-- `deltas_per_state.get(id, 0)`
unfoldable pub deltas_per_state : String → List ActionResultDelta → ℕ
deltas_per_state id deltas = length (keep (λ d. d.based_on_confirmed_state_id == id) deltas)

unfoldable pub assemble :
    RichActionCompletionFacts → ConfirmedTurnState → ActionResultDelta → Result BattleMemoryTurn
assemble completion reviewed delta = do
  opponent_action ←
      opponent_action_of completion.opponent_action_type completion.opponent_action_name
  own_action ← action_confirmed completion.own_action_type completion.own_action_name
  make_memory_turn (record {
    identity = completion.identity;
    reviewed_confirmed_state_id = completion.based_on_confirmed_state_id;
    turn_start_self_active = reviewed.self_side.active;
    turn_start_opponent_active = reviewed.opponent_side.active;
    own_action = own_action;
    opponent_action = opponent_action;
    action_order = completion.action_order;
    result = delta;
  })

module _ (sources : Sources) where
  -- One round, with the new `previous_position + 1`; `low` is the old one.
  unfoldable pub memory_turn : ℕ → ℕ → Result (BattleMemoryTurn × ℕ)
  memory_turn turn_number low = do
    completion ←
        expect "MEMORY_MISSING_COMPLETED_TURN_COMPLETION"
          (find_completion turn_number sources.completions)
    let state_id = completion.based_on_confirmed_state_id
    reviewed ←
        expect "MEMORY_COMPLETION_CONFIRMED_STATE_NOT_FOUND" (find_state state_id sources.states)
    raise_if (reviewed.identity != completion.identity)
        (memory_error "MEMORY_COMPLETION_CONFIRMED_STATE_IDENTITY_MISMATCH")
    place ← expect "MEMORY_CONFIRMED_STATE_OUTSIDE_CURRENT_CHAIN" (position state_id sources.chain)
    raise_if (ltb place low || leb sources.current_position place)
        (memory_error "MEMORY_BROKEN_CONFIRMED_STATE_CHAIN")
    delta ←
        expect "MEMORY_MISSING_LINKED_ACTION_RESULT_DELTA"
          (find_delta completion.delta_id sources.deltas)
    raise_if (delta.based_on_confirmed_state_id != state_id)
        (memory_error "MEMORY_DELTA_NOT_BASED_ON_REVIEWED_STATE")
    raise_if (delta.identity != completion.identity) (memory_error "MEMORY_DELTA_IDENTITY_MISMATCH")
    raise_if (deltas_per_state state_id sources.deltas != 1)
        (memory_error "MEMORY_AMBIGUOUS_ACTION_RESULT_DELTA")
    row ← assemble completion reviewed delta
    ok (row, suc place)

  -- `for turn_number in range(…)`, for a number of rounds.
  unfoldable pub memory_turns : ℕ → ℕ → ℕ → Result (List BattleMemoryTurn)
  unfolding memory_turn
  memory_turns zero turn_number low = ok []
  memory_turns (suc rounds) turn_number low = do
    made ← memory_turn turn_number low
    rest ← memory_turns rounds (suc turn_number) made.1
    ok (made.0 ∷ rest)

unfoldable pub build_battle_memory :
    TurnIdentity
    → ConfirmedTurnState
    → List ConfirmedTurnState
    → List RichActionCompletionFacts
    → List ActionResultDelta
    → Result BattleMemory
build_battle_memory identity current states completions deltas = do
  raise_if (current.identity != identity) (memory_error "MEMORY_CURRENT_STATE_IDENTITY_MISMATCH")
  check_states identity [] states
  raise_if (find_state current.confirmed_state_id states != some current)
      (memory_error "MEMORY_CURRENT_STATE_NOT_IN_MATCH_HISTORY")
  chain ← walk_confirmed_state_chain current states
  current_position ←
      expect_position current.confirmed_state_id (position current.confirmed_state_id chain)
  check_completions identity [] completions
  check_deltas [] deltas
  let sources : Sources = record {
    states = states;
    completions = completions;
    deltas = deltas;
    chain = chain;
    current_position = current_position;
  }
  turns ← memory_turns sources (identity.turn_number - 1) 1 0
  make_battle_memory turns
