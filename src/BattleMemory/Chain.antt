-- ===== src/BattleMemory/Chain.antt =====
-- `_require_same_match` and `_walk_confirmed_state_chain` of src/maple_next/domain/battle_memory.py. A
-- dictionary that is keyed by an id, and raises on a second one, is the list of its values. The loop
-- runs on fuel; without any left it raises the one error that the source never raises here.
use maple_next.Base.{
  ℕ, zero, suc, String, ◌||◌, Option, none, some, List, [], ◌∷◌, length, find_first, Result, ok,
  err, assertion_error, memory_error, raise_if, ◌>>◌, ◌>>=◌, ◌==◌, ◌!=◌, string_eq, nat_eq, member,
  if◌then◌else◌,
}
use maple_next.TurnState.Records.{TurnIdentity, ConfirmedTurnState}

unfoldable pub require_same_match : TurnIdentity → TurnIdentity → String → Result (Unit {0})
require_same_match identity reference error_code =
    raise_if
      (identity.session_id != reference.session_id
        || identity.match_id != reference.match_id
        || identity.generation != reference.generation)
      (memory_error error_code)

unfoldable pub find_state : String → List ConfirmedTurnState → Option ConfirmedTurnState
find_state id states = find_first (λ state. state.confirmed_state_id == id) states

abbrev pub next_cursor : Option ConfirmedTurnState → Result (Option String)
next_cursor none = err (memory_error "MEMORY_BROKEN_CONFIRMED_STATE_CHAIN")
next_cursor (some state) = ok state.previous_confirmed_state_id

-- `seen` is the reverse of `ordered`: the oldest state first at the end of the loop.
unfoldable pub walk :
    ℕ → List ConfirmedTurnState → Option String → List String → Result (List String)
unfolding find_state
walk fuel states none seen = ok seen
walk zero states (some cursor) seen = err assertion_error
walk (suc fuel) states (some cursor) seen = do
  raise_if (member cursor seen) (memory_error "MEMORY_CONFIRMED_STATE_CHAIN_CYCLE")
  previous ← next_cursor (find_state cursor states)
  walk fuel states previous (cursor ∷ seen)

-- `_walk_confirmed_state_chain`; a round of the loop for each state of the match and one more.
unfoldable pub walk_confirmed_state_chain :
    ConfirmedTurnState → List ConfirmedTurnState → Result (List String)
unfolding walk
walk_confirmed_state_chain current states =
    walk (suc (length states)) states (some current.confirmed_state_id) []

-- The place of an id in a chain.
abbrev move_on : Option ℕ → Option ℕ
move_on none = none
move_on (some n) = some (suc n)

unfoldable pub position : String → List String → Option ℕ
position id [] = none
position id (x ∷ xs) = let rest = position id xs in if x == id then some 0 else move_on rest
