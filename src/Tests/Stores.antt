-- ===== src/Tests/Stores.antt =====
-- The theorems on the stores of Turn states and legal switches and on the commands that use them, at
-- concrete inputs.
use maple_next.Base.{
  ◌≡◌, refl, some, [], ◌∷◌, ok, is_blank, strip, any_of, find_first, keep, string_eq, nat_eq,
}
use maple_next.Enums.{move, turn_recorded}
use maple_next.Models.{BattleSession, BattleTurn}
use maple_next.TurnState.Records.{
  make_identity, make_confirmation, make_confirmed_state, make_delta, identity_eq,
}
use maple_next.TurnState.Side.{validate_known, validate_delta, validate_field_text}
use maple_next.TurnState.Derivation.{IsState, IsResult}
use maple_next.TurnState.Json.{Python}
use maple_next.TurnStateRows.{state_row, delta_row, action_result_delta_from_row}
use maple_next.TurnStateRows.OpponentAction.{
  encode_opponent_action, decode_opponent_action, action_type_value,
}
use maple_next.TurnStateRows.Laws.{
  IsStored, IsStoredDelta, from_row-state_row, from_row-delta_row, from_row-IsState,
  from_row-IsResult, decode-encode_opponent_action,
}
use maple_next.Repository.{Repository, ◌>>=◌}
use maple_next.Repository.Order.{latest, in_order, read_rows}
use maple_next.Repository.Sessions.{find_active, slot_taken}
use maple_next.Repository.Rows.{get_turn, find_turn}
use maple_next.Repository.TurnStates.{
  append_confirmed_turn_state, get_confirmed_turn_state, find_state_row,
  get_latest_confirmed_turn_state_for_identity, list_action_result_deltas_based_on,
}
use maple_next.Repository.StoreLaws.{get-append_confirmed_turn_state}
use maple_next.Application.Match.{opened}
use maple_next.Application.Session.{set_pending_turn}
use maple_next.Application.Rich.{next_turn_with_action_result}
use maple_next.Application.Phases.{IsAdvanced, two_phases-IsAdvanced}
use maple_next.Application.Progress.{
  IsReady, taken, derive_phase-returns, advance_phase-returns, next_turn_with_action_result-returns,
}
use maple_next.Repository.Forward.{commits}
use maple_next.Tests.Turns.{
  first_state, first_delta, first_state-IsState, first_delta-IsResult, first_delta-BindsTo,
  turn_two-Advances,
}
use maple_next.Tests.Commands.{empty, pins, outside}

abbrev pub py : Python
py = outside.python

pub first_state-IsStored : IsStored first_state
unfolding make_identity make_confirmation make_confirmed_state is_blank validate_known
    validate_field_text
first_state-IsStored = record {
  fields = first_state-IsState;
  identity = refl;
  confirmation = refl;
  made = refl;
}

first_delta-IsStoredDelta : IsStoredDelta first_delta
unfolding make_identity make_confirmation make_delta is_blank validate_delta validate_field_text
first_delta-IsStoredDelta = record {
  fields = first_delta-IsResult;
  identity = refl;
  confirmation = refl;
  made = refl;
}

abbrev pub one_state : Repository
one_state = record empty { confirmed_states = state_row first_state ∷ [] }

appended : append_confirmed_turn_state first_state empty ≡ (ok tt, one_state)
unfolding append_confirmed_turn_state ◌>>=◌ find_state_row find_first any_of
appended = refl

get-append_confirmed_turn_state_example :
    get_confirmed_turn_state py "c1" one_state ≡ (ok first_state, one_state)
get-append_confirmed_turn_state_example =
    get-append_confirmed_turn_state py first_state empty one_state first_state-IsStored appended

from_row-delta_row_example :
    action_result_delta_from_row py (delta_row first_delta) ≡ ok first_delta
from_row-delta_row_example = from_row-delta_row py first_delta first_delta-IsStoredDelta

from_row-IsState_example : IsState first_state
from_row-IsState_example =
    from_row-IsState py (state_row first_state) first_state
      (from_row-state_row py first_state first_state-IsStored)

from_row-IsResult_example : IsResult first_delta
from_row-IsResult_example =
    from_row-IsResult py (delta_row first_delta) first_delta
      (from_row-delta_row py first_delta first_delta-IsStoredDelta)

encoded : encode_opponent_action (some move) (some " Fake Out ") ≡ ok ("MOVE", "Fake Out")
unfolding encode_opponent_action is_blank strip action_type_value
encoded = refl

decode-encode_opponent_action_example :
    decode_opponent_action "MOVE" "Fake Out" ≡ ok (some move, some "Fake Out")
unfolding strip
decode-encode_opponent_action_example =
    decode-encode_opponent_action (some move) (some " Fake Out ") "MOVE" "Fake Out" encoded

-- A match in which the first Turn is recorded.
abbrev pub recorded : BattleSession
recorded = record (opened "s1" "m1" 1 pins) {
  state = turn_recorded;
  battle_revision = 7;
  current_turn_id = some "t1";
  current_applied_selection_id = some "applied";
}

abbrev pub turn_one_row : BattleTurn
turn_one_row = record { turn_id = "t1"; turn_number = 1 }

abbrev turn_two_row : BattleTurn
turn_two_row = record { turn_id = "t2"; turn_number = 2 }

abbrev played : Repository
played = record one_state {
  sessions = recorded ∷ [];
  turns = record { session_id = "s1"; row = turn_one_row } ∷ [];
  result_deltas = delta_row first_delta ∷ [];
}

newest_state :
    get_latest_confirmed_turn_state_for_identity py "s1" "m1" 1 played
    ≡ (ok (some first_state), played)
unfolding get_latest_confirmed_turn_state_for_identity ◌>>=◌ latest keep state_row
newest_state = rw (from_row-state_row py first_state first_state-IsStored) refl

newest_delta : list_action_result_deltas_based_on py "c1" played ≡ (ok (first_delta ∷ []), played)
unfolding list_action_result_deltas_based_on ◌>>=◌ in_order keep read_rows delta_row
newest_delta = rw (from_row-delta_row py first_delta first_delta-IsStoredDelta) refl

played-IsReady :
    IsReady py first_state first_delta "t2" "draft-2" "2026-07-01T00:01:00Z" played recorded
      turn_one_row turn_two_row
      (first_delta ∷ [])
unfolding opened find_active find_first get_turn find_turn ◌>>=◌ any_of slot_taken make_identity
    is_blank find_state_row state_row delta_row set_pending_turn
played-IsReady = record {
  active = refl;
  recorded = refl;
  turn_ = refl;
  current_ = refl;
  same = refl;
  latest = newest_state;
  listed = newest_delta;
  newest = refl;
  new = refl;
  checked = first_state-IsState;
  checked_delta = first_delta-IsResult;
  bound = first_delta-BindsTo;
  advances = turn_two-Advances;
  identity = refl;
  draft = refl;
  time = refl;
  unused = refl;
  next = refl;
  slot = refl;
  fresh = refl;
  kept = refl;
  kept_delta = refl;
}

abbrev after_turn : Repository
after_turn =
    taken py first_state first_delta "t2" "draft-2" "2026-07-01T00:01:00Z" played recorded
      turn_one_row turn_two_row (first_delta ∷ []) played-IsReady

next_turn_with_action_result-returns_example :
    next_turn_with_action_result py first_state first_delta "t2" "draft-2" "2026-07-01T00:01:00Z"
      played
    ≡ (ok turn_two_row, after_turn)
next_turn_with_action_result-returns_example =
    next_turn_with_action_result-returns py first_state first_delta "t2" "draft-2"
      "2026-07-01T00:01:00Z" played recorded turn_one_row turn_two_row (first_delta ∷ [])
      played-IsReady

two_phases-IsAdvanced_example :
    IsAdvanced py first_state first_delta "draft-2" "2026-07-01T00:01:00Z" played after_turn
      turn_two_row
two_phases-IsAdvanced_example =
    two_phases-IsAdvanced py first_state first_delta "t2" "draft-2" "2026-07-01T00:01:00Z" played
      played played after_turn _ turn_two_row
      (derive_phase-returns py first_state first_delta "t2" "draft-2" "2026-07-01T00:01:00Z" played
        recorded turn_one_row turn_two_row (first_delta ∷ []) played-IsReady)
      (commits _ played after_turn turn_two_row (
        advance_phase-returns py first_state first_delta "t2" "draft-2" "2026-07-01T00:01:00Z"
          played recorded turn_one_row turn_two_row (first_delta ∷ []) played-IsReady))
