-- ===== src/Tests/Recorded.antt =====
-- The recording of an action with its completion, at a concrete input.
use maple_next.Base.{
  ◌≡◌, refl, true, false, String, Bool, Error, domain_error, ◌!=◌, none, some, [], ◌∷◌, ok,
  is_blank, strip, any_of, find_first, string_eq, nat_eq, member,
}
use maple_next.Enums.{BattleState-discrete, move, turn_reviewed, self_first, full}
use maple_next.Models.{BattleSession, TurnFactsSnapshot, RecordedAction, make_recorded_action}
use maple_next.TurnState.Records.{identity_eq}
use maple_next.TurnStateRows.{state_row, delta_row}
use maple_next.TurnStateRows.Laws.{from_row-state_row}
use maple_next.TurnStateRows.OpponentAction.{encode_opponent_action}
use maple_next.Repository.{Repository, ◌>>=◌, transaction, rescue, lift, guard}
use maple_next.Repository.Sessions.{
  find_active, save_session, update_rows, slot_taken, load_active_session, with_columns,
}
use maple_next.Repository.Rows.{
  append_recorded_action, has_recorded_action, get_turn_facts, find_turn_facts,
}
use maple_next.Repository.TurnStates.{
  get_confirmed_turn_state, find_state_row, append_action_result_delta,
}
use maple_next.Repository.Completions.{
  insert_completion, completion_row, append_rich_action_completion,
}
use maple_next.Application.Session.{require_session, require_active_session}
use maple_next.Repository.Forward.{step, given, passed, rescued}
use maple_next.Application.Match.{opened}
use maple_next.Application.Turn.{ActionEntry, record_action, action_recorded}
use maple_next.Application.Rich.{
  RichCompletion, completion_of, check_rich, complete_rich, record_rich_actual_action,
}
use maple_next.Application.Recorded.{completed, IsRecorded, record_rich_actual_action-IsRecorded}
use maple_next.Application.Progress.{same_test}
use maple_next.Tests.Turns.{first_state, first_delta, turn_one}
use maple_next.Tests.Stores.{py, one_state, turn_one_row, recorded, first_state-IsStored}

abbrev advised : BattleSession
advised = record recorded {
  state = turn_reviewed;
  battle_revision = 6;
  current_reviewed_board_id = some "f1";
  current_turn_advice_id = some "a1";
}

abbrev facts : TurnFactsSnapshot
facts = record {
  turn_facts_id = "f1";
  turn_id = "t1";
  turn_number = 1;
  self_active = "Garchomp";
  opponent_active = "Metagross";
  self_hp = full;
  opponent_hp = full;
  legal_moves = "Earthquake" ∷ [];
  legal_switches = "Rotom" ∷ [];
  human_note = "";
  previous_snapshot_id = none;
}

abbrev advised_repo : Repository
advised_repo = record one_state {
  sessions = advised ∷ [];
  turns = record { session_id = "s1"; row = turn_one_row } ∷ [];
  turn_facts = record { session_id = "s1"; row = facts } ∷ [];
}

abbrev rich : RichCompletion
rich = record { identity = turn_one; delta = first_delta; transaction_id = "x1" }

abbrev quake : ActionEntry
quake = record {
  action_type = move;
  action_name = " Earthquake ";
  opponent_action_type = none;
  opponent_action_name = none;
  action_order = self_first;
}

abbrev quaked : RecordedAction
quaked = record {
  action_id = "act-1";
  turn_id = "t1";
  turn_number = 1;
  action_type = move;
  action_name = "Earthquake";
  opponent_action_type = none;
  opponent_action_name = none;
  action_order = self_first;
}

state_read :
    (r : Repository)
    → r.confirmed_states ≡ one_state.confirmed_states
    → get_confirmed_turn_state py "c1" r ≡ (ok first_state, r)
unfolding get_confirmed_turn_state ◌>>=◌ find_state_row find_first state_row
state_read r h = rw (h, from_row-state_row py first_state first_state-IsStored) refl

abbrev after_action : Repository
after_action = completed py advised rich ("UNKNOWN", "UNKNOWN") quaked advised_repo

lets : (b : Bool) (e : Error) → b ≡ false → guard b e advised_repo ≡ (ok tt, advised_repo)
unfolding lift
lets b e h = rw h refl

named : is_blank "x1" ≡ false
unfolding is_blank
named = refl

checked : check_rich py rich quaked advised_repo ≡ (ok tt, advised_repo)
unfolding check_rich
checked =
    passed _ advised_repo _
      (passed _ advised_repo _
        (passed _ advised_repo _
          (step _ first_state advised_repo advised_repo _
            (lets (turn_one != turn_one) _ (same_test turn_one)) _
            (rescued _ _ advised_repo advised_repo first_state (state_read advised_repo refl)))
          _ _ (same_test turn_one))
        _ (domain_error "ACTION_COMPLETION_TURN_MISMATCH") (same_test {A = String} "t1"))
      _ _ named

abbrev with_action : Repository
with_action = record advised_repo {
  recorded_actions = record { session_id = "s1"; row = quaked } ∷ [];
}

abbrev with_delta : Repository
with_delta = record with_action { result_deltas = delta_row first_delta ∷ [] }

appended : append_action_result_delta first_delta with_action ≡ (ok tt, with_delta)
unfolding append_action_result_delta find_state_row find_first state_row any_of ◌>>=◌
appended = refl

inserted :
    insert_completion
      (completion_row (completion_of py rich quaked) ("UNKNOWN", "UNKNOWN"))
      with_delta
    ≡ (ok tt, record after_action { sessions = advised ∷ [] })
unfolding insert_completion completion_row find_state_row find_first state_row delta_row any_of
    ◌>>=◌ opened
inserted = refl

encoded : encode_opponent_action none none ≡ ok ("UNKNOWN", "UNKNOWN")
unfolding encode_opponent_action
encoded = refl

written :
    complete_rich py rich quaked with_action
    ≡ (ok tt, record after_action { sessions = advised ∷ [] })
unfolding complete_rich append_rich_action_completion
written =
    passed _ with_action _
      (step _ first_state with_action with_action _
        (passed _ with_action _
          (given {A = String × String} _ ("UNKNOWN", "UNKNOWN") with_action _
            (step _ tt with_action with_delta _ inserted _ appended) _ encoded)
          _ _ (same_test turn_one))
        _ (rescued _ _ with_action with_action first_state (state_read with_action refl)))
      _ _ (same_test turn_one)

returned :
    record_rich_actual_action py rich "act-1" quake true advised_repo ≡ (ok quaked, after_action)
unfolding record_rich_actual_action record_action require_session require_active_session
    load_active_session find_active find_first has_recorded_action get_turn_facts find_turn_facts
    any_of is_blank strip make_recorded_action append_recorded_action save_session slot_taken
    update_rows action_recorded rescue ◌>>=◌ transaction member opened state_row delta_row
    completion_row BattleState-discrete with_columns
returned = rw (checked, written) refl

record_rich_actual_action-IsRecorded_example :
    IsRecorded py rich quake advised_repo after_action quaked
record_rich_actual_action-IsRecorded_example =
    record_rich_actual_action-IsRecorded py rich quake "act-1" true advised_repo after_action quaked
      returned
