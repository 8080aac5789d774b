-- ===== src/Application/Turn.antt =====
-- The Turn commands of src/maple_next/application/service.py that both kinds of match use, and the
-- legacy `record_actual_action`, which is `_record_actual_action` with no rich completion.
use maple_next.Base.{
  ◌+◌, String, Bool, not, ◌&&◌, Option, none, some, List, map, any_of, Error, domain_error,
  value_error, ◌!=◌, nat_eq, string_eq, member, is_none, is_some, strip, if◌then◌else◌,
}
use Prim.Native.String.{◌++◌}
use maple_next.Enums.{
  HpBucket, ActionType, move, switch, ActionOrder, battle_ready, turn_capture_pending,
  turn_reviewed, turn_recorded, turn_advice, cancelled, state_eq,
}
use maple_next.Models.{
  BattleSession, bump_battle, BattleTurn, make_turn, TurnFactsSnapshot, make_turn_facts,
  RecordedAction, make_recorded_action, missing_text,
}
use maple_next.Envelopes.{JobEnvelope}
use maple_next.Repository.{Exec, ◌>>=◌, ◌>>◌, guard, lift, pure, required, transaction, rescue}
use maple_next.Repository.Sessions.{save_session}
use maple_next.Repository.Jobs.{is_unfinished, latest_job_by_type, update_job_status}
use maple_next.Repository.Rows.{
  append_turn, get_turn, get_applied_selection, append_turn_facts, get_turn_facts,
  append_recorded_action, has_recorded_action,
}
use maple_next.Application.Session.{require_active_session, require_session, set_pending_turn}

unfoldable pub start_turn_capture : String → Exec BattleTurn
start_turn_capture turn_id = transaction do
  session ← require_session battle_ready
  guard (is_some session.current_turn_id) (domain_error "CURRENT_TURN_ALREADY_EXISTS")
  turn ← lift (make_turn (record { turn_id = turn_id; turn_number = 1 }))
  append_turn session.session_id turn
  save_session (set_pending_turn session turn)
  pure turn

-- What the human enters for a Turn.
pub record TurnEntry : Type 0 where
  pub self_active : String
  pub opponent_active : String
  pub self_hp : HpBucket
  pub opponent_hp : HpBucket
  pub legal_moves : List String
  pub legal_switches : List String
  pub human_note : String

-- `except ValueError`
abbrev invalid_turn_facts : Error → Error
invalid_turn_facts (value_error e) = domain_error ("INVALID_TURN_FACTS:" ++ e)
invalid_turn_facts e = e

-- A second confirmation of a Turn cancels the advice job that is still open.
abbrev pub cancel_if_unfinished : Option JobEnvelope → Exec Unit
cancel_if_unfinished none = pure tt
cancel_if_unfinished (some job) =
    if is_unfinished job.status then update_job_status job.job_id cancelled else pure tt

abbrev pub cancel_pending : Option String → String → Exec Unit
cancel_pending none session_id = pure tt
cancel_pending (some previous) session_id = do
  latest_turn_job ← latest_job_by_type session_id turn_advice
  cancel_if_unfinished latest_turn_job

unfoldable pub turn_confirmed : BattleSession → String → BattleSession
unfolding bump_battle
turn_confirmed session facts_id = bump_battle (record session {
  current_reviewed_board_id = some facts_id;
  current_turn_advice_id = none;
  state = turn_reviewed;
})

unfoldable pub confirm_turn_facts : String → TurnEntry → Bool → Exec TurnFactsSnapshot
confirm_turn_facts facts_id entry human_confirmed = do
  guard (not human_confirmed) (domain_error "HUMAN_TURN_FACTS_CONFIRMATION_REQUIRED")
  transaction do
    session ← require_active_session
    guard (session.state != turn_capture_pending && session.state != turn_reviewed)
        (domain_error "EXPECTED_TURN_CAPTURE_PENDING_OR_REVIEWED")
    turn_id ← required (domain_error "CURRENT_TURN_REQUIRED") session.current_turn_id
    applied_id ←
        required (domain_error "APPLIED_SELECTION_REQUIRED") session.current_applied_selection_id
    turn ← get_turn turn_id
    applied ← get_applied_selection applied_id
    let active = strip entry.self_active
    let moves = map strip entry.legal_moves
    let switches = map strip entry.legal_switches
    guard (not (member active applied.selected_three))
        (domain_error "SELF_ACTIVE_OUTSIDE_APPLIED_SELECTION")
    guard (any_of (λ name. not (member name applied.selected_three)) switches)
        (domain_error "SWITCH_OUTSIDE_APPLIED_SELECTION")
    guard (member active switches) (domain_error "SELF_ACTIVE_IN_SWITCH_CANDIDATES")
    snapshot ← rescue invalid_turn_facts (
        lift (
          make_turn_facts (record {
            turn_facts_id = facts_id;
            turn_id = turn.turn_id;
            turn_number = turn.turn_number;
            self_active = active;
            opponent_active = strip entry.opponent_active;
            self_hp = entry.self_hp;
            opponent_hp = entry.opponent_hp;
            legal_moves = moves;
            legal_switches = switches;
            human_note = strip entry.human_note;
            previous_snapshot_id = session.current_reviewed_board_id;
          })))
    cancel_pending session.current_reviewed_board_id session.session_id
    append_turn_facts session.session_id snapshot
    save_session (turn_confirmed session snapshot.turn_facts_id)
    pure snapshot

-- The human's record of a Turn.
pub record ActionEntry : Type 0 where
  pub action_type : ActionType
  pub action_name : String
  pub opponent_action_type : Option ActionType
  pub opponent_action_name : Option String
  pub action_order : ActionOrder

abbrev pub legal_actions : ActionType → TurnFactsSnapshot → List String
legal_actions move facts = facts.legal_moves
legal_actions switch facts = facts.legal_switches

-- A name is kept only beside a type.
abbrev normalized_opponent : Option ActionType → Option String → Option String
normalized_opponent (some type) (some name) = some (strip name)
normalized_opponent _ _ = none

-- `except ValueError`
abbrev invalid_action : Error → Error
invalid_action (value_error e) = domain_error ("INVALID_RECORDED_ACTION:" ++ e)
invalid_action e = e

unfoldable pub action_recorded : BattleSession → BattleSession
unfolding bump_battle
action_recorded session = bump_battle (record session { state = turn_recorded })

-- `_record_actual_action`: the checks of a rich completion, and its writes, are `check` and `complete`.
unfoldable pub record_action :
    (RecordedAction → Exec Unit)
    → (RecordedAction → Exec Unit)
    → String
    → ActionEntry
    → Bool
    → Exec RecordedAction
record_action check complete action_id entry human_confirmed = do
  guard (not human_confirmed) (domain_error "HUMAN_ACTION_CONFIRMATION_REQUIRED")
  guard (is_none entry.opponent_action_type && is_some entry.opponent_action_name)
      (domain_error "INVALID_UNKNOWN_OPPONENT_ACTION_NAME")
  guard (is_some entry.opponent_action_type && missing_text entry.opponent_action_name)
      (domain_error "INVALID_KNOWN_OPPONENT_ACTION_NAME")
  transaction do
    session ← require_session turn_reviewed
    turn_id ← required (domain_error "CURRENT_TURN_REQUIRED") session.current_turn_id
    board_id ←
        required (domain_error "REVIEWED_TURN_FACTS_REQUIRED") session.current_reviewed_board_id
    guard (is_none session.current_turn_advice_id) (domain_error "CURRENT_TURN_ADVICE_REQUIRED")
    already ← has_recorded_action turn_id
    guard already (domain_error "ACTION_ALREADY_RECORDED")
    facts ← get_turn_facts board_id
    let name = strip entry.action_name
    guard (not (member name (legal_actions entry.action_type facts)))
        (domain_error "ACTION_OUTSIDE_REVIEWED_LEGAL_ACTIONS")
    action ← rescue invalid_action (
        lift (
          make_recorded_action (record {
            action_id = action_id;
            turn_id = turn_id;
            turn_number = facts.turn_number;
            action_type = entry.action_type;
            action_name = name;
            opponent_action_type = entry.opponent_action_type;
            opponent_action_name =
                normalized_opponent entry.opponent_action_type entry.opponent_action_name;
            action_order = entry.action_order;
          })))
    check action
    append_recorded_action session.session_id action
    complete action
    save_session (action_recorded session)
    pure action

-- With no rich completion.
unfoldable pub record_actual_action : String → ActionEntry → Bool → Exec RecordedAction
unfolding record_action
record_actual_action = record_action (λ _. pure tt) (λ _. pure tt)

unfoldable pub next_turn : String → Exec BattleTurn
next_turn new_turn_id = transaction do
  session ← require_session turn_recorded
  turn_id ← required (domain_error "CURRENT_TURN_REQUIRED") session.current_turn_id
  current ← get_turn turn_id
  turn ← lift (make_turn (record { turn_id = new_turn_id; turn_number = current.turn_number + 1 }))
  append_turn session.session_id turn
  save_session (set_pending_turn session turn)
  pure turn
