-- ===== src/Application/Lanes.antt =====
-- The commands of src/maple_next/application and the state that a job of a lane expects.
pub mod Advice
pub mod Openings
use maple_next.Base.{
  ℕ, String, Bool, true, false, ◌≡◌, refl, Option, none, some, List, Result, ok, err, arith, ◌==◌,
}
use maple_next.Enums.{
  BattleState, MatchOutcome, JobType, JobStatus, ResultDisposition, JobType-discrete,
  selection_advice, turn_advice, selection_open, turn_reviewed, job_type_eq,
}
use maple_next.TeamBuild.{TeamBuild}
use maple_next.Models.{
  BattleSession, BattleTurn, TurnFactsSnapshot, TurnAdviceSnapshot, RecordedAction,
}
use maple_next.Envelopes.{JobEnvelope, ResultEnvelope}
use maple_next.SelectionRequest.{SelectionAdviceRequest}
use maple_next.Repository.{JobRow, Exec, ◌>>=◌, lift}
use maple_next.Repository.Keeps.{
  Keeps, Keeps-lift, Keeps-required, Keeps-gets, Keeps-if, Keeps-bind, Keeps-transaction,
  Keeps-rescue, keeps_rules,
}
use maple_next.Repository.Lanes.{Bound, BindsLane, insert_job-Bound}
use maple_next.Repository.LanesKept.{bound_tables}
use maple_next.Application.Session.{require_active_session, require_session}
use maple_next.Application.Match.{
  Pins, new_match, abort_match, update_metadata, recover_after_restart, end_match,
  new_match_after_export,
}
use maple_next.Application.Selection.{
  confirm_selection_facts, request_selection_advice, apply_selection, job_for,
}
use maple_next.Application.Turn.{
  TurnEntry, ActionEntry, start_turn_capture, confirm_turn_facts, record_actual_action,
  record_action, next_turn, cancel_pending, cancel_if_unfinished,
}

pub require_active_session-Bound : Keeps Bound require_active_session
unfolding require_active_session
require_active_session-Bound = search (keeps_rules, bound_tables)

pub require_session-Bound : (st : BattleState) → Keeps Bound (require_session st)
unfolding require_session
require_session-Bound st = search (keeps_rules, require_active_session-Bound)

pub ruleset command_rules =
    (keeps_rules, bound_tables, require_active_session-Bound, require_session-Bound)

pub new_match-Bound : (a b : String) (p : Pins) → Keeps Bound (new_match a b p)
unfolding new_match
new_match-Bound a b p = search command_rules depth 40

pub abort_match-Bound : (h : Bool) → Keeps Bound (abort_match h)
unfolding abort_match
abort_match-Bound h = search command_rules depth 40

pub update_metadata-Bound : Keeps Bound update_metadata
unfolding update_metadata
update_metadata-Bound = search command_rules depth 40

pub recover_after_restart-Bound : Keeps Bound recover_after_restart
unfolding recover_after_restart
recover_after_restart-Bound = search command_rules depth 40

pub end_match-Bound : (m : MatchOutcome) (h : Bool) (now : String) → Keeps Bound (end_match m h now)
unfolding end_match
end_match-Bound m h now = search command_rules depth 40

pub new_match_after_export-Bound :
    (a b : String) (p : Pins) → Keeps Bound (new_match_after_export a b p)
unfolding new_match_after_export
new_match_after_export-Bound a b p = search command_rules depth 40

pub apply_selection-Bound :
    (id : String) (three : List String) (lead : String) (h : Bool)
    → Keeps Bound (apply_selection id three lead h)
unfolding apply_selection
apply_selection-Bound id three lead h = search command_rules depth 40

pub start_turn_capture-Bound : (id : String) → Keeps Bound (start_turn_capture id)
unfolding start_turn_capture
start_turn_capture-Bound id = search command_rules depth 40

pub record_action-Bound :
    (check complete : RecordedAction → Exec Unit) (id : String) (entry : ActionEntry) (h : Bool)
    → ((action : RecordedAction) → Keeps Bound (check action))
    → ((action : RecordedAction) → Keeps Bound (complete action))
    → Keeps Bound (record_action check complete id entry h)
unfolding record_action
record_action-Bound check complete id entry h kc kd = search (command_rules, kc, kd) depth 40

pub record_actual_action-Bound :
    (id : String) (entry : ActionEntry) (h : Bool) → Keeps Bound (record_actual_action id entry h)
unfolding record_actual_action
record_actual_action-Bound id entry h =
    record_action-Bound _ _ id entry h (λ _. Keeps-lift _) (λ _. Keeps-lift _)

pub next_turn-Bound : (id : String) → Keeps Bound (next_turn id)
unfolding next_turn
next_turn-Bound id = search command_rules depth 40

cancel_if_unfinished-Bound :
    (latest : Option JobEnvelope) → Keeps Bound (cancel_if_unfinished latest)
cancel_if_unfinished-Bound none = search command_rules depth 40
cancel_if_unfinished-Bound (some job) = search command_rules depth 40

cancel_pending-Bound :
    (previous : Option String) (id : String) → Keeps Bound (cancel_pending previous id)
cancel_pending-Bound none id = search command_rules depth 40
cancel_pending-Bound (some p) id = search (command_rules, cancel_if_unfinished-Bound) depth 40

pub confirm_turn_facts-Bound :
    (id : String) (entry : TurnEntry) (h : Bool) → Keeps Bound (confirm_turn_facts id entry h)
unfolding confirm_turn_facts
confirm_turn_facts-Bound id entry h = search (command_rules, cancel_pending-Bound) depth 40

module _ (sha256 : TeamBuild → String) (payload_hash : SelectionAdviceRequest → String) where
  pub confirm_selection_facts-Bound :
      (id : String) (self_team opponent_team : List String) (build : Option TeamBuild)
      → Keeps Bound (confirm_selection_facts sha256 payload_hash id self_team opponent_team build)
  unfolding confirm_selection_facts
  confirm_selection_facts-Bound id self_team opponent_team build = search command_rules depth 40

  pub job_for-BindsLane :
      (session : BattleSession) (facts_id job_id command_id hash now : String)
      → BindsLane (job_for session facts_id job_id command_id hash now)
  unfolding JobType-discrete
  job_for-BindsLane session facts_id job_id command_id hash now = record {
    selection = λ e. refl;
    turn = λ e. ground arith;
  }

  pub request_selection_advice-Bound :
      (job_id command_id now : String)
      → Keeps Bound (request_selection_advice sha256 payload_hash job_id command_id now)
  unfolding request_selection_advice
  request_selection_advice-Bound job_id command_id now =
      search (command_rules, insert_job-Bound, job_for-BindsLane) depth 40
