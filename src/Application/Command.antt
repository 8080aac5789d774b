-- ===== src/Application/Command.antt =====
-- The commands of src/maple_next/application as steps of the repository, whether they return or raise.
use maple_next.Base.{true, false, ok, err, ℕ, String, Bool, Option, List, Result}
use maple_next.Enums.{MatchOutcome, JobType}
use maple_next.TeamBuild.{TeamBuild}
use maple_next.Models.{BattleSession, TurnFactsSnapshot}
use maple_next.Envelopes.{JobEnvelope, ResultEnvelope}
use maple_next.SelectionRequest.{SelectionAdviceRequest}
use maple_next.Repository.{Repository, AttemptOutcome}
use maple_next.Repository.Gemini.{
  start_selection_provider_attempt, finish_selection_provider_attempt,
}
use maple_next.Enums.{
  selection_advice_ready, battle_ready, turn_capture_pending, turn_reviewed, turn_recorded,
  match_ended, match_exported, aborted,
}
use maple_next.Application.Effect.{Purpose, leaves, edits, opens, reaches}
use maple_next.Application.Match.{
  Pins, new_match, abort_match, update_metadata, recover_after_restart, end_match,
  new_match_after_export,
}
use maple_next.Application.Export.{ExportWorld}
use maple_next.Application.Export.Run.{export_match}
use maple_next.Application.Gemini.{reserve_gemini_selection}
use maple_next.Application.Selection.{
  confirm_selection_facts, request_selection_advice, apply_selection,
}
use maple_next.Application.Turn.{
  TurnEntry, ActionEntry, start_turn_capture, confirm_turn_facts, record_actual_action, next_turn,
}
use maple_next.Application.Rich.{
  RichCompletion, record_rich_actual_action, next_turn_with_action_result,
}
use maple_next.Application.Switches.{confirm_current_switches}
use maple_next.Application.Stores.{StoreWrite, store}
use maple_next.TurnState.Records.{ConfirmedTurnState, ActionResultDelta}
use maple_next.TurnState.Json.{Python}
use maple_next.LegalSwitches.{LegalSwitchStatus}
use maple_next.Application.TurnAdvice.{AdviceBody, request_turn_advice, apply_turn_advice_result}
use maple_next.Application.SelectionResult.{apply_selection_advice_result}
use maple_next.Application.Jobs.{mark_advice_dispatched, fail_advice_job}

-- What stands outside the commands: digests, the request of the Turn lane and the reader of its answer.
pub record Outside : Type 0 where
  pub sha256 : TeamBuild → String
  pub payload_hash : SelectionAdviceRequest → String
  pub python : Python
  pub read_int : String → Option ℕ
  pub request_hash :
      BattleSession → TurnFactsSnapshot → List String → Option TeamBuild → Result String
  pub read_body :
      ResultEnvelope
      → JobEnvelope
      → TurnFactsSnapshot
      → List String
      → Option TeamBuild
      → Option AdviceBody

-- One command, run to its end.
pub data Step (o : Outside) (s : Repository) : Repository → Type 0 where
  by_new_match : (a b : String) (p : Pins) → Step o s (new_match a b p s).1
  by_abort_match : (h : Bool) → Step o s (abort_match h s).1
  by_update_metadata : Step o s (update_metadata s).1
  by_recover : Step o s (recover_after_restart s).1
  by_end_match : (m : MatchOutcome) (h : Bool) (now : String) → Step o s (end_match m h now s).1
  by_export_match : (w : ExportWorld) (now : String) → Step o s (export_match w now s).1
  by_new_match_after_export :
      (a b : String) (p : Pins) → Step o s (new_match_after_export a b p s).1
  by_confirm_selection :
      (id : String) (self_team opponent_team : List String) (build : Option TeamBuild)
      → Step o s
          (confirm_selection_facts o.sha256 o.payload_hash id self_team opponent_team build s).1
  by_request_selection :
      (job command now : String)
      → Step o s (request_selection_advice o.sha256 o.payload_hash job command now s).1
  by_gemini_selection :
      (job command now : String)
      → Step o s (reserve_gemini_selection o.read_int o.sha256 o.payload_hash job command now s).1
  by_started_attempt :
      (job : String) (ordinal : ℕ) (model : String)
      → Step o s (start_selection_provider_attempt job ordinal model s).1
  by_finished_attempt :
      (job : String) (ordinal : ℕ) (outcome : AttemptOutcome) (reason : String)
      → Step o s (finish_selection_provider_attempt job ordinal outcome reason s).1
  by_selection_result : (r : ResultEnvelope) → Step o s (apply_selection_advice_result r s).1
  by_apply_selection :
      (id : String) (three : List String) (lead : String) (h : Bool)
      → Step o s (apply_selection id three lead h s).1
  by_start_turn : (id : String) → Step o s (start_turn_capture id s).1
  by_confirm_turn :
      (id : String) (entry : TurnEntry) (h : Bool) → Step o s (confirm_turn_facts id entry h s).1
  by_request_turn :
      (job command now : String) → Step o s (request_turn_advice o.request_hash job command now s).1
  by_turn_result : (r : ResultEnvelope) → Step o s (apply_turn_advice_result o.read_body r s).1
  by_record_action :
      (id : String) (entry : ActionEntry) (h : Bool)
      → Step o s (record_actual_action id entry h s).1
  by_next_turn : (id : String) → Step o s (next_turn id s).1
  by_mark_dispatched :
      (lane : JobType) (wrong_type job : String)
      → Step o s (mark_advice_dispatched lane wrong_type job s).1
  by_fail_job :
      (lane : JobType) (job reason : String) → Step o s (fail_advice_job lane job reason s).1
  by_record_rich :
      (rich : RichCompletion) (id : String) (entry : ActionEntry) (h : Bool)
      → Step o s (record_rich_actual_action o.python rich id entry h s).1
  by_next_turn_with_result :
      (state : ConfirmedTurnState) (delta : ActionResultDelta) (id draft_id now : String)
      → Step o s (next_turn_with_action_result o.python state delta id draft_id now s).1
  by_confirm_switches :
      (names : List String) (status : LegalSwitchStatus) (h : Bool) (id now : String)
      → Step o s (confirm_current_switches o.python names status h id now s).1
  by_store : (w : StoreWrite) → Step o s (store w s).1

-- What each command is for.
abbrev pub purpose_of : {o : Outside} {s s' : Repository} → Step o s s' → Purpose
purpose_of (by_new_match a b p) = opens
purpose_of (by_abort_match h) = reaches aborted
purpose_of by_update_metadata = edits
purpose_of by_recover = leaves
purpose_of (by_end_match m h now) = reaches match_ended
purpose_of (by_export_match w now) = reaches match_exported
purpose_of (by_new_match_after_export a b p) = opens
purpose_of (by_confirm_selection id t u b) = edits
purpose_of (by_request_selection j c now) = leaves
purpose_of (by_gemini_selection j c now) = leaves
purpose_of (by_started_attempt j n m) = leaves
purpose_of (by_finished_attempt j n out r) = leaves
purpose_of (by_selection_result r) = reaches selection_advice_ready
purpose_of (by_apply_selection id three lead h) = reaches battle_ready
purpose_of (by_start_turn id) = reaches turn_capture_pending
purpose_of (by_confirm_turn id entry h) = reaches turn_reviewed
purpose_of (by_request_turn j c now) = leaves
purpose_of (by_turn_result r) = edits
purpose_of (by_record_action id entry h) = reaches turn_recorded
purpose_of (by_next_turn id) = reaches turn_capture_pending
purpose_of (by_mark_dispatched lane w j) = leaves
purpose_of (by_fail_job lane j r) = leaves
purpose_of (by_record_rich rich id entry h) = reaches turn_recorded
purpose_of (by_next_turn_with_result st d id draft now) = reaches turn_capture_pending
purpose_of (by_confirm_switches ns st h id now) = leaves
purpose_of (by_store w) = leaves

abbrev pub is_ok : {A : Type 0} → Result A → Bool
is_ok (ok a) = true
is_ok (err e) = false

-- Whether the command must have changed the table of sessions: it returned, and it is no export, which may
-- find its file, no result of a worker, which may be refused, and none that leaves the table alone.
abbrev pub must_change : {o : Outside} {s s' : Repository} → Step o s s' → Bool
must_change {o} {s} (by_new_match a b p) = is_ok (new_match a b p s).0
must_change {o} {s} (by_abort_match h) = is_ok (abort_match h s).0
must_change {o} {s} by_update_metadata = is_ok (update_metadata s).0
must_change {o} {s} (by_end_match m h now) = is_ok (end_match m h now s).0
must_change {o} {s} (by_new_match_after_export a b p) = is_ok (new_match_after_export a b p s).0
must_change {o} {s} (by_confirm_selection id t u b) =
    is_ok (confirm_selection_facts o.sha256 o.payload_hash id t u b s).0
must_change {o} {s} (by_apply_selection id three lead h) =
    is_ok (apply_selection id three lead h s).0
must_change {o} {s} (by_start_turn id) = is_ok (start_turn_capture id s).0
must_change {o} {s} (by_confirm_turn id entry h) = is_ok (confirm_turn_facts id entry h s).0
must_change {o} {s} (by_record_action id entry h) = is_ok (record_actual_action id entry h s).0
must_change {o} {s} (by_next_turn id) = is_ok (next_turn id s).0
must_change {o} {s} (by_record_rich rich id entry h) =
    is_ok (record_rich_actual_action o.python rich id entry h s).0
must_change {o} {s} (by_next_turn_with_result st d id draft now) =
    is_ok (next_turn_with_action_result o.python st d id draft now s).0
must_change by_recover = false
must_change (by_export_match w now) = false
must_change (by_request_selection j c now) = false
must_change (by_gemini_selection j c now) = false
must_change (by_started_attempt j n m) = false
must_change (by_finished_attempt j n out r) = false
must_change (by_selection_result r) = false
must_change (by_request_turn j c now) = false
must_change (by_turn_result r) = false
must_change (by_mark_dispatched lane w j) = false
must_change (by_fail_job lane j r) = false
must_change (by_confirm_switches ns st h id now) = false
must_change (by_store w) = false
