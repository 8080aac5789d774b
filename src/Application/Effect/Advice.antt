-- ===== src/Application/Effect/Advice.antt =====
-- The effect of the commands on advice jobs and on the results of workers. All but the two that accept
-- a result leave the sessions alone.
use maple_next.Base.{ℕ, Bool, true, false, String, Option, none, some, List, Result}
use maple_next.Enums.{
  JobType, JobStatus, selection_open, turn_reviewed, selection_advice, turn_advice,
  ResultDisposition,
}
use maple_next.TeamBuild.{TeamBuild}
use maple_next.Models.{BattleSession, TurnFactsSnapshot}
use maple_next.SelectionRequest.{SelectionAdviceRequest}
use maple_next.Repository.{JobRow, SelectionAttemptRow, Exec, ◌>>=◌, lift, required}
use maple_next.Repository.Quiet.{
  Quiet, Quiet-lift, Quiet-gets, Quiet-bind, Quiet-if, Quiet-required, Quiet-transaction,
}
use maple_next.Repository.Unchanged.{
  Quiet-insert_job, Quiet-get_job, Quiet-update_job_status, Quiet-mark_job_in_flight,
  Quiet-latest_job_by_type, Quiet-reserve_gemini_selection_attempt,
  Quiet-replace_gemini_selection_attempt_reservation, Quiet-recover_unfinished_jobs,
  Quiet-get_selection_facts, Quiet-get_turn, Quiet-get_turn_facts, Quiet-get_applied_selection,
  Quiet-turn_advice_attempt_reserved, Quiet-reserve_turn_advice_attempt, Quiet-load_active_session,
}
use maple_next.Application.Session.{require_session, require_active_session}
use maple_next.Application.Match.{recover_after_restart}
use maple_next.Application.Selection.{request_selection_advice}
use maple_next.Envelopes.{JobEnvelope}
use maple_next.Application.Gemini.{failure_reason, admit_attempt, reserve_gemini_selection}
use maple_next.Application.TurnAdvice.{reviewed_build, request_turn_advice}
use maple_next.Application.Jobs.{mark_advice_dispatched, fail_advice_job, fail_if_unfinished}

require_active_session-Quiet : Quiet require_active_session
unfolding require_active_session
require_active_session-Quiet =
    Quiet-bind _ _ Quiet-load_active_session λ found. Quiet-required _ found

require_session-Quiet : (st : maple_next.Enums.BattleState) → Quiet (require_session st)
unfolding require_session
require_session-Quiet st =
    Quiet-bind _ _ require_active_session-Quiet λ a. Quiet-bind _ _ (Quiet-lift _) λ _. Quiet-lift _

pub recover_after_restart-Quiet : Quiet recover_after_restart
unfolding recover_after_restart
recover_after_restart-Quiet = Quiet-transaction _ Quiet-recover_unfinished_jobs

module _ {A B : Type 0} (f : A → Exec B) where
  after : (m : Exec A) → Quiet m → ((a : A) → Quiet (f a)) → Quiet (m >>= f)
  after m = Quiet-bind m f

  lifted : (r : Result A) → ((a : A) → Quiet (f a)) → Quiet (lift r >>= f)
  lifted r = Quiet-bind (lift r) f (Quiet-lift r)

pub request_selection_advice-Quiet :
    (sha256 : TeamBuild → String) (payload_hash : SelectionAdviceRequest → String)
    (job_id command_id now : String)
    → Quiet (request_selection_advice sha256 payload_hash job_id command_id now)
unfolding request_selection_advice required
request_selection_advice-Quiet sha256 payload_hash job_id command_id now = Quiet-transaction _ (
    after _ _ (require_session-Quiet selection_open) λ session. lifted _ _ λ facts_id.
      after _ _ (Quiet-latest_job_by_type _ _) λ latest. lifted _ _ λ _.
        after _ _ (Quiet-get_selection_facts facts_id)
          λ facts. lifted _ _ λ request. after _ _ (Quiet-insert_job _) λ _. Quiet-lift _)

reviewed_build-Quiet : (id : Option String) → Quiet (reviewed_build id)
reviewed_build-Quiet none = Quiet-lift _
reviewed_build-Quiet (some id) = after _ _ (Quiet-get_selection_facts id) λ facts. Quiet-lift _

pub request_turn_advice-Quiet :
    (request_hash : BattleSession
      → TurnFactsSnapshot
      → List String
      → Option TeamBuild
      → Result String)
    (job_id command_id now : String)
    → Quiet (request_turn_advice request_hash job_id command_id now)
unfolding request_turn_advice required
request_turn_advice-Quiet request_hash job_id command_id now = Quiet-transaction _ (
    after _ _ (require_session-Quiet turn_reviewed) λ session. lifted _ _ λ turn_id.
      lifted _ _ λ board_id. lifted _ _ λ applied_id. lifted _ _ λ _.
        after _ _ (Quiet-get_turn turn_id) λ turn.
          after _ _ (Quiet-get_turn_facts board_id) λ facts.
            after _ _ (Quiet-get_applied_selection applied_id) λ selection.
              after _ _ (Quiet-latest_job_by_type _ _) λ latest. lifted _ _ λ _.
                after _ _ (reviewed_build-Quiet _) λ build. lifted _ _ λ hash.
                  after _ _ (Quiet-turn_advice_attempt_reserved _) λ consumed. lifted _ _ λ _.
                    after _ _ (Quiet-reserve_turn_advice_attempt _)
                      λ reserved. lifted _ _ λ _. after _ _ (Quiet-insert_job _) λ _. Quiet-lift _)

pub mark_advice_dispatched-Quiet :
    (lane : JobType) (wrong_type job_id : String)
    → Quiet (mark_advice_dispatched lane wrong_type job_id)
unfolding mark_advice_dispatched required
mark_advice_dispatched-Quiet lane wrong_type job_id = Quiet-transaction _ (
    after _ _ (Quiet-get_job job_id) λ job. lifted _ _ λ _.
      after _ _ require_active_session-Quiet λ session.
        after _ _ (Quiet-latest_job_by_type _ _) λ latest.
          lifted _ _
            λ latest_job. lifted _ _ λ _. lifted _ _ λ _. Quiet-mark_job_in_flight job.job_id)

fail_if_unfinished-Quiet :
    (lane : JobType) (target : JobStatus) (row : Option JobRow)
    → Quiet (fail_if_unfinished lane target row)
fail_if_unfinished-Quiet lane target none = Quiet-lift _
fail_if_unfinished-Quiet lane target (some row) =
    Quiet-if _ _ _ (Quiet-update_job_status _ _) (Quiet-lift _)

pub fail_advice_job-Quiet :
    (lane : JobType) (job_id reason : String) → Quiet (fail_advice_job lane job_id reason)
unfolding fail_advice_job
fail_advice_job-Quiet lane job_id reason =
    Quiet-transaction _ (after _ _ (Quiet-gets _) λ rows. fail_if_unfinished-Quiet lane _ _)

failure_reason-Quiet :
    (read_int : String → Option ℕ) (session : BattleSession) (transient : Bool)
    (latest : Option JobEnvelope)
    → Quiet (failure_reason read_int session transient latest)
failure_reason-Quiet read_int session transient none = Quiet-lift _
failure_reason-Quiet read_int session transient (some job) = Quiet-gets _

admit_attempt-Quiet :
    (read_int : String → Option ℕ) (session : BattleSession) (attempt : SelectionAttemptRow)
    (reserved : Bool) (latest : Option JobEnvelope)
    → Quiet (admit_attempt read_int session attempt reserved latest)
unfolding required
admit_attempt-Quiet read_int session attempt true latest = Quiet-lift _
admit_attempt-Quiet read_int session attempt false latest =
    after _ _ (failure_reason-Quiet read_int session true latest) λ reason. lifted _ _ λ previous.
      after _ _ (Quiet-replace_gemini_selection_attempt_reservation attempt previous.job_id _)
        λ replaced. Quiet-lift _

pub reserve_gemini_selection-Quiet :
    (read_int : String → Option ℕ) (sha256 : TeamBuild → String)
    (payload_hash : SelectionAdviceRequest → String) (job_id command_id now : String)
    → Quiet (reserve_gemini_selection read_int sha256 payload_hash job_id command_id now)
unfolding reserve_gemini_selection required
reserve_gemini_selection-Quiet read_int sha256 payload_hash job_id command_id now =
    Quiet-transaction _ (
      after _ _ (require_session-Quiet selection_open) λ session. lifted _ _ λ facts_id.
        after _ _ (Quiet-reserve_gemini_selection_attempt _) λ reserved.
          after _ _ (Quiet-latest_job_by_type _ _) λ latest.
            after _ _ (admit_attempt-Quiet read_int session _ reserved latest) λ _.
              after _ _ (Quiet-get_selection_facts facts_id)
                λ facts. lifted _ _ λ request. after _ _ (Quiet-insert_job _) λ _. Quiet-lift _)
