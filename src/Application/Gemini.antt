-- ===== src/Application/Gemini.antt =====
-- The production lane of the Selection advice in src/maple_next/application/service.py: one attempt for
-- a round of the Selection, that another human activation may replace after a transient failure.
-- `read_int` is Python's `int` of a text, and is none where that raises.
use maple_next.Base.{
  ℕ, String, Bool, true, false, not, ◌&&◌, ◌||◌, Option, none, some, is_some, domain_error, ◌==◌,
  option_eq, string_eq, nat_eq, if◌then◌else◌, is_empty, starts_with, before_code, after_code,
  any_of, [], ◌∷◌,
}
use maple_next.Enums.{selection_advice, selection_open, job_status_eq, job_type_eq}
use maple_next.Enums.{failed as job_failed, timed_out}
use maple_next.TeamBuild.{TeamBuild}
use maple_next.Models.{BattleSession}
use maple_next.Envelopes.{JobEnvelope}
use maple_next.SelectionRequest.{SelectionAdviceRequest, build_selection_advice_request}
use maple_next.Repository.{
  SelectionAttemptRow, ProviderAuditRow, AttemptOutcome, failed, Exec, ◌>>=◌, ◌>>◌, guard, lift,
  pure, required, transaction, gets,
}
use maple_next.Repository.Sessions.{load_active_session}
use maple_next.Repository.Jobs.{insert_job, latest_job_by_type}
use maple_next.Repository.Rows.{get_selection_facts}
use maple_next.Repository.Gemini.{
  reserve_gemini_selection_attempt, gemini_selection_attempt_reserved,
  replace_gemini_selection_attempt_reservation, last_attempt,
}
use maple_next.Application.Session.{require_session, guard_provider_request}
use maple_next.Application.Selection.{job_for}

abbrev attempt_of : BattleSession → String → String → SelectionAttemptRow
attempt_of session facts_id job_id = record {
  session_id = session.session_id;
  match_id = session.match_id;
  generation = session.generation;
  battle_revision = session.battle_revision;
  reviewed_selection_id = facts_id;
  job_id = job_id;
}

-- The job is the session's current one, and it ended in a failure.
unfoldable pub failed_now : BattleSession → JobEnvelope → Bool
failed_now session job =
    job.session_id == session.session_id
    && job.match_id == session.match_id
    && job.generation == session.generation
    && job.base_battle_revision == session.battle_revision
    && some job.input_snapshot_id == session.current_reviewed_selection_id
    && (job.status == job_failed || job.status == timed_out)

abbrev has_transient_status : Option ℕ → Bool
has_transient_status none = false
has_transient_status (some status) =
    any_of (λ code. status == code) (408 ∷ 425 ∷ 429 ∷ 500 ∷ 502 ∷ 503 ∷ 504 ∷ [])

-- `_is_transient_selection_failure`; 58 and 124 are the codes of `:` and `|`.
unfoldable pub is_transient_selection_failure : (String → Option ℕ) → String → Bool
is_transient_selection_failure read_int reason =
    if reason == "GEMINI_TIMEOUT" || starts_with "GEMINI_NETWORK_ERROR" reason
    then true
    else if starts_with "GEMINI_HTTP_ERROR:" reason
    then has_transient_status (read_int (before_code 124 (after_code 58 reason)))
    else false

abbrev is_failure : AttemptOutcome → Bool
is_failure failed = true
is_failure _ = false

module _ (read_int : String → Option ℕ) where
  abbrev reason_of : Bool → Option ProviderAuditRow → Option String
  reason_of transient_only none = none
  reason_of transient_only (some audit) =
      if not (is_failure audit.outcome) || is_empty audit.reason
      then none
      else if transient_only && not (is_transient_selection_failure read_int audit.reason)
      then none
      else some audit.reason

  -- `_gemini_selection_failure_reason`
  abbrev pub failure_reason : BattleSession → Bool → Option JobEnvelope → Exec (Option String)
  failure_reason session transient_only none = pure none
  failure_reason session transient_only (some job) = gets λ s.
      if failed_now session job
      then reason_of transient_only (last_attempt job.job_id s.provider_audits)
      else none

  abbrev replaced_job : Option String → Option JobEnvelope → Option JobEnvelope
  replaced_job none latest_job = none
  replaced_job (some reason) latest_job = latest_job

  -- What follows the reservation: a new round is guarded, and a taken one is handed to the new job only
  -- from the job that failed.
  abbrev pub admit_attempt :
      BattleSession → SelectionAttemptRow → Bool → Option JobEnvelope → Exec Unit
  admit_attempt session attempt true latest_job = lift (guard_provider_request latest_job)
  admit_attempt session attempt false latest_job = do
    reason ← failure_reason session true latest_job
    previous ←
        required (domain_error "GEMINI_SELECTION_ATTEMPT_CONSUMED") (replaced_job reason latest_job)
    replaced ← replace_gemini_selection_attempt_reservation attempt previous.job_id attempt.job_id
    guard (not replaced) (domain_error "GEMINI_SELECTION_ATTEMPT_CONSUMED")

  module _ (sha256 : TeamBuild → String) (payload_hash : SelectionAdviceRequest → String) where
    unfoldable pub reserve_gemini_selection : String → String → String → Exec JobEnvelope
    reserve_gemini_selection job_id command_id now = transaction do
      session ← require_session selection_open
      facts_id ←
          required (domain_error "REVIEWED_SELECTION_REQUIRED")
            session.current_reviewed_selection_id
      reserved ← reserve_gemini_selection_attempt (attempt_of session facts_id job_id)
      latest_job ← latest_job_by_type session.session_id selection_advice
      admit_attempt session (attempt_of session facts_id job_id) reserved latest_job
      facts ← get_selection_facts facts_id
      request ← lift (build_selection_advice_request sha256 session facts_id facts)
      let job = job_for session facts_id job_id command_id (payload_hash request) now
      insert_job job
      pure job

  -- `gemini_selection_resend_eligible` and `gemini_selection_last_failure_reason`, for the active
  -- session if it has reviewed facts.
  abbrev reason_for : Bool → Option BattleSession → Exec (Option String)
  reason_for transient_only none = pure none
  reason_for transient_only (some session) =
      if is_some session.current_reviewed_selection_id
      then (do
        latest_job ← latest_job_by_type session.session_id selection_advice
        failure_reason session transient_only latest_job)
      else pure none

  unfoldable pub gemini_selection_resend_eligible : Exec Bool
  gemini_selection_resend_eligible = do
    active ← load_active_session
    reason ← reason_for true active
    pure (is_some reason)

  unfoldable pub gemini_selection_last_failure_reason : Exec (Option String)
  gemini_selection_last_failure_reason = do active ← load_active_session; reason_for false active

abbrev consumed_for : BattleSession → Option String → Exec Bool
consumed_for session none = pure false
consumed_for session (some facts_id) =
    gemini_selection_attempt_reserved (attempt_of session facts_id "")

abbrev consumed_by : Option BattleSession → Exec Bool
consumed_by none = pure false
consumed_by (some session) = consumed_for session session.current_reviewed_selection_id

unfoldable pub gemini_selection_attempt_consumed : Exec Bool
gemini_selection_attempt_consumed = do active ← load_active_session; consumed_by active
