-- ===== src/Application/Jobs.antt =====
-- The commands of src/maple_next/application/service.py on jobs and on the results of workers.
use maple_next.Base.{
  ℕ, String, Bool, false, ◌&&◌, Option, none, some, List, [], ◌∷◌, ◌++◌, domain_error, ◌==◌, ◌!=◌,
  nat_eq, string_eq, option_eq, if◌then◌else◌,
}
use maple_next.Enums.{
  JobType, JobStatus, queued, timed_out, failed, state_eq, job_type_eq, job_status_eq,
}
use maple_next.Models.{BattleSession}
use maple_next.Envelopes.{JobEnvelope, ResultEnvelope}
use maple_next.Repository.{JobRow, Exec, ◌>>=◌, ◌>>◌, guard, pure, gets, required, transaction}
use maple_next.Repository.Jobs.{
  find_job, get_job, latest_job_by_type, mark_job_in_flight, update_job_status, is_unfinished,
}
use maple_next.Application.Session.{require_active_session}

-- `mark_selection_advice_dispatched` and `mark_turn_advice_dispatched`: one text for both lanes.
unfoldable pub mark_advice_dispatched : JobType → String → String → Exec Unit
mark_advice_dispatched lane wrong_type job_id = transaction do
  job ← get_job job_id
  guard (job.job_type != lane) (domain_error wrong_type)
  session ← require_active_session
  latest ← latest_job_by_type session.session_id lane
  latest_job ← required (domain_error "JOB_ID_NOT_CURRENT") latest
  guard (latest_job.job_id != job.job_id) (domain_error "JOB_ID_NOT_CURRENT")
  guard (job.status != queued) (domain_error "JOB_NOT_DISPATCHABLE")
  mark_job_in_flight job.job_id

abbrev pub fail_if_unfinished : JobType → JobStatus → Option JobRow → Exec Unit
fail_if_unfinished lane target none = pure tt
fail_if_unfinished lane target (some row) =
    if row.job.job_type == lane && is_unfinished row.job.status
    then update_job_status row.job.job_id target
    else pure tt

-- `fail_selection_advice_job` and `fail_turn_advice_job`; an unknown job is passed over.
unfoldable pub fail_advice_job : JobType → String → String → Exec Unit
fail_advice_job lane job_id reason = transaction do
  rows ← gets (λ s. s.jobs)
  fail_if_unfinished lane (if reason == "GEMINI_TIMEOUT" then timed_out else failed)
      (find_job job_id rows)

-- The reason of the first check that does not pass.
unfoldable pub first_failure : List (Bool × String) → Option String
first_failure [] = none
first_failure ((passed, reason) ∷ checks) = if passed then first_failure checks else some reason

abbrev pub session_checks :
    Option BattleSession → JobEnvelope → ResultEnvelope → Option ℕ → List (Bool × String)
session_checks none job result turn_number = (false, "NO_ACTIVE_MATCH") ∷ []
session_checks (some session) job result turn_number =
    (result.session_id == session.session_id, "SESSION_MISMATCH")
    ∷ (result.match_id == session.match_id, "MATCH_MISMATCH")
    ∷ (result.generation == session.generation, "GENERATION_MISMATCH")
    ∷ (result.turn_number == job.turn_number && result.turn_number == turn_number, "TURN_MISMATCH")
    ∷ (
      result.base_battle_revision == session.battle_revision
          && result.base_battle_revision == job.base_battle_revision,
      "BATTLE_REVISION_MISMATCH",
    )
    ∷ (
      result.expected_state == session.state && result.expected_state == job.expected_state,
      "EXPECTED_STATE_MISMATCH",
    )
    ∷ []

abbrev pub is_current : Option JobEnvelope → JobEnvelope → Bool
is_current none job = false
is_current (some latest) job = latest.job_id == job.job_id

abbrev pub same_snapshot : Option String → String → Bool
same_snapshot current id = some id == current

-- `_binding_failure_reason`; without a session the check NO_ACTIVE_MATCH fails, and none after it is
-- reached.
unfoldable pub binding_failure_reason :
    Option BattleSession
    → Option JobEnvelope
    → JobEnvelope
    → ResultEnvelope
    → Option String
    → Option ℕ
    → Option String
binding_failure_reason session latest job result snapshot_id turn_number = first_failure (
    (is_current latest job, "JOB_ID_NOT_CURRENT")
    ∷ (is_unfinished job.status, "JOB_NOT_ACCEPTING_RESULTS")
    ∷ (result.contract_version == job.contract_version, "CONTRACT_VERSION_MISMATCH")
    ∷ (result.command_id == job.command_id, "COMMAND_ID_MISMATCH")
    ∷ (result.job_type == job.job_type, "JOB_TYPE_MISMATCH")
    ∷ (session_checks session job result turn_number
        ++ ((
          same_snapshot snapshot_id result.input_snapshot_id
              && result.input_snapshot_id == job.input_snapshot_id,
          "INPUT_SNAPSHOT_MISMATCH",
        )
            ∷ (result.request_payload_hash == job.request_payload_hash, "PAYLOAD_HASH_MISMATCH")
            ∷ [])))
