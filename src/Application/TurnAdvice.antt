-- ===== src/Application/TurnAdvice.antt =====
-- `request_turn_advice` and `apply_turn_advice_result` of src/maple_next/application/service.py. The
-- canonical request with its digest, and the parser and validator of a payload
-- (src/maple_next/providers/turn_*.py), are the parameters `request_hash` and `read_body`.
use maple_next.TeamBuild.{TeamBuild}
use maple_next.Models.{SelectionFacts}
use maple_next.Base.{
  ℕ, String, Bool, true, false, not, ◌&&◌, Option, none, some, List, [], ◌∷◌, Result, ok, err,
  domain_error, ◌==◌, ◌!=◌, nat_eq, string_eq, is_none, is_some, strip, if◌then◌else◌, find_first,
}
use maple_next.Enums.{
  ActionType, turn_reviewed, turn_advice, queued, failed, succeeded, ResultDisposition, applied,
  stale_rejected, invalid_rejected, duplicate_ignored, job_type_eq,
}
use maple_next.Models.{
  BattleSession, bump_battle, BattleTurn, TurnFactsSnapshot, TurnAdviceSnapshot, make_turn_advice,
  AppliedSelectionSnapshot,
}
use maple_next.Envelopes.{JobEnvelope, ResultEnvelope}
use maple_next.Dispatch.{trusted_human_activation, decide_turn_advice_dispatch}
use maple_next.Repository.{
  Repository, JobRow, AttemptRow, Owned, Exec, ◌>>=◌, ◌>>◌, guard, lift, pure, gets, required,
  transaction,
}
use maple_next.Repository.Sessions.{load_active_session, save_session}
use maple_next.Repository.Jobs.{
  insert_job, find_job, from_row, latest_job_by_type, update_job_status, is_unfinished,
  has_applied_result, audit_result,
}
use maple_next.Repository.Rows.{
  get_selection_facts, find_facts, get_turn, get_turn_facts, get_applied_selection,
  append_turn_advice, find_turn_facts, find_applied,
}
use maple_next.Repository.Attempts.{turn_advice_attempt_reserved, reserve_turn_advice_attempt}
use maple_next.Application.Session.{require_session, guard_provider_request}
use maple_next.Application.Jobs.{binding_failure_reason}

abbrev is_pending : Option JobEnvelope → Bool
is_pending none = false
is_pending (some job) = is_unfinished job.status

abbrev attempt_for : BattleSession → BattleTurn → TurnFactsSnapshot → String → String → AttemptRow
attempt_for session turn facts hash job_id = record {
  session_id = session.session_id;
  match_id = session.match_id;
  generation = session.generation;
  turn_number = turn.turn_number;
  battle_revision = session.battle_revision;
  reviewed_snapshot_id = facts.turn_facts_id;
  request_payload_hash = hash;
  job_id = job_id;
}

abbrev pub job_for :
    BattleSession → BattleTurn → TurnFactsSnapshot → String → String → String → String → JobEnvelope
job_for session turn facts job_id command_id hash now = record {
  contract_version = "maple-worker.v1";
  job_id = job_id;
  command_id = command_id;
  job_type = turn_advice;
  session_id = session.session_id;
  match_id = session.match_id;
  generation = session.generation;
  turn_number = some turn.turn_number;
  base_battle_revision = session.battle_revision;
  expected_state = turn_reviewed;
  input_snapshot_id = facts.turn_facts_id;
  request_payload_hash = hash;
  human_authorized_at = now;
  status = queued;
}

-- What a valid body says.
pub record AdviceBody : Type 0 where
  pub action_type : ActionType
  pub action_name : String
  pub opponent_prediction : String
  pub rationale : String
  pub warnings : List String

-- The build of the reviewed team, which `_build_turn_advice_request` reads.
abbrev pub reviewed_build : Option String → Exec (Option TeamBuild)
reviewed_build none = pure none
reviewed_build (some id) = do facts ← get_selection_facts id; pure facts.self_team_build

module _
    (request_hash : BattleSession
      → TurnFactsSnapshot
      → List String
      → Option TeamBuild
      → Result String) where
  unfoldable pub request_turn_advice : String → String → String → Exec JobEnvelope
  request_turn_advice job_id command_id now = transaction do
    session ← require_session turn_reviewed
    turn_id ← required (domain_error "CURRENT_TURN_REQUIRED") session.current_turn_id
    board_id ←
        required (domain_error "REVIEWED_TURN_FACTS_REQUIRED") session.current_reviewed_board_id
    applied_id ←
        required (domain_error "APPLIED_SELECTION_REQUIRED") session.current_applied_selection_id
    guard (is_some session.current_turn_advice_id) (domain_error "CURRENT_TURN_ADVICE_EXISTS")
    turn ← get_turn turn_id
    facts ← get_turn_facts board_id
    selection ← get_applied_selection applied_id
    latest_job ← latest_job_by_type session.session_id turn_advice
    lift (guard_provider_request latest_job)
    build ← reviewed_build session.current_reviewed_selection_id
    hash ← lift (request_hash session facts selection.selected_three build)
    let attempt = attempt_for session turn facts hash job_id
    consumed ← turn_advice_attempt_reserved attempt
    let decision =
        decide_turn_advice_dispatch trusted_human_activation true (is_pending latest_job) consumed
    guard (not decision.allowed) (domain_error decision.reason_code)
    reserved ← reserve_turn_advice_attempt attempt
    guard (not reserved) (domain_error "TURN_ADVICE_ATTEMPT_CONSUMED")
    let job = job_for session turn facts job_id command_id hash now
    insert_job job
    pure job

unfoldable pub advice_received : BattleSession → String → BattleSession
unfolding bump_battle
advice_received session advice_id =
    bump_battle (record session { current_turn_advice_id = some advice_id })

abbrev pub reject : ResultEnvelope → ResultDisposition → String → Exec ResultDisposition
reject result disposition reason = do audit_result result disposition reason; pure disposition

abbrev to_option : {A : Type 0} → Result A → Option A
to_option (ok a) = some a
to_option (err e) = none

abbrev snapshot_with :
    ResultEnvelope
    → JobEnvelope
    → String
    → TurnFactsSnapshot
    → Option AdviceBody
    → Option TurnAdviceSnapshot
snapshot_with result job turn_id facts none = none
snapshot_with result job turn_id facts (some body) = to_option (
    make_turn_advice (record {
      turn_advice_id = result.result_id;
      turn_id = turn_id;
      turn_number = facts.turn_number;
      job_id = job.job_id;
      input_snapshot_id = facts.turn_facts_id;
      action_type = body.action_type;
      action_name = body.action_name;
      opponent_prediction = body.opponent_prediction;
      rationale = body.rationale;
      is_mock = strip result.source_type != "GEMINI";
      source_type = strip result.source_type;
      model = strip result.model;
      warnings = body.warnings;
      response_schema_version = "maple-turn-advice-response.v1";
      advice_json = none;
    }))

unfoldable pub finish :
    ResultEnvelope
    → JobEnvelope
    → BattleSession
    → Option TurnAdviceSnapshot
    → Exec ResultDisposition
finish result job session none = do
  audit_result result invalid_rejected "INVALID_PAYLOAD"
  update_job_status job.job_id failed
  pure invalid_rejected
finish result job session (some advice) = do
  append_turn_advice session.session_id advice
  save_session (advice_received session advice.turn_advice_id)
  update_job_status job.job_id succeeded
  audit_result result applied "BINDING_ACCEPTED"
  pure applied

abbrev pub latest_of : Option BattleSession → Exec (Option JobEnvelope)
latest_of none = pure none
latest_of (some session) = latest_job_by_type session.session_id turn_advice

-- The number of the current Turn; a Turn id with no row raises.
abbrev pub number_for : Option String → Exec (Option ℕ)
number_for none = pure none
number_for (some turn_id) = do turn ← get_turn turn_id; pure (some turn.turn_number)

abbrev pub turn_number_of : Option BattleSession → Exec (Option ℕ)
turn_number_of none = pure none
turn_number_of (some session) = number_for session.current_turn_id

abbrev pub board_of : Option BattleSession → Option String
board_of none = none
board_of (some session) = session.current_reviewed_board_id

module _
    (read_body : ResultEnvelope
      → JobEnvelope
      → TurnFactsSnapshot
      → List String
      → Option TeamBuild
      → Option AdviceBody) where
  abbrev read_advice :
      ResultEnvelope
      → JobEnvelope
      → String
      → Option (Owned AppliedSelectionSnapshot)
      → Option (Owned TurnFactsSnapshot)
      → Option (Option TeamBuild)
      → Option TurnAdviceSnapshot
  read_advice result job turn_id (some selection) (some facts) (some build) =
      snapshot_with result job turn_id facts.row
        (read_body result job facts.row selection.row.selected_three build)
  read_advice result job turn_id _ _ _ = none

  abbrev selection_for : Option String → Repository → Option (Owned AppliedSelectionSnapshot)
  selection_for none s = none
  selection_for (some id) s = find_applied id s.applied_selections

  abbrev build_of : Option (Owned SelectionFacts) → Option (Option TeamBuild)
  build_of none = none
  build_of (some facts) = some facts.row.self_team_build

  -- No build where no facts are reviewed; `none` is a missing row, whose KeyError refuses the payload.
  abbrev build_for : Option String → Repository → Option (Option TeamBuild)
  build_for none s = some none
  build_for (some id) s = build_of (find_facts id s.selection_facts)

  -- `assert session.current_turn_id is not None`, then the payload
  abbrev pub accept :
      ResultEnvelope → JobEnvelope → BattleSession → Option String → Exec ResultDisposition
  accept result job session none = lift (err maple_next.Base.assertion_error)
  accept result job session (some turn_id) = do
    selection ← gets (selection_for session.current_applied_selection_id)
    facts ← gets (λ s. find_turn_facts job.input_snapshot_id s.turn_facts)
    build ← gets (build_for session.current_reviewed_selection_id)
    finish result job session (read_advice result job turn_id selection facts build)

  abbrev pub judge :
      ResultEnvelope → JobEnvelope → Option BattleSession → Option String → Exec ResultDisposition
  judge result job session (some reason) = reject result stale_rejected reason
  judge result job none none = reject result stale_rejected "NO_ACTIVE_MATCH"
  judge result job (some session) none = accept result job session session.current_turn_id

  abbrev pub unless_applied : ResultEnvelope → JobEnvelope → Bool → Exec ResultDisposition
  unless_applied result job true = reject result duplicate_ignored "RESULT_ALREADY_APPLIED"
  unless_applied result job false = do
    session ← load_active_session
    latest ← latest_of session
    number ← turn_number_of session
    judge result job session
        (binding_failure_reason session latest job result (board_of session) number)

  abbrev pub of_right_type : ResultEnvelope → JobEnvelope → Exec ResultDisposition
  of_right_type result job = do
    already ← has_applied_result job.job_id
    unless_applied result job already

  abbrev pub for_job : ResultEnvelope → Option JobRow → Exec ResultDisposition
  for_job result none = reject result stale_rejected "JOB_ID_MISMATCH"
  for_job result (some row) =
      if row.job.job_type == turn_advice
      then of_right_type result (from_row row)
      else reject result stale_rejected "JOB_TYPE_NOT_TURN_ADVICE"

  unfoldable pub apply_turn_advice_result : ResultEnvelope → Exec ResultDisposition
  apply_turn_advice_result result =
      transaction do rows ← gets (λ s. s.jobs); for_job result (find_job result.job_id rows)
