-- ===== src/Application/Lanes/Advice.antt =====
-- The commands on advice jobs and on the results of workers.
use maple_next.TeamBuild.{TeamBuild}
use maple_next.Base.{
  ℕ, String, Bool, true, false, Option, none, some, List, Result, ok, err, arith, if◌then◌else◌,
}
use maple_next.Enums.{JobType, JobStatus, JobType-discrete}
use maple_next.Models.{BattleSession, BattleTurn, TurnFactsSnapshot, TurnAdviceSnapshot}
use maple_next.Envelopes.{JobEnvelope, ResultEnvelope}
use maple_next.Repository.{JobRow}
use maple_next.Repository.Keeps.{Keeps}
use maple_next.Repository.Lanes.{Bound, BindsLane, insert_job-Bound}
use maple_next.Application.Jobs.{mark_advice_dispatched, fail_advice_job, fail_if_unfinished}
use maple_next.Application.TurnAdvice.{AdviceBody, request_turn_advice, apply_turn_advice_result}
use maple_next.Application.TurnAdvice
use maple_next.Application.SelectionResult.{Choice, apply_selection_advice_result}
use maple_next.Application.SelectionResult
use maple_next.Application.Lanes.{command_rules}

pub mark_advice_dispatched-Bound :
    (lane : JobType) (wrong_type id : String)
    → Keeps Bound (mark_advice_dispatched lane wrong_type id)
unfolding mark_advice_dispatched
mark_advice_dispatched-Bound lane wrong_type id = search command_rules depth 40

fail_if_unfinished-Bound :
    (lane : JobType) (target : JobStatus) (row : Option JobRow)
    → Keeps Bound (fail_if_unfinished lane target row)
fail_if_unfinished-Bound lane target none = search command_rules
fail_if_unfinished-Bound lane target (some row) = search command_rules

pub fail_advice_job-Bound :
    (lane : JobType) (id reason : String) → Keeps Bound (fail_advice_job lane id reason)
unfolding fail_advice_job
fail_advice_job-Bound lane id reason = search (command_rules, fail_if_unfinished-Bound) depth 40

reviewed_build-Bound : (id : Option String) → Keeps Bound (TurnAdvice.reviewed_build id)
reviewed_build-Bound none = search command_rules depth 10
reviewed_build-Bound (some id) = search command_rules depth 10

module _
    (request_hash : BattleSession
      → TurnFactsSnapshot
      → List String
      → Option TeamBuild
      → Result String) where
  job_for-BindsLane :
      (session : BattleSession) (turn : BattleTurn) (facts : TurnFactsSnapshot)
      (id command_id hash now : String)
      → BindsLane (TurnAdvice.job_for session turn facts id command_id hash now)
  unfolding JobType-discrete
  job_for-BindsLane session turn facts id command_id hash now = record {
    selection = λ e. ground arith;
    turn = λ e. maple_next.Base.refl;
  }

  pub request_turn_advice-Bound :
      (id command_id now : String)
      → Keeps Bound (request_turn_advice request_hash id command_id now)
  unfolding request_turn_advice
  request_turn_advice-Bound id command_id now =
      search (command_rules, insert_job-Bound, job_for-BindsLane, reviewed_build-Bound) depth 60

module _ (result : ResultEnvelope) where
  module _ (job : JobEnvelope) where
    selection_finish-Bound :
        (session : BattleSession) (choice : Option Choice)
        → Keeps Bound (SelectionResult.finish result job session choice)
    unfolding SelectionResult.finish
    selection_finish-Bound session none = search command_rules depth 20
    selection_finish-Bound session (some choice) = search command_rules depth 20

    selection_judge-Bound :
        (session : Option BattleSession) (reason : Option String)
        → Keeps Bound (SelectionResult.judge result job session reason)
    selection_judge-Bound session (some reason) = search command_rules depth 20
    selection_judge-Bound none none = search command_rules depth 20
    selection_judge-Bound (some session) none =
        search (command_rules, selection_finish-Bound) depth 20

    selection_latest-Bound :
        (session : Option BattleSession) → Keeps Bound (SelectionResult.latest_of session)
    selection_latest-Bound none = search command_rules
    selection_latest-Bound (some session) = search command_rules

    selection_unless-Bound :
        (already : Bool) → Keeps Bound (SelectionResult.unless_applied result job already)
    selection_unless-Bound true = search command_rules depth 20
    selection_unless-Bound false =
        search (command_rules, selection_judge-Bound, selection_latest-Bound) depth 20

  selection_job-Bound : (found : Option JobRow) → Keeps Bound (SelectionResult.for_job result found)
  selection_job-Bound none = search command_rules depth 20
  selection_job-Bound (some row) = search (command_rules, selection_unless-Bound) depth 20

  pub apply_selection_advice_result-Bound : Keeps Bound (apply_selection_advice_result result)
  unfolding apply_selection_advice_result
  apply_selection_advice_result-Bound = search (command_rules, selection_job-Bound) depth 20

  module _
      (read_body : ResultEnvelope
        → JobEnvelope
        → TurnFactsSnapshot
        → List String
        → Option TeamBuild
        → Option AdviceBody) where
    turn_finish-Bound :
        (job : JobEnvelope) (session : BattleSession) (advice : Option TurnAdviceSnapshot)
        → Keeps Bound (TurnAdvice.finish result job session advice)
    unfolding TurnAdvice.finish
    turn_finish-Bound job session none = search command_rules depth 20
    turn_finish-Bound job session (some advice) = search command_rules depth 20

    turn_accept-Bound :
        (job : JobEnvelope) (session : BattleSession) (turn : Option String)
        → Keeps Bound (TurnAdvice.accept read_body result job session turn)
    turn_accept-Bound job session none = search command_rules depth 20
    turn_accept-Bound job session (some turn) = search (command_rules, turn_finish-Bound) depth 20

    turn_judge-Bound :
        (job : JobEnvelope) (session : Option BattleSession) (reason : Option String)
        → Keeps Bound (TurnAdvice.judge read_body result job session reason)
    turn_judge-Bound job session (some reason) = search command_rules depth 20
    turn_judge-Bound job none none = search command_rules depth 20
    turn_judge-Bound job (some session) none = turn_accept-Bound job session session.current_turn_id

    turn_latest-Bound :
        (session : Option BattleSession) → Keeps Bound (TurnAdvice.latest_of session)
    turn_latest-Bound none = search command_rules
    turn_latest-Bound (some session) = search command_rules

    number_for-Bound : (turn : Option String) → Keeps Bound (TurnAdvice.number_for turn)
    number_for-Bound none = search command_rules
    number_for-Bound (some turn) = search command_rules depth 10

    turn_number-Bound :
        (session : Option BattleSession) → Keeps Bound (TurnAdvice.turn_number_of session)
    turn_number-Bound none = search command_rules
    turn_number-Bound (some session) = number_for-Bound session.current_turn_id

    turn_unless-Bound :
        (job : JobEnvelope) (already : Bool)
        → Keeps Bound (TurnAdvice.unless_applied read_body result job already)
    turn_unless-Bound job true = search command_rules depth 20
    turn_unless-Bound job false =
        search (command_rules, turn_judge-Bound, turn_latest-Bound, turn_number-Bound) depth 20

    turn_job-Bound :
        (found : Option JobRow) → Keeps Bound (TurnAdvice.for_job read_body result found)
    turn_job-Bound none = search command_rules depth 20
    turn_job-Bound (some row) = search (command_rules, turn_unless-Bound) depth 20

    pub apply_turn_advice_result-Bound : Keeps Bound (apply_turn_advice_result read_body result)
    unfolding apply_turn_advice_result
    apply_turn_advice_result-Bound = search (command_rules, turn_job-Bound) depth 20
