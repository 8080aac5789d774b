-- ===== src/Application/Effect/TurnResults.antt =====
-- The effect of a result of the Turn lane on the sessions.
use maple_next.TeamBuild.{TeamBuild}
use maple_next.Application.Effect.{edits}
use maple_next.Base.{
  String, Bool, true, false, ◌≡◌, refl, Option, none, some, List, ◌∙◌, if◌then◌else◌,
}
use maple_next.Enums.{turn_reviewed, ResultDisposition, job_type_eq}
use maple_next.Models.{BattleSession, TurnFactsSnapshot, TurnAdviceSnapshot}
use maple_next.Envelopes.{JobEnvelope, ResultEnvelope}
use maple_next.Repository.{JobRow, Exec, ◌>>=◌, gets}
use maple_next.Repository.Sessions.{find_active}
use maple_next.Repository.Jobs.{find_job, from_row}
use maple_next.Repository.Run.{Run, Run-transaction, Run-bind}
use maple_next.Repository.Quiet.{Quiet, Quiet-lift, Quiet-gets, Quiet-bind}
use maple_next.Repository.Unchanged.{
  Quiet-update_job_status, Quiet-latest_job_by_type, Quiet-has_applied_result, Quiet-audit_result,
  Quiet-append_turn_advice, Quiet-get_turn,
}
use maple_next.Application.Jobs.{binding_failure_reason}
use maple_next.Application.Effect.{Effect}
use maple_next.Application.Effect.Rules.{Same, HasEffect, quiet, saves, reads, load_active-Run}
use maple_next.Enums.{turn_advice}
use maple_next.Application.Effect.Accepted.{Accepts, reason-Accepts, quiet-HasEffect, LaneBinds}
use maple_next.Application.Effect.Steps.{advice_received-Transition}
use maple_next.Application.TurnAdvice.{
  AdviceBody, finish, judge, accept, reject, unless_applied, of_right_type, for_job, latest_of,
  turn_number_of, number_for, board_of, advice_received, apply_turn_advice_result,
}

module _ (rows : List BattleSession) (result : ResultEnvelope) where
  finish-HasEffect :
      (job : JobEnvelope) (old : BattleSession) (advice : Option TurnAdviceSnapshot)
      → find_active rows ≡ some old
      → old.state ≡ turn_reviewed
      → HasEffect rows edits false (finish result job old advice)
  unfolding finish
  finish-HasEffect job old none act st =
      quiet rows _ _ (Quiet-audit_result result _ _)
        λ _. quiet-HasEffect rows _ (Quiet-bind _ _ (Quiet-update_job_status _ _) λ _. Quiet-lift _)
  finish-HasEffect job old (some advice) act st =
      quiet rows _ _ (Quiet-append_turn_advice _ advice) λ _.
        saves rows _ old (advice_received old advice.turn_advice_id) act
          (advice_received-Transition old advice.turn_advice_id st)
          (Quiet-bind _ _ (Quiet-update_job_status _ _)
            λ _. Quiet-bind _ _ (Quiet-audit_result result _ _) λ _. Quiet-lift _)

  reject-HasEffect :
      (disposition : ResultDisposition) (reason : String)
      → HasEffect rows edits false (reject result disposition reason)
  reject-HasEffect disposition reason =
      quiet-HasEffect rows _ (Quiet-bind _ _ (Quiet-audit_result result _ _) λ _. Quiet-lift _)

  number-Quiet : (turn : Option String) → Quiet (number_for turn)
  number-Quiet none = Quiet-lift _
  number-Quiet (some turn_id) = Quiet-bind _ _ (Quiet-get_turn turn_id) λ turn. Quiet-lift _

  module _
      (read_body : ResultEnvelope
        → JobEnvelope
        → TurnFactsSnapshot
        → List String
        → Option TeamBuild
        → Option AdviceBody)
      (job : JobEnvelope) where
    accept-HasEffect :
        (old : BattleSession) (turn : Option String)
        → find_active rows ≡ some old
        → old.state ≡ turn_reviewed
        → HasEffect rows edits false (accept read_body result job old turn)
    accept-HasEffect old none act st = quiet-HasEffect rows _ (Quiet-lift _)
    accept-HasEffect old (some turn_id) act st = quiet rows _ _ (Quiet-gets _) λ selection.
        quiet rows _ _ (Quiet-gets _)
          λ facts. quiet rows _ _ (Quiet-gets _) λ build. finish-HasEffect job old _ act st

    judge_absent-HasEffect :
        (reason : Option String)
        → HasEffect rows edits false (judge read_body result job none reason)
    judge_absent-HasEffect (some reason) = reject-HasEffect _ reason
    judge_absent-HasEffect none = reject-HasEffect _ _

    module _ (expects : job.expected_state ≡ turn_reviewed) where
      judge-HasEffect :
          (old : BattleSession) (reason : Option String)
          → find_active rows ≡ some old
          → (reason ≡ none → Accepts old job old.current_reviewed_board_id)
          → HasEffect rows edits false (judge read_body result job (some old) reason)
      judge-HasEffect old (some reason) act k = reject-HasEffect _ reason
      judge-HasEffect old none act k =
          accept-HasEffect old old.current_turn_id act ((k refl).state ∙ expects)

      judged-HasEffect :
          (session : Option BattleSession)
          → find_active rows ≡ session
          → HasEffect rows edits false (
              latest_of session >>= λ latest. turn_number_of session >>= λ number.
              judge read_body result job session
                (binding_failure_reason session latest job result (board_of session) number))
      judged-HasEffect none act =
          quiet rows _ _ (Quiet-lift _)
            λ latest. quiet rows _ _ (Quiet-lift _) λ number. judge_absent-HasEffect _
      judged-HasEffect (some old) act = quiet rows _ _ (Quiet-latest_job_by_type _ _) λ latest.
          quiet rows _ _ (number-Quiet old.current_turn_id)
            λ number. judge-HasEffect old _ act (reason-Accepts old job result _ number latest)

      unless_applied-HasEffect :
          (already : Bool)
          → HasEffect rows edits false (unless_applied read_body result job already)
      unless_applied-HasEffect true = reject-HasEffect _ _
      unless_applied-HasEffect false =
          reads rows _ _ (λ a. find_active rows ≡ a) (load_active-Run rows)
            λ session act. judged-HasEffect session act

      of_right_type-HasEffect : HasEffect rows edits false (of_right_type read_body result job)
      of_right_type-HasEffect =
          quiet rows _ _ (Quiet-has_applied_result _) λ already. unless_applied-HasEffect already

  if-HasEffect :
      (b : Bool) (m n : Exec ResultDisposition)
      → (b ≡ true → HasEffect rows edits false m)
      → HasEffect rows edits false n
      → HasEffect rows edits false (if b then m else n)
  if-HasEffect true m n km kn = km refl
  if-HasEffect false m n km kn = kn

  for_job-HasEffect :
      (read_body : ResultEnvelope
        → JobEnvelope
        → TurnFactsSnapshot
        → List String
        → Option TeamBuild
        → Option AdviceBody)
      (found : Option JobRow)
      → LaneBinds turn_advice turn_reviewed found
      → HasEffect rows edits false (for_job read_body result found)
  for_job-HasEffect read_body none h = reject-HasEffect _ _
  for_job-HasEffect read_body (some row) h =
      if-HasEffect _ _ _ (λ e. of_right_type-HasEffect read_body (from_row row) (h e))
        (reject-HasEffect _ _)

  jobs-Run :
      Run
        (λ s. Same rows s × LaneBinds turn_advice turn_reviewed (find_job result.job_id s.jobs))
        (gets (λ s. s.jobs))
        (λ jobs s. Same rows s × LaneBinds turn_advice turn_reviewed (find_job result.job_id jobs))
  unfolding gets
  jobs-Run = record { at = λ s h. h }

  pub apply_turn_advice_result-HasEffect :
      (read_body : ResultEnvelope
        → JobEnvelope
        → TurnFactsSnapshot
        → List String
        → Option TeamBuild
        → Option AdviceBody)
      → Run
          (λ s. Same rows s × LaneBinds turn_advice turn_reviewed (find_job result.job_id s.jobs))
          (apply_turn_advice_result read_body result)
          (λ _ s. Effect edits false rows s.sessions)
  unfolding apply_turn_advice_result
  apply_turn_advice_result-HasEffect read_body = Run-transaction _ (
      Run-bind _ _ jobs-Run λ jobs. record {
        at = λ s h. (for_job-HasEffect read_body (find_job result.job_id jobs) h.1).at s h.0;
      })
