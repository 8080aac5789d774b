-- ===== src/Application/Effect/Results.antt =====
-- The effect of a worker's result on the sessions.
use maple_next.Application.Effect.{reaches}
use maple_next.Base.{
  String, Bool, true, false, ◌≡◌, refl, Option, none, some, List, is_some, ◌∙◌, if◌then◌else◌,
}
use maple_next.Enums.{selection_advice_ready, selection_open, ResultDisposition, job_type_eq}
use maple_next.Models.{BattleSession}
use maple_next.Envelopes.{JobEnvelope, ResultEnvelope}
use maple_next.Repository.{JobRow, Exec, ◌>>=◌, gets}
use maple_next.Repository.Sessions.{find_active}
use maple_next.Repository.Jobs.{find_job, from_row}
use maple_next.Repository.Run.{Run, Run-transaction, Run-bind}
use maple_next.Repository.Quiet.{Quiet-lift, Quiet-gets, Quiet-bind}
use maple_next.Repository.Unchanged.{
  Quiet-update_job_status, Quiet-latest_job_by_type, Quiet-has_applied_result, Quiet-audit_result,
  Quiet-append_selection_advice,
}
use maple_next.Application.Jobs.{binding_failure_reason}
use maple_next.Application.Effect.{Effect}
use maple_next.Application.Effect.Rules.{Same, HasEffect, quiet, saves, reads, load_active-Run}
use maple_next.Enums.{selection_advice}
use maple_next.Application.Effect.Accepted.{Accepts, reason-Accepts, quiet-HasEffect, LaneBinds}
use maple_next.Application.Effect.Steps.{advice_applied-Transition}
use maple_next.Application.SelectionResult.{
  Choice, finish, judge, reject, unless_applied, of_right_type, for_job, latest_of, snapshot_of,
  advice_applied, apply_selection_advice_result,
}

module _ (rows : List BattleSession) (result : ResultEnvelope) where
  finish-HasEffect :
      (job : JobEnvelope) (old : BattleSession) (choice : Option Choice)
      → find_active rows ≡ some old
      → old.state ≡ selection_open
      → is_some old.current_reviewed_selection_id ≡ true
      → HasEffect rows (reaches selection_advice_ready) false (finish result job old choice)
  unfolding finish
  finish-HasEffect job old none act st r =
      quiet rows _ _ (Quiet-audit_result result _ _)
        λ _. quiet-HasEffect rows _ (Quiet-bind _ _ (Quiet-update_job_status _ _) λ _. Quiet-lift _)
  finish-HasEffect job old (some choice) act st r =
      quiet rows _ _ (Quiet-append_selection_advice _) λ _.
        saves rows _ old (advice_applied old result.result_id) act
          (advice_applied-Transition old result.result_id st r)
          (Quiet-bind _ _ (Quiet-update_job_status _ _)
            λ _. Quiet-bind _ _ (Quiet-audit_result result _ _) λ _. Quiet-lift _)

  reject-HasEffect :
      (disposition : ResultDisposition) (reason : String)
      → HasEffect rows (reaches selection_advice_ready) false (reject result disposition reason)
  reject-HasEffect disposition reason =
      quiet-HasEffect rows _ (Quiet-bind _ _ (Quiet-audit_result result _ _) λ _. Quiet-lift _)

  module _ (job : JobEnvelope) (expects : job.expected_state ≡ selection_open) where
    judge-HasEffect :
        (old : BattleSession) (reason : Option String)
        → find_active rows ≡ some old
        → (reason ≡ none → Accepts old job old.current_reviewed_selection_id)
        → HasEffect rows (reaches selection_advice_ready) false (judge result job (some old) reason)
    judge-HasEffect old (some reason) act k = reject-HasEffect _ reason
    judge-HasEffect old none act k =
        quiet rows _ _ (Quiet-gets _)
          λ facts. finish-HasEffect job old _ act ((k refl).state ∙ expects) (k refl).snapshot

    judge_absent-HasEffect :
        (reason : Option String)
        → HasEffect rows (reaches selection_advice_ready) false (judge result job none reason)
    judge_absent-HasEffect (some reason) = reject-HasEffect _ reason
    judge_absent-HasEffect none = reject-HasEffect _ _

    judged-HasEffect :
        (session : Option BattleSession)
        → find_active rows ≡ session
        → HasEffect rows (reaches selection_advice_ready) false (
            latest_of session >>= λ latest.
            judge result job session
              (binding_failure_reason session latest job result (snapshot_of session) none))
    judged-HasEffect none act = quiet rows _ _ (Quiet-lift _) λ latest. judge_absent-HasEffect _
    judged-HasEffect (some old) act =
        quiet rows _ _ (Quiet-latest_job_by_type _ _)
          λ latest. judge-HasEffect old _ act (reason-Accepts old job result _ none latest)

    unless_applied-HasEffect :
        (already : Bool)
        → HasEffect rows (reaches selection_advice_ready) false (unless_applied result job already)
    unless_applied-HasEffect true = reject-HasEffect _ _
    unless_applied-HasEffect false =
        reads rows _ _ (λ a. find_active rows ≡ a) (load_active-Run rows)
          λ session act. judged-HasEffect session act

    of_right_type-HasEffect :
        HasEffect rows (reaches selection_advice_ready) false (of_right_type result job)
    of_right_type-HasEffect =
        quiet rows _ _ (Quiet-has_applied_result _) λ already. unless_applied-HasEffect already

  if-HasEffect :
      (b : Bool) (m n : Exec ResultDisposition)
      → (b ≡ true → HasEffect rows (reaches selection_advice_ready) false m)
      → HasEffect rows (reaches selection_advice_ready) false n
      → HasEffect rows (reaches selection_advice_ready) false (if b then m else n)
  if-HasEffect true m n km kn = km refl
  if-HasEffect false m n km kn = kn

  for_job-HasEffect :
      (found : Option JobRow)
      → LaneBinds selection_advice selection_open found
      → HasEffect rows (reaches selection_advice_ready) false (for_job result found)
  for_job-HasEffect none h = reject-HasEffect _ _
  for_job-HasEffect (some row) h =
      if-HasEffect _ _ _ (λ e. of_right_type-HasEffect (from_row row) (h e)) (reject-HasEffect _ _)

  jobs-Run :
      Run
        (λ s.
          Same rows s × LaneBinds selection_advice selection_open (find_job result.job_id s.jobs))
        (gets (λ s. s.jobs))
        (λ jobs s.
          Same rows s × LaneBinds selection_advice selection_open (find_job result.job_id jobs))
  unfolding gets
  jobs-Run = record { at = λ s h. h }

  pub apply_selection_advice_result-HasEffect :
      Run
        (λ s.
          Same rows s × LaneBinds selection_advice selection_open (find_job result.job_id s.jobs))
        (apply_selection_advice_result result)
        (λ _ s. Effect (reaches selection_advice_ready) false rows s.sessions)
  unfolding apply_selection_advice_result
  apply_selection_advice_result-HasEffect = Run-transaction _ (
      Run-bind _ _ jobs-Run λ jobs. record {
        at = λ s h. (for_job-HasEffect (find_job result.job_id jobs) h.1).at s h.0;
      })
