-- ===== src/Application/Effect/Accepted.antt =====
-- What a result that passes `_binding_failure_reason` says of the active session.
use maple_next.Base.{
  false, ℕ, String, true, ◌≡◌, refl, Option, none, some, List, is_some, arith, sym, ◌∙◌, ◌==◌,
}
use maple_next.Enums.{BattleState, JobType, job_type_eq}
use maple_next.Models.{BattleSession}
use maple_next.Envelopes.{JobEnvelope, ResultEnvelope}
use maple_next.Repository.{JobRow, Exec}
use maple_next.Repository.Quiet.{Quiet, Run-Quiet}
use maple_next.Application.Jobs.{binding_failure_reason, first_failure}
use maple_next.Application.Binding.{accepted-Binds}
use maple_next.Application.Effect.{Purpose, Effect, kept}
use maple_next.Application.Effect.Rules.{HasEffect}

-- The state is the one that the job expects, and the snapshot is there.
pub record Accepts (old : BattleSession) (job : JobEnvelope) (snapshot_id : Option String)
    : Type 0 where
  pub state : old.state ≡ job.expected_state
  pub snapshot : is_some snapshot_id ≡ true

module _ (old : BattleSession) (job : JobEnvelope) (result : ResultEnvelope)
    (snapshot_id : Option String) (turn_number : Option ℕ) where
  pub reason-Accepts :
      (latest : Option JobEnvelope)
      → binding_failure_reason (some old) latest job result snapshot_id turn_number ≡ none
      → Accepts old job snapshot_id
  unfolding binding_failure_reason first_failure
  reason-Accepts none h = ground arith
  reason-Accepts (some latest) h =
      let b = accepted-Binds old latest job result snapshot_id turn_number h in
      record { state = sym b.state ∙ b.state_of_job; snapshot = rw b.snapshot refl }

module _ (rows : List BattleSession) where
  -- A command that leaves the sessions alone has the empty effect.
  pub quiet-HasEffect : {A : Type 0} {p : Purpose} (m : Exec A) → Quiet m → HasEffect rows p false m
  quiet-HasEffect {A} {p} m q = record {
    at = λ s h. (Run-Quiet (λ ss. Effect p false rows ss) m q).at s (kept refl h);
  }

-- A job of the lane binds the state of the lane.
abbrev pub LaneBinds : JobType → BattleState → Option JobRow → Type 0
LaneBinds lane state none = Unit
LaneBinds lane state (some row) = (row.job.job_type == lane) ≡ true → row.job.expected_state ≡ state
