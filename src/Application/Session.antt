-- ===== src/Application/Session.antt =====
-- src/maple_next/application/service.py: what the commands share.
use maple_next.Base.{
  String, Bool, ◌&&◌, Option, none, some, domain_error, ◌==◌, ◌!=◌, ok, err, Result, raise_if,
}
use Prim.Native.String.{◌++◌}
use maple_next.Enums.{
  BattleState, selection_open, selection_advice_ready, battle_ready, turn_capture_pending,
  turn_review_required, turn_reviewed, turn_recorded, match_ended, match_exported, aborted,
  turn_capture_pending, JobStatus, delivery_unknown, state_eq, job_status_eq,
}
use maple_next.Models.{BattleSession, BattleTurn, bump_battle}
use maple_next.Envelopes.{JobEnvelope}
use maple_next.Repository.{Exec, ◌>>=◌, ◌>>◌, guard, pure, required}
use maple_next.Repository.Sessions.{load_active_session}
use maple_next.Repository.Jobs.{is_unfinished}

-- The text of a state, as the enumeration spells it.
unfoldable pub state_value : BattleState → String
state_value selection_open = "SELECTION_OPEN"
state_value selection_advice_ready = "SELECTION_ADVICE_READY"
state_value battle_ready = "BATTLE_READY"
state_value turn_capture_pending = "TURN_CAPTURE_PENDING"
state_value turn_review_required = "TURN_REVIEW_REQUIRED"
state_value turn_reviewed = "TURN_REVIEWED"
state_value turn_recorded = "TURN_RECORDED"
state_value match_ended = "MATCH_ENDED"
state_value match_exported = "MATCH_EXPORTED"
state_value aborted = "ABORTED"

unfoldable pub require_active_session : Exec BattleSession
require_active_session = do
  found ← load_active_session
  required (domain_error "NO_ACTIVE_MATCH") found

unfoldable pub require_session : BattleState → Exec BattleSession
require_session expected_state = do
  session ← require_active_session
  guard (session.state != expected_state) (domain_error ("EXPECTED_" ++ state_value expected_state))
  pure session

-- `_guard_provider_request`
abbrev guard_status : JobStatus → Result (Unit {0})
guard_status status =
    raise_if (status == delivery_unknown) (domain_error "PROVIDER_DELIVERY_UNKNOWN")

unfoldable pub guard_provider_request : Option JobEnvelope → Result (Unit {0})
guard_provider_request none = ok tt
guard_provider_request (some job) =
    maple_next.Base.◌>>◌
      (raise_if (is_unfinished job.status) (domain_error "PROVIDER_REQUEST_PENDING"))
      (guard_status job.status)

-- `_set_pending_turn`
unfoldable pub set_pending_turn : BattleSession → BattleTurn → BattleSession
unfolding bump_battle
set_pending_turn session turn = bump_battle (record session {
  current_turn_id = some turn.turn_id;
  current_observation_id = none;
  current_reviewed_board_id = none;
  current_turn_advice_id = none;
  state = turn_capture_pending;
})
