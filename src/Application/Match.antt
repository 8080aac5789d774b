-- ===== src/Application/Match.antt =====
-- The life of a match: `new_match`, `abort_match`, `update_metadata` and `recover_after_restart` of
-- src/maple_next/application/service.py, `end_match` and `new_match_after_export` of match_service.py.
-- The pins that a new match takes from the rules and the population data are arguments.
use maple_next.Base.{
  ℕ, ◌+◌, String, Bool, not, ◌||◌, ◌&&◌, Option, none, some, domain_error, ◌==◌, ◌!=◌, is_some,
  is_none, string_eq,
}
use maple_next.Enums.{
  BattleState, selection_open, battle_ready, turn_recorded, match_ended, match_exported, aborted,
  MatchOutcome, state_eq,
}
use maple_next.Models.{
  BattleSession, bump_battle, bump_metadata, MatchOutcomeRecord, make_match_outcome,
}
use maple_next.Repository.{Exec, ◌>>=◌, ◌>>◌, guard, lift, pure, transaction}
use maple_next.Repository.Sessions.{
  load_active_session, next_generation, insert_session, save_session,
}
use maple_next.Repository.Jobs.{recover_unfinished_jobs}
use maple_next.Repository.Rows.{get_match_outcome, append_match_outcome, get_match_export}
use maple_next.Application.Session.{require_active_session, require_session}

-- The columns that `new_match` pins for the life of the match.
pub record Pins : Type 0 where
  pub rules_ruleset_id : Option String
  pub rules_ruleset_version : Option String
  pub rules_snapshot_id : Option String
  pub rules_facts_sha256 : Option String
  pub opponent_intel_pin_status : Option String
  pub opponent_intel_generation_id : Option String
  pub opponent_intel_snapshot_sha256 : Option String

-- The session that both ways to open a match construct.
unfoldable pub opened : String → String → ℕ → Pins → BattleSession
opened session_id match_id generation pins = record {
  session_id = session_id;
  match_id = match_id;
  generation = generation;
  state = selection_open;
  battle_revision = 1;
  metadata_revision = 0;
  current_reviewed_selection_id = none;
  current_selection_advice_id = none;
  current_applied_selection_id = none;
  current_turn_id = none;
  current_observation_id = none;
  current_reviewed_board_id = none;
  current_turn_advice_id = none;
  active_slot = some 1;
  rules_ruleset_id = pins.rules_ruleset_id;
  rules_ruleset_version = pins.rules_ruleset_version;
  rules_snapshot_id = pins.rules_snapshot_id;
  rules_facts_sha256 = pins.rules_facts_sha256;
  opponent_intel_pin_status = pins.opponent_intel_pin_status;
  opponent_intel_generation_id = pins.opponent_intel_generation_id;
  opponent_intel_snapshot_sha256 = pins.opponent_intel_snapshot_sha256;
}

unfoldable pub new_match : String → String → Pins → Exec BattleSession
new_match session_id match_id pins = transaction do
  active ← load_active_session
  guard (is_some active) (domain_error "ACTIVE_MATCH_EXISTS")
  generation ← next_generation
  let session = opened session_id match_id generation pins
  insert_session session
  pure session

abbrev pub is_over : BattleState → Bool
is_over state = state == match_ended || state == match_exported || state == aborted

unfoldable pub closed_as : BattleState → BattleSession → BattleSession
unfolding bump_battle
closed_as state session = bump_battle (record session { state = state; active_slot = none })

unfoldable pub abort_match : Bool → Exec BattleSession
abort_match human_confirmed = do
  guard (not human_confirmed) (domain_error "HUMAN_MATCH_ABORT_CONFIRMATION_REQUIRED")
  transaction do
    session ← require_active_session
    guard (is_over session.state) (domain_error "MATCH_ABORT_NOT_ALLOWED_IN_CURRENT_STATE")
    let closed = closed_as aborted session
    save_session closed
    pure closed

unfoldable pub update_metadata : Exec BattleSession
update_metadata = transaction do
  session ← require_active_session
  let bumped = bump_metadata session
  save_session bumped
  pure bumped

unfoldable pub recover_after_restart : Exec Unit
recover_after_restart = transaction recover_unfinished_jobs

unfoldable pub ended : BattleSession → BattleSession
unfolding bump_battle
ended session = bump_battle (record session { state = match_ended })

abbrev outcome_of : BattleSession → MatchOutcome → String → MatchOutcomeRecord
outcome_of session outcome ended_at_utc = record {
  session_id = session.session_id;
  match_id = session.match_id;
  generation = session.generation;
  outcome = outcome;
  ended_at_utc = ended_at_utc;
  final_battle_revision = session.battle_revision + 1;
}

unfoldable pub end_match : MatchOutcome → Bool → String → Exec MatchOutcomeRecord
end_match outcome human_confirmed now = do
  guard (not human_confirmed) (domain_error "HUMAN_MATCH_OUTCOME_CONFIRMATION_REQUIRED")
  transaction do
    session ← require_active_session
    existing ← get_match_outcome session.session_id
    guard (is_some existing) (domain_error "MATCH_OUTCOME_ALREADY_SET")
    guard (session.state != battle_ready && session.state != turn_recorded)
        (domain_error "MATCH_END_NOT_ALLOWED_IN_CURRENT_STATE")
    made ← lift (make_match_outcome (outcome_of session outcome now))
    append_match_outcome made
    save_session (ended session)
    pure made

unfoldable pub released : BattleSession → BattleSession
released session = record session { active_slot = none }

unfoldable pub new_match_after_export : String → String → Pins → Exec BattleSession
new_match_after_export session_id match_id pins = transaction do
  previous ← require_session match_exported
  exported ← get_match_export previous.session_id
  guard (is_none exported) (domain_error "MATCH_EXPORT_RECORD_MISSING")
  save_session (released previous)
  generation ← next_generation
  let session = opened session_id match_id generation pins
  insert_session session
  pure session
