-- ===== src/Application/Selection.antt =====
-- The Selection commands of src/maple_next/application/service.py. `sha256` is the digest of a
-- detailed build and `payload_hash` that of a canonical request.
use maple_next.Base.{
  String, Bool, not, Option, none, some, List, length, any_of, keep, Error, domain_error, key_error,
  value_error, ◌!=◌, nat_eq, string_eq, member, all_distinct,
}
use maple_next.Enums.{
  selection_open, selection_advice_ready, battle_ready, selection_advice, queued,
}
use maple_next.TeamBuild.{TeamBuild}
use maple_next.Models.{
  BattleSession, bump_battle, SelectionFacts, make_selection_facts, AppliedSelectionSnapshot,
  make_applied_selection,
}
use maple_next.Envelopes.{JobEnvelope}
use maple_next.SelectionRequest.{SelectionAdviceRequest, build_selection_advice_request}
use maple_next.Repository.{Exec, ◌>>=◌, ◌>>◌, guard, lift, pure, required, transaction, rescue}
use maple_next.Repository.Sessions.{save_session}
use maple_next.Repository.Jobs.{insert_job, latest_job_by_type}
use maple_next.Repository.Rows.{
  append_selection_facts, get_selection_facts, append_applied_selection,
}
use maple_next.Application.Session.{require_session, guard_provider_request}

-- `except ValueError`
abbrev build_mismatch : Error → Error
build_mismatch (value_error e) = domain_error "SELF_TEAM_BUILD_MISMATCH"
build_mismatch e = e

unfoldable pub reviewed : BattleSession → String → BattleSession
unfolding bump_battle
reviewed session facts_id = bump_battle (record session {
  current_reviewed_selection_id = some facts_id;
  current_selection_advice_id = none;
})

abbrev pub job_for : BattleSession → String → String → String → String → String → JobEnvelope
job_for session facts_id job_id command_id hash now = record {
  contract_version = "maple-worker.v1";
  job_id = job_id;
  command_id = command_id;
  job_type = selection_advice;
  session_id = session.session_id;
  match_id = session.match_id;
  generation = session.generation;
  turn_number = none;
  base_battle_revision = session.battle_revision;
  expected_state = selection_open;
  input_snapshot_id = facts_id;
  request_payload_hash = hash;
  human_authorized_at = now;
  status = queued;
}

module _ (sha256 : TeamBuild → String) (payload_hash : SelectionAdviceRequest → String) where
  abbrev hash_if_some : Option TeamBuild → Option String
  hash_if_some none = none
  hash_if_some (some build) = some (sha256 build)

  unfoldable pub confirm_selection_facts :
      String → List String → List String → Option TeamBuild → Exec SelectionFacts
  confirm_selection_facts facts_id self_team opponent_team build = do
    facts ← rescue build_mismatch (
        lift (
          make_selection_facts sha256 (record {
            reviewed_selection_id = facts_id;
            self_team = self_team;
            opponent_team = opponent_team;
            self_team_build = build;
            self_team_build_sha256 = hash_if_some build;
          })))
    transaction do
      session ← require_session selection_open
      append_selection_facts session.session_id facts
      save_session (reviewed session facts.reviewed_selection_id)
      pure facts

  unfoldable pub request_selection_advice : String → String → String → Exec JobEnvelope
  request_selection_advice job_id command_id now = transaction do
    session ← require_session selection_open
    facts_id ←
        required (domain_error "REVIEWED_SELECTION_REQUIRED") session.current_reviewed_selection_id
    latest_job ← latest_job_by_type session.session_id selection_advice
    lift (guard_provider_request latest_job)
    facts ← get_selection_facts facts_id
    request ← lift (build_selection_advice_request sha256 session facts_id facts)
    let job = job_for session facts_id job_id command_id (payload_hash request) now
    insert_job job
    pure job

-- `except KeyError`
abbrev selection_unavailable : Error → Error
selection_unavailable (key_error k) = domain_error "REVIEWED_SELECTION_UNAVAILABLE"
selection_unavailable e = e

unfoldable pub battle_opened : BattleSession → String → BattleSession
unfolding bump_battle
battle_opened session applied_id =
    bump_battle
      (record session { current_applied_selection_id = some applied_id; state = battle_ready })

unfoldable pub apply_selection :
    String → List String → String → Bool → Exec AppliedSelectionSnapshot
apply_selection applied_id selected_three lead human_confirmed = do
  guard (not human_confirmed) (domain_error "HUMAN_APPLY_REQUIRED")
  transaction do
    session ← require_session selection_advice_ready
    advice_id ←
        required (domain_error "CURRENT_SELECTION_ADVICE_REQUIRED")
          session.current_selection_advice_id
    facts_id ←
        required (domain_error "REVIEWED_SELECTION_UNAVAILABLE")
          session.current_reviewed_selection_id
    facts ← rescue selection_unavailable (get_selection_facts facts_id)
    guard (length selected_three != 3) (domain_error "SELECTED_THREE_MUST_HAVE_EXACTLY_THREE")
    guard (not (all_distinct selected_three)) (domain_error "DUPLICATE_SELECTION")
    guard (any_of (λ name. not (member name facts.self_team)) selected_three)
        (domain_error "SELECTION_OUTSIDE_REVIEWED_TEAM")
    guard (not (member lead selected_three)) (domain_error "LEAD_NOT_IN_SELECTED_THREE")
    snapshot ← lift (
        make_applied_selection (record {
          applied_selection_id = applied_id;
          selected_three = selected_three;
          lead = lead;
          backline = keep (λ name. name != lead) selected_three;
          source_advice_id = advice_id;
        }))
    append_applied_selection session.session_id snapshot
    save_session (battle_opened session snapshot.applied_selection_id)
    pure snapshot
