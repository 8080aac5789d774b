-- ===== src/Tests/Results.antt =====
-- A result that comes twice, and a request after a restart, at concrete inputs.
use maple_next.Base.{
  ◌≡◌, refl, none, some, [], ◌∷◌, ok, any_of, find_first, member, all_distinct, string_eq,
}
use maple_next.Enums.{
  delivery_unknown, JobType-discrete, BattleState-discrete, JobStatus-discrete, selection_advice,
  applied, duplicate_ignored,
}
use maple_next.Models.{SelectionFacts}
use maple_next.Envelopes.{Json, Items, Members, ResultEnvelope, lookup_member}
use maple_next.Repository.{Repository, ◌>>=◌, transaction}
use maple_next.Repository.Sessions.{find_active, load_active_session, save_session, slot_taken}
use maple_next.Repository.Rows.{append_selection_advice, find_facts}
use maple_next.Repository.Jobs.{
  find_latest, find_job, applied_in, has_applied_result, latest_job_by_type, update_job_status,
  audit_result, with_status,
}
use maple_next.Application.Match.{recover_after_restart, opened}
use maple_next.Application.Jobs.{binding_failure_reason, first_failure}
use maple_next.Application.SelectionResult.{
  apply_selection_advice_result, finish, read_choice, is_legal_choice, keys_within, texts,
  advice_applied,
}
use maple_next.Application.Restart.{RefusesRequests, restart-refuses}
use maple_next.Application.Duplicates.{late, apply-once}
use maple_next.Tests.Commands.{empty, outside, session, result, in_flight_row}

abbrev facts : SelectionFacts
facts = record {
  reviewed_selection_id = "facts";
  self_team = "a" ∷ "b" ∷ "c" ∷ "d" ∷ "e" ∷ "f" ∷ [];
  opponent_team = "u" ∷ "v" ∷ "w" ∷ "x" ∷ "y" ∷ "z" ∷ [];
  self_team_build = none;
  self_team_build_sha256 = none;
}

abbrev asked : Repository
asked = record empty {
  sessions = session ∷ [];
  selection_facts = record { session_id = "s1"; row = facts } ∷ [];
  jobs = in_flight_row ∷ [];
}

abbrev answer : ResultEnvelope
answer = record result {
  payload = Json.object (
      Members.member "selected_three"
        (Json.array (
          Items.cons (Json.text "a")
            (Items.cons (Json.text "b") (Items.cons (Json.text "c") Items.nil))))
        (Members.member "lead" (Json.text "a") Members.end));
}

abbrev answered : Repository
answered = (apply_selection_advice_result answer asked).1

first_applied : apply_selection_advice_result answer asked ≡ (ok applied, answered)
unfolding apply_selection_advice_result transaction find_job find_first has_applied_result
    applied_in any_of load_active_session find_active latest_job_by_type find_latest
    binding_failure_reason first_failure find_facts read_choice keys_within texts is_legal_choice
    finish append_selection_advice save_session slot_taken audit_result update_job_status
    lookup_member member all_distinct ◌>>=◌ opened JobType-discrete BattleState-discrete
    JobStatus-discrete advice_applied
first_applied = refl

apply-once_example :
    apply_selection_advice_result result answered
    ≡ (ok duplicate_ignored, record answered { audits = late result ∷ answered.audits })
apply-once_example = apply-once answer result asked answered first_applied refl

restart-refuses_example :
    (find_latest "s1" selection_advice (recover_after_restart asked).1.jobs
      ≡ some (with_status delivery_unknown in_flight_row))
    × RefusesRequests outside.sha256 outside.payload_hash outside.request_hash selection_advice
        (recover_after_restart asked).1
unfolding find_latest find_first find_active opened JobType-discrete
restart-refuses_example =
    restart-refuses outside.sha256 outside.payload_hash outside.request_hash asked session
      selection_advice in_flight_row refl refl refl refl
