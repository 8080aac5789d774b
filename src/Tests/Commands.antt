-- ===== src/Tests/Commands.antt =====
-- The theorems on the repository and on the commands at concrete inputs.
use maple_next.Base.{◌≤◌, true, false, ◌≡◌, refl, ◌↔◌, none, some, [], ◌∷◌, ok, any_of}
use maple_next.Enums.{selection_advice, selection_open, in_flight, succeeded}
use maple_next.Models.{BattleSession}
use maple_next.Envelopes.{JobEnvelope, ResultEnvelope}
use maple_next.Envelopes.{Json}
use maple_next.Dispatch.{
  trusted_human_activation, timer, decide_turn_advice_dispatch, dispatch_iff_trusted,
}
use maple_next.Repository.{Repository, JobRow, AttemptRow, ◌>>=◌}
use maple_next.Repository.Jobs.{recover_rows, is_unfinished}
use maple_next.Repository.Recovery.{recover_rows-settles}
use maple_next.Repository.Attempts.{turn_advice_attempt_reserved, reserve_turn_advice_attempt}
use maple_next.Repository.Lanes.{no_jobs, Bound}
use maple_next.Repository.Ledger.{reserve-once}
use maple_next.Application.Match.{Pins, opened as open_row, new_match}
use maple_next.Application.Jobs.{binding_failure_reason}
use maple_next.Application.Binding.{Binds, accepted_iff}
use maple_next.Application.Effect.{opens, Effect}
use maple_next.Application.Coherence.{AllCoherent}
use maple_next.Application.Selection.{confirm_selection_facts, request_selection_advice}
use maple_next.Application.Exclusion.{count_active}
use maple_next.Application.Command.{
  Outside, is_ok, by_new_match, by_confirm_selection, by_request_selection,
}
use maple_next.Application.Steps.{
  step-Effect, start, after, Reachable-AllCoherent, Reachable-one_active, Reachable-Bound,
}

abbrev pub empty : Repository
empty = record {
  sessions = [];
  selection_facts = [];
  selection_advices = [];
  applied_selections = [];
  turns = [];
  turn_facts = [];
  turn_advices = [];
  recorded_actions = [];
  outcomes = [];
  exports = [];
  jobs = [];
  audits = [];
  turn_attempts = [];
  selection_attempts = [];
  provider_audits = [];
  fixed_evidence = [];
  confirmed_states = [];
  result_deltas = [];
  drafts = [];
  completions = [];
  local_states = [];
  abilities = [];
  entry_events = [];
  switch_confirmations = [];
}

abbrev pub pins : Pins
pins = record {
  rules_ruleset_id = none;
  rules_ruleset_version = none;
  rules_snapshot_id = none;
  rules_facts_sha256 = none;
  opponent_intel_pin_status = none;
  opponent_intel_generation_id = none;
  opponent_intel_snapshot_sha256 = none;
}

abbrev pub outside : Outside
outside = record {
  sha256 = λ _. "build";
  payload_hash = λ _. "request";
  python = record { str_of = λ _. "object"; int_of = λ _. none };
  read_int = λ text. none;
  request_hash = λ _ _ _ _. ok "request";
  read_body = λ _ _ _ _ _. none;
}

abbrev one_match : Repository
one_match = (new_match "s1" "m1" pins empty).1

step-Effect_example : Effect opens (is_ok (new_match "s1" "m1" pins empty).0) [] one_match.sessions
step-Effect_example = step-Effect outside empty one_match no_jobs (by_new_match "s1" "m1" pins)

Reachable-AllCoherent_example : AllCoherent one_match.sessions
Reachable-AllCoherent_example =
    Reachable-AllCoherent outside one_match
      (after empty one_match (start empty refl refl) (by_new_match "s1" "m1" pins))

abbrev pub session : BattleSession
session = record (open_row "s1" "m1" 1 pins) {
  battle_revision = 2;
  current_reviewed_selection_id = some "facts";
}

abbrev pub job : JobEnvelope
job = record {
  contract_version = "maple-worker.v1";
  job_id = "j1";
  command_id = "c1";
  job_type = selection_advice;
  session_id = "s1";
  match_id = "m1";
  generation = 1;
  turn_number = none;
  base_battle_revision = 2;
  expected_state = selection_open;
  input_snapshot_id = "facts";
  request_payload_hash = "request";
  human_authorized_at = "2026-07-01T00:00:00Z";
  status = in_flight;
}

abbrev pub result : ResultEnvelope
result = record {
  contract_version = "maple-worker.v1";
  result_id = "r1";
  job_id = "j1";
  command_id = "c1";
  job_type = selection_advice;
  session_id = "s1";
  match_id = "m1";
  generation = 1;
  turn_number = none;
  base_battle_revision = 2;
  expected_state = selection_open;
  input_snapshot_id = "facts";
  request_payload_hash = "request";
  payload = Json.null;
  source_type = "MOCK";
  model = "mock";
}

accepted_iff_example :
    (binding_failure_reason (some session) (some job) job result (some "facts") none ≡ none)
    ↔ Binds session job job result (some "facts") none
accepted_iff_example = accepted_iff session job job result (some "facts") none

abbrev row : JobRow
row = record { job = record job { status = succeeded }; dispatch_count = 1 }

abbrev pub in_flight_row : JobRow
in_flight_row = record { job = job; dispatch_count = 1 }

recover_rows-settles_example :
    any_of (λ r. is_unfinished r.job.status) (recover_rows (in_flight_row ∷ row ∷ [])) ≡ false
recover_rows-settles_example = recover_rows-settles (in_flight_row ∷ row ∷ [])

abbrev attempt : AttemptRow
attempt = record {
  session_id = "s1";
  match_id = "m1";
  generation = 1;
  turn_number = 1;
  battle_revision = 5;
  reviewed_snapshot_id = "facts";
  request_payload_hash = "request";
  job_id = "j1";
}

abbrev reserved : Repository
reserved = record empty { turn_attempts = attempt ∷ [] }

reserve-once_example :
    (reserve_turn_advice_attempt attempt empty ≡ (ok true, reserved))
    × (turn_advice_attempt_reserved attempt reserved ≡ (ok true, reserved))
    × (reserve_turn_advice_attempt attempt reserved ≡ (ok false, reserved))
unfolding turn_advice_attempt_reserved any_of ◌>>=◌
reserve-once_example = reserve-once attempt empty refl

dispatch_iff_trusted_example :
    ((decide_turn_advice_dispatch timer true false false).allowed ≡ true)
    ↔ ((timer ≡ trusted_human_activation) × (true ≡ true) × (false ≡ false) × (false ≡ false))
dispatch_iff_trusted_example = dispatch_iff_trusted timer true false false

Reachable-one_active_example : count_active one_match.sessions ≤ 1
Reachable-one_active_example =
    Reachable-one_active outside one_match
      (after empty one_match (start empty refl refl) (by_new_match "s1" "m1" pins))

abbrev confirmed_match : Repository
confirmed_match =
    (confirm_selection_facts outside.sha256 outside.payload_hash "facts"
      ("a" ∷ "b" ∷ "c" ∷ "d" ∷ "e" ∷ "f" ∷ []) ("u" ∷ "v" ∷ "w" ∷ "x" ∷ "y" ∷ "z" ∷ []) none
      one_match).1

abbrev requested_match : Repository
requested_match =
    (request_selection_advice outside.sha256 outside.payload_hash "j1" "c1" "now" confirmed_match).1

Reachable-Bound_example : Bound requested_match
Reachable-Bound_example = Reachable-Bound outside requested_match (
    after confirmed_match requested_match
      (after one_match confirmed_match
        (after empty one_match (start empty refl refl) (by_new_match "s1" "m1" pins))
        (by_confirm_selection "facts" ("a" ∷ "b" ∷ "c" ∷ "d" ∷ "e" ∷ "f" ∷ [])
          ("u" ∷ "v" ∷ "w" ∷ "x" ∷ "y" ∷ "z" ∷ []) none))
      (by_request_selection "j1" "c1" "now"))
