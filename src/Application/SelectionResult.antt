-- ===== src/Application/SelectionResult.antt =====
-- `apply_selection_advice_result` of src/maple_next/application/service.py. A payload that is refused
-- is refused as a whole, so the reader returns an option.
use maple_next.Base.{
  String, Bool, true, false, not, ◌&&◌, Option, none, some, List, [], ◌∷◌, length, any_of, keep,
  ◌==◌, ◌!=◌, nat_eq, string_eq, member, all_distinct, if◌then◌else◌,
}
use maple_next.Enums.{
  selection_advice, failed, succeeded, ResultDisposition, applied, stale_rejected, invalid_rejected,
  duplicate_ignored, selection_advice_ready, job_type_eq,
}
use maple_next.Models.{BattleSession, bump_battle, SelectionFacts}
use maple_next.Envelopes.{JobEnvelope, ResultEnvelope, Json, Items, Members, lookup_member}
use maple_next.Repository.{JobRow, Owned, Exec, ◌>>=◌, ◌>>◌, pure, gets, transaction}
use maple_next.Repository.Sessions.{load_active_session, save_session}
use maple_next.Repository.Jobs.{
  find_job, from_row, latest_job_by_type, update_job_status, has_applied_result, audit_result,
}
use maple_next.Repository.Rows.{append_selection_advice, find_facts}
use maple_next.Application.Jobs.{binding_failure_reason}

-- The keys are exactly the two names.
unfoldable pub keys_within : List String → Members → Bool
keys_within names Members.end = true
keys_within names (Members.member key value rest) = member key names && keys_within names rest

-- A list of strings, or `none`.
unfoldable pub texts : Items → Option (List String)
texts Items.nil = some []
texts (Items.cons (Json.text t) rest) = elim (texts rest) [ none ↦ none | some ts ↦ some (t ∷ ts) ]
texts (Items.cons _ rest) = none

pub record Choice : Type 0 where
  pub selected_three : List String
  pub lead : String

abbrev pub choose : Option Json → Option Json → Option Choice
choose (some (Json.array items)) (some (Json.text lead)) = elim (texts items) [
  | none ↦ none
  | some names ↦ some (record { selected_three = names; lead = lead })
]
choose _ _ = none

abbrev read_members : Members → Option Choice
read_members members =
    if keys_within ("selected_three" ∷ "lead" ∷ []) members
    then choose (lookup_member "selected_three" members) (lookup_member "lead" members)
    else none

unfoldable pub read_choice : Json → Option Choice
read_choice (Json.object members) = read_members members
read_choice _ = none

-- The checks on a choice of three against the reviewed team.
unfoldable pub is_legal_choice : Choice → SelectionFacts → Bool
is_legal_choice choice facts =
    length choice.selected_three == 3
    && all_distinct choice.selected_three
    && member choice.lead choice.selected_three
    && not (any_of (λ name. not (member name facts.self_team)) choice.selected_three)

abbrev check_choice : Option Choice → Option (Owned SelectionFacts) → Option Choice
check_choice (some choice) (some facts) =
    if is_legal_choice choice facts.row then some choice else none
check_choice _ _ = none

unfoldable pub advice_applied : BattleSession → String → BattleSession
unfolding bump_battle
advice_applied session advice_id = bump_battle (record session {
  current_selection_advice_id = some advice_id;
  state = selection_advice_ready;
})

abbrev pub reject : ResultEnvelope → ResultDisposition → String → Exec ResultDisposition
reject result disposition reason = do audit_result result disposition reason; pure disposition

-- The last part: the binding holds, and the payload was read and checked.
unfoldable pub finish :
    ResultEnvelope → JobEnvelope → BattleSession → Option Choice → Exec ResultDisposition
finish result job session none = do
  audit_result result invalid_rejected "INVALID_PAYLOAD"
  update_job_status job.job_id failed
  pure invalid_rejected
finish result job session (some choice) = do
  append_selection_advice (record {
    advice_id = result.result_id;
    session_id = session.session_id;
    job_id = job.job_id;
    selected_three = choice.selected_three;
    lead = choice.lead;
    backline = keep (λ name. name != choice.lead) choice.selected_three;
    source_type = result.source_type;
    model = result.model;
  })
  save_session (advice_applied session result.result_id)
  update_job_status job.job_id succeeded
  audit_result result applied "BINDING_ACCEPTED"
  pure applied

abbrev pub snapshot_of : Option BattleSession → Option String
snapshot_of none = none
snapshot_of (some session) = session.current_reviewed_selection_id

abbrev pub latest_of : Option BattleSession → Exec (Option JobEnvelope)
latest_of none = pure none
latest_of (some session) = latest_job_by_type session.session_id selection_advice

-- A failed binding is audited; with none failed there is a session.
abbrev pub judge :
    ResultEnvelope → JobEnvelope → Option BattleSession → Option String → Exec ResultDisposition
judge result job session (some reason) = reject result stale_rejected reason
judge result job none none = reject result stale_rejected "NO_ACTIVE_MATCH"
judge result job (some session) none = do
  facts ← gets (λ s. find_facts job.input_snapshot_id s.selection_facts)
  finish result job session (check_choice (read_choice result.payload) facts)

abbrev pub unless_applied : ResultEnvelope → JobEnvelope → Bool → Exec ResultDisposition
unless_applied result job true = reject result duplicate_ignored "RESULT_ALREADY_APPLIED"
unless_applied result job false = do
  session ← load_active_session
  latest ← latest_of session
  judge result job session
      (binding_failure_reason session latest job result (snapshot_of session) none)

abbrev pub of_right_type : ResultEnvelope → JobEnvelope → Exec ResultDisposition
of_right_type result job = do
  already ← has_applied_result job.job_id
  unless_applied result job already

abbrev pub for_job : ResultEnvelope → Option JobRow → Exec ResultDisposition
for_job result none = reject result stale_rejected "JOB_ID_MISMATCH"
for_job result (some row) =
    if row.job.job_type == selection_advice
    then of_right_type result (from_row row)
    else reject result stale_rejected "JOB_TYPE_NOT_SELECTION_ADVICE"

unfoldable pub apply_selection_advice_result : ResultEnvelope → Exec ResultDisposition
apply_selection_advice_result result =
    transaction do rows ← gets (λ s. s.jobs); for_job result (find_job result.job_id rows)
