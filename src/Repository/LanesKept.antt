-- ===== src/Repository/LanesKept.antt =====
-- The reads and writes of the other tables leave the job ledger as it is.
use maple_next.Base.{String, ℕ, arith}
use maple_next.Enums.{JobType, ResultDisposition}
use maple_next.Models.{
  SelectionFacts, AppliedSelectionSnapshot, BattleTurn, TurnFactsSnapshot, TurnAdviceSnapshot,
  RecordedAction, MatchOutcomeRecord, MatchExportRecord,
}
use maple_next.Envelopes.{ResultEnvelope}
use maple_next.Repository.{AdviceRow, AttemptRow, SelectionAttemptRow, AttemptOutcome, ◌>>=◌}
use maple_next.Repository.Sessions.{load_active_session}
use maple_next.Repository.Jobs.{get_job, latest_job_by_type, has_applied_result, audit_result}
use maple_next.Repository.Rows.{
  append_selection_facts, get_selection_facts, append_selection_advice, append_applied_selection,
  get_applied_selection, append_turn, get_turn, append_turn_facts, get_turn_facts,
  append_turn_advice, append_recorded_action, has_recorded_action, get_match_outcome,
  append_match_outcome, get_match_export, append_match_export,
}
use maple_next.Repository.Attempts.{turn_advice_attempt_reserved, reserve_turn_advice_attempt}
use maple_next.Base.{◌≡◌, subst, sym}
use maple_next.Models.{BattleSession}
use maple_next.Repository.{Repository, Exec}
use maple_next.Repository.Sessions.{save_session, insert_session, next_generation}
use maple_next.Repository.Gemini.{
  reserve_gemini_selection_attempt, replace_gemini_selection_attempt_reservation,
  start_selection_provider_attempt, finish_selection_provider_attempt,
}
use maple_next.Repository.Keeps.{Keeps}
use maple_next.Repository.Lanes.{
  Bound, AllBind, update_job_status-Bound, mark_job_in_flight-Bound, recover_unfinished_jobs-Bound,
}

jobs_kept : {A : Type 0} (m : Exec A) → ((s : Repository) → (m s).1.jobs ≡ s.jobs) → Keeps Bound m
jobs_kept m k = record { kept = λ s i. subst AllBind (sym (k s)) i }

pub get_job-Bound : (id : String) → Keeps Bound (get_job id)
unfolding get_job ◌>>=◌
get_job-Bound id = jobs_kept _ λ s. ground arith

pub latest_job_by_type-Bound :
    (id : String) (type : JobType) → Keeps Bound (latest_job_by_type id type)
unfolding latest_job_by_type ◌>>=◌
latest_job_by_type-Bound id type = jobs_kept _ λ s. ground arith

pub audit_result-Bound :
    (r : ResultEnvelope) (d : ResultDisposition) (reason : String)
    → Keeps Bound (audit_result r d reason)
unfolding audit_result ◌>>=◌
audit_result-Bound r d reason = jobs_kept _ λ s. ground arith

pub append_selection_facts-Bound :
    (id : String) (facts : SelectionFacts) → Keeps Bound (append_selection_facts id facts)
unfolding append_selection_facts ◌>>=◌
append_selection_facts-Bound id facts = jobs_kept _ λ s. ground arith

pub get_selection_facts-Bound : (id : String) → Keeps Bound (get_selection_facts id)
unfolding get_selection_facts ◌>>=◌
get_selection_facts-Bound id = jobs_kept _ λ s. ground arith

pub append_selection_advice-Bound : (row : AdviceRow) → Keeps Bound (append_selection_advice row)
unfolding append_selection_advice ◌>>=◌
append_selection_advice-Bound row = jobs_kept _ λ s. ground arith

pub append_applied_selection-Bound :
    (id : String) (row : AppliedSelectionSnapshot) → Keeps Bound (append_applied_selection id row)
unfolding append_applied_selection ◌>>=◌
append_applied_selection-Bound id row = jobs_kept _ λ s. ground arith

pub get_applied_selection-Bound : (id : String) → Keeps Bound (get_applied_selection id)
unfolding get_applied_selection ◌>>=◌
get_applied_selection-Bound id = jobs_kept _ λ s. ground arith

pub append_turn-Bound : (id : String) (turn : BattleTurn) → Keeps Bound (append_turn id turn)
unfolding append_turn ◌>>=◌
append_turn-Bound id turn = jobs_kept _ λ s. ground arith

pub get_turn-Bound : (id : String) → Keeps Bound (get_turn id)
unfolding get_turn ◌>>=◌
get_turn-Bound id = jobs_kept _ λ s. ground arith

pub append_turn_facts-Bound :
    (id : String) (facts : TurnFactsSnapshot) → Keeps Bound (append_turn_facts id facts)
unfolding append_turn_facts ◌>>=◌
append_turn_facts-Bound id facts = jobs_kept _ λ s. ground arith

pub get_turn_facts-Bound : (id : String) → Keeps Bound (get_turn_facts id)
unfolding get_turn_facts ◌>>=◌
get_turn_facts-Bound id = jobs_kept _ λ s. ground arith

pub append_turn_advice-Bound :
    (id : String) (advice : TurnAdviceSnapshot) → Keeps Bound (append_turn_advice id advice)
unfolding append_turn_advice ◌>>=◌
append_turn_advice-Bound id advice = jobs_kept _ λ s. ground arith

pub append_recorded_action-Bound :
    (id : String) (action : RecordedAction) → Keeps Bound (append_recorded_action id action)
unfolding append_recorded_action ◌>>=◌
append_recorded_action-Bound id action = jobs_kept _ λ s. ground arith

pub has_recorded_action-Bound : (id : String) → Keeps Bound (has_recorded_action id)
unfolding has_recorded_action ◌>>=◌
has_recorded_action-Bound id = jobs_kept _ λ s. ground arith

pub get_match_outcome-Bound : (id : String) → Keeps Bound (get_match_outcome id)
unfolding get_match_outcome ◌>>=◌
get_match_outcome-Bound id = jobs_kept _ λ s. ground arith

pub append_match_outcome-Bound : (row : MatchOutcomeRecord) → Keeps Bound (append_match_outcome row)
unfolding append_match_outcome ◌>>=◌
append_match_outcome-Bound row = jobs_kept _ λ s. ground arith

pub turn_advice_attempt_reserved-Bound :
    (row : AttemptRow) → Keeps Bound (turn_advice_attempt_reserved row)
unfolding turn_advice_attempt_reserved ◌>>=◌
turn_advice_attempt_reserved-Bound row = jobs_kept _ λ s. ground arith

pub reserve_turn_advice_attempt-Bound :
    (row : AttemptRow) → Keeps Bound (reserve_turn_advice_attempt row)
unfolding reserve_turn_advice_attempt ◌>>=◌
reserve_turn_advice_attempt-Bound row = jobs_kept _ λ s. ground arith

pub load_active_session-Bound : Keeps Bound load_active_session
unfolding load_active_session ◌>>=◌
load_active_session-Bound = jobs_kept _ λ s. ground arith

pub has_applied_result-Bound : (id : String) → Keeps Bound (has_applied_result id)
unfolding has_applied_result ◌>>=◌
has_applied_result-Bound id = jobs_kept _ λ s. ground arith

pub save_session-Bound : (session : BattleSession) → Keeps Bound (save_session session)
unfolding save_session ◌>>=◌
save_session-Bound session = jobs_kept _ λ s. ground arith

pub insert_session-Bound : (session : BattleSession) → Keeps Bound (insert_session session)
unfolding insert_session ◌>>=◌
insert_session-Bound session = jobs_kept _ λ s. ground arith

pub next_generation-Bound : Keeps Bound next_generation
unfolding next_generation ◌>>=◌
next_generation-Bound = jobs_kept _ λ s. ground arith

pub get_match_export-Bound : (id : String) → Keeps Bound (get_match_export id)
unfolding get_match_export ◌>>=◌
get_match_export-Bound id = jobs_kept _ λ s. ground arith

pub append_match_export-Bound : (row : MatchExportRecord) → Keeps Bound (append_match_export row)
unfolding append_match_export ◌>>=◌
append_match_export-Bound row = jobs_kept _ λ s. ground arith

pub reserve_gemini_selection_attempt-Bound :
    (row : SelectionAttemptRow) → Keeps Bound (reserve_gemini_selection_attempt row)
unfolding reserve_gemini_selection_attempt ◌>>=◌
reserve_gemini_selection_attempt-Bound row = jobs_kept _ λ s. ground arith

pub replace_gemini_selection_attempt_reservation-Bound :
    (row : SelectionAttemptRow) (old new : String)
    → Keeps Bound (replace_gemini_selection_attempt_reservation row old new)
unfolding replace_gemini_selection_attempt_reservation ◌>>=◌
replace_gemini_selection_attempt_reservation-Bound row old new = jobs_kept _ λ s. ground arith

pub start_selection_provider_attempt-Bound :
    (id : String) (n : ℕ) (model : String)
    → Keeps Bound (start_selection_provider_attempt id n model)
unfolding start_selection_provider_attempt ◌>>=◌
start_selection_provider_attempt-Bound id n model = jobs_kept _ λ s. ground arith

pub finish_selection_provider_attempt-Bound :
    (id : String) (n : ℕ) (outcome : AttemptOutcome) (reason : String)
    → Keeps Bound (finish_selection_provider_attempt id n outcome reason)
unfolding finish_selection_provider_attempt ◌>>=◌
finish_selection_provider_attempt-Bound id n outcome reason = jobs_kept _ λ s. ground arith

pub ruleset bound_tables = (
  has_applied_result-Bound, get_match_export-Bound, append_match_export-Bound,
  reserve_gemini_selection_attempt-Bound, replace_gemini_selection_attempt_reservation-Bound,
  start_selection_provider_attempt-Bound, finish_selection_provider_attempt-Bound, get_job-Bound,
  latest_job_by_type-Bound, audit_result-Bound, append_selection_facts-Bound,
  get_selection_facts-Bound, append_selection_advice-Bound, append_applied_selection-Bound,
  get_applied_selection-Bound, append_turn-Bound, get_turn-Bound, append_turn_facts-Bound,
  get_turn_facts-Bound, append_turn_advice-Bound, append_recorded_action-Bound,
  has_recorded_action-Bound, get_match_outcome-Bound, append_match_outcome-Bound,
  turn_advice_attempt_reserved-Bound, reserve_turn_advice_attempt-Bound, load_active_session-Bound,
  save_session-Bound, insert_session-Bound, next_generation-Bound, update_job_status-Bound,
  mark_job_in_flight-Bound, recover_unfinished_jobs-Bound,
)
