-- ===== src/Repository/Unchanged.antt =====
-- The reads and writes of the other tables leave the sessions as they are.
use maple_next.Base.{String, ℕ, arith}
use maple_next.Enums.{JobType, JobStatus, ResultDisposition}
use maple_next.Models.{
  SelectionFacts, AppliedSelectionSnapshot, BattleTurn, TurnFactsSnapshot, TurnAdviceSnapshot,
  RecordedAction, MatchOutcomeRecord, MatchExportRecord,
}
use maple_next.Envelopes.{JobEnvelope, ResultEnvelope}
use maple_next.Repository.{AdviceRow, AttemptRow, SelectionAttemptRow, AttemptOutcome, ◌>>=◌}
use maple_next.Repository.Sessions.{load_active_session}
use maple_next.Repository.Jobs.{
  insert_job, get_job, update_job_status, mark_job_in_flight, latest_job_by_type,
  recover_unfinished_jobs, has_applied_result, audit_result,
}
use maple_next.Repository.Rows.{
  append_selection_facts, get_selection_facts, append_selection_advice, append_applied_selection,
  get_applied_selection, append_turn, get_turn, append_turn_facts, get_turn_facts,
  append_turn_advice, append_recorded_action, has_recorded_action, get_match_outcome,
  append_match_outcome, get_match_export, append_match_export,
}
use maple_next.Repository.Attempts.{turn_advice_attempt_reserved, reserve_turn_advice_attempt}
use maple_next.Repository.Gemini.{
  reserve_gemini_selection_attempt, replace_gemini_selection_attempt_reservation,
  start_selection_provider_attempt, finish_selection_provider_attempt,
}
use maple_next.Repository.Quiet.{Quiet}

pub Quiet-insert_job : (job : JobEnvelope) → Quiet (insert_job job)
unfolding insert_job ◌>>=◌
Quiet-insert_job job = record { keeps = λ s. ground arith }

pub Quiet-get_job : (id : String) → Quiet (get_job id)
unfolding get_job ◌>>=◌
Quiet-get_job id = record { keeps = λ s. ground arith }

pub Quiet-update_job_status :
    (id : String) (status : JobStatus) → Quiet (update_job_status id status)
unfolding update_job_status ◌>>=◌
Quiet-update_job_status id status = record { keeps = λ s. ground arith }

pub Quiet-mark_job_in_flight : (id : String) → Quiet (mark_job_in_flight id)
unfolding mark_job_in_flight ◌>>=◌
Quiet-mark_job_in_flight id = record { keeps = λ s. ground arith }

pub Quiet-latest_job_by_type : (id : String) (type : JobType) → Quiet (latest_job_by_type id type)
unfolding latest_job_by_type ◌>>=◌
Quiet-latest_job_by_type id type = record { keeps = λ s. ground arith }

pub Quiet-recover_unfinished_jobs : Quiet recover_unfinished_jobs
unfolding recover_unfinished_jobs ◌>>=◌
Quiet-recover_unfinished_jobs = record { keeps = λ s. ground arith }

pub Quiet-has_applied_result : (id : String) → Quiet (has_applied_result id)
unfolding has_applied_result ◌>>=◌
Quiet-has_applied_result id = record { keeps = λ s. ground arith }

pub Quiet-audit_result :
    (r : ResultEnvelope) (d : ResultDisposition) (reason : String) → Quiet (audit_result r d reason)
unfolding audit_result ◌>>=◌
Quiet-audit_result r d reason = record { keeps = λ s. ground arith }

pub Quiet-append_selection_facts :
    (id : String) (facts : SelectionFacts) → Quiet (append_selection_facts id facts)
unfolding append_selection_facts ◌>>=◌
Quiet-append_selection_facts id facts = record { keeps = λ s. ground arith }

pub Quiet-get_selection_facts : (id : String) → Quiet (get_selection_facts id)
unfolding get_selection_facts ◌>>=◌
Quiet-get_selection_facts id = record { keeps = λ s. ground arith }

pub Quiet-append_selection_advice : (row : AdviceRow) → Quiet (append_selection_advice row)
unfolding append_selection_advice ◌>>=◌
Quiet-append_selection_advice row = record { keeps = λ s. ground arith }

pub Quiet-append_applied_selection :
    (id : String) (row : AppliedSelectionSnapshot) → Quiet (append_applied_selection id row)
unfolding append_applied_selection ◌>>=◌
Quiet-append_applied_selection id row = record { keeps = λ s. ground arith }

pub Quiet-get_applied_selection : (id : String) → Quiet (get_applied_selection id)
unfolding get_applied_selection ◌>>=◌
Quiet-get_applied_selection id = record { keeps = λ s. ground arith }

pub Quiet-append_turn : (id : String) (turn : BattleTurn) → Quiet (append_turn id turn)
unfolding append_turn ◌>>=◌
Quiet-append_turn id turn = record { keeps = λ s. ground arith }

pub Quiet-get_turn : (id : String) → Quiet (get_turn id)
unfolding get_turn ◌>>=◌
Quiet-get_turn id = record { keeps = λ s. ground arith }

pub Quiet-append_turn_facts :
    (id : String) (facts : TurnFactsSnapshot) → Quiet (append_turn_facts id facts)
unfolding append_turn_facts ◌>>=◌
Quiet-append_turn_facts id facts = record { keeps = λ s. ground arith }

pub Quiet-get_turn_facts : (id : String) → Quiet (get_turn_facts id)
unfolding get_turn_facts ◌>>=◌
Quiet-get_turn_facts id = record { keeps = λ s. ground arith }

pub Quiet-append_turn_advice :
    (id : String) (advice : TurnAdviceSnapshot) → Quiet (append_turn_advice id advice)
unfolding append_turn_advice ◌>>=◌
Quiet-append_turn_advice id advice = record { keeps = λ s. ground arith }

pub Quiet-append_recorded_action :
    (id : String) (action : RecordedAction) → Quiet (append_recorded_action id action)
unfolding append_recorded_action ◌>>=◌
Quiet-append_recorded_action id action = record { keeps = λ s. ground arith }

pub Quiet-has_recorded_action : (id : String) → Quiet (has_recorded_action id)
unfolding has_recorded_action ◌>>=◌
Quiet-has_recorded_action id = record { keeps = λ s. ground arith }

pub Quiet-get_match_outcome : (id : String) → Quiet (get_match_outcome id)
unfolding get_match_outcome ◌>>=◌
Quiet-get_match_outcome id = record { keeps = λ s. ground arith }

pub Quiet-append_match_outcome : (row : MatchOutcomeRecord) → Quiet (append_match_outcome row)
unfolding append_match_outcome ◌>>=◌
Quiet-append_match_outcome row = record { keeps = λ s. ground arith }

pub Quiet-turn_advice_attempt_reserved :
    (row : AttemptRow) → Quiet (turn_advice_attempt_reserved row)
unfolding turn_advice_attempt_reserved ◌>>=◌
Quiet-turn_advice_attempt_reserved row = record { keeps = λ s. ground arith }

pub Quiet-reserve_turn_advice_attempt : (row : AttemptRow) → Quiet (reserve_turn_advice_attempt row)
unfolding reserve_turn_advice_attempt ◌>>=◌
Quiet-reserve_turn_advice_attempt row = record { keeps = λ s. ground arith }

pub Quiet-load_active_session : Quiet load_active_session
unfolding load_active_session ◌>>=◌
Quiet-load_active_session = record { keeps = λ s. ground arith }

pub Quiet-get_match_export : (id : String) → Quiet (get_match_export id)
unfolding get_match_export ◌>>=◌
Quiet-get_match_export id = record { keeps = λ s. ground arith }

pub Quiet-append_match_export : (row : MatchExportRecord) → Quiet (append_match_export row)
unfolding append_match_export ◌>>=◌
Quiet-append_match_export row = record { keeps = λ s. ground arith }

pub Quiet-reserve_gemini_selection_attempt :
    (row : SelectionAttemptRow) → Quiet (reserve_gemini_selection_attempt row)
unfolding reserve_gemini_selection_attempt ◌>>=◌
Quiet-reserve_gemini_selection_attempt row = record { keeps = λ s. ground arith }

pub Quiet-replace_gemini_selection_attempt_reservation :
    (row : SelectionAttemptRow) (old new : String)
    → Quiet (replace_gemini_selection_attempt_reservation row old new)
unfolding replace_gemini_selection_attempt_reservation ◌>>=◌
Quiet-replace_gemini_selection_attempt_reservation row old new = record {
  keeps = λ s. ground arith;
}

pub Quiet-start_selection_provider_attempt :
    (id : String) (n : ℕ) (model : String) → Quiet (start_selection_provider_attempt id n model)
unfolding start_selection_provider_attempt ◌>>=◌
Quiet-start_selection_provider_attempt id n model = record { keeps = λ s. ground arith }

pub Quiet-finish_selection_provider_attempt :
    (id : String) (n : ℕ) (outcome : AttemptOutcome) (reason : String)
    → Quiet (finish_selection_provider_attempt id n outcome reason)
unfolding finish_selection_provider_attempt ◌>>=◌
Quiet-finish_selection_provider_attempt id n outcome reason = record { keeps = λ s. ground arith }
