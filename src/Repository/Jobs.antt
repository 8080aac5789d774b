-- ===== src/Repository/Jobs.antt =====
-- src/maple_next/persistence/job_store.py: the job ledger and the audit of results.
use maple_next.Base.{
  ◌+◌, String, Bool, true, false, ◌&&◌, ◌||◌, Option, none, some, List, [], ◌∷◌, if◌then◌else◌,
  any_of, find_first, key_error, ◌==◌, string_eq, nat_eq,
}
use maple_next.Enums.{
  JobType, JobStatus, queued, in_flight, interrupted, delivery_unknown, selection_advice,
  turn_advice, ResultDisposition, applied, job_type_eq, job_status_eq,
}
use maple_next.Envelopes.{JobEnvelope, ResultEnvelope}
use maple_next.Repository.{
  JobRow, AuditRow, Exec, ◌>>=◌, ◌>>◌, gets, modify, pure, required, constraint,
}

unfoldable pub insert_job : JobEnvelope → Exec Unit
insert_job job = do
  rows ← gets (λ s. s.jobs)
  constraint (any_of (λ row. row.job.job_id == job.job_id) rows) "async_jobs.job_id"
  modify (λ s. record s { jobs = record { job = job; dispatch_count = 0 } ∷ s.jobs })

unfoldable pub find_job : String → List JobRow → Option JobRow
find_job job_id rows = find_first (λ row. row.job.job_id == job_id) rows

-- The contract version is no column: a job is read back with the fixed one.
abbrev pub from_row : JobRow → JobEnvelope
from_row row = record row.job { contract_version = "maple-worker.v1" }

unfoldable pub get_job : String → Exec JobEnvelope
get_job job_id = do
  rows ← gets (λ s. s.jobs)
  row ← required (key_error job_id) (find_job job_id rows)
  pure (from_row row)

unfoldable pub update_where : (JobRow → Bool) → (JobRow → JobRow) → List JobRow → List JobRow
update_where p f [] = []
update_where p f (row ∷ rows) = (if p row then f row else row) ∷ update_where p f rows

abbrev pub with_status : JobStatus → JobRow → JobRow
with_status status row = record row { job = record row.job { status = status } }

unfoldable pub update_job_status : String → JobStatus → Exec Unit
unfolding update_where
update_job_status job_id status = modify λ s. record s {
  jobs = update_where (λ row. row.job.job_id == job_id) (with_status status) s.jobs;
}

abbrev pub dispatched : JobRow → JobRow
dispatched row = record (with_status in_flight row) { dispatch_count = row.dispatch_count + 1 }

unfoldable pub mark_job_in_flight : String → Exec Unit
unfolding update_where
mark_job_in_flight job_id =
    modify λ s. record s { jobs = update_where (λ row. row.job.job_id == job_id) dispatched s.jobs }

unfoldable pub find_latest : String → JobType → List JobRow → Option JobRow
find_latest session_id job_type rows =
    find_first (λ row. row.job.session_id == session_id && row.job.job_type == job_type) rows

abbrev read_back : Option JobRow → Option JobEnvelope
read_back none = none
read_back (some row) = some (from_row row)

-- The newest row is the first of the list.
unfoldable pub latest_job_by_type : String → JobType → Exec (Option JobEnvelope)
latest_job_by_type session_id job_type = do
  rows ← gets (λ s. s.jobs)
  pure (read_back (find_latest session_id job_type rows))

abbrev pub is_unfinished : JobStatus → Bool
is_unfinished status = status == queued || status == in_flight

abbrev pub is_provider : JobType → Bool
is_provider job_type = job_type == selection_advice || job_type == turn_advice

abbrev pub recovered : JobEnvelope → JobStatus
recovered job =
    if is_provider job.job_type && job.status == in_flight then delivery_unknown else interrupted

unfoldable pub recover_rows : List JobRow → List JobRow
recover_rows [] = []
recover_rows (row ∷ rows) =
    (if is_unfinished row.job.status then with_status (recovered row.job) row else row)
    ∷ recover_rows rows

unfoldable pub recover_unfinished_jobs : Exec Unit
recover_unfinished_jobs = modify (λ s. record s { jobs = recover_rows s.jobs })

abbrev is_applied : ResultDisposition → Bool
is_applied applied = true
is_applied _ = false

unfoldable pub applied_in : String → List AuditRow → Bool
applied_in job_id rows = any_of (λ row. row.job_id == job_id && is_applied row.disposition) rows

unfoldable pub has_applied_result : String → Exec Bool
has_applied_result job_id = gets (λ s. applied_in job_id s.audits)

unfoldable pub audit_result : ResultEnvelope → ResultDisposition → String → Exec Unit
audit_result result disposition reason = modify λ s. record s {
  audits =
      record {
        result_id = result.result_id;
        job_id = result.job_id;
        disposition = disposition;
        reason = reason;
      }
      ∷ s.audits;
}
