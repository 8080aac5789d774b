-- ===== src/Repository/Lanes.antt =====
-- In the job ledger a job of a provider's lane expects the state in which its lane asks: what the writes
-- of src/maple_next/persistence/job_store.py keep.
use maple_next.Base.{
  String, Bool, true, false, ◌≡◌, refl, subst, sym, List, [], ◌∷◌, Option, some, none, arith,
  if◌then◌else◌, Bool-cases, inl, inr, find_first, ◌==◌, string_eq, ok, Result, err,
}
use maple_next.Enums.{
  in_flight, JobType, JobStatus, BattleState, selection_advice, turn_advice, selection_open,
  turn_reviewed, job_type_eq,
}
use maple_next.Envelopes.{JobEnvelope}
use maple_next.Repository.{Repository, JobRow, ◌>>=◌}
use maple_next.Repository.Jobs.{
  insert_job, update_where, update_job_status, mark_job_in_flight, recover_rows,
  recover_unfinished_jobs, find_job, dispatched,
}
use maple_next.Repository.Keeps.{Keeps}

abbrev pub Expects : JobType → BattleState → JobEnvelope → Type 0
Expects lane state job = (job.job_type == lane) ≡ true → job.expected_state ≡ state

-- A job asks in the state of its lane.
pub record BindsLane (job : JobEnvelope) : Type 0 where
  pub selection : Expects selection_advice selection_open job
  pub turn : Expects turn_advice turn_reviewed job

pub data AllBind : List JobRow → Type 0 where
  no_jobs : AllBind []
  one_job :
      (row : JobRow) (rows : List JobRow) → BindsLane row.job → AllBind rows → AllBind (row ∷ rows)

abbrev pub Bound : Repository → Type 0
Bound s = AllBind s.jobs

restated :
    (job : JobEnvelope) (status : JobStatus)
    → BindsLane job
    → BindsLane (record job { status = status })
restated job status b = record { selection = b.selection; turn = b.turn }

if-BindsLane :
    (b : Bool) (x y : JobRow)
    → BindsLane x.job
    → BindsLane y.job
    → BindsLane (if b then x else y).job
if-BindsLane true x y bx by_ = bx
if-BindsLane false x y bx by_ = by_

update_where-AllBind :
    (p : JobRow → Bool) (f : JobRow → JobRow) (rows : List JobRow)
    → ((row : JobRow) → BindsLane row.job → BindsLane (f row).job)
    → AllBind rows
    → AllBind (update_where p f rows)
unfolding update_where
update_where-AllBind p f [] k no_jobs = no_jobs
update_where-AllBind p f (row ∷ rows) k (one_job _ _ b bs) =
    one_job _ _ (if-BindsLane _ _ _ (k row b) b) (update_where-AllBind p f rows k bs)

recover_rows-AllBind : (rows : List JobRow) → AllBind rows → AllBind (recover_rows rows)
unfolding recover_rows
recover_rows-AllBind [] no_jobs = no_jobs
recover_rows-AllBind (row ∷ rows) (one_job _ _ b bs) =
    one_job _ _ (if-BindsLane _ _ _ (restated row.job _ b) b) (recover_rows-AllBind rows bs)

pub update_job_status-Bound :
    (id : String) (status : JobStatus) → Keeps Bound (update_job_status id status)
unfolding update_job_status ◌>>=◌
update_job_status-Bound id status = record {
  kept = λ s i. update_where-AllBind _ _ s.jobs (λ row b. restated row.job status b) i;
}

pub mark_job_in_flight-Bound : (id : String) → Keeps Bound (mark_job_in_flight id)
unfolding mark_job_in_flight ◌>>=◌
mark_job_in_flight-Bound id = record {
  kept = λ s i.
      update_where-AllBind (λ row. row.job.job_id == id) dispatched s.jobs
        (λ row b. restated row.job in_flight b) i;
}

pub recover_unfinished_jobs-Bound : Keeps Bound recover_unfinished_jobs
unfolding recover_unfinished_jobs ◌>>=◌
recover_unfinished_jobs-Bound = record { kept = λ s i. recover_rows-AllBind s.jobs i }

append-Bound :
    (job : JobEnvelope) (s : Repository) → BindsLane job → Bound s → Bound (insert_job job s).1
unfolding insert_job ◌>>=◌
append-Bound job s b i =
    elim (Bool-cases (maple_next.Base.any_of (λ row. row.job.job_id == job.job_id) s.jobs)) [
      | inl e ↦ rw e i
      | inr e ↦ rw e (one_job _ _ b i)
    ]

pub insert_job-Bound : (job : JobEnvelope) → BindsLane job → Keeps Bound (insert_job job)
insert_job-Bound job b = record { kept = λ s i. append-Bound job s b i }

pub find_job-BindsLane :
    (id : String) (rows : List JobRow) (row : JobRow)
    → AllBind rows
    → find_job id rows ≡ some row
    → BindsLane row.job
unfolding find_job find_first
find_job-BindsLane id [] row no_jobs h = ground arith
find_job-BindsLane id (x ∷ rows) row (one_job _ _ b bs) h = elim (Bool-cases (x.job.job_id == id)) [
  | inl e ↦ let same : x ≡ row = ground arith in subst (λ (r : JobRow). BindsLane r.job) same b
  | inr e ↦ find_job-BindsLane id rows row bs (ground arith)
]
