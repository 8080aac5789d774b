-- ===== src/Repository/Recovery.antt =====
-- What `recover_unfinished_jobs` of src/maple_next/persistence/job_store.py makes of the job ledger.
use maple_next.Base.{
  false, ◌&&◌, ◌≡◌, refl, List, [], ◌∷◌, any_of, arith, ap, ◌==◌, Bool-cases, inl, inr,
}
use maple_next.Enums.{JobStatus-discrete, in_flight, job_status_eq, job_type_eq}
use maple_next.Envelopes.{JobEnvelope}
use maple_next.Repository.{JobRow}
use maple_next.Repository.Jobs.{recover_rows, is_unfinished, recovered, is_provider}

-- The row that recovery leaves, alone in its ledger.
settled_status : (job : JobEnvelope) → is_unfinished (recovered job) ≡ false
unfolding JobStatus-discrete
settled_status job = elim (Bool-cases (is_provider job.job_type && job.status == in_flight)) [
  | inl e ↦ rw e refl
  | inr e ↦ rw e refl
]

-- After recovery no job is queued or in flight.
pub recover_rows-settles :
    (rows : List JobRow) → any_of (λ row. is_unfinished row.job.status) (recover_rows rows) ≡ false
unfolding recover_rows any_of
recover_rows-settles [] = refl
recover_rows-settles (row ∷ rows) =
    let rest = recover_rows-settles rows in
    let s = settled_status row.job in
    elim (Bool-cases (is_unfinished row.job.status)) [ inl e ↦ ground arith | inr e ↦ ground arith ]

-- A ledger without open jobs is not changed by recovery.
pub recover_rows-settled :
    (rows : List JobRow)
    → any_of (λ row. is_unfinished row.job.status) rows ≡ false
    → recover_rows rows ≡ rows
unfolding recover_rows any_of
recover_rows-settled [] h = refl
recover_rows-settled (row ∷ rows) h = elim (Bool-cases (is_unfinished row.job.status)) [
  | inl e ↦ ground arith
  | inr e ↦ let rest = recover_rows-settled rows (ground arith) in rw e (ap (λ r. row ∷ r) rest)
]

-- Recovering twice is recovering once.
pub recover_rows_idem : (rows : List JobRow) → recover_rows (recover_rows rows) ≡ recover_rows rows
recover_rows_idem rows = recover_rows-settled (recover_rows rows) (recover_rows-settles rows)
