-- ===== src/Application/Duplicates.antt =====
-- A job takes one result: `apply_selection_advice_result` of src/maple_next/application/service.py.
use maple_next.Base.{
  String, Bool, true, false, ◌≡◌, refl, sym, ap, subst, arith, Option, none, some, List, [], ◌∷◌,
  Result, ok, err, ◌==◌, ==-eq, ==_refl, Bool-cases, inl, inr, any_of, find_first, string_eq,
  if◌then◌else◌,
}
use maple_next.Enums.{JobStatus, ResultDisposition, applied, succeeded, failed, invalid_rejected}
use maple_next.Models.{BattleSession}
use maple_next.Repository.{AdviceRow, Exec, ◌>>◌, lift, modify, pure, gets}
use maple_next.Repository.Run.{Run, Post, Given, Run-bind, Run-transaction, Run-ok}
use maple_next.Repository.Atomic.{IsReadOnly, gets-IsReadOnly, lift-IsReadOnly}
use maple_next.Repository.Jobs.{latest_job_by_type}
use maple_next.Repository.Sessions.{save_session, load_active_session}
use maple_next.Repository.Rows.{append_selection_advice}
use maple_next.Repository.Jobs.{update_where, update_job_status, with_status, from_row}
use maple_next.Application.SelectionResult.{
  Choice, finish, reject, judge, unless_applied, for_job, latest_of,
}
use maple_next.Enums.{selection_advice, duplicate_ignored, job_type_eq}
use maple_next.Envelopes.{ResultEnvelope}
use maple_next.Repository.{Repository, JobRow, AuditRow, ◌>>=◌, transaction}
use maple_next.Repository.Jobs.{find_job, applied_in, has_applied_result, audit_result}
use maple_next.Application.SelectionResult.{apply_selection_advice_result}

-- The audit row of a result that comes too late.
abbrev pub late : ResultEnvelope → AuditRow
late result = record {
  result_id = result.result_id;
  job_id = result.job_id;
  disposition = duplicate_ignored;
  reason = "RESULT_ALREADY_APPLIED";
}

-- A result for a Selection job that an applied result answers.
ignored :
    (result : ResultEnvelope) (s : Repository) (row : JobRow)
    → find_job result.job_id s.jobs ≡ some row
    → row.job.job_type ≡ selection_advice
    → applied_in row.job.job_id s.audits ≡ true
    → apply_selection_advice_result result s
      ≡ (ok duplicate_ignored, record s { audits = late result ∷ s.audits })
unfolding apply_selection_advice_result ◌>>=◌ transaction has_applied_result audit_result
ignored result s row h t a =
    let lane : (row.job.job_type == selection_advice) ≡ true = (job_type_eq.beq_iff _ _).1 t in
    rw (h, lane, a) refl

-- A Selection job of the id is there, and a result was applied to it.
record IsAnswered (id : String) (t : Repository) : Type 0 where
  row : JobRow
  found : find_job id t.jobs ≡ some row
  named : row.job.job_id ≡ id
  lane : row.job.job_type ≡ selection_advice
  answered : applied_in id t.audits ≡ true

find_job-job_id :
    (id : String) (rows : List JobRow) (row : JobRow)
    → find_job id rows ≡ some row
    → row.job.job_id ≡ id
unfolding find_job find_first
find_job-job_id id [] row h = cc
find_job-job_id id (x ∷ rows) row h = elim (Bool-cases (x.job.job_id == id)) [
  | inl e ↦
      let here : some x ≡ some row = rw e at h in
      let same = ==-eq x.job.job_id id e in ground (arith, here, same)
  | inr e ↦ let later : find_job id rows ≡ some row = rw e at h in find_job-job_id id rows row later
]

find_job-update_where :
    (id : String) (status : JobStatus) (rows : List JobRow) (row : JobRow)
    → find_job id rows ≡ some row
    → find_job id (update_where (λ r. r.job.job_id == id) (with_status status) rows)
      ≡ some (with_status status row)
unfolding find_job find_first update_where
find_job-update_where id status [] row h = cc
find_job-update_where id status (x ∷ rows) row h = elim (Bool-cases (x.job.job_id == id)) [
  | inl e ↦
      let here : some x ≡ some row = rw e at h in
      let same : x ≡ row = ground (arith, here) in
      rw (e, e) (ap (λ r. some (with_status status r)) same)
  | inr e ↦
      let later : find_job id rows ≡ some row = rw e at h in
      rw (e, e) (find_job-update_where id status rows row later)
]

load_active_session-IsReadOnly : IsReadOnly load_active_session
unfolding load_active_session
load_active_session-IsReadOnly = gets-IsReadOnly _

has_applied_result-IsReadOnly : (id : String) → IsReadOnly (has_applied_result id)
unfolding has_applied_result
has_applied_result-IsReadOnly id = gets-IsReadOnly _

module _ {A : Type 0} (P : Repository → Type 0) where
  undisturbed : (r : Result A) (t u : Repository) → u ≡ t → P t → Post (λ a v. P v) (r, u)
  undisturbed (ok a) t u same p = subst P (sym same) p
  undisturbed (err e) t u same p = tt

  reads-Run : {m : Exec A} → IsReadOnly m → Run P m (λ _. P)
  reads-Run {m} k = record { at = λ t p. let (r, u) = m t in undisturbed r t u (k.at t) p }

module _ (result : ResultEnvelope) (s : Repository) where
  abbrev Answers : ResultDisposition → Repository → Type 0
  Answers d t = d ≡ applied → IsAnswered result.job_id t

  abbrev SameJobs : Repository → Type 0
  SameJobs t = t.jobs ≡ s.jobs

  reject-Run :
      (d : ResultDisposition) (reason : String)
      → (d ≡ applied → ⊥)
      → Run SameJobs (reject result d reason) Answers
  unfolding audit_result ◌>>=◌ lift modify
  reject-Run d reason other = record { at = λ t p e. elim (other e) [ ] }

  append_selection_advice-Run :
      (row : AdviceRow) → Run SameJobs (append_selection_advice row) (λ _. SameJobs)
  unfolding append_selection_advice ◌>>=◌
  append_selection_advice-Run row = record { at = λ t p. ground arith }

  save_session-Run : (new : BattleSession) → Run SameJobs (save_session new) (λ _. SameJobs)
  unfolding save_session ◌>>=◌
  save_session-Run new = record { at = λ t p. ground arith }

  module _ (row : JobRow) (found : find_job result.job_id s.jobs ≡ some row)
      (lane : row.job.job_type ≡ selection_advice) where
    settle-Run :
        Run SameJobs
          (do
            update_job_status row.job.job_id succeeded
            audit_result result applied "BINDING_ACCEPTED"
            pure applied)
          Answers
    unfolding update_job_status audit_result modify lift ◌>>=◌ applied_in any_of
    settle-Run = record {
      at = λ t p e.
          let named = find_job-job_id result.job_id s.jobs row found in
          record {
            row = with_status succeeded row;
            found = rw p (
                subst
                  (λ id.
                    find_job result.job_id
                      (update_where (λ r. r.job.job_id == id) (with_status succeeded) s.jobs)
                    ≡ some (with_status succeeded row))
                  (sym named) (find_job-update_where result.job_id succeeded s.jobs row found));
            named = named;
            lane = lane;
            answered = rw (==_refl result.job_id) refl;
          };
    }

    invalid-Run :
        Run SameJobs
          (do
            audit_result result invalid_rejected "INVALID_PAYLOAD"
            update_job_status row.job.job_id failed
            pure invalid_rejected)
          Answers
    unfolding update_job_status audit_result modify lift ◌>>=◌
    invalid-Run = record { at = λ t p e. cc }

    finish-Run :
        (session : BattleSession) (choice : Option Choice)
        → Run SameJobs (finish result (from_row row) session choice) Answers
    unfolding finish
    finish-Run session none = invalid-Run
    finish-Run session (some choice) =
        Run-bind _ _ (append_selection_advice-Run _)
          λ _. Run-bind _ _ (save_session-Run _) λ _. settle-Run

    judge-Run :
        (session : Option BattleSession) (reason : Option String)
        → Run SameJobs (judge result (from_row row) session reason) Answers
    judge-Run session (some reason) = reject-Run _ reason (λ e. cc)
    judge-Run none none = reject-Run _ _ (λ e. cc)
    judge-Run (some session) none =
        Run-bind _ _ (reads-Run SameJobs (gets-IsReadOnly _)) λ facts. finish-Run session _

    latest_of-IsReadOnly : (session : Option BattleSession) → IsReadOnly (latest_of session)
    unfolding latest_job_by_type ◌>>=◌
    latest_of-IsReadOnly none = lift-IsReadOnly _
    latest_of-IsReadOnly (some session) = record { at = λ u. refl }

    unless_applied-Run :
        (already : Bool) → Run SameJobs (unless_applied result (from_row row) already) Answers
    unless_applied-Run true = reject-Run _ _ (λ e. cc)
    unless_applied-Run false =
        Run-bind _ _ (reads-Run SameJobs load_active_session-IsReadOnly) λ session.
          Run-bind _ _ (reads-Run SameJobs (latest_of-IsReadOnly session))
            λ latest. judge-Run session _

  if-Run :
      (b : Bool) (m n : Exec ResultDisposition)
      → (b ≡ true → Run SameJobs m Answers)
      → Run SameJobs n Answers
      → Run SameJobs (if b then m else n) Answers
  if-Run true m n km kn = km refl
  if-Run false m n km kn = kn

  for_job-Run :
      (found : Option JobRow)
      → find_job result.job_id s.jobs ≡ found
      → Run SameJobs (for_job result found) Answers
  for_job-Run none h = reject-Run _ _ (λ e. cc)
  for_job-Run (some row) h =
      if-Run _ _ _
        (λ e.
          Run-bind _ _ (reads-Run SameJobs (has_applied_result-IsReadOnly _))
            λ already. unless_applied-Run row h ((job_type_eq.beq_iff _ _).0 e) already)
        (reject-Run _ _ (λ e. cc))

  jobs-Run : Run SameJobs (gets (λ t. t.jobs)) (λ jobs t. SameJobs t × (jobs ≡ s.jobs))
  unfolding gets
  jobs-Run = record { at = λ t p. (p, p) }

  apply_selection_advice_result-Run : Run SameJobs (apply_selection_advice_result result) Answers
  unfolding apply_selection_advice_result
  apply_selection_advice_result-Run = Run-transaction _ (
      Run-bind _ _ jobs-Run λ jobs.
        Given SameJobs λ same.
          for_job-Run (find_job result.job_id jobs) (ap (find_job result.job_id) (sym same)))

pub apply-once :
    (first later : ResultEnvelope) (s t : Repository)
    → apply_selection_advice_result first s ≡ (ok applied, t)
    → later.job_id ≡ first.job_id
    → apply_selection_advice_result later t
      ≡ (ok duplicate_ignored, record t { audits = late later ∷ t.audits })
apply-once first later s t h same =
    let a = Run-ok (apply_selection_advice_result-Run first s) refl h refl in
    ignored later t a.row (rw same a.found) a.lane (rw a.named a.answered)
