-- ===== src/Application/Restart.antt =====
-- What src/maple_next/application/service.py asks of a provider after `recover_after_restart`.
use maple_next.Base.{
  String, Bool, true, ◌&&◌, ◌≡◌, refl, sym, ap, ◌∙◌, Option, some, List, [], ◌∷◌, Result, ok, err,
  Error, arith, find_first, if◌then◌else◌, Bool-cases, inl, inr, ◌==◌, string_eq,
}
use maple_next.Enums.{
  JobType, in_flight, delivery_unknown, JobStatus-discrete, job_type_eq, job_status_eq,
}
use maple_next.Enums.{selection_advice, turn_advice, selection_open, turn_reviewed}
use maple_next.TeamBuild.{TeamBuild}
use maple_next.Models.{BattleSession, TurnFactsSnapshot}
use maple_next.Envelopes.{JobEnvelope}
use maple_next.SelectionRequest.{SelectionAdviceRequest}
use maple_next.Repository.{Repository, JobRow, Exec, ◌>>=◌, transaction, modify, lift}
use maple_next.Repository.Sessions.{find_active}
use maple_next.Repository.Atomic.{Raised, IsAtomic, IsReadOnly, transaction-IsAtomic}
use maple_next.Repository.Run.{Run, Post, Run-transaction}
use maple_next.Repository.Trace.{Now, looks, makes, needs, passes}
use maple_next.Repository.Jobs.{latest_job_by_type, recover_unfinished_jobs}
use maple_next.Application.Match.{recover_after_restart}
use maple_next.Application.Selection.{request_selection_advice}
use maple_next.Application.TurnAdvice.{request_turn_advice}
use maple_next.Application.Effect.Rich.{require_session-IsReadOnly, get_turn-IsReadOnly}
use maple_next.Application.Recorded.{get_turn_facts-IsReadOnly}
use maple_next.Application.SwitchLaws.{get_applied_selection-IsReadOnly}
use maple_next.Application.Phases.{session_found}
use maple_next.Repository.Jobs.{
  find_latest, recover_rows, recovered, is_unfinished, is_provider, with_status, from_row,
}
use maple_next.Application.Session.{guard_provider_request}

abbrev settled : JobRow → JobRow
settled row = if is_unfinished row.job.status then with_status (recovered row.job) row else row

module _ (session_id : String) (job_type : JobType) where
  abbrev in_lane : JobRow → Bool
  in_lane row = row.job.session_id == session_id && row.job.job_type == job_type

  in_lane-settled : (row : JobRow) → in_lane (settled row) ≡ in_lane row
  in_lane-settled row = elim (Bool-cases (is_unfinished row.job.status)) [
    | inl e ↦ rw e refl
    | inr e ↦ rw e refl
  ]

  recover-find_latest :
      (rows : List JobRow) (row : JobRow)
      → find_latest session_id job_type rows ≡ some row
      → find_latest session_id job_type (recover_rows rows) ≡ some (settled row)
  unfolding find_latest recover_rows find_first
  recover-find_latest [] row h = cc
  recover-find_latest (x ∷ rows) row h = elim (Bool-cases (in_lane x)) [
    | inl e ↦
        let same : x ≡ row = ground arith in
        rw (in_lane-settled x, e) (ap (λ r. some (settled r)) same)
    | inr e ↦ rw (in_lane-settled x, e) (recover-find_latest rows row (ground arith))
  ]

  lane_of :
      (rows : List JobRow) (row : JobRow)
      → find_latest session_id job_type rows ≡ some row
      → in_lane row ≡ true
  unfolding find_latest find_first
  lane_of [] row h = cc
  lane_of (x ∷ rows) row h = elim (Bool-cases (in_lane x)) [
    | inl e ↦ let same : x ≡ row = ground arith in rw (← same) e
    | inr e ↦ lane_of rows row (ground arith)
  ]

-- A request to the provider by a lane: it raises, and leaves the repository as it is.
module _ (sha256 : TeamBuild → String) (payload_hash : SelectionAdviceRequest → String)
    (request_hash : BattleSession
      → TurnFactsSnapshot
      → List String
      → Option TeamBuild
      → Result String) where
  abbrev pub RefusesRequests : JobType → Repository → Type 0
  RefusesRequests selection_advice t =
      (job_id command_id now : String)
      → (e : Error) × (request_selection_advice sha256 payload_hash job_id command_id now t
          ≡ (err e, t))
  RefusesRequests turn_advice t =
      (job_id command_id now : String)
      → (e : Error) × (request_turn_advice request_hash job_id command_id now t ≡ (err e, t))
  RefusesRequests _ t = Unit

raised_as :
    {A : Type 0} (t : Repository) (r : Result A) (u : Repository)
    → Raised t (r, u)
    → Post (λ a v. ⊥) (r, u)
    → (e : Error) × Path (Result A × Repository) (r, u) (err e, t)
raised_as t (ok a) u h p = elim p [ ]
raised_as t (err e) u h p = (e, ap (λ v. (err e, v)) h)

-- What never returns raises.
raises :
    {A : Type 0} (m : Exec A) (t : Repository)
    → IsAtomic m
    → Run (Now t) m (λ a v. ⊥)
    → (e : Error) × (m t ≡ (err e, t))
raises m t k r = let (x, u) = m t in raised_as t x u (k.at t) (r.at t refl)

latest_job_by_type-IsReadOnly :
    (session_id : String) (lane : JobType) → IsReadOnly (latest_job_by_type session_id lane)
unfolding latest_job_by_type ◌>>=◌
latest_job_by_type-IsReadOnly session_id lane = record { at = λ s. refl }

latest_found :
    (session_id : String) (lane : JobType) (t : Repository) (row : JobRow)
    (latest : Option JobEnvelope)
    → find_latest session_id lane t.jobs ≡ some row
    → latest_job_by_type session_id lane t ≡ (ok latest, t)
    → latest ≡ some (from_row row)
unfolding latest_job_by_type ◌>>=◌
latest_found session_id lane t row latest h l = ground (arith, h, l)

unknown_refused :
    (row : JobRow) (latest : Option JobEnvelope) (u : Unit {0})
    → latest ≡ some (from_row (with_status delivery_unknown row))
    → guard_provider_request latest ≡ ok u
    → ⊥
unfolding guard_provider_request JobStatus-discrete
unknown_refused row latest u h g = let k = rw h at g in ground (arith, k)

module _ (t : Repository) (session : BattleSession) (row : JobRow)
    (active : find_active t.sessions ≡ some session) where
  same_id :
      (old : BattleSession)
      → find_active t.sessions ≡ some old
      → old.session_id ≡ session.session_id
  same_id old h = ground (arith, h, active)

  module _ (lane : JobType)
      (newest : find_latest session.session_id lane t.jobs
        ≡ some (with_status delivery_unknown row)) where
    no_request :
        (old : BattleSession) (latest : Option JobEnvelope) (u : Unit {0})
        → find_active t.sessions ≡ some old
        → latest_job_by_type old.session_id lane t ≡ (ok latest, t)
        → guard_provider_request latest ≡ ok u
        → ⊥
    no_request old latest u act l g =
        let there = rw (sym (same_id old act)) at newest in
        unknown_refused row latest u
          (latest_found old.session_id lane t (with_status delivery_unknown row) latest there l) g

module _ (sha256 : TeamBuild → String) (payload_hash : SelectionAdviceRequest → String)
    (request_hash : BattleSession
      → TurnFactsSnapshot
      → List String
      → Option TeamBuild
      → Result String)
    (t : Repository) (session : BattleSession) (row : JobRow)
    (active : find_active t.sessions ≡ some session) where
  selection-RefusesRequests :
      find_latest session.session_id selection_advice t.jobs
        ≡ some (with_status delivery_unknown row)
      → RefusesRequests sha256 payload_hash request_hash selection_advice t
  unfolding request_selection_advice lift
  selection-RefusesRequests newest job_id command_id now = raises _ t (transaction-IsAtomic _) (
      Run-transaction _ (
        looks t _ _ (require_session-IsReadOnly selection_open) λ old act. needs t _ _ _ λ id _.
          looks t _ _ (latest_job_by_type-IsReadOnly _ _) λ latest l. makes t _ _ λ u g.
            elim (no_request t session row active selection_advice newest old latest u
              (session_found selection_open t t old act) l g) [ ]))

  turn-RefusesRequests :
      find_latest session.session_id turn_advice t.jobs ≡ some (with_status delivery_unknown row)
      → RefusesRequests sha256 payload_hash request_hash turn_advice t
  unfolding request_turn_advice lift
  turn-RefusesRequests newest job_id command_id now = raises _ t (transaction-IsAtomic _) (
      Run-transaction _ (
        looks t _ _ (require_session-IsReadOnly turn_reviewed) λ old act. needs t _ _ _ λ turn_id _.
          needs t _ _ _ λ board_id _. needs t _ _ _ λ applied_id _. passes (Now t) _ _ _ λ _.
            looks t _ _ (get_turn-IsReadOnly turn_id) λ turn _.
              looks t _ _ (get_turn_facts-IsReadOnly board_id) λ facts _.
                looks t _ _ (get_applied_selection-IsReadOnly applied_id) λ applied _.
                  looks t _ _ (latest_job_by_type-IsReadOnly _ _) λ latest l. makes t _ _ λ u g.
                    elim (no_request t session row active turn_advice newest old latest u
                      (session_found turn_reviewed t t old act) l g) [ ]))

  lane-RefusesRequests :
      (lane : JobType)
      → find_latest session.session_id lane t.jobs ≡ some (with_status delivery_unknown row)
      → RefusesRequests sha256 payload_hash request_hash lane t
  lane-RefusesRequests JobType.capture h = tt
  lane-RefusesRequests JobType.ocr h = tt
  lane-RefusesRequests selection_advice h = selection-RefusesRequests h
  lane-RefusesRequests turn_advice h = turn-RefusesRequests h

pub restart-refuses :
    (sha256 : TeamBuild → String) (payload_hash : SelectionAdviceRequest → String)
    (request_hash : BattleSession
      → TurnFactsSnapshot
      → List String
      → Option TeamBuild
      → Result String)
    (s : Repository) (session : BattleSession) (lane : JobType) (row : JobRow)
    → find_active s.sessions ≡ some session
    → find_latest session.session_id lane s.jobs ≡ some row
    → is_provider lane ≡ true
    → row.job.status ≡ in_flight
    → let t = (recover_after_restart s).1 in
      (find_latest session.session_id lane t.jobs ≡ some (with_status delivery_unknown row))
      × RefusesRequests sha256 payload_hash request_hash lane t
unfolding recover_after_restart recover_unfinished_jobs transaction modify JobStatus-discrete
restart-refuses sha256 payload_hash request_hash s session lane row active h p st =
    let on_lane : (row.job.job_type == lane) ≡ true =
      ground (arith, lane_of session.session_id lane s.jobs row h) in
    let type = (job_type_eq.beq_iff row.job.job_type lane).0 on_lane in
    let provider : is_provider row.job.job_type ≡ true = rw type p in
    let same : settled row ≡ with_status delivery_unknown row = rw (st, provider) refl in
    let newest = recover-find_latest session.session_id lane s.jobs row h ∙ ap some same in
    (
      newest,
      lane-RefusesRequests sha256 payload_hash request_hash
          (record s { jobs = recover_rows s.jobs }) session row active lane newest,
    )
