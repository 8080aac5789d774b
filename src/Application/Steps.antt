-- ===== src/Application/Steps.antt =====
-- What the commands do to the repository, and the repositories that they reach from a new database.
use maple_next.Base.{false, true, String, ◌≡◌, refl, Option, none, some, ◌≤◌, [], Result, ok, err}
use maple_next.Enums.{selection_advice, turn_advice, selection_open, turn_reviewed}
use maple_next.Repository.{Repository, Exec, JobRow}
use maple_next.Repository.Jobs.{find_job}
use maple_next.Repository.Run.{Post}
use maple_next.Repository.Quiet.{Quiet}
use maple_next.Repository.Unchanged.{
  Quiet-start_selection_provider_attempt, Quiet-finish_selection_provider_attempt,
}
use maple_next.Repository.Atomic.{IsAtomic, Raised, transaction-IsAtomic}
use maple_next.Repository.Lanes.{Bound, BindsLane, no_jobs, find_job-BindsLane}
use maple_next.Repository.LanesKept.{
  start_selection_provider_attempt-Bound, finish_selection_provider_attempt-Bound,
}
use maple_next.Application.Match.{
  new_match, abort_match, update_metadata, end_match, new_match_after_export,
}
use maple_next.Application.Export.Run.{export_match}
use maple_next.Application.Selection.{confirm_selection_facts, apply_selection}
use maple_next.Application.Turn.{
  start_turn_capture, confirm_turn_facts, record_actual_action, next_turn,
}
use maple_next.Application.TurnAdvice.{apply_turn_advice_result}
use maple_next.Application.SelectionResult.{apply_selection_advice_result}
use maple_next.Application.Effect.{Purpose, Effect, kept}
use maple_next.Application.Effect.Rules.{HasEffect}
use maple_next.Application.Effect.Accepted.{LaneBinds}
use maple_next.Application.Effect.Commands.{
  start_turn_capture-HasEffect, next_turn-HasEffect, abort_match-HasEffect,
  update_metadata-HasEffect, end_match-HasEffect,
}
use maple_next.Application.Effect.Reviews.{
  confirm_selection_facts-HasEffect, apply_selection-HasEffect, confirm_turn_facts-HasEffect,
  record_actual_action-HasEffect,
}
use maple_next.Application.Effect.Openings.{new_match-HasEffect, new_match_after_export-HasEffect}
use maple_next.Application.Effect.Exports.{export_match-HasEffect}
use maple_next.Application.Effect.Advice.{
  recover_after_restart-Quiet, request_selection_advice-Quiet, request_turn_advice-Quiet,
  mark_advice_dispatched-Quiet, fail_advice_job-Quiet, reserve_gemini_selection-Quiet,
}
use maple_next.Application.Effect.Results.{apply_selection_advice_result-HasEffect}
use maple_next.Application.Effect.TurnResults.{apply_turn_advice_result-HasEffect}
use maple_next.Application.Atomic.{
  abort_match-IsAtomic, end_match-IsAtomic, export_match-IsAtomic, confirm_selection_facts-IsAtomic,
  apply_selection-IsAtomic, confirm_turn_facts-IsAtomic, record_actual_action-IsAtomic,
}
use maple_next.Application.Lanes.{
  new_match-Bound, abort_match-Bound, update_metadata-Bound, recover_after_restart-Bound,
  end_match-Bound, new_match_after_export-Bound, confirm_selection_facts-Bound,
  request_selection_advice-Bound, apply_selection-Bound, start_turn_capture-Bound,
  confirm_turn_facts-Bound, record_actual_action-Bound, next_turn-Bound,
}
use maple_next.Application.Lanes.Openings.{export_match-Bound, reserve_gemini_selection-Bound}
use maple_next.Application.Lanes.Advice.{
  request_turn_advice-Bound, apply_selection_advice_result-Bound, apply_turn_advice_result-Bound,
  mark_advice_dispatched-Bound, fail_advice_job-Bound,
}
use maple_next.Application.Command.{
  Outside, Step, by_new_match, by_abort_match, by_update_metadata, by_recover, by_end_match,
  by_export_match, by_new_match_after_export, by_confirm_selection, by_request_selection,
  by_gemini_selection, by_started_attempt, by_finished_attempt, by_selection_result,
  by_apply_selection, by_start_turn, by_confirm_turn, by_request_turn, by_turn_result,
  by_record_action, by_next_turn, by_mark_dispatched, by_fail_job, by_record_rich,
  by_next_turn_with_result, by_confirm_switches, by_store, purpose_of, must_change, is_ok,
}
use maple_next.Repository.Elsewhere.{Elsewhere-Quiet, Elsewhere-Bound}
use maple_next.Application.Rich.{record_rich_actual_action, next_turn_with_action_result}
use maple_next.Application.Effect.Rich.{
  record_rich_actual_action-HasEffect, record_rich_actual_action-IsAtomic,
  record_rich_actual_action-Bound, next_turn_with_action_result-HasEffect,
  next_turn_with_action_result-IsAtomic, next_turn_with_action_result-Bound,
  confirm_current_switches-Quiet, confirm_current_switches-Bound, store-Elsewhere,
}
use maple_next.Application.Exclusion.{
  IsTable, no_rows, effect-IsTable, count_active, IsTable-one_active,
}
use maple_next.Application.Coherence.{AllCoherent, none_yet, effect-AllCoherent}

selection_found :
    (found : Option JobRow)
    → ((row : JobRow) → found ≡ some row → BindsLane row.job)
    → LaneBinds selection_advice selection_open found
selection_found none k = tt
selection_found (some row) k = (k row refl).selection

turn_found :
    (found : Option JobRow)
    → ((row : JobRow) → found ≡ some row → BindsLane row.job)
    → LaneBinds turn_advice turn_reviewed found
turn_found none k = tt
turn_found (some row) k = (k row refl).turn

selection_lane :
    (s : Repository) (id : String)
    → Bound s
    → LaneBinds selection_advice selection_open (find_job id s.jobs)
selection_lane s id b = selection_found _ (λ row. find_job-BindsLane id s.jobs row b)

turn_lane :
    (s : Repository) (id : String)
    → Bound s
    → LaneBinds turn_advice turn_reviewed (find_job id s.jobs)
turn_lane s id b = turn_found _ (λ row. find_job-BindsLane id s.jobs row b)

module _ {A : Type 0} {p : Purpose} where
  returned-Effect :
      (s : Repository) (r : Result A) (s' : Repository)
      → Raised s (r, s')
      → Post (λ _ t. Effect p true s.sessions t.sessions) (r, s')
      → Effect p (is_ok r) s.sessions s'.sessions
  returned-Effect s (ok a) s' h e = e
  returned-Effect s (err x) s' h e = kept refl (rw h refl)

  -- A command that does its work if it returns.
  ran :
      (m : Exec A) (s : Repository)
      → IsAtomic m
      → HasEffect s.sessions p true m
      → Effect p (is_ok (m s).0) s.sessions (m s).1.sessions
  ran m s atomic e = let (r, s') = m s in returned-Effect s r s' (atomic.at s) (e.at s refl)

  allowed-Effect :
      (s : Repository) (r : Result A) (s' : Repository)
      → Raised s (r, s')
      → Post (λ _ t. Effect p false s.sessions t.sessions) (r, s')
      → Effect p false s.sessions s'.sessions
  allowed-Effect s (ok a) s' h e = e
  allowed-Effect s (err x) s' h e = kept refl (rw h refl)

  -- A command that may return with its work undone.
  runs :
      (m : Exec A) (s : Repository)
      → IsAtomic m
      → Post (λ _ t. Effect p false s.sessions t.sessions) (m s)
      → Effect p false s.sessions (m s).1.sessions
  runs m s atomic e = let (r, s') = m s in allowed-Effect s r s' (atomic.at s) e

  quietly : (m : Exec A) (s : Repository) → Quiet m → Effect p false s.sessions (m s).1.sessions
  quietly m s q = kept refl (q.keeps s)

-- Every command does to the table of sessions what its purpose allows. An edit keeps the state and loses no
-- revision; a command that brings a session to a state takes the active session along an edge of the life of
-- a match to that state, with one revision, or edits it where it is in that state already; one that opens a
-- match adds a fresh session, where none is active or the active one is exported and released. A command that
-- raises may leave the table as it is, and so may a returning worker result and a returning export; any other
-- command with such a purpose, if it returns, has done its work. The others leave the table as it is. In the
-- repository before the command, each job expects the state of its lane.
pub step-Effect :
    (o : Outside) (s s' : Repository)
    → Bound s
    → (step : Step o s s') → Effect (purpose_of step) (must_change step) s.sessions s'.sessions
unfolding new_match update_metadata new_match_after_export apply_selection_advice_result
    start_turn_capture apply_turn_advice_result next_turn
step-Effect o s s' lanes (by_new_match a b p) =
    ran (new_match a b p) s (transaction-IsAtomic _) (new_match-HasEffect s.sessions a b p)
step-Effect o s s' lanes (by_abort_match h) =
    ran (abort_match h) s (abort_match-IsAtomic h) (abort_match-HasEffect s.sessions h)
step-Effect o s s' lanes by_update_metadata =
    ran update_metadata s (transaction-IsAtomic _) (update_metadata-HasEffect s.sessions)
step-Effect o s s' lanes by_recover = quietly _ s recover_after_restart-Quiet
step-Effect o s s' lanes (by_end_match m h now) =
    ran (end_match m h now) s (end_match-IsAtomic m h now) (end_match-HasEffect s.sessions m h now)
step-Effect o s s' lanes (by_export_match w now) =
    runs (export_match w now) s (export_match-IsAtomic w now)
      ((export_match-HasEffect s.sessions w now).at s refl)
step-Effect o s s' lanes (by_gemini_selection job command now) =
    quietly _ s (reserve_gemini_selection-Quiet o.read_int o.sha256 o.payload_hash job command now)
step-Effect o s s' lanes (by_started_attempt job n model) =
    quietly _ s (Quiet-start_selection_provider_attempt job n model)
step-Effect o s s' lanes (by_finished_attempt job n outcome reason) =
    quietly _ s (Quiet-finish_selection_provider_attempt job n outcome reason)
step-Effect o s s' lanes (by_new_match_after_export a b p) =
    ran (new_match_after_export a b p) s (transaction-IsAtomic _)
      (new_match_after_export-HasEffect s.sessions a b p)
step-Effect o s s' lanes (by_confirm_selection id t u b) =
    ran (confirm_selection_facts o.sha256 o.payload_hash id t u b) s
      (confirm_selection_facts-IsAtomic o.sha256 o.payload_hash id t u b)
      (confirm_selection_facts-HasEffect s.sessions o.sha256 o.payload_hash id t u b)
step-Effect o s s' lanes (by_request_selection job command now) =
    quietly _ s (request_selection_advice-Quiet o.sha256 o.payload_hash job command now)
step-Effect o s s' lanes (by_selection_result r) =
    runs (apply_selection_advice_result r) s (transaction-IsAtomic _) (
      (apply_selection_advice_result-HasEffect s.sessions r).at s
        (refl, selection_lane s r.job_id lanes))
step-Effect o s s' lanes (by_apply_selection id three lead h) =
    ran (apply_selection id three lead h) s (apply_selection-IsAtomic id three lead h)
      (apply_selection-HasEffect s.sessions id three lead h)
step-Effect o s s' lanes (by_start_turn id) =
    ran (start_turn_capture id) s (transaction-IsAtomic _)
      (start_turn_capture-HasEffect s.sessions id)
step-Effect o s s' lanes (by_confirm_turn id entry h) =
    ran (confirm_turn_facts id entry h) s (confirm_turn_facts-IsAtomic id entry h)
      (confirm_turn_facts-HasEffect s.sessions id entry h)
step-Effect o s s' lanes (by_request_turn job command now) =
    quietly _ s (request_turn_advice-Quiet o.request_hash job command now)
step-Effect o s s' lanes (by_turn_result r) =
    runs (apply_turn_advice_result o.read_body r) s (transaction-IsAtomic _) (
      (apply_turn_advice_result-HasEffect s.sessions r o.read_body).at s
        (refl, turn_lane s r.job_id lanes))
step-Effect o s s' lanes (by_record_action id entry h) =
    ran (record_actual_action id entry h) s (record_actual_action-IsAtomic id entry h)
      (record_actual_action-HasEffect s.sessions id entry h)
step-Effect o s s' lanes (by_next_turn id) =
    ran (next_turn id) s (transaction-IsAtomic _) (next_turn-HasEffect s.sessions id)
step-Effect o s s' lanes (by_mark_dispatched lane w job) =
    quietly _ s (mark_advice_dispatched-Quiet lane w job)
step-Effect o s s' lanes (by_fail_job lane job reason) =
    quietly _ s (fail_advice_job-Quiet lane job reason)
step-Effect o s s' lanes (by_record_rich rich id entry h) =
    ran (record_rich_actual_action o.python rich id entry h) s
      (record_rich_actual_action-IsAtomic o.python rich id entry h)
      (record_rich_actual_action-HasEffect o.python rich id entry h s.sessions)
step-Effect o s s' lanes (by_next_turn_with_result state delta id draft_id now) =
    ran (next_turn_with_action_result o.python state delta id draft_id now) s
      (next_turn_with_action_result-IsAtomic o.python state delta id draft_id now)
      (next_turn_with_action_result-HasEffect o.python state delta id draft_id now s.sessions)
step-Effect o s s' lanes (by_confirm_switches names status h id now) =
    quietly _ s (confirm_current_switches-Quiet o.python names status h id now)
step-Effect o s s' lanes (by_store w) = quietly _ s (Elsewhere-Quiet _ (store-Elsewhere w))

pub Step-Bound : (o : Outside) (s s' : Repository) → Step o s s' → Bound s → Bound s'
Step-Bound o s s' (by_new_match a b p) = (new_match-Bound a b p).kept s
Step-Bound o s s' (by_export_match w now) = (export_match-Bound w now).kept s
Step-Bound o s s' (by_gemini_selection job command now) =
    (reserve_gemini_selection-Bound o.read_int o.sha256 o.payload_hash job command now).kept s
Step-Bound o s s' (by_started_attempt job n model) =
    (start_selection_provider_attempt-Bound job n model).kept s
Step-Bound o s s' (by_finished_attempt job n outcome reason) =
    (finish_selection_provider_attempt-Bound job n outcome reason).kept s
Step-Bound o s s' (by_abort_match h) = (abort_match-Bound h).kept s
Step-Bound o s s' by_update_metadata = update_metadata-Bound.kept s
Step-Bound o s s' by_recover = recover_after_restart-Bound.kept s
Step-Bound o s s' (by_end_match m h now) = (end_match-Bound m h now).kept s
Step-Bound o s s' (by_new_match_after_export a b p) = (new_match_after_export-Bound a b p).kept s
Step-Bound o s s' (by_confirm_selection id t u b) =
    (confirm_selection_facts-Bound o.sha256 o.payload_hash id t u b).kept s
Step-Bound o s s' (by_request_selection job command now) =
    (request_selection_advice-Bound o.sha256 o.payload_hash job command now).kept s
Step-Bound o s s' (by_selection_result r) = (apply_selection_advice_result-Bound r).kept s
Step-Bound o s s' (by_apply_selection id three lead h) =
    (apply_selection-Bound id three lead h).kept s
Step-Bound o s s' (by_start_turn id) = (start_turn_capture-Bound id).kept s
Step-Bound o s s' (by_confirm_turn id entry h) = (confirm_turn_facts-Bound id entry h).kept s
Step-Bound o s s' (by_request_turn job command now) =
    (request_turn_advice-Bound o.request_hash job command now).kept s
Step-Bound o s s' (by_turn_result r) = (apply_turn_advice_result-Bound r o.read_body).kept s
Step-Bound o s s' (by_record_action id entry h) = (record_actual_action-Bound id entry h).kept s
Step-Bound o s s' (by_next_turn id) = (next_turn-Bound id).kept s
Step-Bound o s s' (by_mark_dispatched lane w job) = (mark_advice_dispatched-Bound lane w job).kept s
Step-Bound o s s' (by_fail_job lane job reason) = (fail_advice_job-Bound lane job reason).kept s
Step-Bound o s s' (by_record_rich rich id entry h) =
    (record_rich_actual_action-Bound o.python rich id entry h).kept s
Step-Bound o s s' (by_next_turn_with_result state delta id draft_id now) =
    (next_turn_with_action_result-Bound o.python state delta id draft_id now).kept s
Step-Bound o s s' (by_confirm_switches names status h id now) =
    (confirm_current_switches-Bound o.python names status h id now).kept s
Step-Bound o s s' (by_store w) = (Elsewhere-Bound _ (store-Elsewhere w)).kept s

-- A new database has no sessions and no jobs.
pub data Reachable (o : Outside) : Repository → Type 0 where
  start : (s : Repository) → s.sessions ≡ [] → s.jobs ≡ [] → Reachable o s
  after : (s s' : Repository) → Reachable o s → Step o s s' → Reachable o s'

-- Every job that the commands reach from a new database expects the state of its lane.
pub Reachable-Bound : (o : Outside) (s : Repository) → Reachable o s → Bound s
Reachable-Bound o _ (start s h j) = rw j no_jobs
Reachable-Bound o _ (after s1 s2 r step) = Step-Bound o s1 s2 step (Reachable-Bound o s1 r)

-- In every repository that the commands reach from a new database, each session row is coherent: the ids
-- that its state needs are there, those that it excludes are absent, a session in play holds the active
-- slot and an aborted one does not, and no row is in TURN_REVIEW_REQUIRED.
pub Reachable-AllCoherent : (o : Outside) (s : Repository) → Reachable o s → AllCoherent s.sessions
Reachable-AllCoherent o _ (start s h j) = rw h none_yet
Reachable-AllCoherent o _ (after s1 s2 r step) =
    effect-AllCoherent (step-Effect o s1 s2 (Reachable-Bound o s1 r) step)
      (Reachable-AllCoherent o s1 r)

Reachable-IsTable : (o : Outside) (s : Repository) → Reachable o s → IsTable s.sessions
Reachable-IsTable o _ (start s h j) = rw h no_rows
Reachable-IsTable o _ (after s1 s2 r step) =
    effect-IsTable (step-Effect o s1 s2 (Reachable-Bound o s1 r) step) (Reachable-IsTable o s1 r)

-- In every repository that the commands reach from a new database, at most one session is active.
pub Reachable-one_active :
    (o : Outside) (s : Repository) → Reachable o s → count_active s.sessions ≤ 1
Reachable-one_active o s r = IsTable-one_active s.sessions (Reachable-IsTable o s r)
