-- ===== src/Application/Effect/Rich.antt =====
-- The effect of the commands of src/maple_next/application/service.py on rich Turn states, and what they
-- leave alone.
use maple_next.Application.Effect.{reaches}
use maple_next.Base.{true, ℕ, String, Bool, Option, List, [], ◌∷◌, Error, arith}
use maple_next.Enums.{turn_capture_pending, BattleState, turn_recorded}
use maple_next.Models.{BattleSession, RecordedAction}
use maple_next.LegalSwitches.{LegalSwitchStatus}
use maple_next.TurnState.Records.{
  TurnIdentity, ConfirmedTurnState, ActionResultDelta, NextTurnStateDraft,
}
use maple_next.TurnState.Json.{Python}
use maple_next.Repository.{◌>>=◌, required, transaction}
use maple_next.Repository.Sessions.{load_active_session}
use maple_next.Repository.Rows.{get_turn, get_applied_selection}
use maple_next.Repository.TurnStates.{
  get_latest_confirmed_turn_state_for_identity, list_action_result_deltas_based_on,
  upsert_next_turn_state_draft,
}
use maple_next.Repository.Run.{Run-transaction}
use maple_next.Repository.Quiet.{Quiet, Quiet-lift, Quiet-transaction, Quiet-bind}
use maple_next.Repository.Keeps.{Keeps, Keeps-bind, Keeps-lift, Keeps-transaction}
use maple_next.Repository.Lanes.{Bound}
use maple_next.Repository.Unchanged.{Quiet-get_turn, Quiet-append_turn}
use maple_next.Repository.Atomic.{
  IsAtomic, IsReadOnly, lift-IsReadOnly, bind-IsReadOnly, read-IsAtomic, transaction-IsAtomic,
}
use maple_next.Repository.Elsewhere.{
  Elsewhere, Elsewhere-Quiet, Elsewhere-Bound, Elsewhere-lift, Elsewhere-required, Elsewhere-rescue,
  Elsewhere-bind, get_confirmed_turn_state-Elsewhere,
  get_latest_confirmed_turn_state_for_identity-Elsewhere,
  list_action_result_deltas_based_on-Elsewhere, append_rich_action_completion-Elsewhere,
  upsert_next_turn_state_draft-Elsewhere, get_pokemon_local_state-Elsewhere,
  upsert_legal_switch_confirmation-Elsewhere, append_fixed_evidence_metadata-Elsewhere,
  append_confirmed_turn_state-Elsewhere, append_action_result_delta-Elsewhere,
  upsert_pokemon_local_state-Elsewhere, set_opponent_ability_memory-Elsewhere,
  append_opponent_entry_event-Elsewhere, mark_opponent_entry_event_handled-Elsewhere,
}
use maple_next.Application.Session.{require_active_session, require_session, set_pending_turn}
use maple_next.Application.Turn.{ActionEntry}
use maple_next.Application.Rich.{
  RichCompletion, check_rich, complete_rich, record_rich_actual_action, Phase1, derive_phase,
  advance_phase, next_turn_with_action_result,
}
use maple_next.Application.Switches.{
  current_legal_switch_binding, self_local_memory_by_name, confirm_current_switches,
}
use maple_next.Application.Stores.{
  StoreWrite, evidence, confirmed_state, result_delta, local_state, ability, entry, handled, store,
}
use maple_next.Application.Effect.Rules.{HasEffect, quiet, guards, in_state, saves}
use maple_next.Application.Effect.Steps.{later_turn-Transition}
use maple_next.Application.Effect.Reviews.{record_action-HasEffect}
use maple_next.Application.Atomic.{record_action-IsAtomic}
use maple_next.Application.Lanes.{command_rules, record_action-Bound}

get_turn-Elsewhere : (id : String) → Elsewhere (get_turn id)
unfolding get_turn ◌>>=◌
get_turn-Elsewhere id = record { sessions = λ s. ground arith; jobs = λ s. ground arith }

get_applied_selection-Elsewhere : (id : String) → Elsewhere (get_applied_selection id)
unfolding get_applied_selection ◌>>=◌
get_applied_selection-Elsewhere id = record {
  sessions = λ s. ground arith;
  jobs = λ s. ground arith;
}

require_session-Elsewhere : (st : BattleState) → Elsewhere (require_session st)
unfolding require_session require_active_session load_active_session ◌>>=◌
require_session-Elsewhere st = record { sessions = λ s. ground arith; jobs = λ s. ground arith }

ruleset elsewhere = (
  Elsewhere-lift, Elsewhere-required, Elsewhere-rescue, Elsewhere-bind, get_turn-Elsewhere,
  get_applied_selection-Elsewhere, require_session-Elsewhere, get_confirmed_turn_state-Elsewhere,
  get_latest_confirmed_turn_state_for_identity-Elsewhere,
  list_action_result_deltas_based_on-Elsewhere, append_rich_action_completion-Elsewhere,
  get_pokemon_local_state-Elsewhere, upsert_legal_switch_confirmation-Elsewhere,
)

module _ (py : Python) (rich : RichCompletion) where
  check_rich-Elsewhere : (action : RecordedAction) → Elsewhere (check_rich py rich action)
  unfolding check_rich
  check_rich-Elsewhere action = search elsewhere depth 30

  complete_rich-Elsewhere : (action : RecordedAction) → Elsewhere (complete_rich py rich action)
  unfolding complete_rich
  complete_rich-Elsewhere action = append_rich_action_completion-Elsewhere py _

  module _ (id : String) (entry : ActionEntry) (h : Bool) where
    pub record_rich_actual_action-HasEffect :
        (rows : List BattleSession)
        → HasEffect rows (reaches turn_recorded) true (record_rich_actual_action py rich id entry h)
    unfolding record_rich_actual_action
    record_rich_actual_action-HasEffect rows =
        record_action-HasEffect rows _ _ id entry h
          (λ a. Elsewhere-Quiet _ (check_rich-Elsewhere a))
          (λ a. Elsewhere-Quiet _ (complete_rich-Elsewhere a))

    pub record_rich_actual_action-IsAtomic : IsAtomic (record_rich_actual_action py rich id entry h)
    unfolding record_rich_actual_action
    record_rich_actual_action-IsAtomic = record_action-IsAtomic _ _ id entry h

    pub record_rich_actual_action-Bound : Keeps Bound (record_rich_actual_action py rich id entry h)
    unfolding record_rich_actual_action
    record_rich_actual_action-Bound =
        record_action-Bound _ _ id entry h (λ a. Elsewhere-Bound _ (check_rich-Elsewhere a))
          (λ a. Elsewhere-Bound _ (complete_rich-Elsewhere a))

pub get_turn-IsReadOnly : (id : String) → IsReadOnly (get_turn id)
unfolding get_turn ◌>>=◌
get_turn-IsReadOnly id = record { at = λ s. ground arith }

required-IsReadOnly : {A : Type 0} (e : Error) (o : Option A) → IsReadOnly (required e o)
unfolding required
required-IsReadOnly e o = lift-IsReadOnly _

pub require_session-IsReadOnly : (st : BattleState) → IsReadOnly (require_session st)
unfolding require_session require_active_session load_active_session ◌>>=◌
require_session-IsReadOnly st = record { at = λ s. ground arith }

pub latest-IsReadOnly :
    (py : Python) (a b : String) (n : ℕ)
    → IsReadOnly (get_latest_confirmed_turn_state_for_identity py a b n)
unfolding get_latest_confirmed_turn_state_for_identity ◌>>=◌
latest-IsReadOnly py a b n = record { at = λ s. ground arith }

pub deltas-IsReadOnly :
    (py : Python) (id : String) → IsReadOnly (list_action_result_deltas_based_on py id)
unfolding list_action_result_deltas_based_on ◌>>=◌
deltas-IsReadOnly py id = record { at = λ s. ground arith }

ruleset read_only = (
  bind-IsReadOnly, lift-IsReadOnly, required-IsReadOnly, get_turn-IsReadOnly,
  require_session-IsReadOnly, latest-IsReadOnly, deltas-IsReadOnly,
)

latest-Bound :
    (py : Python) (a b : String) (n : ℕ)
    → Keeps Bound (get_latest_confirmed_turn_state_for_identity py a b n)
latest-Bound py a b n =
    Elsewhere-Bound _ (get_latest_confirmed_turn_state_for_identity-Elsewhere py a b n)

deltas-Bound : (py : Python) (id : String) → Keeps Bound (list_action_result_deltas_based_on py id)
deltas-Bound py id = Elsewhere-Bound _ (list_action_result_deltas_based_on-Elsewhere py id)

draft-Bound : (draft : NextTurnStateDraft) → Keeps Bound (upsert_next_turn_state_draft draft)
draft-Bound draft = Elsewhere-Bound _ (upsert_next_turn_state_draft-Elsewhere draft)

ruleset rich_bound = (latest-Bound, deltas-Bound, draft-Bound)

module _ (py : Python) (state : ConfirmedTurnState) (delta : ActionResultDelta)
    (turn_id draft_id at : String) where
  derive_phase-Elsewhere : Elsewhere (derive_phase py state delta turn_id draft_id at)
  unfolding derive_phase
  derive_phase-Elsewhere = search elsewhere depth 40

  pub derive_phase-IsReadOnly : IsReadOnly (derive_phase py state delta turn_id draft_id at)
  unfolding derive_phase
  derive_phase-IsReadOnly = search read_only depth 40

  advance_phase-HasEffect :
      (rows : List BattleSession) (before : Phase1)
      → HasEffect rows
          (reaches turn_capture_pending)
          true
          (transaction (advance_phase py state delta before))
  unfolding advance_phase
  advance_phase-HasEffect rows before = Run-transaction _ (
      in_state rows _ turn_recorded λ old act st. guards rows _ _ _ λ _.
        quiet rows _ _ (Quiet-get_turn _) λ current. guards rows _ _ _ λ _.
          quiet rows _ _
            (Elsewhere-Quiet _ (get_latest_confirmed_turn_state_for_identity-Elsewhere py _ _ _))
            λ latest. guards rows _ _ _ λ _.
              quiet rows _ _ (Elsewhere-Quiet _ (list_action_result_deltas_based_on-Elsewhere py _))
                λ deltas. guards rows _ _ _ λ _.
                  quiet rows _ _ (Quiet-append_turn _ before.turn) λ _. guards rows _ _ _ λ _.
                    saves rows _ old (set_pending_turn old before.turn) act
                      (later_turn-Transition old before.turn st)
                      (Quiet-bind _ _
                        (Elsewhere-Quiet _ (upsert_next_turn_state_draft-Elsewhere before.draft))
                        (λ _. Quiet-lift _)))

  pub next_turn_with_action_result-HasEffect :
      (rows : List BattleSession)
      → HasEffect rows
          (reaches turn_capture_pending)
          true
          (next_turn_with_action_result py state delta turn_id draft_id at)
  unfolding next_turn_with_action_result
  next_turn_with_action_result-HasEffect rows =
      quiet rows _ _ (Elsewhere-Quiet _ derive_phase-Elsewhere)
        (λ before. advance_phase-HasEffect rows before)

  pub next_turn_with_action_result-IsAtomic :
      IsAtomic (next_turn_with_action_result py state delta turn_id draft_id at)
  unfolding next_turn_with_action_result
  next_turn_with_action_result-IsAtomic =
      read-IsAtomic _ (λ before. transaction-IsAtomic _) _ derive_phase-IsReadOnly

  advance_phase-Bound : (before : Phase1) → Keeps Bound (advance_phase py state delta before)
  unfolding advance_phase
  advance_phase-Bound before = search (command_rules, rich_bound) depth 40

  pub next_turn_with_action_result-Bound :
      Keeps Bound (next_turn_with_action_result py state delta turn_id draft_id at)
  unfolding next_turn_with_action_result
  next_turn_with_action_result-Bound =
      Keeps-bind _ _ (Elsewhere-Bound _ derive_phase-Elsewhere)
        (λ before. Keeps-transaction _ (advance_phase-Bound before))

module _ (py : Python) where
  self_local_memory_by_name-Elsewhere :
      (i : TurnIdentity) (names : List String) → Elsewhere (self_local_memory_by_name py i names)
  unfolding self_local_memory_by_name
  self_local_memory_by_name-Elsewhere i [] = Elsewhere-lift _
  self_local_memory_by_name-Elsewhere i (name ∷ names) =
      Elsewhere-bind _
        (λ found.
          Elsewhere-bind _ (λ later. Elsewhere-lift _) _
            (self_local_memory_by_name-Elsewhere i names))
        _ (get_pokemon_local_state-Elsewhere _ _ _ py "SELF" name)

  current_legal_switch_binding-Elsewhere : Elsewhere (current_legal_switch_binding py)
  unfolding current_legal_switch_binding
  current_legal_switch_binding-Elsewhere = search elsewhere depth 30

ruleset switching =
    (elsewhere, current_legal_switch_binding-Elsewhere, self_local_memory_by_name-Elsewhere)

module _ (py : Python) where
  module _ (names : List String) (status : LegalSwitchStatus) (h : Bool) (id now : String) where
    pub confirm_current_switches-Quiet : Quiet (confirm_current_switches py names status h id now)
    unfolding confirm_current_switches
    confirm_current_switches-Quiet =
        Quiet-bind _ _ (Quiet-lift _)
          λ _. Quiet-transaction _ (Elsewhere-Quiet _ (search switching depth 40))

    pub confirm_current_switches-Bound :
        Keeps Bound (confirm_current_switches py names status h id now)
    unfolding confirm_current_switches
    confirm_current_switches-Bound =
        Keeps-bind _ _ (Keeps-lift _)
          λ _. Keeps-transaction _ (Elsewhere-Bound _ (search switching depth 40))

pub store-Elsewhere : (w : StoreWrite) → Elsewhere (store w)
unfolding store
store-Elsewhere (evidence e) = append_fixed_evidence_metadata-Elsewhere e
store-Elsewhere (confirmed_state state) = append_confirmed_turn_state-Elsewhere state
store-Elsewhere (result_delta delta) = append_action_result_delta-Elsewhere delta
store-Elsewhere (local_state a b n side memory) =
    upsert_pokemon_local_state-Elsewhere a b n side memory
store-Elsewhere (ability a b n entity species name) =
    set_opponent_ability_memory-Elsewhere a b n entity species name
store-Elsewhere (entry e) = append_opponent_entry_event-Elsewhere e
store-Elsewhere (handled id now) = mark_opponent_entry_event_handled-Elsewhere id now
