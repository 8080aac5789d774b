-- ===== src/Application/Effect/Reviews.antt =====
-- The effect of the commands that confirm facts, or record what was played, on the sessions.
use maple_next.Application.Effect.{edits, reaches}
use maple_next.Base.{
  String, Bool, true, false, ◌&&◌, ◌≡◌, refl, ◌⊎◌, Option, none, some, List, is_some, is_none,
  arith, ◌!=◌, sym,
}
use maple_next.Enums.{
  turn_recorded, battle_ready, BattleState, turn_capture_pending, turn_reviewed, selection_open,
  selection_advice_ready, state_eq,
}
use maple_next.TeamBuild.{TeamBuild}
use maple_next.Models.{BattleSession, RecordedAction}
use maple_next.Envelopes.{JobEnvelope}
use maple_next.SelectionRequest.{SelectionAdviceRequest}
use maple_next.Repository.Run.{Run-transaction}
use maple_next.Repository.{Exec}
use maple_next.Repository.Quiet.{Quiet, Quiet-lift, Quiet-bind, Quiet-if, Quiet-rescue}
use maple_next.Repository.Unchanged.{
  Quiet-append_selection_facts, Quiet-append_applied_selection, Quiet-get_selection_facts,
  Quiet-get_turn, Quiet-get_applied_selection, Quiet-append_turn_facts, Quiet-get_turn_facts,
  Quiet-append_recorded_action, Quiet-has_recorded_action, Quiet-latest_job_by_type,
  Quiet-update_job_status,
}
use maple_next.Application.Selection.{
  confirm_selection_facts, reviewed, apply_selection, battle_opened,
}
use maple_next.Application.Turn.{
  confirm_turn_facts, TurnEntry, turn_confirmed, cancel_pending, cancel_if_unfinished,
  record_actual_action, record_action, ActionEntry, action_recorded,
}
use maple_next.Application.Effect.Rules.{
  HasEffect, quiet, lifts, requires, guards, on_active, in_state, saves,
}
use maple_next.Application.Effect.Steps.{
  reviewed-Transition, battle_opened-Transition, turn_confirmed-Transition,
  action_recorded-Transition,
}

module _ (rows : List BattleSession) where
  pub confirm_selection_facts-HasEffect :
      (sha256 : TeamBuild → String) (payload_hash : SelectionAdviceRequest → String) (id : String)
      (self_team opponent_team : List String) (build : Option TeamBuild)
      → HasEffect rows edits true
          (confirm_selection_facts sha256 payload_hash id self_team opponent_team build)
  unfolding confirm_selection_facts
  confirm_selection_facts-HasEffect sha256 payload_hash id self_team opponent_team build =
      quiet rows _ _ (Quiet-rescue _ _ (Quiet-lift _)) λ facts. Run-transaction _ (
        in_state rows _ selection_open λ old act st.
          quiet rows _ _ (Quiet-append_selection_facts _ facts) λ _.
            saves rows _ old (reviewed old facts.reviewed_selection_id) act
              (reviewed-Transition old facts.reviewed_selection_id st) (Quiet-lift _))

  pub apply_selection-HasEffect :
      (id : String) (three : List String) (lead : String) (confirmed : Bool)
      → HasEffect rows (reaches battle_ready) true (apply_selection id three lead confirmed)
  unfolding apply_selection
  apply_selection-HasEffect id three lead confirmed = guards rows _ _ _ λ _. Run-transaction _ (
      in_state rows _ selection_advice_ready λ old act st. requires rows _ _ _ λ advice_id _.
        requires rows _ _ _ λ facts_id _.
          quiet rows _ _ (Quiet-rescue _ _ (Quiet-get_selection_facts facts_id)) λ facts.
            guards rows _ _ _ λ _. guards rows _ _ _ λ _. guards rows _ _ _ λ _.
              guards rows _ _ _ λ _. lifts rows _ _ λ snapshot _.
                quiet rows _ _ (Quiet-append_applied_selection _ snapshot) λ _.
                  saves rows _ old (battle_opened old snapshot.applied_selection_id) act
                    (battle_opened-Transition old snapshot.applied_selection_id st) (Quiet-lift _))

  cancel_if-Quiet : (latest : Option JobEnvelope) → Quiet (cancel_if_unfinished latest)
  cancel_if-Quiet none = Quiet-lift _
  cancel_if-Quiet (some job) = Quiet-if _ _ _ (Quiet-update_job_status _ _) (Quiet-lift _)

  cancel-Quiet : (previous : Option String) (id : String) → Quiet (cancel_pending previous id)
  cancel-Quiet none id = Quiet-lift _
  cancel-Quiet (some p) id =
      Quiet-bind _ _ (Quiet-latest_job_by_type id _) λ latest. cancel_if-Quiet latest

  one_of_two : (st a b : BattleState) → (st != a && st != b) ≡ false → (st ≡ a) ⊎ (st ≡ b)
  one_of_two st a b h = ground (arith, state_eq.beq_iff st a, state_eq.beq_iff st b)

  there : {A : Type 0} (o : Option A) (a : A) → o ≡ some a → is_some o ≡ true
  there o a h = rw h refl

  pub confirm_turn_facts-HasEffect :
      (id : String) (entry : TurnEntry) (confirmed : Bool)
      → HasEffect rows (reaches turn_reviewed) true (confirm_turn_facts id entry confirmed)
  unfolding confirm_turn_facts
  confirm_turn_facts-HasEffect id entry confirmed = guards rows _ _ _ λ _. Run-transaction _ (
      on_active rows _ λ old act. guards rows _ _ _ λ g. requires rows _ _ _ λ turn_id t.
        requires rows _ _ _ λ applied_id a. quiet rows _ _ (Quiet-get_turn turn_id) λ turn.
          quiet rows _ _ (Quiet-get_applied_selection applied_id) λ applied. guards rows _ _ _ λ _.
            guards rows _ _ _ λ _. guards rows _ _ _ λ _.
              quiet rows _ _ (Quiet-rescue _ _ (Quiet-lift _)) λ facts.
                quiet rows _ _ (cancel-Quiet _ _) λ _.
                  quiet rows _ _ (Quiet-append_turn_facts _ facts) λ _.
                    saves rows _ old (turn_confirmed old facts.turn_facts_id) act
                      (turn_confirmed-Transition old facts.turn_facts_id
                        (one_of_two old.state turn_capture_pending turn_reviewed g)
                        (there old.current_turn_id turn_id t)
                        (there old.current_applied_selection_id applied_id a))
                      (Quiet-lift _))

  not_none : {A : Type 0} (o : Option A) → is_none o ≡ false → is_some o ≡ true
  not_none none h = sym h
  not_none (some a) h = refl

  pub record_action-HasEffect :
      (check complete : RecordedAction → Exec Unit) (id : String) (entry : ActionEntry)
      (confirmed : Bool)
      → ((action : RecordedAction) → Quiet (check action))
      → ((action : RecordedAction) → Quiet (complete action))
      → HasEffect rows
          (reaches turn_recorded)
          true
          (record_action check complete id entry confirmed)
  unfolding record_action
  record_action-HasEffect check complete id entry confirmed kc kd = guards rows _ _ _ λ _.
      guards rows _ _ _ λ _. guards rows _ _ _ λ _. Run-transaction _ (
        in_state rows _ turn_reviewed λ old act st. requires rows _ _ _ λ turn_id _.
          requires rows _ _ _ λ board_id _. guards rows _ _ _ λ g.
            quiet rows _ _ (Quiet-has_recorded_action turn_id) λ already. guards rows _ _ _ λ _.
              quiet rows _ _ (Quiet-get_turn_facts board_id) λ facts. guards rows _ _ _ λ _.
                quiet rows _ _ (Quiet-rescue _ _ (Quiet-lift _)) λ action.
                  quiet rows _ _ (kc action) λ _.
                    quiet rows _ _ (Quiet-append_recorded_action _ action) λ _.
                      quiet rows _ _ (kd action) λ _.
                        saves rows _ old (action_recorded old) act
                          (action_recorded-Transition old st
                            (not_none old.current_turn_advice_id g))
                          (Quiet-lift _))

  pub record_actual_action-HasEffect :
      (id : String) (entry : ActionEntry) (confirmed : Bool)
      → HasEffect rows (reaches turn_recorded) true (record_actual_action id entry confirmed)
  unfolding record_actual_action
  record_actual_action-HasEffect id entry confirmed =
      record_action-HasEffect _ _ id entry confirmed (λ _. Quiet-lift _) (λ _. Quiet-lift _)
