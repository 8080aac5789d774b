-- ===== src/Application/Effect/Commands.antt =====
-- The effect of each command of src/maple_next/application on the sessions.
use maple_next.Application.Effect.{edits, reaches}
use maple_next.Base.{true, String, Bool, false, ◌&&◌, ◌≡◌, ◌⊎◌, List, arith, ◌!=◌}
use maple_next.Enums.{
  match_ended, turn_capture_pending, BattleState, battle_ready, turn_recorded, aborted,
  MatchOutcome, state_eq,
}
use maple_next.Models.{BattleSession, bump_metadata}
use maple_next.Repository.Run.{Run-transaction}
use maple_next.Repository.Quiet.{Quiet-lift}
use maple_next.Repository.Unchanged.{
  Quiet-append_turn, Quiet-get_turn, Quiet-get_match_outcome, Quiet-append_match_outcome,
}
use maple_next.Application.Match.{abort_match, closed_as, update_metadata, end_match, ended}
use maple_next.Application.Turn.{start_turn_capture, next_turn}
use maple_next.Application.Session.{set_pending_turn}
use maple_next.Application.Effect.Rules.{
  HasEffect, quiet, lifts, requires, guards, on_active, in_state, saves,
}
use maple_next.Application.Effect.Steps.{
  first_turn-Transition, later_turn-Transition, metadata-Transition, aborted-Transition,
  ended-Transition,
}

module _ (rows : List BattleSession) where
  pub start_turn_capture-HasEffect :
      (id : String) → HasEffect rows (reaches turn_capture_pending) true (start_turn_capture id)
  unfolding start_turn_capture
  start_turn_capture-HasEffect id = Run-transaction _ (
      in_state rows _ battle_ready λ old act st. guards rows _ _ _ λ _. lifts rows _ _ λ turn _.
        quiet rows _ _ (Quiet-append_turn _ turn) λ _.
          saves rows _ old (set_pending_turn old turn) act (first_turn-Transition old turn st)
            (Quiet-lift _))

  pub next_turn-HasEffect :
      (id : String) → HasEffect rows (reaches turn_capture_pending) true (next_turn id)
  unfolding next_turn
  next_turn-HasEffect id = Run-transaction _ (
      in_state rows _ turn_recorded λ old act st. requires rows _ _ _ λ turn_id _.
        quiet rows _ _ (Quiet-get_turn turn_id) λ current. lifts rows _ _ λ turn _.
          quiet rows _ _ (Quiet-append_turn _ turn) λ _.
            saves rows _ old (set_pending_turn old turn) act (later_turn-Transition old turn st)
              (Quiet-lift _))

  pub abort_match-HasEffect :
      (confirmed : Bool) → HasEffect rows (reaches aborted) true (abort_match confirmed)
  unfolding abort_match
  abort_match-HasEffect confirmed = guards rows _ _ _ λ _. Run-transaction _ (
      on_active rows _ λ old act.
        guards rows _ _ _ λ g.
          saves rows _ old (closed_as aborted old) act (aborted-Transition old g) (Quiet-lift _))

  pub update_metadata-HasEffect : HasEffect rows edits true update_metadata
  unfolding update_metadata
  update_metadata-HasEffect = Run-transaction _ (
      on_active rows _ λ old act.
        saves rows _ old (bump_metadata old) act (metadata-Transition old) (Quiet-lift _))

  one_of_two : (st a b : BattleState) → (st != a && st != b) ≡ false → (st ≡ a) ⊎ (st ≡ b)
  one_of_two st a b h = ground (arith, state_eq.beq_iff st a, state_eq.beq_iff st b)

  pub end_match-HasEffect :
      (outcome : MatchOutcome) (confirmed : Bool) (now : String)
      → HasEffect rows (reaches match_ended) true (end_match outcome confirmed now)
  unfolding end_match
  end_match-HasEffect outcome confirmed now = guards rows _ _ _ λ _. Run-transaction _ (
      on_active rows _ λ old act.
        quiet rows _ _ (Quiet-get_match_outcome old.session_id) λ existing. guards rows _ _ _ λ _.
          guards rows _ _ _ λ g. lifts rows _ _ λ made _.
            quiet rows _ _ (Quiet-append_match_outcome made) λ _.
              saves rows _ old (ended old) act
                (ended-Transition old (one_of_two old.state battle_ready turn_recorded g))
                (Quiet-lift _))
