-- ===== src/Application/Effect/Steps.antt =====
-- Each update of a session that a command of src/maple_next/application saves is a transition.
use maple_next.Base.{String, true, false, ◌≡◌, refl, is_some, arith, ◌⊎◌, inl, inr, subst, sym}
use maple_next.Enums.{
  BattleState, selection_open, selection_advice_ready, battle_ready, turn_capture_pending,
  turn_review_required, turn_reviewed, turn_recorded, match_ended, match_exported, aborted,
  state_eq, BattleState-discrete,
}
use maple_next.Models.{BattleSession, BattleTurn, bump_metadata}
use maple_next.Application.Session.{set_pending_turn}
use maple_next.Application.Match.{closed_as, ended, is_over}
use maple_next.Application.Export.{exported}
use maple_next.Application.Selection.{reviewed, battle_opened}
use maple_next.Application.SelectionResult.{advice_applied}
use maple_next.Application.Turn.{turn_confirmed, action_recorded}
use maple_next.Application.TurnAdvice.{advice_received}
use maple_next.Application.Effect.{
  CoherentAt, IsCoherent, Edge, advise, apply, first_turn, review, record_action, later_turn,
  end_unplayed, end_played, export_, abort_selection, abort_advised, abort_ready, abort_pending,
  abort_reviewing, abort_reviewed, abort_recorded, Moved, stays, again, steps, edits, reaches,
  Transition,
}

module _ (old : BattleSession) where
  coherent_in : (st : BattleState) → old.state ≡ st → IsCoherent old → CoherentAt st old
  coherent_in st h c = subst (λ x. CoherentAt x old) h c

  moved_on : (st to : BattleState) → old.state ≡ st → Edge st to → Edge old.state to
  moved_on st to h e = rw h e

  pub reviewed-Transition :
      (id : String) → old.state ≡ selection_open → Transition edits old (reviewed old id)
  unfolding reviewed
  reviewed-Transition id h = record {
    session = refl;
    match_ = refl;
    generation = refl;
    moved = stays refl refl (omega arith);
    coherent = λ c. let d = coherent_in selection_open h c in rw h (ground arith);
  }

  pub advice_applied-Transition :
      (id : String)
      → old.state ≡ selection_open
      → is_some old.current_reviewed_selection_id ≡ true
      → Transition (reaches selection_advice_ready) old (advice_applied old id)
  unfolding advice_applied
  advice_applied-Transition id h r = record {
    session = refl;
    match_ = refl;
    generation = refl;
    moved = steps refl (moved_on selection_open selection_advice_ready h advise) refl;
    coherent = λ c. let d = coherent_in selection_open h c in ground arith;
  }

  pub battle_opened-Transition :
      (id : String)
      → old.state ≡ selection_advice_ready
      → Transition (reaches battle_ready) old (battle_opened old id)
  unfolding battle_opened
  battle_opened-Transition id h = record {
    session = refl;
    match_ = refl;
    generation = refl;
    moved = steps refl (moved_on selection_advice_ready battle_ready h apply) refl;
    coherent = λ c. let d = coherent_in selection_advice_ready h c in ground arith;
  }

  pub first_turn-Transition :
      (turn : BattleTurn)
      → old.state ≡ battle_ready
      → Transition (reaches turn_capture_pending) old (set_pending_turn old turn)
  unfolding set_pending_turn
  first_turn-Transition turn h = record {
    session = refl;
    match_ = refl;
    generation = refl;
    moved = steps refl (moved_on battle_ready turn_capture_pending h first_turn) refl;
    coherent = λ c. let d = coherent_in battle_ready h c in ground arith;
  }

  pub later_turn-Transition :
      (turn : BattleTurn)
      → old.state ≡ turn_recorded
      → Transition (reaches turn_capture_pending) old (set_pending_turn old turn)
  unfolding set_pending_turn
  later_turn-Transition turn h = record {
    session = refl;
    match_ = refl;
    generation = refl;
    moved = steps refl (moved_on turn_recorded turn_capture_pending h later_turn) refl;
    coherent = λ c. let d = coherent_in turn_recorded h c in ground arith;
  }

  turn_confirmed-Moved :
      (id : String)
      → (old.state ≡ turn_capture_pending) ⊎ (old.state ≡ turn_reviewed)
      → Moved (reaches turn_reviewed) old (turn_confirmed old id)
  unfolding turn_confirmed
  turn_confirmed-Moved id (inl h) =
      steps refl (moved_on turn_capture_pending turn_reviewed h review) refl
  turn_confirmed-Moved id (inr h) = again refl (sym h) (omega arith)

  pub turn_confirmed-Transition :
      (id : String)
      → (old.state ≡ turn_capture_pending) ⊎ (old.state ≡ turn_reviewed)
      → is_some old.current_turn_id ≡ true
      → is_some old.current_applied_selection_id ≡ true
      → Transition (reaches turn_reviewed) old (turn_confirmed old id)
  unfolding turn_confirmed
  turn_confirmed-Transition id h t a = record {
    session = refl;
    match_ = refl;
    generation = refl;
    moved = turn_confirmed-Moved id h;
    coherent = λ c. ground arith;
  }

  pub advice_received-Transition :
      (id : String) → old.state ≡ turn_reviewed → Transition edits old (advice_received old id)
  unfolding advice_received
  advice_received-Transition id h = record {
    session = refl;
    match_ = refl;
    generation = refl;
    moved = stays refl refl (omega arith);
    coherent = λ c. let d = coherent_in turn_reviewed h c in rw h (ground arith);
  }

  pub action_recorded-Transition :
      old.state ≡ turn_reviewed
      → is_some old.current_turn_advice_id ≡ true
      → Transition (reaches turn_recorded) old (action_recorded old)
  unfolding action_recorded
  action_recorded-Transition h a = record {
    session = refl;
    match_ = refl;
    generation = refl;
    moved = steps refl (moved_on turn_reviewed turn_recorded h record_action) refl;
    coherent = λ c. let d = coherent_in turn_reviewed h c in ground arith;
  }

  pub metadata-Transition : Transition edits old (bump_metadata old)
  unfolding bump_metadata
  metadata-Transition = record {
    session = refl;
    match_ = refl;
    generation = refl;
    moved = stays refl refl (omega arith);
    coherent = λ c. ground arith;
  }

abort-Edge : (st : BattleState) → is_over st ≡ false → Edge st aborted
unfolding BattleState-discrete
abort-Edge selection_open h = abort_selection
abort-Edge selection_advice_ready h = abort_advised
abort-Edge battle_ready h = abort_ready
abort-Edge turn_capture_pending h = abort_pending
abort-Edge turn_review_required h = abort_reviewing
abort-Edge turn_reviewed h = abort_reviewed
abort-Edge turn_recorded h = abort_recorded
abort-Edge _ h = cc

module _ (old : BattleSession) where
  pub aborted-Transition :
      is_over old.state ≡ false → Transition (reaches aborted) old (closed_as aborted old)
  unfolding closed_as
  aborted-Transition h = record {
    session = refl;
    match_ = refl;
    generation = refl;
    moved = steps refl (abort-Edge old.state h) refl;
    coherent = λ c. refl;
  }

  ended-Edge : (old.state ≡ battle_ready) ⊎ (old.state ≡ turn_recorded) → Edge old.state match_ended
  ended-Edge (inl h) = rw h end_unplayed
  ended-Edge (inr h) = rw h end_played

  pub ended-Transition :
      (old.state ≡ battle_ready) ⊎ (old.state ≡ turn_recorded)
      → Transition (reaches match_ended) old (ended old)
  unfolding ended
  ended-Transition h = record {
    session = refl;
    match_ = refl;
    generation = refl;
    moved = steps refl (ended-Edge h) refl;
    coherent = λ c. ground arith;
  }

  pub exported-Transition :
      old.state ≡ match_ended → Transition (reaches match_exported) old (exported old)
  unfolding exported
  exported-Transition h = record {
    session = refl;
    match_ = refl;
    generation = refl;
    moved = steps refl (moved_on old match_ended match_exported h export_) refl;
    coherent = λ c. let d = coherent_in old match_ended h c in ground arith;
  }
