-- ===== src/TurnState/History.antt =====
-- Chains of promotions of src/maple_next/domain/turn_state.py, as a relation.
use maple_next.Base.{ℕ, zero, suc, ◌+◌, ◌≤◌, String, ◌≡◌, refl, ◌∙◌, Option, arith, ok}
use maple_next.TurnState.Records.{
  TurnIdentity, ConfirmationMeta, ConfirmedTurnState, ActionResultDelta, NextTurnStateDraft,
}
use maple_next.TurnState.Lifecycle.{confirm_next_turn_state}
use maple_next.TurnState.Bindings.{Advances}
use maple_next.TurnState.Derivation.{confirm-Advances}

-- One accepted promotion.
pub data Promotes (s t : ConfirmedTurnState) : Type 0 where
  promotion :
      (draft : NextTurnStateDraft) (new_id : String) (d : ActionResultDelta) (c : ConfirmationMeta)
      (evidence : Option String)
      → confirm_next_turn_state draft new_id s d c evidence ≡ ok t
      → Promotes s t

-- `n` promotions, one after the other.
pub data History (root : ConfirmedTurnState) : ℕ → ConfirmedTurnState → Type 0 where
  start : History root zero root
  then :
      {n : ℕ} {s t : ConfirmedTurnState} → History root n s → Promotes s t → History root (suc n) t

pub record Reached (root : TurnIdentity) (n : ℕ) (i : TurnIdentity) : Type 0 where
  pub session : i.session_id ≡ root.session_id
  pub match_ : i.match_id ≡ root.match_id
  pub generation : i.generation ≡ root.generation
  pub number : i.turn_number ≡ root.turn_number + n
  pub revision : root.battle_revision + n ≤ i.battle_revision

Promotes-Advances : {s t : ConfirmedTurnState} → Promotes s t → Advances s.identity t.identity
Promotes-Advances (promotion draft new_id d c evidence h) =
    (confirm-Advances draft new_id _ d c evidence _ h).0

Reached-Advances :
    (r : TurnIdentity) (n : ℕ) (i j : TurnIdentity)
    → Reached r n i
    → Advances i j
    → Reached r (suc n) j
Reached-Advances r n i j h a = record {
  session = a.session ∙ h.session;
  match_ = a.match_ ∙ h.match_;
  generation = a.generation ∙ h.generation;
  number = omega (arith, h.number, a.number);
  revision = omega (arith, h.revision, a.revision);
}

-- After `n` accepted promotions the state is of the same session, match and generation, exactly `n`
-- Turns later, and at least `n` revisions later.
pub History-Reached :
    {root s : ConfirmedTurnState} {n : ℕ} → History root n s → Reached root.identity n s.identity
History-Reached {root} start = record {
  session = refl;
  match_ = refl;
  generation = refl;
  number = omega arith;
  revision = omega arith;
}
History-Reached {root} (then {n} {s} {t} h p) =
    Reached-Advances root.identity n s.identity t.identity (History-Reached h) (Promotes-Advances p)
