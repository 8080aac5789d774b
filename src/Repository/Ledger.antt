-- ===== src/Repository/Ledger.antt =====
-- The attempt ledger of the Turn lane: an attempt is reserved once.
use maple_next.Base.{
  true, false, ◌&&◌, ◌≡◌, refl, List, [], ◌∷◌, any_of, arith, ==_refl, ◌==◌, string_eq, nat_eq, ok,
}
use maple_next.Repository.{Repository, AttemptRow, ◌>>=◌}
use maple_next.Repository.Attempts.{
  same_round, turn_advice_attempt_reserved, reserve_turn_advice_attempt,
}

pub same_round_refl : (a : AttemptRow) → same_round a a ≡ true
unfolding same_round
same_round_refl a = ground (
  arith,
  ==_refl a.session_id,
  ==_refl a.match_id,
  ==_refl a.generation,
  ==_refl a.turn_number,
  ==_refl a.reviewed_snapshot_id,
)

no_equal :
    (a : AttemptRow) (rows : List AttemptRow)
    → any_of (same_round a) rows ≡ false
    → any_of (λ row. same_round a row && a.battle_revision == row.battle_revision) rows ≡ false
unfolding any_of
no_equal a [] h = refl
no_equal a (row ∷ rows) h = let rest = no_equal a rows (ground arith) in ground arith

pub reserve-once :
    (attempt : AttemptRow) (s : Repository)
    → turn_advice_attempt_reserved attempt s ≡ (ok false, s)
    → let after = record s { turn_attempts = attempt ∷ s.turn_attempts } in
      (reserve_turn_advice_attempt attempt s ≡ (ok true, after))
      × (turn_advice_attempt_reserved attempt after ≡ (ok true, after))
      × (reserve_turn_advice_attempt attempt after ≡ (ok false, after))
unfolding turn_advice_attempt_reserved reserve_turn_advice_attempt ◌>>=◌ any_of
reserve-once attempt s h =
    let none_held : any_of (same_round attempt) s.turn_attempts ≡ false = ground (arith, h) in
    let none_equal = no_equal attempt s.turn_attempts none_held in
    let own = same_round_refl attempt in
    let revision = ==_refl attempt.battle_revision in
    (rw none_equal refl, rw own refl, rw (own, revision) refl)
