-- ===== src/BattleMemory/Termination.antt =====
-- The rounds of the walk of src/maple_next/domain/battle_memory.py along the confirmed states.
use maple_next.Base.{
  ℕ, zero, suc, ◌≤◌, ◌<◌, ◌≡◌, ◌≢◌, refl, String, false, Option, none, some, List, [], ◌∷◌, length,
  find_first, ok, err, assertion_error, arith, ◌>>=◌, >>=-eq-err, ◌==◌, string_eq, member, ==-eq,
  Bool-cases, inl, inr, if◌then◌else◌,
}
use maple_next.TurnState.Records.{ConfirmedTurnState}
use maple_next.BattleMemory.Chain.{find_state, next_cursor, walk, walk_confirmed_state_chain}

-- How many states are not marked yet.
unfoldable unmarked : List String → List ConfirmedTurnState → ℕ
unmarked seen [] = 0
unmarked seen (state ∷ states) =
    let rest = unmarked seen states in
    if member state.confirmed_state_id seen then rest else suc rest

unmarked-le :
    (id : String) (seen : List String) (states : List ConfirmedTurnState)
    → unmarked (id ∷ seen) states ≤ unmarked seen states
unfolding unmarked member
unmarked-le id seen [] = omega arith
unmarked-le id seen (s ∷ ss) = ground (arith, unmarked-le id seen ss)

unmarked-lt :
    (id : String) (seen : List String) (states : List ConfirmedTurnState)
    (found : ConfirmedTurnState)
    → member id seen ≡ false
    → find_state id states ≡ some found
    → unmarked (id ∷ seen) states < unmarked seen states
unfolding unmarked member find_state find_first
unmarked-lt id seen [] found n h = cc
unmarked-lt id seen (s ∷ ss) found n h = elim (Bool-cases (s.confirmed_state_id == id)) [
  | inl e ↦
      let less = unmarked-le id seen ss in
      let same = ==-eq s.confirmed_state_id id e in rw (e, same, n) (omega (arith, less))
  | inr e ↦
      let later : find_state id ss ≡ some found = rw e at h in
      let less = unmarked-lt id seen ss found n later in rw e (ground (arith, less))
]

unmarked-length : (states : List ConfirmedTurnState) → unmarked [] states ≤ length states
unfolding unmarked member
unmarked-length [] = omega arith
unmarked-length (s ∷ ss) = omega (arith, unmarked-length ss)

found_one :
    (o : Option ConfirmedTurnState) (previous : Option String)
    → next_cursor o ≡ ok previous
    → (state : ConfirmedTurnState) × (o ≡ some state)
found_one none previous h = cc
found_one (some state) previous h = (state, refl)

next_cursor-raises : (o : Option ConfirmedTurnState) → next_cursor o ≢ err assertion_error
next_cursor-raises none h = cc
next_cursor-raises (some state) h = cc

module _ (states : List ConfirmedTurnState) where
  walk-ends :
      (fuel : ℕ) (cursor : Option String) (seen : List String)
      → unmarked seen states < fuel
      → walk fuel states cursor seen ≢ err assertion_error
  unfolding walk
  walk-ends fuel none seen l h = cc
  walk-ends zero (some cursor) seen l h = omega arith
  walk-ends (suc fuel) (some cursor) seen l h = elim (Bool-cases (member cursor seen)) [
    | inl e ↦ let raised = rw e at h in cc
    | inr e ↦
        let continued : (next_cursor (find_state cursor states) >>= λ previous.
        walk fuel states previous (cursor ∷ seen))
            ≡ err assertion_error =
          rw e at h in
        elim (>>=-eq-err (next_cursor (find_state cursor states)) _ continued) [
          | inl raised ↦ next_cursor-raises _ raised
          | inr (previous, found, rest) ↦
              let (state, there) = found_one _ previous found in
              let less = unmarked-lt cursor seen states state e there in
              walk-ends fuel previous (cursor ∷ seen) (omega (arith, less, l)) rest
        ]
  ]

-- The walk along the confirmed states of a match ends within the rounds that it is given, whatever the
-- states are: it returns a chain, or raises for a cycle or a missing state.
pub walk_confirmed_state_chain-ends :
    (current : ConfirmedTurnState) (states : List ConfirmedTurnState)
    → walk_confirmed_state_chain current states ≢ err assertion_error
unfolding walk_confirmed_state_chain
walk_confirmed_state_chain-ends current states =
    walk-ends states (suc (length states)) (some current.confirmed_state_id) []
      (omega (arith, unmarked-length states))
