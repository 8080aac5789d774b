-- ===== src/BattleMemory/Turns.antt =====
-- Proofs about `build_battle_memory` of src/maple_next/domain/battle_memory.py.
use maple_next.Base.{
  ℕ, zero, suc, ◌-◌, ◌≡◌, refl, sym, ap, subst, String, some, List, [], ◌∷◌, length, Result, ok,
  raise_if, >>=-eq-ok, arith, ◌!=◌, nat_eq, string_eq, option_eq,
}
use maple_next.TurnState.Records.{TurnIdentity, identity_eq, ConfirmedTurnState, ActionResultDelta}
use maple_next.TurnState.Same.{confirmed_state_eq}
use maple_next.BattleMemory.{
  RichActionCompletionFacts, BattleMemoryTurn, BattleMemory, make_battle_memory, check_contiguous,
}
use maple_next.BattleMemory.Chain.{find_state, position, walk_confirmed_state_chain}
use maple_next.BattleMemory.Build.{
  expect_position, Sources, memory_turn, memory_turns, check_states, check_completions,
  check_deltas, build_battle_memory,
}
use maple_next.BattleMemory.Rows.{IsRecorded, expected_position, memory_turn-IsRecorded}

-- Rows for Turns that follow one another, whose states follow one another in the chain.
pub data Recorded (sources : Sources) : ℕ → ℕ → List BattleMemoryTurn → Type 0 where
  none_left : (turn_number low : ℕ) → Recorded sources turn_number low []
  recorded :
      (turn_number low place : ℕ) (row : BattleMemoryTurn) (rows : List BattleMemoryTurn)
      → IsRecorded sources turn_number low place row
      → Recorded sources (suc turn_number) (suc place) rows
      → Recorded sources turn_number low (row ∷ rows)

made_rows :
    (rows rs : List BattleMemoryTurn)
    → Path (Result (List BattleMemoryTurn)) (ok rows) (ok rs)
    → rs ≡ rows
made_rows rows rs h = ground (arith, h)

made_memory :
    (rows : List BattleMemoryTurn) (memory : BattleMemory)
    → Path (Result BattleMemory) (ok (record { turns = rows })) (ok memory)
    → Path BattleMemory (record { turns = rows }) memory
made_memory rows memory h = ground (arith, h)

module _ (sources : Sources) where
  memory_turns-Recorded :
      (rounds turn_number low : ℕ) (rows : List BattleMemoryTurn)
      → memory_turns sources rounds turn_number low ≡ ok rows
      → Recorded sources turn_number low rows × (length rows ≡ rounds)
  unfolding memory_turns
  memory_turns-Recorded zero turn_number low rows h =
      let same : rows ≡ [] = ground (arith, h) in rw same (none_left turn_number low, refl)
  memory_turns-Recorded (suc rounds) turn_number low rows h =
      let ((row, next), first, h1) = >>=-eq-ok (memory_turn sources turn_number low) _ h in
      let (rest, more, last) =
        >>=-eq-ok (memory_turns sources rounds (suc turn_number) next) _ h1 in
      let (place, is_next, is_row) =
        memory_turn-IsRecorded sources turn_number low row next first in
      let (later, count) = memory_turns-Recorded rounds (suc turn_number) next rest more in
      let same = made_rows (row ∷ rest) rows last in
      let later' = subst (λ n. Recorded sources (suc turn_number) n rest) is_next later in
      (
        subst (Recorded sources turn_number low) (sym same)
            (recorded turn_number low place row rest is_row later'),
        subst (λ rs. length rs ≡ suc rounds) (sym same) (ap suc count),
      )

-- The memory that is built for Turn N holds N - 1 rows, the k-th for Turn k. Each row holds the actions, the
-- order and the delta that the completion of its Turn names, and the active Pokemon of the confirmed state
-- that the completion is based on, which has the identity of the row. The delta is the only one of the match that is based on that
-- state, and these states follow one another in the chain that the walk returns, before the current state.
pub build_battle_memory-Recorded :
    (identity : TurnIdentity) (current : ConfirmedTurnState) (states : List ConfirmedTurnState)
    (completions : List RichActionCompletionFacts) (deltas : List ActionResultDelta)
    (memory : BattleMemory)
    → build_battle_memory identity current states completions deltas ≡ ok memory
    → (chain : List String) × (top : ℕ) × (walk_confirmed_state_chain current states ≡ ok chain)
      × (position current.confirmed_state_id chain ≡ some top)
      × (length memory.turns ≡ identity.turn_number - 1)
      × Recorded
          (record {
            states = states;
            completions = completions;
            deltas = deltas;
            chain = chain;
            current_position = top;
          })
          1
          0
          memory.turns
unfolding build_battle_memory make_battle_memory
build_battle_memory-Recorded identity current states completions deltas memory h =
    let (u1, same, h1) = >>=-eq-ok (raise_if (current.identity != identity) _) _ h in
    let (u2, checked, h2) = >>=-eq-ok (check_states identity [] states) _ h1 in
    let (u3, current_in, h3) =
      >>=-eq-ok (raise_if (find_state current.confirmed_state_id states != some current) _) _ h2 in
    let (chain, walked, h4) = >>=-eq-ok (walk_confirmed_state_chain current states) _ h3 in
    let (top, topped, h5) =
      >>=-eq-ok
        (expect_position current.confirmed_state_id (position current.confirmed_state_id chain)) _
        h4 in
    let (u4, completions_in, h6) = >>=-eq-ok (check_completions identity [] completions) _ h5 in
    let (u5, deltas_in, h7) = >>=-eq-ok (check_deltas [] deltas) _ h6 in
    let sources : Sources = record {
      states = states;
      completions = completions;
      deltas = deltas;
      chain = chain;
      current_position = top;
    } in
    let (rows, made, h8) = >>=-eq-ok (memory_turns sources (identity.turn_number - 1) 1 0) _ h7 in
    let (u6, contiguous, h9) = >>=-eq-ok (check_contiguous 1 rows) _ h8 in
    let (kept, count) = memory_turns-Recorded sources _ 1 0 rows made in
    let same_memory = made_memory rows memory h9 in
    (
      chain,
      top,
      walked,
      expected_position _ _ top topped,
      subst (λ m. length m.turns ≡ identity.turn_number - 1) same_memory count,
      subst (λ m. Recorded sources 1 0 m.turns) same_memory kept,
    )
