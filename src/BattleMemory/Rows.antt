-- ===== src/BattleMemory/Rows.antt =====
-- Proofs about one round of `build_battle_memory` of src/maple_next/domain/battle_memory.py.
use maple_next.Base.{
  ℕ, suc, ◌≤◌, ◌<◌, ◌≡◌, refl, sym, ap, subst, ◌∙◌, String, Bool, true, false, Option, none, some,
  List, [], ◌∷◌, find_first, ltb, leb, ◌||◌, Result, Error, ok, raise_if, >>=-eq-ok, arith, ◌==◌,
  ◌!=◌, nat_eq, string_eq, ==-eq, Eq, option_eq, Bool-cases, inl, inr,
}
use maple_next.TurnState.Records.{identity_eq, ConfirmedTurnState, ActionResultDelta}
use maple_next.TurnState.Same.{confirmed_state_eq}
use maple_next.BattleMemory.{
  RichActionCompletionFacts, BattleMemoryTurn, action_confirmed, make_memory_turn,
}
use maple_next.BattleMemory.Chain.{find_state, position}
use maple_next.BattleMemory.Build.{
  expect, expect_position, Sources, find_completion, find_delta, deltas_per_state, memory_turn,
  assemble, opponent_action_of,
}

-- What stands behind the memory of one Turn: its completion; the human-confirmed state that was reviewed in
-- it, at a place of the chain that is not below `low` and before the current state; and the delta that the
-- completion names, the one that is based on that state. The row holds them.
pub record IsRecorded (sources : Sources) (turn_number low place : ℕ) (row : BattleMemoryTurn)
    : Type 0 where
  pub completion : RichActionCompletionFacts
  pub completed : find_completion turn_number sources.completions ≡ some completion
  pub identity : row.identity ≡ completion.identity
  pub number : row.identity.turn_number ≡ turn_number
  pub state_id : row.reviewed_confirmed_state_id ≡ completion.based_on_confirmed_state_id
  pub reviewed : ConfirmedTurnState
  pub found : find_state row.reviewed_confirmed_state_id sources.states ≡ some reviewed
  pub same : reviewed.identity ≡ row.identity
  pub at : position row.reviewed_confirmed_state_id sources.chain ≡ some place
  pub above : low ≤ place
  pub below : place < sources.current_position
  pub based : row.result.based_on_confirmed_state_id ≡ row.reviewed_confirmed_state_id
  pub result : row.result.identity ≡ row.identity
  pub linked : find_delta completion.delta_id sources.deltas ≡ some row.result
  pub only : deltas_per_state row.reviewed_confirmed_state_id sources.deltas ≡ 1
  pub own :
      action_confirmed completion.own_action_type completion.own_action_name ≡ ok row.own_action
  pub opponent :
      opponent_action_of completion.opponent_action_type completion.opponent_action_name
      ≡ ok row.opponent_action
  pub order : row.action_order ≡ completion.action_order
  pub self_active : row.turn_start_self_active ≡ reviewed.self_side.active
  pub opponent_active : row.turn_start_opponent_active ≡ reviewed.opponent_side.active

expected {ℓ} :
    {A : Type ℓ} (code : String) (o : Option A) (a : A) → expect code o ≡ ok a → o ≡ some a
expected code none a h = cc
expected code (some b) a h = ground (arith, h)

pub expected_position :
    (id : String) (o : Option ℕ) (n : ℕ) → expect_position id o ≡ ok n → o ≡ some n
expected_position id none n h = cc
expected_position id (some m) n h = ground (arith, h)

passed : (b : Bool) (e : Error) (u : Unit {0}) → raise_if b e ≡ ok u → b ≡ false
passed true e u h = cc
passed false e u h = refl

equal {ℓ} :
    {A : Type ℓ} ⦃e : Eq A⦄ (a b : A) (x : Error) (u : Unit {0})
    → raise_if (a != b) x ≡ ok u
    → a ≡ b
equal a b x u h = ==-eq a b (ground (arith, passed (a != b) x u h))

find_completion-number :
    (n : ℕ) (cs : List RichActionCompletionFacts) (c : RichActionCompletionFacts)
    → find_completion n cs ≡ some c
    → c.identity.turn_number ≡ n
unfolding find_completion find_first
find_completion-number n [] c h = cc
find_completion-number n (x ∷ cs) c h = elim (Bool-cases (x.identity.turn_number == n)) [
  | inl e ↦
      let here : some x ≡ some c = rw e at h in
      let number = ==-eq x.identity.turn_number n e in ground (arith, here, number)
  | inr e ↦
      let later : find_completion n cs ≡ some c = rw e at h in find_completion-number n cs c later
]

make_memory_turn_lem : (t u : BattleMemoryTurn) → make_memory_turn t ≡ ok u → u ≡ t
unfolding make_memory_turn
make_memory_turn_lem t u h = ground arith

ok_pair {ℓ κ} :
    {A : Type ℓ} {B : Type κ} (a c : A) (b d : B)
    → Path (Result (A × B)) (ok (a, b)) (ok (c, d))
    → (c ≡ a) × (d ≡ b)
ok_pair a c b d h = ground (arith, h)

-- The fields of a row that its sources give.
record Carries (c : RichActionCompletionFacts) (s : ConfirmedTurnState) (d : ActionResultDelta)
    (row : BattleMemoryTurn) : Type 0 where
  identity : row.identity ≡ c.identity
  state_id : row.reviewed_confirmed_state_id ≡ c.based_on_confirmed_state_id
  result : row.result ≡ d
  own : action_confirmed c.own_action_type c.own_action_name ≡ ok row.own_action
  opponent :
      opponent_action_of c.opponent_action_type c.opponent_action_name ≡ ok row.opponent_action
  order : row.action_order ≡ c.action_order
  self_active : row.turn_start_self_active ≡ s.self_side.active
  opponent_active : row.turn_start_opponent_active ≡ s.opponent_side.active

assemble_lem :
    (c : RichActionCompletionFacts) (s : ConfirmedTurnState) (d : ActionResultDelta)
    (row : BattleMemoryTurn)
    → assemble c s d ≡ ok row
    → Carries c s d row
unfolding assemble
assemble_lem c s d row h =
    let (opponent, o_made, h1) =
      >>=-eq-ok (opponent_action_of c.opponent_action_type c.opponent_action_name) _ h in
    let (own, own_made, h2) =
      >>=-eq-ok (action_confirmed c.own_action_type c.own_action_name) _ h1 in
    let shape = make_memory_turn_lem _ row h2 in
    record {
      identity = ap (λ r. r.identity) shape;
      state_id = ap (λ r. r.reviewed_confirmed_state_id) shape;
      result = ap (λ r. r.result) shape;
      own = own_made ∙ sym (ap (λ r. ok r.own_action) shape);
      opponent = o_made ∙ sym (ap (λ r. ok r.opponent_action) shape);
      order = ap (λ r. r.action_order) shape;
      self_active = ap (λ r. r.turn_start_self_active) shape;
      opponent_active = ap (λ r. r.turn_start_opponent_active) shape;
    }

in_order :
    (place low top : ℕ) → (ltb place low || leb top place) ≡ false → (low ≤ place) × (place < top)
in_order place low top h = ground (arith, h)

module _ (sources : Sources) where
  pub memory_turn-IsRecorded :
      (turn_number low : ℕ) (row : BattleMemoryTurn) (next : ℕ)
      → memory_turn sources turn_number low ≡ ok (row, next)
      → (place : ℕ) × (next ≡ suc place) × IsRecorded sources turn_number low place row
  unfolding memory_turn
  memory_turn-IsRecorded turn_number low row next h =
      let (c, c_found, h1) =
        >>=-eq-ok (expect _ (find_completion turn_number sources.completions)) _ h in
      let state_id = c.based_on_confirmed_state_id in
      let (s, s_found, h2) = >>=-eq-ok (expect _ (find_state state_id sources.states)) _ h1 in
      let (u1, same, h3) = >>=-eq-ok (raise_if (s.identity != c.identity) _) _ h2 in
      let (place, placed, h4) = >>=-eq-ok (expect _ (position state_id sources.chain)) _ h3 in
      let (u2, between, h5) =
        >>=-eq-ok (raise_if (ltb place low || leb sources.current_position place) _) _ h4 in
      let (d, d_found, h6) = >>=-eq-ok (expect _ (find_delta c.delta_id sources.deltas)) _ h5 in
      let (u3, based, h7) =
        >>=-eq-ok (raise_if (d.based_on_confirmed_state_id != state_id) _) _ h6 in
      let (u4, result, h8) = >>=-eq-ok (raise_if (d.identity != c.identity) _) _ h7 in
      let (u5, only, h9) =
        >>=-eq-ok (raise_if (deltas_per_state state_id sources.deltas != 1) _) _ h8 in
      let (made, m_made, last) = >>=-eq-ok (assemble c s d) _ h9 in
      let shape = assemble_lem c s d made m_made in
      let (is_row, is_next) = ok_pair made row (suc place) next last in
      let (above, below) = in_order place low sources.current_position (passed _ _ u2 between) in
      (
        place,
        is_next,
        subst (IsRecorded sources turn_number low place) (sym is_row) (record {
          number =
              ap (λ i. i.turn_number) shape.identity
              ∙ find_completion-number turn_number sources.completions c (expected _ _ c c_found);
          completion = c;
          completed = expected _ _ c c_found;
          identity = shape.identity;
          state_id = shape.state_id;
          reviewed = s;
          found = ap (λ i. find_state i sources.states) shape.state_id ∙ expected _ _ s s_found;
          same = equal s.identity c.identity _ u1 same ∙ sym shape.identity;
          at = ap (λ i. position i sources.chain) shape.state_id ∙ expected _ _ place placed;
          above = above;
          below = below;
          based =
              ap (λ r. r.based_on_confirmed_state_id) shape.result
              ∙ equal d.based_on_confirmed_state_id state_id _ u3 based
              ∙ sym shape.state_id;
          result =
              ap (λ r. r.identity) shape.result
              ∙ equal d.identity c.identity _ u4 result
              ∙ sym shape.identity;
          linked = expected _ _ d d_found ∙ sym (ap some shape.result);
          own = shape.own;
          opponent = shape.opponent;
          order = shape.order;
          self_active = shape.self_active;
          opponent_active = shape.opponent_active;
          only =
              ap (λ i. deltas_per_state i sources.deltas) shape.state_id
              ∙ equal (deltas_per_state state_id sources.deltas) 1 _ u5 only;
        }),
      )
