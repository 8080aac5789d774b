-- ===== src/Application/Hydrated.antt =====
-- Proofs about `next_turn_with_action_result` of src/maple_next/application/service.py.
use maple_next.Base.{
  ℕ, String, ◌≡◌, ap, ◌∙◌, arith, Option, none, some, List, [], ◌∷◌, Result, ok, >>=-eq-ok,
  string_eq, nat_eq, option_eq, ◌⊎◌, inl, inr,
}
use maple_next.Models.{turn_eq}
use maple_next.TurnState.Records.{identity_eq, ConfirmedTurnState, ActionResultDelta}
use maple_next.TurnState.Same.{confirmed_state_eq, delta_eq}
use maple_next.TurnState.Json.{Python}
use maple_next.TurnState.Derivation.{IsState, IsResult}
use maple_next.TurnStateRows.{confirmed_turn_state_from_row, action_result_delta_from_row}
use maple_next.TurnStateRows.Laws.{from_row-IsState, from_row-IsResult}
use maple_next.Repository.{Repository, ◌>>=◌}
use maple_next.Repository.Order.{last, read_rows, read_found}
use maple_next.Repository.TurnStates.{
  get_latest_confirmed_turn_state_for_identity, list_action_result_deltas_based_on,
}

last_cons :
    {B : Type 0} (first b : B) (rest : List B)
    → last (first ∷ rest) ≡ some b
    → (first ≡ b) ⊎ (last rest ≡ some b)
last_cons first b [] h = inl (ground (arith, h))
last_cons first b (x ∷ rest) h = inr h

module _ {A B : Type 0} (read : A → Result B) where
  -- What is read from a list was read from one of its rows.
  read_one :
      (o : Option A) (b : B) → read_found read o ≡ ok (some b) → (row : A) × (read row ≡ ok b)
  read_one none b h = ground arith
  read_one (some row) b h =
      let (c, e, same) = >>=-eq-ok (read row) _ h in (row, e ∙ ground (arith, same))

  last_read :
      (rows : List A) (bs : List B) (b : B)
      → read_rows read rows ≡ ok bs
      → last bs ≡ some b
      → (row : A) × (read row ≡ ok b)
  unfolding read_rows
  last_read [] bs b h l = ground arith
  last_read (row ∷ rows) bs b h l =
      let (first, e, more) = >>=-eq-ok (read row) _ h in
      let (rest, es, made) = >>=-eq-ok (read_rows read rows) _ more in
      let same : first ∷ rest ≡ bs = ground (arith, made) in
      elim (last_cons first b rest (ap last same ∙ l)) [
        | inl this ↦ (row, e ∙ ap ok this)
        | inr later ↦ last_read rows rest b es later
      ]

module _ (py : Python) where
  pub latest-IsState :
      (a b : String) (n : ℕ) (s : Repository) (state : ConfirmedTurnState)
      → get_latest_confirmed_turn_state_for_identity py a b n s ≡ (ok (some state), s)
      → IsState state
  unfolding get_latest_confirmed_turn_state_for_identity ◌>>=◌
  latest-IsState a b n s state h =
      let (row, e) = read_one (confirmed_turn_state_from_row py) _ state (ap (λ p. p.0) h) in
      from_row-IsState py row state e

  pub last-IsResult :
      (id : String) (s : Repository) (deltas : List ActionResultDelta) (delta : ActionResultDelta)
      → list_action_result_deltas_based_on py id s ≡ (ok deltas, s)
      → last deltas ≡ some delta
      → IsResult delta
  unfolding list_action_result_deltas_based_on ◌>>=◌
  last-IsResult id s deltas delta h l =
      let (row, e) =
        last_read (action_result_delta_from_row py) _ deltas delta (ap (λ p. p.0) h) l in
      from_row-IsResult py row delta e
