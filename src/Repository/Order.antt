-- ===== src/Repository/Order.antt =====
-- The two orders in which src/maple_next/persistence/turn_state_store.py reads a table whose rows stand
-- with the newest first: the row that `ORDER BY turn_number DESC, battle_revision DESC, rowid DESC LIMIT 1`
-- gives, and all rows by `ORDER BY turn_number ASC, battle_revision ASC, rowid ASC`.
use maple_next.Base.{
  Bool, ◌&&◌, ◌||◌, Option, none, some, List, [], ◌∷◌, Result, ok, ◌>>=◌, if◌then◌else◌, ltb, ◌==◌,
  nat_eq,
}
use maple_next.TurnState.Records.{TurnIdentity}

-- A later Turn, or a later revision in the same Turn.
abbrev pub is_later : TurnIdentity → TurnIdentity → Bool
is_later i j =
    ltb j.turn_number i.turn_number
    || i.turn_number == j.turn_number && ltb j.battle_revision i.battle_revision

abbrev pub last {ℓ} : {A : Type ℓ} → List A → Option A
last [] = none
last (a ∷ []) = some a
last (a ∷ b ∷ rest) = last (b ∷ rest)

module _ {A : Type 0} (identity_of : A → TurnIdentity) where
  abbrev pub later_of : A → Option A → Option A
  later_of row none = some row
  later_of row (some other) =
      if is_later (identity_of other) (identity_of row) then some other else some row

  unfoldable pub latest : List A → Option A
  latest [] = none
  latest (row ∷ rows) = later_of row (latest rows)

  -- The row is newer than those of the list.
  unfoldable pub insert_row : A → List A → List A
  insert_row row [] = row ∷ []
  insert_row row (other ∷ rows) =
      let rest = insert_row row rows in
      if is_later (identity_of other) (identity_of row) then row ∷ other ∷ rows else other ∷ rest

  unfoldable pub in_order : List A → List A
  unfolding insert_row
  in_order [] = []
  in_order (row ∷ rows) = insert_row row (in_order rows)

-- A row that must be read without an exception, and a list of such rows.
module _ {A B : Type 0} (read : A → Result B) where
  unfoldable pub read_rows : List A → Result (List B)
  read_rows [] = ok []
  read_rows (row ∷ rows) = do first ← read row; rest ← read_rows rows; ok (first ∷ rest)

  abbrev pub read_found : Option A → Result (Option B)
  read_found none = ok none
  read_found (some row) = do found ← read row; ok (some found)
