-- ===== src/Application/Exclusion.antt =====
-- The columns of src/maple_next/persistence/schema.py by which no two sessions are active.
use maple_next.Base.{
  ℕ, ◌+◌, ◌≤◌, String, Bool, true, false, ◌&&◌, ◌≡◌, refl, sym, subst, Option, some, List, [], ◌∷◌,
  arith, any_of, is_some, Bool-cases, inl, inr, if◌then◌else◌, ◌==◌, ◌!=◌, ==-eq, nat_eq, string_eq,
  option_eq,
}
use maple_next.Models.{BattleSession}
use maple_next.Repository.Sessions.{slot_taken, update_rows, with_columns, is_active}
use maple_next.Application.Match.{released}
use maple_next.Application.Effect.{Purpose, Effect, kept, saved, opened, reopened}

abbrev has_id : String → List BattleSession → Bool
has_id id rows = any_of (λ row. row.session_id == id) rows

-- No two rows share an id or an active slot.
pub data IsTable : List BattleSession → Type 0 where
  no_rows : IsTable []
  with_row :
      (row : BattleSession) (rows : List BattleSession)
      → has_id row.session_id rows ≡ false
      → slot_taken row rows ≡ false
      → IsTable rows
      → IsTable (row ∷ rows)

abbrev shares : Option ℕ → Option ℕ → Bool
shares mine other = is_some mine && other == mine

shares_comm : (a b : Option ℕ) → shares a b ≡ false → shares b a ≡ false
shares_comm a b h = ground (arith, option_eq.beq_iff a b, option_eq.beq_iff b a)

abbrev written : BattleSession → BattleSession → BattleSession
written new row = if row.session_id == new.session_id then with_columns row new else row

written-id : (new row : BattleSession) → (written new row).session_id ≡ row.session_id
unfolding with_columns
written-id new row = ground arith

has_id-update_rows :
    (id : String) (new : BattleSession) (rows : List BattleSession)
    → has_id id (update_rows new rows) ≡ has_id id rows
unfolding update_rows any_of
has_id-update_rows id new [] = refl
has_id-update_rows id new (row ∷ rows) =
    rw (written-id new row, has_id-update_rows id new rows) refl

update_rows-absent :
    (new : BattleSession) (rows : List BattleSession)
    → has_id new.session_id rows ≡ false
    → update_rows new rows ≡ rows
unfolding update_rows any_of
update_rows-absent new [] h = refl
update_rows-absent new (row ∷ rows) h =
    let rest = update_rows-absent new rows (ground arith) in
    let other : (row.session_id == new.session_id) ≡ false = ground arith in rw (other, rest) refl

-- A row that stays shares no slot with the rows after the update.
slot_taken-update_rows :
    (row new : BattleSession) (rows : List BattleSession)
    → shares new.active_slot row.active_slot ≡ false
    → slot_taken row rows ≡ false
    → slot_taken row (update_rows new rows) ≡ false
unfolding slot_taken update_rows any_of with_columns
slot_taken-update_rows row new [] h t = refl
slot_taken-update_rows row new (x ∷ rows) h t =
    let rest = slot_taken-update_rows row new rows h (ground arith) in
    let apart = shares_comm new.active_slot row.active_slot h in
    elim (Bool-cases (x.session_id == new.session_id)) [
      | inl e ↦ ground arith
      | inr e ↦ ground arith
    ]

slot_taken-rest :
    (new row : BattleSession) (rows : List BattleSession)
    → slot_taken new (row ∷ rows) ≡ false
    → (slot_taken new rows ≡ false)
      × ((row.session_id != new.session_id && shares new.active_slot row.active_slot) ≡ false)
unfolding slot_taken any_of
slot_taken-rest new row rows h = (ground arith, ground arith)

slot_taken_same :
    (a b : BattleSession) (rows : List BattleSession)
    → a.session_id ≡ b.session_id
    → a.active_slot ≡ b.active_slot
    → slot_taken a rows ≡ slot_taken b rows
unfolding slot_taken
slot_taken_same a b rows i s = rw (i, s) refl

module _ (new row : BattleSession) (rows : List BattleSession) where
  written_alone :
      slot_taken new (row ∷ rows) ≡ false
      → has_id row.session_id rows ≡ false
      → slot_taken row rows ≡ false
      → slot_taken (written new row) (update_rows new rows) ≡ false
  unfolding with_columns
  written_alone h i t = elim (Bool-cases (row.session_id == new.session_id)) [
    | inl e ↦
        let same = ==-eq row.session_id new.session_id e in
        let absent : has_id new.session_id rows ≡ false = rw (← same) i in
        let slot = slot_taken_same (with_columns row new) new rows same refl in
        rw (e, update_rows-absent new rows absent, slot) (slot_taken-rest new row rows h).0
    | inr e ↦
        let (_, apart) = slot_taken-rest new row rows h in
        rw e (slot_taken-update_rows row new rows (ground arith) t)
  ]

update_rows-IsTable :
    (new : BattleSession) (rows : List BattleSession)
    → slot_taken new rows ≡ false
    → IsTable rows
    → IsTable (update_rows new rows)
unfolding update_rows
update_rows-IsTable new [] h no_rows = no_rows
update_rows-IsTable new (row ∷ rows) h (with_row _ _ i t rest) =
    with_row _ _ (rw (written-id new row, has_id-update_rows row.session_id new rows) i)
      (written_alone new row rows h i t)
      (update_rows-IsTable new rows (slot_taken-rest new row rows h).0 rest)

released-slot :
    (old : BattleSession) (rows : List BattleSession) → slot_taken (released old) rows ≡ false
unfolding released slot_taken any_of
released-slot old [] = refl
released-slot old (row ∷ rows) = let rest = released-slot old rows in ground arith

-- Every effect of a command keeps ids and active slots apart.
pub effect-IsTable :
    {p : Purpose} {must : Bool} {rows rows' : List BattleSession}
    → Effect p must rows rows'
    → IsTable rows
    → IsTable rows'
effect-IsTable (kept o h) i = subst IsTable (sym h) i
effect-IsTable {p} {must} {rows} (saved old new act t free h) i =
    subst IsTable (sym h) (update_rows-IsTable new rows free i)
effect-IsTable (opened new o act f h) i = subst IsTable (sym h) (with_row new _ f.session f.slot i)
effect-IsTable {p} {must} {rows} (reopened old new o act st f h) i = subst IsTable (sym h) (
    with_row new _ f.session f.slot
      (update_rows-IsTable (released old) rows (released-slot old rows) i))

unfoldable pub count_active : List BattleSession → ℕ
count_active [] = 0
count_active (row ∷ rows) = let rest = count_active rows in if is_active row then rest + 1 else rest

none_active :
    (row : BattleSession) (rows : List BattleSession)
    → is_active row ≡ true
    → has_id row.session_id rows ≡ false
    → slot_taken row rows ≡ false
    → count_active rows ≡ 0
unfolding count_active slot_taken any_of
none_active row [] a i t = refl
none_active row (x ∷ rows) a i t =
    let rest = none_active row rows a (ground arith) (ground arith) in
    let slot = ==-eq row.active_slot (some 1) a in ground (arith, slot)

pub IsTable-one_active : (rows : List BattleSession) → IsTable rows → count_active rows ≤ 1
unfolding count_active
IsTable-one_active [] no_rows = omega arith
IsTable-one_active (row ∷ rows) (with_row _ _ i t rest) = elim (Bool-cases (is_active row)) [
  | inl e ↦ let alone = none_active row rows e i t in ground arith
  | inr e ↦ let below = IsTable-one_active rows rest in ground arith
]
