-- ===== src/Base/Errors.antt =====
-- Exceptions as values. An error carries its Python class and its code.
use Prim.Native.String.{String}
use mathlib.Core.Path.{◌≡◌, refl}
use mathlib.Core.Logic.{◌⊎◌, inl, inr}
use native.Mathlib.Omega.{arith}
use mathlib.Core.Bool.{Bool, true, false}

pub data Error : Type 0 where
  value_error : String → Error  -- ValueError
  type_error : String → Error  -- TypeError
  assertion_error : Error  -- AssertionError
  key_error : String → Error  -- KeyError
  integrity_error : String → Error  -- sqlite3.IntegrityError, with the violated constraint
  turn_state_error : String → Error  -- TurnStateError
  identity_error : String → Error  -- TurnStateIdentityError
  stale_error : String → Error  -- TurnStateStaleError
  legal_switch_error : String → Error  -- LegalSwitchError
  memory_error : String → Error  -- BattleMemoryError
  selected_build_error : String → Error  -- SelectedBuildContextError
  runtime_error : String → Error  -- RuntimeError
  domain_error : String → Error  -- DomainError

pub data Result {ℓ} (V : Type ℓ) : Type ℓ where
  err : Error → Result V
  ok : V → Result V

-- `if b: raise e`
abbrev pub raise_if : Bool → Error → Result (Unit {0})
raise_if true e = err e
raise_if false e = ok tt

infixl 5 ◌>>=◌ ◌>>◌
-- The steps of a block, up to the first that raises.
abbrev pub ◌>>=◌ {ℓ κ} : {V : Type ℓ} {W : Type κ} → Result V → (V → Result W) → Result W
err e >>= next = err e
ok value >>= next = next value

abbrev pub ◌>>◌ {κ} : {W : Type κ} → Result (Unit {0}) → Result W → Result W
check >> rest = check >>= λ _. rest

-- Inversion of a successful bind.
pub >>=-eq-ok {ℓ κ} :
    {V : Type ℓ} {W : Type κ} {done : W} (check : Result V) (next : V → Result W)
    → (check >>= next) ≡ ok done
    → (made : V) × (check ≡ ok made) × (next made ≡ ok done)
>>=-eq-ok (err e) next h = cc
>>=-eq-ok (ok made) next h = (made, refl, h)

-- A bind that raised did so in its first step or in the rest.
pub >>=-eq-err {ℓ κ} :
    {V : Type ℓ} {W : Type κ} {e : Error} (check : Result V) (next : V → Result W)
    → (check >>= next) ≡ err e
    → (check ≡ err e) ⊎ ((made : V) × (check ≡ ok made) × (next made ≡ err e))
>>=-eq-err (err x) next h = inl (ground (arith, h))
>>=-eq-err (ok made) next h = inr (made, refl, h)
