-- ===== src/TurnState/Side.antt =====
-- src/maple_next/domain/turn_state.py: one side's state and delta, their `__post_init__` checks and
-- `_derive_side`. The eleven fields are typed, so the checks on a field's Python type are void.
use maple_next.Base.{
  ℕ, String, Bool, not, Option, none, some, List, [], ◌∷◌, leb, ltb, if◌then◌else◌, Result, ok, err,
  value_error, raise_if, ◌>>=◌, ◌>>◌, is_blank,
}
use maple_next.Enums.{HpBucket}
use maple_next.TurnState.Known.{Known, FieldDelta, is_confirmed_status, is_changed, derive_field}

-- A stat stage; `negsuc n` is -(n + 1).
pub data ℤ : Type 0 where
  pos : ℕ → ℤ
  negsuc : ℕ → ℤ

-- `_MIN_STAGE <= value <= _MAX_STAGE`
unfoldable pub stage_in_range : ℤ → Bool
stage_in_range (pos n) = leb n 6
stage_in_range (negsuc n) = ltb n 6

-- The validators take the value of a field, where `none` is Python's `None`.
unfoldable pub validate_field_text : Option String → Result (Unit {0})
validate_field_text none = err (value_error "field text must be a non-empty string")
validate_field_text (some value) =
    raise_if (is_blank value) (value_error "field text must be a non-empty string")

unfoldable pub validate_stage_value : Option ℤ → Result (Unit {0})
unfolding stage_in_range
validate_stage_value none = err (value_error "stat stage value must be an int")
validate_stage_value (some value) =
    raise_if (not (stage_in_range value)) (value_error "stat stage must be between -6 and +6")

unfoldable pub validate_entries : List String → Result (Unit {0})
validate_entries [] = ok tt
validate_entries (item ∷ items) = do
  raise_if (is_blank item) (value_error "side effect entries must be non-empty strings")
  validate_entries items

unfoldable pub validate_side_effects : Option (List String) → Result (Unit {0})
unfolding validate_entries
validate_side_effects none = err (value_error "side effects must be a tuple")
validate_side_effects (some items) = validate_entries items

pub record SideState : Type 0 where
  pub active : Known String
  pub hp_bucket : Known HpBucket
  pub status : Known String
  pub attack_stage : Known ℤ
  pub defense_stage : Known ℤ
  pub special_attack_stage : Known ℤ
  pub special_defense_stage : Known ℤ
  pub speed_stage : Known ℤ
  pub accuracy_stage : Known ℤ
  pub evasion_stage : Known ℤ
  pub side_effects : Known (List String)

pub record SideDelta : Type 0 where
  pub active : FieldDelta String
  pub hp_bucket : FieldDelta HpBucket
  pub status : FieldDelta String
  pub attack_stage : FieldDelta ℤ
  pub defense_stage : FieldDelta ℤ
  pub special_attack_stage : FieldDelta ℤ
  pub special_defense_stage : FieldDelta ℤ
  pub speed_stage : FieldDelta ℤ
  pub accuracy_stage : FieldDelta ℤ
  pub evasion_stage : FieldDelta ℤ
  pub side_effects : FieldDelta (List String)

module _ {ℓ} {A : Type ℓ} where
  -- `if known.is_confirmed: validate(known.value)`
  unfoldable pub validate_known : (Option A → Result (Unit {0})) → Known A → Result (Unit {0})
  validate_known validate known =
      if is_confirmed_status known.status then validate known.value else ok tt

  -- `if delta.observation is ChangeObservation.CHANGED: validate(delta.after_value)`
  unfoldable pub validate_delta : (Option A → Result (Unit {0})) → FieldDelta A → Result (Unit {0})
  validate_delta validate delta =
      if is_changed delta.observation then validate delta.after_value else ok tt

  -- A loop that validates each element.
  unfoldable pub validate_all : (A → Result (Unit {0})) → List A → Result (Unit {0})
  validate_all validate [] = ok tt
  validate_all validate (a ∷ rest) = do validate a; validate_all validate rest

-- `SideState._stages`
abbrev pub state_stages : SideState → List (Known ℤ)
state_stages s =
    s.attack_stage ∷ s.defense_stage ∷ s.special_attack_stage ∷ s.special_defense_stage
    ∷ s.speed_stage ∷ s.accuracy_stage ∷ s.evasion_stage ∷ []

-- `SideDelta._stages`
abbrev pub delta_stages : SideDelta → List (FieldDelta ℤ)
delta_stages d =
    d.attack_stage ∷ d.defense_stage ∷ d.special_attack_stage ∷ d.special_defense_stage
    ∷ d.speed_stage ∷ d.accuracy_stage ∷ d.evasion_stage ∷ []

-- `SideState.__post_init__`
unfoldable pub make_side_state : SideState → Result SideState
unfolding validate_all
make_side_state s = do
  validate_known validate_field_text s.active
  validate_known validate_field_text s.status
  validate_all (validate_known validate_stage_value) (state_stages s)
  validate_known validate_side_effects s.side_effects
  ok s

-- `SideDelta.__post_init__`
unfoldable pub make_side_delta : SideDelta → Result SideDelta
unfolding validate_all
make_side_delta d = do
  validate_delta validate_field_text d.active
  validate_delta validate_field_text d.status
  validate_all (validate_delta validate_stage_value) (delta_stages d)
  validate_delta validate_side_effects d.side_effects
  ok d

-- `_derive_side`
unfoldable pub derive_side : SideState → SideDelta → Result SideState
derive_side previous delta = do
  active ← derive_field previous.active delta.active
  hp_bucket ← derive_field previous.hp_bucket delta.hp_bucket
  status ← derive_field previous.status delta.status
  attack_stage ← derive_field previous.attack_stage delta.attack_stage
  defense_stage ← derive_field previous.defense_stage delta.defense_stage
  special_attack_stage ← derive_field previous.special_attack_stage delta.special_attack_stage
  special_defense_stage ← derive_field previous.special_defense_stage delta.special_defense_stage
  speed_stage ← derive_field previous.speed_stage delta.speed_stage
  accuracy_stage ← derive_field previous.accuracy_stage delta.accuracy_stage
  evasion_stage ← derive_field previous.evasion_stage delta.evasion_stage
  side_effects ← derive_field previous.side_effects delta.side_effects
  make_side_state (record {
    active = active;
    hp_bucket = hp_bucket;
    status = status;
    attack_stage = attack_stage;
    defense_stage = defense_stage;
    special_attack_stage = special_attack_stage;
    special_defense_stage = special_defense_stage;
    speed_stage = speed_stage;
    accuracy_stage = accuracy_stage;
    evasion_stage = evasion_stage;
    side_effects = side_effects;
  })
