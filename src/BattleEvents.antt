-- ===== src/BattleEvents.antt =====
-- src/maple_next/domain/battle_events.py: the quick events on stat stages. A dictionary of candidate
-- stages is a list of entries in the order of insertion; the current stages are the function that
-- `current_stages.get` is.
pub mod Laws
use maple_next.Base.{
  ℕ, zero, suc, ◌+◌, String, Bool, true, false, not, Option, none, some, List, [], ◌∷◌, map, leb,
  ltb, any_of, Result, ok, value_error, raise_if, ◌>>◌, is_blank, ◌==◌, string_eq, member,
  if◌then◌else◌,
}
use maple_next.TurnState.Side.{ℤ, pos, negsuc}

-- The difference of two natural numbers.
unfoldable pub minus : ℕ → ℕ → ℤ
minus m zero = pos m
minus zero (suc n) = negsuc n
minus (suc m) (suc n) = minus m n

infixl 30 ◌+ℤ◌
unfoldable pub ◌+ℤ◌ : ℤ → ℤ → ℤ
unfolding minus
pos m +ℤ pos n = pos (m + n)
pos m +ℤ negsuc n = minus m (suc n)
negsuc m +ℤ pos n = minus n (suc m)
negsuc m +ℤ negsuc n = negsuc (suc (m + n))

abbrev pub stage_field_names : List String
stage_field_names =
    "attack_stage" ∷ "defense_stage" ∷ "special_attack_stage" ∷ "special_defense_stage"
    ∷ "speed_stage" ∷ "accuracy_stage" ∷ "evasion_stage" ∷ []

-- `max(MIN_STAGE, min(MAX_STAGE, value))`; `negsuc 5` is -6.
unfoldable pub clamp_stage : ℤ → ℤ
clamp_stage (pos n) = if leb n 6 then pos n else pos 6
clamp_stage (negsuc n) = if leb n 5 then negsuc n else negsuc 5

pub record StageEventPreset : Type 0 where
  pub key : String
  pub label : String
  pub deltas : List (String × ℤ)
  pub reset : Bool

unfoldable pub check_fields : List (String × ℤ) → Result (Unit {0})
check_fields [] = ok tt
check_fields ((field_name, delta) ∷ rest) = do
  raise_if (not (member field_name stage_field_names)) (value_error "unknown stage field")
  check_fields rest

-- `StageEventPreset.__post_init__`; the message of the last check also names the field.
unfoldable pub make_preset : StageEventPreset → Result StageEventPreset
unfolding check_fields
make_preset p = do
  raise_if (is_blank p.key) (value_error "key must be explicit")
  raise_if (is_blank p.label) (value_error "label must be explicit")
  check_fields p.deltas
  ok p

abbrev plain : String → String → List (String × ℤ) → StageEventPreset
plain key label deltas = record { key = key; label = label; deltas = deltas; reset = false }

abbrev pub stage_event_presets : List StageEventPreset
stage_event_presets =
    plain "karawoyaburu" "からをやぶる" (
      ("attack_stage", pos 2)
      ∷ ("defense_stage", negsuc 0)
      ∷ ("special_attack_stage", pos 2)
      ∷ ("special_defense_stage", negsuc 0)
      ∷ ("speed_stage", pos 2)
      ∷ [])
    ∷ plain "turuginomai" "つるぎのまい" (("attack_stage", pos 2) ∷ [])
    ∷ plain "ryuunomai" "りゅうのまい" (("attack_stage", pos 1) ∷ ("speed_stage", pos 1) ∷ [])
    ∷ plain "meisou" "めいそう"
        (("special_attack_stage", pos 1) ∷ ("special_defense_stage", pos 1) ∷ [])
    ∷ plain "chounomai" "ちょうのまい" (
        ("special_attack_stage", pos 1)
        ∷ ("special_defense_stage", pos 1)
        ∷ ("speed_stage", pos 1)
        ∷ [])
    ∷ record { key = "reset"; label = "能力変化リセット"; deltas = []; reset = true }
    ∷ []

-- `result[name] = stage`
unfoldable pub put : String → ℤ → List (String × ℤ) → List (String × ℤ)
put name stage [] = (name, stage) ∷ []
put name stage ((other, old) ∷ rest) =
    let later = put name stage rest in
    if other == name then (name, stage) ∷ rest else (other, old) ∷ later

-- `ordinary_switch_reset_stages`, and what a preset that resets gives.
unfoldable pub ordinary_switch_reset_stages : List (String × ℤ)
ordinary_switch_reset_stages = map (λ name. (name, pos 0)) stage_field_names

abbrev stage_or_zero : Option ℤ → ℤ
stage_or_zero none = pos 0
stage_or_zero (some stage) = stage

module _ (current_stages : String → Option ℤ) where
  -- The loop over the deltas, with the entries so far.
  unfoldable pub apply_deltas : List (String × ℤ) → List (String × ℤ) → List (String × ℤ)
  unfolding put ◌+ℤ◌ clamp_stage
  apply_deltas result [] = result
  apply_deltas result ((field_name, delta) ∷ rest) =
      apply_deltas
        (put field_name (clamp_stage (stage_or_zero (current_stages field_name) +ℤ delta)) result)
        rest

  unfoldable pub apply_stage_event : StageEventPreset → List (String × ℤ)
  unfolding apply_deltas ordinary_switch_reset_stages
  apply_stage_event preset =
      if preset.reset then ordinary_switch_reset_stages else apply_deltas [] preset.deltas
