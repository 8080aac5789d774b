-- ===== src/BattleEvents/Laws.antt =====
-- Proofs about src/maple_next/domain/battle_events.py.
use maple_next.Base.{
  some, String, true, not, ◌≡◌, refl, Option, List, [], ◌∷◌, ok, raise_if, >>=-eq-ok, arith, ◌==◌,
  string_eq, member, Bool-cases, inl, inr, is_blank,
}
use maple_next.TurnState.Side.{ℤ, pos, negsuc, stage_in_range, validate_stage_value}
use maple_next.BattleEvents.{
  stage_field_names, clamp_stage, StageEventPreset, check_fields, make_preset, put,
  ordinary_switch_reset_stages, stage_or_zero, apply_deltas, apply_stage_event, ◌+ℤ◌,
}

-- Entries for stage fields, with stages that a side's state accepts.
pub data AllStages : List (String × ℤ) → Type 0 where
  no_stages : AllStages []
  one_stage :
      (name : String) (stage : ℤ) (rest : List (String × ℤ))
      → member name stage_field_names ≡ true
      → validate_stage_value (some stage) ≡ ok tt
      → AllStages rest
      → AllStages ((name, stage) ∷ rest)

clamp_stage-valid : (stage : ℤ) → validate_stage_value (some (clamp_stage stage)) ≡ ok tt
unfolding clamp_stage validate_stage_value stage_in_range
clamp_stage-valid (pos n) = ground arith
clamp_stage-valid (negsuc n) = ground arith

put-AllStages :
    (name : String) (stage : ℤ) (entries : List (String × ℤ))
    → member name stage_field_names ≡ true
    → validate_stage_value (some stage) ≡ ok tt
    → AllStages entries
    → AllStages (put name stage entries)
unfolding put
put-AllStages name stage [] m v no_stages = one_stage name stage [] m v no_stages
put-AllStages name stage ((other, old) ∷ rest) m v (one_stage _ _ _ m' v' a) =
    elim (Bool-cases (other == name)) [
      | inl e ↦ rw e (one_stage name stage rest m v a)
      | inr e ↦ rw e (one_stage other old _ m' v' (put-AllStages name stage rest m v a))
    ]

zero_stage :
    (name : String) (rest : List (String × ℤ))
    → member name stage_field_names ≡ true
    → AllStages rest
    → AllStages ((name, pos 0) ∷ rest)
unfolding validate_stage_value stage_in_range
zero_stage name rest m a = one_stage name (pos 0) rest m refl a

reset-AllStages : AllStages ordinary_switch_reset_stages
unfolding ordinary_switch_reset_stages member
reset-AllStages = zero_stage "attack_stage" _ refl (
    zero_stage "defense_stage" _ refl (
      zero_stage "special_attack_stage" _ refl (
        zero_stage "special_defense_stage" _ refl (
          zero_stage "speed_stage" _ refl
            (zero_stage "accuracy_stage" _ refl (zero_stage "evasion_stage" [] refl no_stages))))))

module _ (current_stages : String → Option ℤ) where
  apply_deltas-AllStages :
      (deltas entries : List (String × ℤ))
      → check_fields deltas ≡ ok tt
      → AllStages entries
      → AllStages (apply_deltas current_stages entries deltas)
  unfolding apply_deltas check_fields
  apply_deltas-AllStages [] entries c a = a
  apply_deltas-AllStages ((name, delta) ∷ rest) entries c a =
      let (u, known, more) = >>=-eq-ok (raise_if (not (member name stage_field_names)) _) _ c in
      let stage = clamp_stage (stage_or_zero (current_stages name) +ℤ delta) in
      let here : member name stage_field_names ≡ true = ground (arith, known) in
      apply_deltas-AllStages rest (put name stage entries) more (
        put-AllStages name stage entries here
          (clamp_stage-valid (stage_or_zero (current_stages name) +ℤ delta)) a)

  -- Whatever the current stages are, the candidates of a preset that its constructor accepts are stages
  -- from -6 to 6 of stage fields, so a side's state accepts each of them.
  pub apply_stage_event-AllStages :
      (preset built : StageEventPreset)
      → make_preset preset ≡ ok built
      → AllStages (apply_stage_event current_stages preset)
  unfolding apply_stage_event make_preset ordinary_switch_reset_stages member
  apply_stage_event-AllStages preset built h =
      let (u1, k, h1) = >>=-eq-ok (raise_if (is_blank preset.key) _) _ h in
      let (u2, l, h2) = >>=-eq-ok (raise_if (is_blank preset.label) _) _ h1 in
      let (u3, fields, h3) = >>=-eq-ok (check_fields preset.deltas) _ h2 in
      elim (Bool-cases preset.reset) [
        | inl e ↦ rw e reset-AllStages
        | inr e ↦ rw e (apply_deltas-AllStages preset.deltas [] fields no_stages)
      ]
