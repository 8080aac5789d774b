-- ===== src/TurnState/SideJson.antt =====
-- src/maple_next/domain/turn_state.py: the JSON of the two records of a side.
use maple_next.Base.{String, Result, ok, err, turn_state_error, ◌>>=◌}
use Prim.Native.String.{◌++◌}
use maple_next.Envelopes.{Json, Members}
use maple_next.TurnState.Known.{Known, FieldDelta}
use maple_next.TurnState.Side.{SideState, SideDelta, make_side_state, make_side_delta}
use maple_next.TurnState.Json.{
  Python, read_bucket, write_bucket, write_stage, write_names, require, to_int, read_text,
  decode_side_effects, known_from_json, field_delta_from_json, known_to_json, field_delta_to_json,
}

unfoldable pub side_state_to_json : SideState → Members
side_state_to_json side =
    Members.member "active" (Json.object (known_to_json Json.text side.active)) (
      Members.member "hp_bucket" (Json.object (known_to_json write_bucket side.hp_bucket)) (
        Members.member "status" (Json.object (known_to_json Json.text side.status)) (
          Members.member "attack_stage" (Json.object (known_to_json write_stage side.attack_stage))
            (Members.member "defense_stage"
              (Json.object (known_to_json write_stage side.defense_stage))
              (Members.member "special_attack_stage"
                (Json.object (known_to_json write_stage side.special_attack_stage))
                (Members.member "special_defense_stage"
                  (Json.object (known_to_json write_stage side.special_defense_stage))
                  (Members.member "speed_stage"
                    (Json.object (known_to_json write_stage side.speed_stage))
                    (Members.member "accuracy_stage"
                      (Json.object (known_to_json write_stage side.accuracy_stage))
                      (Members.member "evasion_stage"
                        (Json.object (known_to_json write_stage side.evasion_stage))
                        (Members.member "side_effects"
                          (Json.object (known_to_json write_names side.side_effects))
                          Members.end))))))))))

unfoldable pub side_delta_to_json : SideDelta → Members
side_delta_to_json side =
    Members.member "active" (Json.object (field_delta_to_json Json.text side.active)) (
      Members.member "hp_bucket" (Json.object (field_delta_to_json write_bucket side.hp_bucket)) (
        Members.member "status" (Json.object (field_delta_to_json Json.text side.status)) (
          Members.member "attack_stage"
            (Json.object (field_delta_to_json write_stage side.attack_stage))
            (Members.member "defense_stage"
              (Json.object (field_delta_to_json write_stage side.defense_stage))
              (Members.member "special_attack_stage"
                (Json.object (field_delta_to_json write_stage side.special_attack_stage))
                (Members.member "special_defense_stage"
                  (Json.object (field_delta_to_json write_stage side.special_defense_stage))
                  (Members.member "speed_stage"
                    (Json.object (field_delta_to_json write_stage side.speed_stage))
                    (Members.member "accuracy_stage"
                      (Json.object (field_delta_to_json write_stage side.accuracy_stage))
                      (Members.member "evasion_stage"
                        (Json.object (field_delta_to_json write_stage side.evasion_stage))
                        (Members.member "side_effects"
                          (Json.object (field_delta_to_json write_names side.side_effects))
                          Members.end))))))))))

-- `if not isinstance(raw, dict): raise`
unfoldable pub as_dict : String → Json → Result Members
as_dict name (Json.object members) = ok members
as_dict name _ = err (turn_state_error ("INVALID_FIELD_SHAPE:" ++ name))

module _ (py : Python) {A : Type 0} where
  -- `field` of `side_state_from_json`
  unfoldable pub known_field : Members → String → (Json → Result A) → Result (Known A)
  unfolding require as_dict
  known_field payload name decode = do
    raw ← require payload name
    members ← as_dict name raw
    known_from_json py decode members

  -- `field` of `side_delta_from_json`
  unfoldable pub delta_field : Members → String → (Json → Result A) → Result (FieldDelta A)
  unfolding require as_dict
  delta_field payload name decode = do
    raw ← require payload name
    members ← as_dict name raw
    field_delta_from_json py decode members

module _ (py : Python) where
  unfoldable pub side_state_from_json : Members → Result SideState
  side_state_from_json payload = do
    active ← known_field py payload "active" (read_text py)
    hp_bucket ← known_field py payload "hp_bucket" read_bucket
    status ← known_field py payload "status" (read_text py)
    attack_stage ← known_field py payload "attack_stage" (to_int py)
    defense_stage ← known_field py payload "defense_stage" (to_int py)
    special_attack_stage ← known_field py payload "special_attack_stage" (to_int py)
    special_defense_stage ← known_field py payload "special_defense_stage" (to_int py)
    speed_stage ← known_field py payload "speed_stage" (to_int py)
    accuracy_stage ← known_field py payload "accuracy_stage" (to_int py)
    evasion_stage ← known_field py payload "evasion_stage" (to_int py)
    side_effects ← known_field py payload "side_effects" (decode_side_effects py)
    make_side_state (record {
      active = active;
      hp_bucket = hp_bucket;
      status = status;
      attack_stage = attack_stage;
      defense_stage = defense_stage;
      special_attack_stage = special_attack_stage;
      special_defense_stage = special_defense_stage;
      speed_stage = speed_stage;
      accuracy_stage = accuracy_stage;
      evasion_stage = evasion_stage;
      side_effects = side_effects;
    })

  unfoldable pub side_delta_from_json : Members → Result SideDelta
  side_delta_from_json payload = do
    active ← delta_field py payload "active" (read_text py)
    hp_bucket ← delta_field py payload "hp_bucket" read_bucket
    status ← delta_field py payload "status" (read_text py)
    attack_stage ← delta_field py payload "attack_stage" (to_int py)
    defense_stage ← delta_field py payload "defense_stage" (to_int py)
    special_attack_stage ← delta_field py payload "special_attack_stage" (to_int py)
    special_defense_stage ← delta_field py payload "special_defense_stage" (to_int py)
    speed_stage ← delta_field py payload "speed_stage" (to_int py)
    accuracy_stage ← delta_field py payload "accuracy_stage" (to_int py)
    evasion_stage ← delta_field py payload "evasion_stage" (to_int py)
    side_effects ← delta_field py payload "side_effects" (decode_side_effects py)
    make_side_delta (record {
      active = active;
      hp_bucket = hp_bucket;
      status = status;
      attack_stage = attack_stage;
      defense_stage = defense_stage;
      special_attack_stage = special_attack_stage;
      special_defense_stage = special_defense_stage;
      speed_stage = speed_stage;
      accuracy_stage = accuracy_stage;
      evasion_stage = evasion_stage;
      side_effects = side_effects;
    })
