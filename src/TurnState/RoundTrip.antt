-- ===== src/TurnState/RoundTrip.antt =====
-- The sides of src/maple_next/domain/turn_state.py through their JSON and back.
use maple_next.Base.{String, Option, some, ◌≡◌, refl, Result, ok, >>=-eq-ok, arith}
use maple_next.Enums.{HpBucket}
use maple_next.Envelopes.{Json, Members, lookup_member}
use maple_next.TurnState.Known.{Known, FieldDelta}
use maple_next.TurnState.Side.{
  SideState, SideDelta, validate_known, validate_delta, validate_all, make_side_state,
  make_side_delta,
}
use maple_next.TurnState.Sides.{IsSideState, IsSideDelta, no_check}
use maple_next.TurnState.Fields.{IsKnown, IsDelta}
use maple_next.TurnState.Json.{
  Python, read_bucket, write_bucket, write_stage, write_names, require, to_int, read_text,
  decode_side_effects, known_from_json, field_delta_from_json, to_str,
}
use maple_next.TurnState.SideJson.{
  as_dict, known_field, delta_field, side_state_to_json, side_state_from_json, side_delta_to_json,
  side_delta_from_json,
}
use maple_next.TurnState.Codec.{
  read_bucket-write_bucket, to_int-write_stage, decode-write_names, known_from_json-known_to_json,
  field_delta_from_json-to_json, known_from_json-built, field_delta_from_json-built,
}

module _ (py : Python) where
  read_text-text : (t : String) → read_text py (Json.text t) ≡ ok t
  unfolding to_str
  read_text-text t = refl

  module _ {A : Type 0} (decode : Json → Result A) (payload : Members) (name : String) where
    field_found :
        (members : Members) (k : Known A)
        → lookup_member name payload ≡ some (Json.object members)
        → known_from_json py decode members ≡ ok k
        → known_field py payload name decode ≡ ok k
    unfolding known_field require as_dict
    field_found members k l r = ground arith

    delta_found :
        (members : Members) (d : FieldDelta A)
        → lookup_member name payload ≡ some (Json.object members)
        → field_delta_from_json py decode members ≡ ok d
        → delta_field py payload name decode ≡ ok d
    unfolding delta_field require as_dict
    delta_found members d l r = ground arith

    field-IsBuilt :
        (check : Option A → Result (Unit {0})) (k : Known A)
        → known_field py payload name decode ≡ ok k
        → validate_known check k ≡ ok tt
        → IsKnown check k
    unfolding known_field
    field-IsBuilt check k h checked =
        let (raw, _, rest) = >>=-eq-ok (require payload name) _ h in
        let (members, _, last) = >>=-eq-ok (as_dict name raw) _ rest in
        record { built = known_from_json-built py decode members k last; valid = checked }

    change-IsBuilt :
        (check : Option A → Result (Unit {0})) (d : FieldDelta A)
        → delta_field py payload name decode ≡ ok d
        → validate_delta check d ≡ ok tt
        → IsDelta check d
    unfolding delta_field
    change-IsBuilt check d h checked =
        let (raw, _, rest) = >>=-eq-ok (require payload name) _ h in
        let (members, _, last) = >>=-eq-ok (as_dict name raw) _ rest in
        record { built = field_delta_from_json-built py decode members d last; valid = checked }

no_check-state : (k : Known HpBucket) → validate_known no_check k ≡ ok tt
unfolding validate_known
no_check-state k = ground arith

no_check-delta : (d : FieldDelta HpBucket) → validate_delta no_check d ≡ ok tt
unfolding validate_delta
no_check-delta d = ground arith

module _ (s : SideState) (h : IsSideState s) where
  make_side_state-IsSideState : make_side_state s ≡ ok s
  unfolding make_side_state validate_all
  make_side_state-IsSideState =
      rw
        (
          h.active.valid, h.status.valid, h.attack_stage.valid, h.defense_stage.valid,
          h.special_attack_stage.valid, h.special_defense_stage.valid, h.speed_stage.valid,
          h.accuracy_stage.valid, h.evasion_stage.valid, h.side_effects.valid,
        )
        refl

  module _ (py : Python) where
    -- A side's state whose fields passed their checks is read back, unchanged, from the JSON written of it.
    pub side_state_from_json-to_json : side_state_from_json py (side_state_to_json s) ≡ ok s
    unfolding side_state_from_json side_state_to_json lookup_member
    side_state_from_json-to_json =
        let text = known_from_json-known_to_json py Json.text (read_text py) (read_text-text py) in
        let stage =
          known_from_json-known_to_json py write_stage (to_int py) (to_int-write_stage py) in
        let bucket =
          known_from_json-known_to_json py write_bucket read_bucket read_bucket-write_bucket in
        let names =
          known_from_json-known_to_json py write_names (decode_side_effects py)
            (decode-write_names py) in
        rw
          (
            field_found py _ _ "active" _ s.active refl (text s.active h.active.built),
            field_found py _ _ "hp_bucket" _ s.hp_bucket refl
                (bucket s.hp_bucket h.hp_bucket.built),
            field_found py _ _ "status" _ s.status refl (text s.status h.status.built),
            field_found py _ _ "attack_stage" _ s.attack_stage refl
                (stage s.attack_stage h.attack_stage.built),
            field_found py _ _ "defense_stage" _ s.defense_stage refl
                (stage s.defense_stage h.defense_stage.built),
            field_found py _ _ "special_attack_stage" _ s.special_attack_stage refl
                (stage s.special_attack_stage h.special_attack_stage.built),
            field_found py _ _ "special_defense_stage" _ s.special_defense_stage refl
                (stage s.special_defense_stage h.special_defense_stage.built),
            field_found py _ _ "speed_stage" _ s.speed_stage refl
                (stage s.speed_stage h.speed_stage.built),
            field_found py _ _ "accuracy_stage" _ s.accuracy_stage refl
                (stage s.accuracy_stage h.accuracy_stage.built),
            field_found py _ _ "evasion_stage" _ s.evasion_stage refl
                (stage s.evasion_stage h.evasion_stage.built),
            field_found py _ _ "side_effects" _ s.side_effects refl
                (names s.side_effects h.side_effects.built),
          )
          make_side_state-IsSideState

module _ (py : Python) (payload : Members) (s : SideState) where
  -- A side's state that is read from any JSON has passed the checks of its constructors, field by field.
  pub side_state_from_json-IsSideState : side_state_from_json py payload ≡ ok s → IsSideState s
  unfolding side_state_from_json make_side_state validate_all
  side_state_from_json-IsSideState h = record {
    active =
        field-IsBuilt py (read_text py) payload "active" _ s.active (ground (arith, h))
          (ground (arith, h));
    hp_bucket =
        field-IsBuilt py read_bucket payload "hp_bucket" _ s.hp_bucket (ground (arith, h))
          (no_check-state s.hp_bucket);
    status =
        field-IsBuilt py (read_text py) payload "status" _ s.status (ground (arith, h))
          (ground (arith, h));
    attack_stage =
        field-IsBuilt py (to_int py) payload "attack_stage" _ s.attack_stage (ground (arith, h))
          (ground (arith, h));
    defense_stage =
        field-IsBuilt py (to_int py) payload "defense_stage" _ s.defense_stage (ground (arith, h))
          (ground (arith, h));
    special_attack_stage =
        field-IsBuilt py (to_int py) payload "special_attack_stage" _ s.special_attack_stage
          (ground (arith, h)) (ground (arith, h));
    special_defense_stage =
        field-IsBuilt py (to_int py) payload "special_defense_stage" _ s.special_defense_stage
          (ground (arith, h)) (ground (arith, h));
    speed_stage =
        field-IsBuilt py (to_int py) payload "speed_stage" _ s.speed_stage (ground (arith, h))
          (ground (arith, h));
    accuracy_stage =
        field-IsBuilt py (to_int py) payload "accuracy_stage" _ s.accuracy_stage (ground (arith, h))
          (ground (arith, h));
    evasion_stage =
        field-IsBuilt py (to_int py) payload "evasion_stage" _ s.evasion_stage (ground (arith, h))
          (ground (arith, h));
    side_effects =
        field-IsBuilt py (decode_side_effects py) payload "side_effects" _ s.side_effects
          (ground (arith, h)) (ground (arith, h));
  }

module _ (d : SideDelta) (h : IsSideDelta d) where
  make_side_delta-IsSideDelta : make_side_delta d ≡ ok d
  unfolding make_side_delta validate_all
  make_side_delta-IsSideDelta =
      rw
        (
          h.active.valid, h.status.valid, h.attack_stage.valid, h.defense_stage.valid,
          h.special_attack_stage.valid, h.special_defense_stage.valid, h.speed_stage.valid,
          h.accuracy_stage.valid, h.evasion_stage.valid, h.side_effects.valid,
        )
        refl

  module _ (py : Python) where
    -- A side's delta whose fields passed their checks is read back, unchanged, from the JSON written of it.
    pub side_delta_from_json-to_json : side_delta_from_json py (side_delta_to_json d) ≡ ok d
    unfolding side_delta_from_json side_delta_to_json lookup_member
    side_delta_from_json-to_json =
        let text = field_delta_from_json-to_json py Json.text (read_text py) (read_text-text py) in
        let stage =
          field_delta_from_json-to_json py write_stage (to_int py) (to_int-write_stage py) in
        let bucket =
          field_delta_from_json-to_json py write_bucket read_bucket read_bucket-write_bucket in
        let names =
          field_delta_from_json-to_json py write_names (decode_side_effects py)
            (decode-write_names py) in
        rw
          (
            delta_found py _ _ "active" _ d.active refl (text d.active h.active.built),
            delta_found py _ _ "hp_bucket" _ d.hp_bucket refl
                (bucket d.hp_bucket h.hp_bucket.built),
            delta_found py _ _ "status" _ d.status refl (text d.status h.status.built),
            delta_found py _ _ "attack_stage" _ d.attack_stage refl
                (stage d.attack_stage h.attack_stage.built),
            delta_found py _ _ "defense_stage" _ d.defense_stage refl
                (stage d.defense_stage h.defense_stage.built),
            delta_found py _ _ "special_attack_stage" _ d.special_attack_stage refl
                (stage d.special_attack_stage h.special_attack_stage.built),
            delta_found py _ _ "special_defense_stage" _ d.special_defense_stage refl
                (stage d.special_defense_stage h.special_defense_stage.built),
            delta_found py _ _ "speed_stage" _ d.speed_stage refl
                (stage d.speed_stage h.speed_stage.built),
            delta_found py _ _ "accuracy_stage" _ d.accuracy_stage refl
                (stage d.accuracy_stage h.accuracy_stage.built),
            delta_found py _ _ "evasion_stage" _ d.evasion_stage refl
                (stage d.evasion_stage h.evasion_stage.built),
            delta_found py _ _ "side_effects" _ d.side_effects refl
                (names d.side_effects h.side_effects.built),
          )
          make_side_delta-IsSideDelta

module _ (py : Python) (payload : Members) (d : SideDelta) where
  -- A side's delta that is read from any JSON has passed the checks of its constructors, field by field.
  pub side_delta_from_json-IsSideDelta : side_delta_from_json py payload ≡ ok d → IsSideDelta d
  unfolding side_delta_from_json make_side_delta validate_all
  side_delta_from_json-IsSideDelta h = record {
    active =
        change-IsBuilt py (read_text py) payload "active" _ d.active (ground (arith, h))
          (ground (arith, h));
    hp_bucket =
        change-IsBuilt py read_bucket payload "hp_bucket" _ d.hp_bucket (ground (arith, h))
          (no_check-delta d.hp_bucket);
    status =
        change-IsBuilt py (read_text py) payload "status" _ d.status (ground (arith, h))
          (ground (arith, h));
    attack_stage =
        change-IsBuilt py (to_int py) payload "attack_stage" _ d.attack_stage (ground (arith, h))
          (ground (arith, h));
    defense_stage =
        change-IsBuilt py (to_int py) payload "defense_stage" _ d.defense_stage (ground (arith, h))
          (ground (arith, h));
    special_attack_stage =
        change-IsBuilt py (to_int py) payload "special_attack_stage" _ d.special_attack_stage
          (ground (arith, h)) (ground (arith, h));
    special_defense_stage =
        change-IsBuilt py (to_int py) payload "special_defense_stage" _ d.special_defense_stage
          (ground (arith, h)) (ground (arith, h));
    speed_stage =
        change-IsBuilt py (to_int py) payload "speed_stage" _ d.speed_stage (ground (arith, h))
          (ground (arith, h));
    accuracy_stage =
        change-IsBuilt py (to_int py) payload "accuracy_stage" _ d.accuracy_stage
          (ground (arith, h)) (ground (arith, h));
    evasion_stage =
        change-IsBuilt py (to_int py) payload "evasion_stage" _ d.evasion_stage (ground (arith, h))
          (ground (arith, h));
    side_effects =
        change-IsBuilt py (decode_side_effects py) payload "side_effects" _ d.side_effects
          (ground (arith, h)) (ground (arith, h));
  }
