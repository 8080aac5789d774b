-- ===== src/TurnState/Sides.antt =====
-- Proofs about `_derive_side` of src/maple_next/domain/turn_state.py.
use maple_next.Base.{◌≡◌, Option, Result, ok}
use maple_next.Enums.{HpBucket}
use maple_next.TurnState.Side.{
  SideState, SideDelta, validate_field_text, validate_stage_value, validate_side_effects,
  make_side_state, derive_side,
}
use maple_next.TurnState.Fields.{
  IsKnown, IsDelta, expected_field, derive_field-eq-expected, expected_field-valid,
}

-- `hp_bucket` has no check of its own.
abbrev pub no_check : Option HpBucket → Result (Unit {0})
no_check value = ok tt

pub record IsSideState (s : SideState) : Type 0 where
  pub active : IsKnown validate_field_text s.active
  pub hp_bucket : IsKnown no_check s.hp_bucket
  pub status : IsKnown validate_field_text s.status
  pub attack_stage : IsKnown validate_stage_value s.attack_stage
  pub defense_stage : IsKnown validate_stage_value s.defense_stage
  pub special_attack_stage : IsKnown validate_stage_value s.special_attack_stage
  pub special_defense_stage : IsKnown validate_stage_value s.special_defense_stage
  pub speed_stage : IsKnown validate_stage_value s.speed_stage
  pub accuracy_stage : IsKnown validate_stage_value s.accuracy_stage
  pub evasion_stage : IsKnown validate_stage_value s.evasion_stage
  pub side_effects : IsKnown validate_side_effects s.side_effects

pub record IsSideDelta (d : SideDelta) : Type 0 where
  pub active : IsDelta validate_field_text d.active
  pub hp_bucket : IsDelta no_check d.hp_bucket
  pub status : IsDelta validate_field_text d.status
  pub attack_stage : IsDelta validate_stage_value d.attack_stage
  pub defense_stage : IsDelta validate_stage_value d.defense_stage
  pub special_attack_stage : IsDelta validate_stage_value d.special_attack_stage
  pub special_defense_stage : IsDelta validate_stage_value d.special_defense_stage
  pub speed_stage : IsDelta validate_stage_value d.speed_stage
  pub accuracy_stage : IsDelta validate_stage_value d.accuracy_stage
  pub evasion_stage : IsDelta validate_stage_value d.evasion_stage
  pub side_effects : IsDelta validate_side_effects d.side_effects

-- Each field by its own rule.
abbrev pub expected_side : SideState → SideDelta → SideState
expected_side p d = record {
  active = expected_field p.active d.active;
  hp_bucket = expected_field p.hp_bucket d.hp_bucket;
  status = expected_field p.status d.status;
  attack_stage = expected_field p.attack_stage d.attack_stage;
  defense_stage = expected_field p.defense_stage d.defense_stage;
  special_attack_stage = expected_field p.special_attack_stage d.special_attack_stage;
  special_defense_stage = expected_field p.special_defense_stage d.special_defense_stage;
  speed_stage = expected_field p.speed_stage d.speed_stage;
  accuracy_stage = expected_field p.accuracy_stage d.accuracy_stage;
  evasion_stage = expected_field p.evasion_stage d.evasion_stage;
  side_effects = expected_field p.side_effects d.side_effects;
}

module _ (p : SideState) (d : SideDelta) (hp : IsSideState p) (hd : IsSideDelta d) where
  make_side_state-expected : make_side_state (expected_side p d) ≡ ok (expected_side p d)
  unfolding make_side_state
  make_side_state-expected = rw (
    expected_field-valid _ p.active d.active hp.active hd.active,
    expected_field-valid _ p.status d.status hp.status hd.status,
    expected_field-valid _ p.attack_stage d.attack_stage hp.attack_stage hd.attack_stage,
    expected_field-valid _ p.defense_stage d.defense_stage hp.defense_stage hd.defense_stage,
    expected_field-valid _ p.special_attack_stage d.special_attack_stage hp.special_attack_stage
        hd.special_attack_stage,
    expected_field-valid _ p.special_defense_stage d.special_defense_stage hp.special_defense_stage
        hd.special_defense_stage,
    expected_field-valid _ p.speed_stage d.speed_stage hp.speed_stage hd.speed_stage,
    expected_field-valid _ p.accuracy_stage d.accuracy_stage hp.accuracy_stage hd.accuracy_stage,
    expected_field-valid _ p.evasion_stage d.evasion_stage hp.evasion_stage hd.evasion_stage,
    expected_field-valid _ p.side_effects d.side_effects hp.side_effects hd.side_effects,
  )

  pub derive_side-eq-expected : derive_side p d ≡ ok (expected_side p d)
  unfolding derive_side
  derive_side-eq-expected =
      rw
        (
          derive_field-eq-expected _ p.active d.active hp.active hd.active,
          derive_field-eq-expected _ p.hp_bucket d.hp_bucket hp.hp_bucket hd.hp_bucket,
          derive_field-eq-expected _ p.status d.status hp.status hd.status,
          derive_field-eq-expected _ p.attack_stage d.attack_stage hp.attack_stage hd.attack_stage,
          derive_field-eq-expected _ p.defense_stage d.defense_stage hp.defense_stage
              hd.defense_stage,
          derive_field-eq-expected _ p.special_attack_stage d.special_attack_stage
              hp.special_attack_stage hd.special_attack_stage,
          derive_field-eq-expected _ p.special_defense_stage d.special_defense_stage
              hp.special_defense_stage hd.special_defense_stage,
          derive_field-eq-expected _ p.speed_stage d.speed_stage hp.speed_stage hd.speed_stage,
          derive_field-eq-expected _ p.accuracy_stage d.accuracy_stage hp.accuracy_stage
              hd.accuracy_stage,
          derive_field-eq-expected _ p.evasion_stage d.evasion_stage hp.evasion_stage
              hd.evasion_stage,
          derive_field-eq-expected _ p.side_effects d.side_effects hp.side_effects hd.side_effects,
        )
        make_side_state-expected
