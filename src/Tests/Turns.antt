-- ===== src/Tests/Turns.antt =====
-- A state and a delta of src/maple_next/domain/turn_state.py, as concrete inputs.
use mathlib.Core.Bool.{false≢true}
use maple_next.Base.{
  String, false, true, ◌≡◌, ◌≢◌, refl, sym, ◌∙◌, Option, none, some, [], ◌∷◌, Result, arith,
  is_blank, ◌==◌, string_eq, nat_eq,
}
use maple_next.TurnState.Known.{
  KnowledgeStatus, ProvenanceStep, Known, FieldDelta, ChangeObservation, make_known,
  make_field_delta, validate_provenance_chain,
}
use maple_next.TurnState.Side.{
  SideState, SideDelta, validate_known, validate_delta, validate_field_text,
}
use maple_next.TurnState.Records.{
  TurnIdentity, ConfirmationMeta, ConfirmedTurnState, ActionResultDelta, NextTurnStateDraft,
}
use maple_next.TurnState.Fields.{IsKnown, IsDelta}
use maple_next.TurnState.Sides.{IsSideState, IsSideDelta}
use maple_next.TurnState.Bindings.{BindsTo, Advances}
use maple_next.TurnState.Derivation.{IsState, IsResult, expected_draft}

-- Texts that a comparison tells apart.
pub apart : (s t : String) → (s == t) ≡ false → s ≢ t
apart s t e h = false≢true (sym e ∙ (string_eq.beq_iff s t).1 h)

abbrev pub hidden : {A : Type 0} → Known A
hidden = record {
  status = KnowledgeStatus.unknown;
  value = none;
  provenance_chain = ProvenanceStep.unknown ∷ [];
}

abbrev pub seen : {A : Type 0} → A → Known A
seen value = record {
  status = KnowledgeStatus.confirmed;
  value = some value;
  provenance_chain = ProvenanceStep.human_input ∷ [];
}

abbrev pub same : {A : Type 0} → FieldDelta A
same = record {
  observation = ChangeObservation.unchanged;
  after_value = none;
  provenance_chain = ProvenanceStep.human_input ∷ [];
}

abbrev pub became : {A : Type 0} → A → FieldDelta A
became value = record {
  observation = ChangeObservation.changed;
  after_value = some value;
  provenance_chain = ProvenanceStep.human_input ∷ [];
}

abbrev side : SideState
side = record {
  active = seen "Garchomp";
  hp_bucket = hidden;
  status = hidden;
  attack_stage = hidden;
  defense_stage = hidden;
  special_attack_stage = hidden;
  special_defense_stage = hidden;
  speed_stage = hidden;
  accuracy_stage = hidden;
  evasion_stage = hidden;
  side_effects = hidden;
}

abbrev side_delta : SideDelta
side_delta = record {
  active = became "Rotom";
  hp_bucket = same;
  status = same;
  attack_stage = same;
  defense_stage = same;
  special_attack_stage = same;
  special_defense_stage = same;
  speed_stage = same;
  accuracy_stage = same;
  evasion_stage = same;
  side_effects = same;
}

abbrev pub turn_one : TurnIdentity
turn_one = record {
  session_id = "s1";
  match_id = "m1";
  generation = 1;
  turn_id = "t1";
  turn_number = 1;
  battle_revision = 5;
}

abbrev pub turn_two : TurnIdentity
turn_two = record turn_one { turn_id = "t2"; turn_number = 2; battle_revision = 8 }

abbrev pub meta : ConfirmationMeta
meta = record {
  confirmed_by_human = true;
  confirmed_at_utc = "2026-07-01T00:00:00Z";
  provenance = "HUMAN_INPUT";
}

abbrev pub first_state : ConfirmedTurnState
first_state = record {
  confirmed_state_id = "c1";
  identity = turn_one;
  previous_confirmed_state_id = none;
  self_side = side;
  opponent_side = side;
  weather = seen "RAIN";
  terrain = hidden;
  confirmation = meta;
  evidence_id = none;
}

abbrev pub first_delta : ActionResultDelta
first_delta = record {
  delta_id = "d1";
  identity = turn_one;
  based_on_confirmed_state_id = "c1";
  self_side = side_delta;
  opponent_side = side_delta;
  weather = became "SUN";
  terrain = same;
  confirmation = meta;
}

abbrev pub draft : NextTurnStateDraft
draft = expected_draft first_state first_delta "draft-2" turn_two "2026-07-01T00:01:00Z"

hidden-IsKnown : {A : Type 0} (v : Option A → Result (Unit {0})) → IsKnown v hidden
unfolding make_known validate_known validate_provenance_chain
hidden-IsKnown v = record { built = refl; valid = refl }

same-IsDelta : {A : Type 0} (v : Option A → Result (Unit {0})) → IsDelta v same
unfolding make_field_delta validate_delta validate_provenance_chain
same-IsDelta v = record { built = refl; valid = refl }

garchomp-IsKnown : IsKnown validate_field_text (seen "Garchomp")
unfolding make_known validate_known validate_provenance_chain validate_field_text is_blank
garchomp-IsKnown = record { built = refl; valid = refl }

rain-IsKnown : IsKnown validate_field_text (seen "RAIN")
unfolding make_known validate_known validate_provenance_chain validate_field_text is_blank
rain-IsKnown = record { built = refl; valid = refl }

rotom-IsDelta : IsDelta validate_field_text (became "Rotom")
unfolding make_field_delta validate_delta validate_provenance_chain validate_field_text is_blank
rotom-IsDelta = record { built = refl; valid = refl }

sun-IsDelta : IsDelta validate_field_text (became "SUN")
unfolding make_field_delta validate_delta validate_provenance_chain validate_field_text is_blank
sun-IsDelta = record { built = refl; valid = refl }

side-IsSideState : IsSideState side
side-IsSideState = record {
  active = garchomp-IsKnown;
  hp_bucket = hidden-IsKnown _;
  status = hidden-IsKnown _;
  attack_stage = hidden-IsKnown _;
  defense_stage = hidden-IsKnown _;
  special_attack_stage = hidden-IsKnown _;
  special_defense_stage = hidden-IsKnown _;
  speed_stage = hidden-IsKnown _;
  accuracy_stage = hidden-IsKnown _;
  evasion_stage = hidden-IsKnown _;
  side_effects = hidden-IsKnown _;
}

side_delta-IsSideDelta : IsSideDelta side_delta
side_delta-IsSideDelta = record {
  active = rotom-IsDelta;
  hp_bucket = same-IsDelta _;
  status = same-IsDelta _;
  attack_stage = same-IsDelta _;
  defense_stage = same-IsDelta _;
  special_attack_stage = same-IsDelta _;
  special_defense_stage = same-IsDelta _;
  speed_stage = same-IsDelta _;
  accuracy_stage = same-IsDelta _;
  evasion_stage = same-IsDelta _;
  side_effects = same-IsDelta _;
}

pub first_state-IsState : IsState first_state
first_state-IsState = record {
  self_side = side-IsSideState;
  opponent_side = side-IsSideState;
  weather = rain-IsKnown;
  terrain = hidden-IsKnown _;
}

pub first_delta-IsResult : IsResult first_delta
first_delta-IsResult = record {
  self_side = side_delta-IsSideDelta;
  opponent_side = side_delta-IsSideDelta;
  weather = sun-IsDelta;
  terrain = same-IsDelta _;
}

pub first_delta-BindsTo : BindsTo first_state first_delta
first_delta-BindsTo = record {
  based_on = refl;
  session = refl;
  match_ = refl;
  generation = refl;
  turn = refl;
  number = refl;
  revision = refl;
}

pub turn_two-Advances : Advances turn_one turn_two
turn_two-Advances = record {
  session = refl;
  match_ = refl;
  generation = refl;
  number = refl;
  revision = omega arith;
  turn = apart "t2" "t1" refl;
}
