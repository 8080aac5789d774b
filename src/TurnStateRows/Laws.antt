-- ===== src/TurnStateRows/Laws.antt =====
-- The records of src/maple_next/domain/turn_state.py through the rows of turn_state_store.py and back.
use maple_next.Base.{
  String, Bool, false, true, ◌||◌, ◌≡◌, refl, ap, ◌∙◌, subst, Option, none, some, Result, ok,
  >>=-eq-ok, arith, strip, strip_idem, is_blank, is_empty, ◌==◌, string_eq, raise_if, Error,
}
use maple_next.Enums.{ActionType, move, switch}
use maple_next.Envelopes.{Json}
use maple_next.TurnState.Known.{Known, FieldDelta}
use maple_next.TurnState.Side.{validate_field_text, validate_known, validate_delta}
use maple_next.TurnState.Records.{
  make_identity, make_confirmation, ConfirmedTurnState, make_confirmed_state, ActionResultDelta,
  make_delta,
}
use maple_next.TurnState.Json.{
  Python, read_text, to_str, known_from_json, known_to_json, field_delta_from_json,
  field_delta_to_json,
}
use maple_next.TurnState.SideJson.{side_state_from_json, side_delta_from_json}
use maple_next.TurnState.Codec.{
  known_from_json-known_to_json, field_delta_from_json-to_json, known_from_json-built,
  field_delta_from_json-built,
}
use maple_next.TurnState.RoundTrip.{
  side_state_from_json-to_json, side_delta_from_json-to_json, side_state_from_json-IsSideState,
  side_delta_from_json-IsSideDelta,
}
use maple_next.TurnState.Fields.{IsKnown, IsDelta}
use maple_next.TurnState.Derivation.{IsState, IsResult}
use maple_next.TurnStateRows.{
  StateRow, DeltaRow, state_row, delta_row, confirmed_turn_state_from_row,
  action_result_delta_from_row,
}
use maple_next.TurnStateRows.OpponentAction.{
  unknown_sentinel, action_type_value, stored_action_type, encode_opponent_action,
  decode_opponent_action,
}

-- The state passed the constructors of its parts and its own.
pub record IsStored (s : ConfirmedTurnState) : Type 0 where
  pub fields : IsState s
  pub identity : make_identity s.identity ≡ ok s.identity
  pub confirmation : make_confirmation s.confirmation ≡ ok s.confirmation
  pub made : make_confirmed_state s ≡ ok s

pub record IsStoredDelta (d : ActionResultDelta) : Type 0 where
  pub fields : IsResult d
  pub identity : make_identity d.identity ≡ ok d.identity
  pub confirmation : make_confirmation d.confirmation ≡ ok d.confirmation
  pub made : make_delta d ≡ ok d

module _ (py : Python) where
  text_known :
      (k : Known String)
      → IsKnown validate_field_text k
      → known_from_json py (read_text py) (known_to_json Json.text k) ≡ ok k
  unfolding to_str
  text_known k h = known_from_json-known_to_json py Json.text (read_text py) (λ t. refl) k h.built

  text_delta :
      (d : FieldDelta String)
      → IsDelta validate_field_text d
      → field_delta_from_json py (read_text py) (field_delta_to_json Json.text d) ≡ ok d
  unfolding to_str
  text_delta d h = field_delta_from_json-to_json py Json.text (read_text py) (λ t. refl) d h.built

  -- A confirmed state that passed its constructors is read back, unchanged, from the row written of it.
  pub from_row-state_row :
      (s : ConfirmedTurnState) → IsStored s → confirmed_turn_state_from_row py (state_row s) ≡ ok s
  unfolding confirmed_turn_state_from_row state_row
  from_row-state_row s h =
      rw
        (
          h.identity,
          side_state_from_json-to_json s.self_side h.fields.self_side py,
          side_state_from_json-to_json s.opponent_side h.fields.opponent_side py,
          text_known s.weather h.fields.weather,
          text_known s.terrain h.fields.terrain,
          h.confirmation,
        )
        h.made

  -- So is a delta.
  pub from_row-delta_row :
      (d : ActionResultDelta)
      → IsStoredDelta d
      → action_result_delta_from_row py (delta_row d) ≡ ok d
  unfolding action_result_delta_from_row delta_row
  from_row-delta_row d h =
      rw
        (
          h.identity,
          side_delta_from_json-to_json d.self_side h.fields.self_side py,
          side_delta_from_json-to_json d.opponent_side h.fields.opponent_side py,
          text_delta d.weather h.fields.weather,
          text_delta d.terrain h.fields.terrain,
          h.confirmation,
        )
        h.made

  same_state :
      (s t : ConfirmedTurnState)
      → make_confirmed_state t ≡ ok s
      → (t ≡ s)
        × (validate_known validate_field_text t.weather ≡ ok tt)
        × (validate_known validate_field_text t.terrain ≡ ok tt)
  unfolding make_confirmed_state
  same_state s t h = ground arith

  same_delta :
      (d t : ActionResultDelta)
      → make_delta t ≡ ok d
      → (t ≡ d)
        × (validate_delta validate_field_text t.weather ≡ ok tt)
        × (validate_delta validate_field_text t.terrain ≡ ok tt)
  unfolding make_delta
  same_delta d t h = ground arith

  -- Whatever a row holds, a state that is read from it has every field checked.
  pub from_row-IsState :
      (row : StateRow) (s : ConfirmedTurnState)
      → confirmed_turn_state_from_row py row ≡ ok s
      → IsState s
  unfolding confirmed_turn_state_from_row
  from_row-IsState row s h =
      let (identity, _, h) = >>=-eq-ok (make_identity row.identity) _ h in
      let (self_side, r1, h) = >>=-eq-ok (side_state_from_json py row.self_side_json) _ h in
      let (opponent_side, r2, h) = >>=-eq-ok (side_state_from_json py row.opponent_side_json) _ h in
      let (weather, r3, h) = >>=-eq-ok (known_from_json py (read_text py) row.weather_json) _ h in
      let (terrain, r4, h) = >>=-eq-ok (known_from_json py (read_text py) row.terrain_json) _ h in
      let (confirmation, _, h) = >>=-eq-ok (make_confirmation row.confirmation) _ h in
      let (same, v3, v4) = same_state s _ h in
      subst IsState same (record {
        self_side = side_state_from_json-IsSideState py row.self_side_json self_side r1;
        opponent_side = side_state_from_json-IsSideState py row.opponent_side_json opponent_side r2;
        weather = record {
          built = known_from_json-built py (read_text py) row.weather_json weather r3;
          valid = v3;
        };
        terrain = record {
          built = known_from_json-built py (read_text py) row.terrain_json terrain r4;
          valid = v4;
        };
      })

  -- And so is a delta.
  pub from_row-IsResult :
      (row : DeltaRow) (d : ActionResultDelta)
      → action_result_delta_from_row py row ≡ ok d
      → IsResult d
  unfolding action_result_delta_from_row
  from_row-IsResult row d h =
      let (identity, _, h) = >>=-eq-ok (make_identity row.identity) _ h in
      let (self_side, r1, h) = >>=-eq-ok (side_delta_from_json py row.self_side_json) _ h in
      let (opponent_side, r2, h) = >>=-eq-ok (side_delta_from_json py row.opponent_side_json) _ h in
      let (weather, r3, h) =
        >>=-eq-ok (field_delta_from_json py (read_text py) row.weather_json) _ h in
      let (terrain, r4, h) =
        >>=-eq-ok (field_delta_from_json py (read_text py) row.terrain_json) _ h in
      let (confirmation, _, h) = >>=-eq-ok (make_confirmation row.confirmation) _ h in
      let (same, v3, v4) = same_delta d _ h in
      subst IsResult same (record {
        self_side = side_delta_from_json-IsSideDelta py row.self_side_json self_side r1;
        opponent_side = side_delta_from_json-IsSideDelta py row.opponent_side_json opponent_side r2;
        weather = record {
          built = field_delta_from_json-built py (read_text py) row.weather_json weather r3;
          valid = v3;
        };
        terrain = record {
          built = field_delta_from_json-built py (read_text py) row.terrain_json terrain r4;
          valid = v4;
        };
      })

abbrev stripped : Option String → Option String
stripped none = none
stripped (some name) = some (strip name)

stored-value : (t : ActionType) → stored_action_type (action_type_value t) ≡ ok t
unfolding stored_action_type action_type_value
stored-value move = refl
stored-value switch = refl

value-known : (t : ActionType) → (action_type_value t == unknown_sentinel) ≡ false
unfolding action_type_value
value-known move = refl
value-known switch = refl

blank-strip : (s : String) → is_blank (strip s) ≡ is_blank s
unfolding is_blank
blank-strip s = ap is_empty (strip_idem s)

pair_of :
    (x a y b : String) → Path (Result (String × String)) (ok (x, y)) (ok (a, b)) → (x ≡ a) × (y ≡ b)
pair_of x a y b h = ground (arith, h)

decoded :
    (t : ActionType) (name : String)
    → (is_blank name || strip name == unknown_sentinel) ≡ false
    → decode_opponent_action (action_type_value t) (strip name) ≡ ok (some t, some (strip name))
unfolding decode_opponent_action
decoded t name h =
    let blank : is_blank (strip name) ≡ false = blank-strip name ∙ ground arith in
    let other : (strip name == unknown_sentinel) ≡ false = ground arith in
    rw (value-known t, other, stored-value t, blank) refl

passed : (b : Bool) (e : Error) (u : Unit {0}) → raise_if b e ≡ ok u → b ≡ false
passed true e u h = cc
passed false e u h = refl

-- What is encoded decodes to the opponent's action, its name stripped: an unknown one to the absence of
-- both, a known one to its type and name.
pub decode-encode_opponent_action :
    (action_type : Option ActionType) (name : Option String) (a b : String)
    → encode_opponent_action action_type name ≡ ok (a, b)
    → decode_opponent_action a b ≡ ok (action_type, stripped name)
unfolding encode_opponent_action decode_opponent_action
decode-encode_opponent_action none none a b h =
    let (p, q) = pair_of unknown_sentinel a unknown_sentinel b h in rw (← p, ← q) refl
decode-encode_opponent_action none (some name) a b h = ground arith
decode-encode_opponent_action (some t) none a b h = ground arith
decode-encode_opponent_action (some t) (some name) a b h =
    let (u, valid, rest) =
      >>=-eq-ok (raise_if (is_blank name || strip name == unknown_sentinel) _) _ h in
    let (p, q) = pair_of (action_type_value t) a (strip name) b rest in
    rw (← p, ← q) (decoded t name (passed _ _ u valid))
