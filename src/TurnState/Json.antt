-- ===== src/TurnState/Json.antt =====
-- src/maple_next/domain/turn_state.py: the JSON of a side's state and of a side's delta. A dict is a
-- `Members`, and a value of a field is written and read by the codec of its type. What Python's `str`
-- and `int` make of values of another kind is the parameter `py`.
use maple_next.Base.{
  String, true, false, Option, none, some, List, [], ◌∷◌, Result, ok, err, type_error, value_error,
  turn_state_error, ◌>>=◌, ◌==◌, string_eq, if◌then◌else◌,
}
use Prim.Native.String.{◌++◌}
use maple_next.Enums.{
  HpBucket, zero, one_to_ten, eleven_to_twenty, twenty_one_to_thirty, thirty_one_to_forty,
  forty_one_to_fifty, fifty_one_to_sixty, sixty_one_to_seventy, seventy_one_to_eighty,
  eighty_one_to_ninety, ninety_one_to_ninety_nine, full,
}
use maple_next.Envelopes.{Json, Items, Members, lookup_member}
use maple_next.TurnState.Known.{
  KnowledgeStatus, confirmed, ProvenanceStep, human_input, ocr_candidate, human_correction,
  previous_confirmed_carry_forward, ChangeObservation, changed, unchanged, Known, FieldDelta,
  make_known, make_field_delta,
}
use maple_next.TurnState.Side.{ℤ, pos, negsuc}

-- `str` of a value that is no text, and `int` of a text.
pub record Python : Type 0 where
  pub str_of : Json → String
  pub int_of : String → Option ℤ

unfoldable pub step_value : ProvenanceStep → String
step_value human_input = "HUMAN_INPUT"
step_value ocr_candidate = "OCR_CANDIDATE"
step_value human_correction = "HUMAN_CORRECTION"
step_value previous_confirmed_carry_forward = "PREVIOUS_CONFIRMED_CARRY_FORWARD"
step_value ProvenanceStep.unknown = "UNKNOWN"

-- `ProvenanceStep(text)`
unfoldable pub read_step : String → Result ProvenanceStep
read_step t =
    if t == "HUMAN_INPUT"
    then ok human_input
    else if t == "OCR_CANDIDATE"
    then ok ocr_candidate
    else if t == "HUMAN_CORRECTION"
    then ok human_correction
    else if t == "PREVIOUS_CONFIRMED_CARRY_FORWARD"
    then ok previous_confirmed_carry_forward
    else if t == "UNKNOWN"
    then ok ProvenanceStep.unknown
    else err (value_error "not a valid ProvenanceStep")

unfoldable pub observation_value : ChangeObservation → String
observation_value changed = "CHANGED"
observation_value unchanged = "UNCHANGED"
observation_value ChangeObservation.unknown = "UNKNOWN"

-- `ChangeObservation(text)`
unfoldable pub read_observation : String → Result ChangeObservation
read_observation t =
    if t == "CHANGED"
    then ok changed
    else if t == "UNCHANGED"
    then ok unchanged
    else if t == "UNKNOWN"
    then ok ChangeObservation.unknown
    else err (value_error "not a valid ChangeObservation")

unfoldable pub bucket_value : HpBucket → String
bucket_value zero = "0"
bucket_value one_to_ten = "1-10"
bucket_value eleven_to_twenty = "11-20"
bucket_value twenty_one_to_thirty = "21-30"
bucket_value thirty_one_to_forty = "31-40"
bucket_value forty_one_to_fifty = "41-50"
bucket_value fifty_one_to_sixty = "51-60"
bucket_value sixty_one_to_seventy = "61-70"
bucket_value seventy_one_to_eighty = "71-80"
bucket_value eighty_one_to_ninety = "81-90"
bucket_value ninety_one_to_ninety_nine = "91-99"
bucket_value full = "100"
bucket_value HpBucket.unknown = "UNKNOWN"

unfoldable pub bucket_of_text : String → Result HpBucket
bucket_of_text t =
    if t == "0"
    then ok zero
    else if t == "1-10"
    then ok one_to_ten
    else if t == "11-20"
    then ok eleven_to_twenty
    else if t == "21-30"
    then ok twenty_one_to_thirty
    else if t == "31-40"
    then ok thirty_one_to_forty
    else if t == "41-50"
    then ok forty_one_to_fifty
    else if t == "51-60"
    then ok fifty_one_to_sixty
    else if t == "61-70"
    then ok sixty_one_to_seventy
    else if t == "71-80"
    then ok seventy_one_to_eighty
    else if t == "81-90"
    then ok eighty_one_to_ninety
    else if t == "91-99"
    then ok ninety_one_to_ninety_nine
    else if t == "100"
    then ok full
    else if t == "UNKNOWN"
    then ok HpBucket.unknown
    else err (value_error "not a valid HpBucket")

-- `HpBucket(value)`
unfoldable pub read_bucket : Json → Result HpBucket
read_bucket (Json.text t) = bucket_of_text t
read_bucket _ = err (value_error "not a valid HpBucket")

-- The values as they are written: a text, an enumeration's value, an int, a list of texts.
abbrev pub write_bucket : HpBucket → Json
write_bucket bucket = Json.text (bucket_value bucket)

unfoldable pub write_stage : ℤ → Json
write_stage (pos n) = Json.number n
write_stage (negsuc n) = Json.negative n

unfoldable pub write_items : List String → Items
write_items [] = Items.nil
write_items (name ∷ names) = Items.cons (Json.text name) (write_items names)

abbrev pub write_names : List String → Json
write_names names = Json.array (write_items names)

unfoldable pub write_steps : List ProvenanceStep → Items
write_steps [] = Items.nil
write_steps (step ∷ steps) = Items.cons (Json.text (step_value step)) (write_steps steps)

unfoldable pub require : Members → String → Result Json
require payload key = elim (lookup_member key payload) [
  | none ↦ err (turn_state_error ("MISSING_FIELD:" ++ key))
  | some raw ↦ ok raw
]

module _ (py : Python) where
  -- `str(raw)`
  unfoldable pub to_str : Json → String
  to_str (Json.text t) = t
  to_str raw = py.str_of raw

  abbrev int_of_text : Option ℤ → Result ℤ
  int_of_text none = err (value_error "invalid literal for int()")
  int_of_text (some n) = ok n

  -- `int(raw)`
  unfoldable pub to_int : Json → Result ℤ
  to_int (Json.number n) = ok (pos n)
  to_int (Json.negative n) = ok (negsuc n)
  to_int (Json.boolean true) = ok (pos 1)
  to_int (Json.boolean false) = ok (pos 0)
  to_int (Json.text t) = int_of_text (py.int_of t)
  to_int _ = err (type_error "int() argument must be a string or a number")

  -- `str` as the decoder of a field.
  abbrev pub read_text : Json → Result String
  read_text raw = ok (to_str raw)

  unfoldable pub read_items : Items → List String
  read_items Items.nil = []
  read_items (Items.cons item items) = to_str item ∷ read_items items

  unfoldable pub decode_side_effects : Json → Result (List String)
  decode_side_effects (Json.array items) = ok (read_items items)
  decode_side_effects _ = err (turn_state_error "SIDE_EFFECTS_MUST_BE_A_LIST")

  unfoldable pub read_steps : Items → Result (List ProvenanceStep)
  read_steps Items.nil = ok []
  read_steps (Items.cons item items) = do
    step ← read_step (to_str item)
    steps ← read_steps items
    ok (step ∷ steps)

  abbrev steps_of_raw : Json → Result (List ProvenanceStep)
  steps_of_raw (Json.array (Items.cons item items)) = read_steps (Items.cons item items)
  steps_of_raw _ = err (turn_state_error "PROVENANCE_CHAIN_MUST_BE_A_NON_EMPTY_LIST")

  unfoldable pub provenance_chain_from_json : Members → Result (List ProvenanceStep)
  provenance_chain_from_json payload = do raw ← require payload "provenance_chain"; steps_of_raw raw

  module _ {A : Type 0} (decode : Json → Result A) where
    abbrev pub read_confirmed : Members → List ProvenanceStep → Result (Known A)
    read_confirmed payload chain = do
      raw ← require payload "value"
      value ← decode raw
      make_known confirmed (some value) chain

    abbrev pub known_by : String → Members → List ProvenanceStep → Result (Known A)
    known_by status payload chain =
        if status == "UNKNOWN"
        then make_known KnowledgeStatus.unknown none chain
        else if status == "CONFIRMED"
        then read_confirmed payload chain
        else err (turn_state_error ("UNKNOWN_KNOWLEDGE_STATUS:" ++ status))

    unfoldable pub known_from_json : Members → Result (Known A)
    known_from_json payload = do
      raw ← require payload "status"
      chain ← provenance_chain_from_json payload
      known_by (to_str raw) payload chain

    abbrev pub delta_by : ChangeObservation → Members → List ProvenanceStep → Result (FieldDelta A)
    delta_by changed payload chain = do
      raw ← require payload "after_value"
      value ← decode raw
      make_field_delta changed (some value) chain
    delta_by observation payload chain = make_field_delta observation none chain

    unfoldable pub field_delta_from_json : Members → Result (FieldDelta A)
    field_delta_from_json payload = do
      raw ← require payload "observation"
      observation ← read_observation (to_str raw)
      chain ← provenance_chain_from_json payload
      delta_by observation payload chain

-- Writing. A confirmed value is there by the constructor's check.
module _ {A : Type 0} (encode : A → Json) where
  abbrev write_value : Option A → Json
  write_value none = Json.null
  write_value (some value) = encode value

  abbrev known_members : KnowledgeStatus → Option A → Json → Members
  known_members KnowledgeStatus.unknown value chain =
      Members.member "status" (Json.text "UNKNOWN")
        (Members.member "provenance_chain" chain Members.end)
  known_members confirmed value chain = Members.member "status" (Json.text "CONFIRMED") (
      Members.member "value" (write_value value)
        (Members.member "provenance_chain" chain Members.end))

  unfoldable pub known_to_json : Known A → Members
  known_to_json known =
      known_members known.status known.value (Json.array (write_steps known.provenance_chain))

  abbrev after_member : ChangeObservation → Option A → Members
  after_member changed value = Members.member "after_value" (write_value value) Members.end
  after_member _ value = Members.end

  unfoldable pub field_delta_to_json : FieldDelta A → Members
  field_delta_to_json delta =
      Members.member "observation" (Json.text (observation_value delta.observation)) (
        Members.member "provenance_chain" (Json.array (write_steps delta.provenance_chain))
          (after_member delta.observation delta.after_value))
