-- ===== src/TurnState/Codec.antt =====
-- What the JSON of a field of src/maple_next/domain/turn_state.py reads back as.
use maple_next.Base.{
  String, Option, none, some, List, [], ◌∷◌, ◌≡◌, refl, ◌∙◌, Result, ok, >>=-eq-ok, arith, ◌==◌,
  string_eq, Bool-cases, inl, inr,
}
use maple_next.Enums.{
  HpBucket, zero, one_to_ten, eleven_to_twenty, twenty_one_to_thirty, thirty_one_to_forty,
  forty_one_to_fifty, fifty_one_to_sixty, sixty_one_to_seventy, seventy_one_to_eighty,
  eighty_one_to_ninety, ninety_one_to_ninety_nine, full,
}
use maple_next.Envelopes.{Json, Members, lookup_member}
use maple_next.TurnState.Known.{
  KnowledgeStatus, confirmed, ProvenanceStep, human_input, ocr_candidate, human_correction,
  previous_confirmed_carry_forward, ChangeObservation, changed, unchanged, Known, FieldDelta,
  make_known, make_field_delta,
}
use maple_next.TurnState.Side.{ℤ, pos, negsuc}
use maple_next.TurnState.Json.{
  Python, step_value, read_step, observation_value, read_observation, bucket_value, bucket_of_text,
  read_bucket, write_bucket, write_stage, write_items, write_names, write_steps, require, to_str,
  to_int, read_items, decode_side_effects, read_steps, provenance_chain_from_json, read_confirmed,
  known_by, delta_by, known_from_json, field_delta_from_json, known_to_json, field_delta_to_json,
}

read_step-step_value : (step : ProvenanceStep) → read_step (step_value step) ≡ ok step
unfolding read_step step_value
read_step-step_value human_input = refl
read_step-step_value ocr_candidate = refl
read_step-step_value human_correction = refl
read_step-step_value previous_confirmed_carry_forward = refl
read_step-step_value ProvenanceStep.unknown = refl

read_observation-value : (o : ChangeObservation) → read_observation (observation_value o) ≡ ok o
unfolding read_observation observation_value
read_observation-value changed = refl
read_observation-value unchanged = refl
read_observation-value ChangeObservation.unknown = refl

pub read_bucket-write_bucket : (b : HpBucket) → read_bucket (write_bucket b) ≡ ok b
unfolding read_bucket bucket_of_text bucket_value
read_bucket-write_bucket zero = refl
read_bucket-write_bucket one_to_ten = refl
read_bucket-write_bucket eleven_to_twenty = refl
read_bucket-write_bucket twenty_one_to_thirty = refl
read_bucket-write_bucket thirty_one_to_forty = refl
read_bucket-write_bucket forty_one_to_fifty = refl
read_bucket-write_bucket fifty_one_to_sixty = refl
read_bucket-write_bucket sixty_one_to_seventy = refl
read_bucket-write_bucket seventy_one_to_eighty = refl
read_bucket-write_bucket eighty_one_to_ninety = refl
read_bucket-write_bucket ninety_one_to_ninety_nine = refl
read_bucket-write_bucket full = refl
read_bucket-write_bucket HpBucket.unknown = refl

module _ (py : Python) where
  pub to_int-write_stage : (stage : ℤ) → to_int py (write_stage stage) ≡ ok stage
  unfolding to_int write_stage
  to_int-write_stage (pos n) = refl
  to_int-write_stage (negsuc n) = refl

  read_items-write_items : (names : List String) → read_items py (write_items names) ≡ names
  unfolding read_items write_items to_str
  read_items-write_items [] = refl
  read_items-write_items (name ∷ names) = rw (read_items-write_items names) refl

  pub decode-write_names :
      (names : List String) → decode_side_effects py (write_names names) ≡ ok names
  unfolding decode_side_effects
  decode-write_names names = rw (read_items-write_items names) refl

  read_steps-write_steps :
      (steps : List ProvenanceStep) → read_steps py (write_steps steps) ≡ ok steps
  unfolding read_steps write_steps to_str
  read_steps-write_steps [] = refl
  read_steps-write_steps (step ∷ steps) =
      rw (read_step-step_value step, read_steps-write_steps steps) refl

  module _ {A : Type 0} (encode : A → Json) (decode : Json → Result A)
      (reads : (a : A) → decode (encode a) ≡ ok a) where
    written_known :
        (status : KnowledgeStatus) (value : Option A) (chain : List ProvenanceStep) (k r : Known A)
        → k ≡ record { status = status; value = value; provenance_chain = chain }
        → make_known status value chain ≡ ok r
        → known_from_json py decode (known_to_json encode k) ≡ make_known status value chain
    unfolding known_from_json known_to_json provenance_chain_from_json require lookup_member to_str
        make_known write_steps
    written_known KnowledgeStatus.unknown none [] k r e h = ground arith
    written_known KnowledgeStatus.unknown none (step ∷ steps) k r e h =
        rw (e, read_steps-write_steps (step ∷ steps)) refl
    written_known KnowledgeStatus.unknown (some a) chain k r e h = ground arith
    written_known confirmed none chain k r e h = ground arith
    written_known confirmed (some a) [] k r e h = ground arith
    written_known confirmed (some a) (step ∷ steps) k r e h =
        rw (e, read_steps-write_steps (step ∷ steps), reads a) refl

    written_delta :
        (o : ChangeObservation) (value : Option A) (chain : List ProvenanceStep)
        (d r : FieldDelta A)
        → d ≡ record { observation = o; after_value = value; provenance_chain = chain }
        → make_field_delta o value chain ≡ ok r
        → field_delta_from_json py decode (field_delta_to_json encode d)
          ≡ make_field_delta o value chain
    unfolding field_delta_from_json field_delta_to_json provenance_chain_from_json require
        lookup_member to_str make_field_delta write_steps
    written_delta o value [] d r e h = ground arith
    written_delta changed none (step ∷ steps) d r e h = ground arith
    written_delta changed (some a) (step ∷ steps) d r e h =
        rw (e, read_observation-value changed, read_steps-write_steps (step ∷ steps), reads a) refl
    written_delta unchanged none (step ∷ steps) d r e h =
        rw (e, read_observation-value unchanged, read_steps-write_steps (step ∷ steps)) refl
    written_delta unchanged (some a) (step ∷ steps) d r e h = ground arith
    written_delta ChangeObservation.unknown none (step ∷ steps) d r e h =
        rw
          (
            e,
            read_observation-value ChangeObservation.unknown,
            read_steps-write_steps (step ∷ steps),
          )
          refl
    written_delta ChangeObservation.unknown (some a) (step ∷ steps) d r e h = ground arith

    -- A field that passed its constructor reads back as itself.
    pub known_from_json-known_to_json :
        (k : Known A)
        → make_known k.status k.value k.provenance_chain ≡ ok k
        → known_from_json py decode (known_to_json encode k) ≡ ok k
    known_from_json-known_to_json k h =
        written_known k.status k.value k.provenance_chain k k refl h ∙ h

    pub field_delta_from_json-to_json :
        (d : FieldDelta A)
        → make_field_delta d.observation d.after_value d.provenance_chain ≡ ok d
        → field_delta_from_json py decode (field_delta_to_json encode d) ≡ ok d
    field_delta_from_json-to_json d h =
        written_delta d.observation d.after_value d.provenance_chain d d refl h ∙ h

  module _ {A : Type 0} (decode : Json → Result A) where
    made-built :
        (status : KnowledgeStatus) (value : Option A) (chain : List ProvenanceStep) (k : Known A)
        → make_known status value chain ≡ ok k
        → make_known k.status k.value k.provenance_chain ≡ ok k
    unfolding make_known
    made-built status value chain k h = ground arith

    read_confirmed-built :
        (payload : Members) (chain : List ProvenanceStep) (k : Known A)
        → read_confirmed py decode payload chain ≡ ok k
        → make_known k.status k.value k.provenance_chain ≡ ok k
    read_confirmed-built payload chain k h =
        let (raw, _, rest) = >>=-eq-ok (require payload "value") _ h in
        let (value, _, made) = >>=-eq-ok (decode raw) _ rest in
        made-built confirmed (some value) chain k made

    known_by-built :
        (status : String) (payload : Members) (chain : List ProvenanceStep) (k : Known A)
        → known_by py decode status payload chain ≡ ok k
        → make_known k.status k.value k.provenance_chain ≡ ok k
    known_by-built status payload chain k h = elim (Bool-cases (status == "UNKNOWN")) [
      | inl e ↦ made-built KnowledgeStatus.unknown none chain k (rw e at h)
      | inr e ↦ elim (Bool-cases (status == "CONFIRMED")) [
        | inl c ↦ read_confirmed-built payload chain k (rw (e, c) at h)
        | inr c ↦ ground arith
      ]
    ]

    -- Whatever the payload, what is read passed its constructor.
    pub known_from_json-built :
        (payload : Members) (k : Known A)
        → known_from_json py decode payload ≡ ok k
        → make_known k.status k.value k.provenance_chain ≡ ok k
    unfolding known_from_json
    known_from_json-built payload k h =
        let (raw, _, rest) = >>=-eq-ok (require payload "status") _ h in
        let (chain, _, last) = >>=-eq-ok (provenance_chain_from_json py payload) _ rest in
        known_by-built (to_str py raw) payload chain k last

    delta-built :
        (o : ChangeObservation) (value : Option A) (chain : List ProvenanceStep) (d : FieldDelta A)
        → make_field_delta o value chain ≡ ok d
        → make_field_delta d.observation d.after_value d.provenance_chain ≡ ok d
    unfolding make_field_delta
    delta-built o value chain d h = ground arith

    delta_by-built :
        (o : ChangeObservation) (payload : Members) (chain : List ProvenanceStep) (d : FieldDelta A)
        → delta_by py decode o payload chain ≡ ok d
        → make_field_delta d.observation d.after_value d.provenance_chain ≡ ok d
    delta_by-built changed payload chain d h =
        let (raw, _, rest) = >>=-eq-ok (require payload "after_value") _ h in
        let (value, _, made) = >>=-eq-ok (decode raw) _ rest in
        delta-built changed (some value) chain d made
    delta_by-built unchanged payload chain d h = delta-built unchanged none chain d h
    delta_by-built ChangeObservation.unknown payload chain d h =
        delta-built ChangeObservation.unknown none chain d h

    pub field_delta_from_json-built :
        (payload : Members) (d : FieldDelta A)
        → field_delta_from_json py decode payload ≡ ok d
        → make_field_delta d.observation d.after_value d.provenance_chain ≡ ok d
    unfolding field_delta_from_json
    field_delta_from_json-built payload d h =
        let (raw, _, rest) = >>=-eq-ok (require payload "observation") _ h in
        let (o, _, more) = >>=-eq-ok (read_observation (to_str py raw)) _ rest in
        let (chain, _, last) = >>=-eq-ok (provenance_chain_from_json py payload) _ more in
        delta_by-built o payload chain d last
