-- ===== src/TurnState/Fields.antt =====
-- Proofs about `derive_field` and `derive_side` of src/maple_next/domain/turn_state.py.
use maple_next.Base.{true, ◌≡◌, ◌⊎◌, Option, none, [], ◌∷◌, ◌++◌, arith, Result, ok}
use maple_next.TurnState.Known.{
  KnowledgeStatus, ProvenanceStep, Known, FieldDelta, ChangeObservation, changed, unchanged,
  is_confirmed, make_known, make_field_delta, derive_field,
}
use maple_next.TurnState.Side.{validate_known, validate_delta}

module _ {ℓ} {A : Type ℓ} where
  -- What a field must become, said with no failing step.
  abbrev expected_by : ChangeObservation → Known A → FieldDelta A → Known A
  expected_by changed previous delta = record {
    status = KnowledgeStatus.confirmed;
    value = delta.after_value;
    provenance_chain = delta.provenance_chain;
  }
  expected_by unchanged previous delta = record previous {
    provenance_chain =
        previous.provenance_chain ++ ProvenanceStep.previous_confirmed_carry_forward ∷ [];
  }
  expected_by ChangeObservation.unknown previous delta = record {
    status = KnowledgeStatus.unknown;
    value = none;
    provenance_chain = ProvenanceStep.unknown ∷ [];
  }

  abbrev pub expected_field : Known A → FieldDelta A → Known A
  expected_field previous delta = expected_by delta.observation previous delta

  -- The field passes its constructor, and the record's check of its value.
  pub record IsKnown (validate : Option A → Result (Unit {0})) (k : Known A) : Type ℓ where
    pub built : make_known k.status k.value k.provenance_chain ≡ ok k
    pub valid : validate_known validate k ≡ ok tt

  pub record IsDelta (validate : Option A → Result (Unit {0})) (d : FieldDelta A) : Type ℓ where
    pub built : make_field_delta d.observation d.after_value d.provenance_chain ≡ ok d
    pub valid : validate_delta validate d ≡ ok tt

  pub derive_field-eq-expected :
      (v : Option A → Result (Unit {0})) (p : Known A) (d : FieldDelta A)
      → IsKnown v p
      → IsDelta v d
      → derive_field p d ≡ ok (expected_field p d)
  unfolding derive_field make_field_delta
  derive_field-eq-expected v p d hp hd = ground arith

  pub expected_field-valid :
      (v : Option A → Result (Unit {0})) (p : Known A) (d : FieldDelta A)
      → IsKnown v p
      → IsDelta v d
      → validate_known v (expected_field p d) ≡ ok tt
  unfolding validate_known validate_delta
  expected_field-valid v p d hp hd = ground arith

  -- A derived field that is confirmed was seen to change to its value, or was seen unchanged and
  -- was confirmed with that value before: what was unknown or not observed is never confirmed.
  pub confirmed_needs_evidence :
      (p : Known A) (d : FieldDelta A) (k : Known A)
      → derive_field p d ≡ ok k
      → is_confirmed k ≡ true
      → ((d.observation ≡ changed) × (k.value ≡ d.after_value))
        ⊎ ((d.observation ≡ unchanged) × (is_confirmed p ≡ true) × (k.value ≡ p.value))
  unfolding derive_field
  confirmed_needs_evidence p d k h c = ground arith
