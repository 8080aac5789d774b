-- ===== src/TurnState/Known.antt =====
-- src/maple_next/domain/turn_state.py: what is known of one field (`Known`), and what was seen of
-- its change (`FieldDelta`). A constructor's `__post_init__` is a function `make_…` that may fail.
use maple_next.Base.{
  Bool, true, false, ◌&&◌, not, Option, none, some, List, [], ◌∷◌, ◌++◌, is_none, is_some, Result,
  ok, err, value_error, assertion_error, raise_if, ◌>>◌,
}

pub data KnowledgeStatus : Type 0 where
  confirmed unknown : KnowledgeStatus

pub data ProvenanceStep : Type 0 where
  human_input ocr_candidate human_correction : ProvenanceStep
  previous_confirmed_carry_forward unknown : ProvenanceStep

pub data ChangeObservation : Type 0 where
  changed unchanged unknown : ChangeObservation

pub record Known {ℓ} (A : Type ℓ) : Type ℓ where
  pub status : KnowledgeStatus
  pub value : Option A
  pub provenance_chain : List ProvenanceStep

pub record FieldDelta {ℓ} (A : Type ℓ) : Type ℓ where
  pub observation : ChangeObservation
  pub after_value : Option A
  pub provenance_chain : List ProvenanceStep

abbrev pub is_confirmed_status : KnowledgeStatus → Bool
is_confirmed_status confirmed = true
is_confirmed_status unknown = false

abbrev pub is_changed : ChangeObservation → Bool
is_changed changed = true
is_changed _ = false

abbrev is_empty_chain : List ProvenanceStep → Bool
is_empty_chain [] = true
is_empty_chain (s ∷ ss) = false

unfoldable pub validate_provenance_chain : List ProvenanceStep → Result (Unit {0})
validate_provenance_chain chain =
    raise_if (is_empty_chain chain) (value_error "provenance_chain must be a non-empty tuple")

module _ {ℓ} {A : Type ℓ} where
  -- `Known.__post_init__`
  unfoldable pub make_known : KnowledgeStatus → Option A → List ProvenanceStep → Result (Known A)
  unfolding validate_provenance_chain
  make_known status value chain = do
    raise_if (is_confirmed_status status && is_none value)
        (value_error "CONFIRMED knowledge requires an explicit value")
    raise_if (not (is_confirmed_status status) && is_some value)
        (value_error "UNKNOWN knowledge must not carry a value")
    validate_provenance_chain chain
    ok (record { status = status; value = value; provenance_chain = chain })

  unfoldable pub known_confirmed : A → List ProvenanceStep → Result (Known A)
  unfolding make_known
  known_confirmed value chain = make_known KnowledgeStatus.confirmed (some value) chain

  unfoldable pub known_unknown : List ProvenanceStep → Result (Known A)
  unfolding make_known
  known_unknown chain = make_known KnowledgeStatus.unknown none chain

  -- `Known.is_confirmed`
  abbrev pub is_confirmed : Known A → Bool
  is_confirmed known = is_confirmed_status known.status

  -- `FieldDelta.__post_init__`
  unfoldable pub make_field_delta :
      ChangeObservation → Option A → List ProvenanceStep → Result (FieldDelta A)
  unfolding validate_provenance_chain
  make_field_delta observation after_value chain = do
    raise_if (is_changed observation && is_none after_value)
        (value_error "CHANGED delta requires an explicit resulting value")
    raise_if (not (is_changed observation) && is_some after_value)
        (value_error "only a CHANGED delta may carry a resulting value")
    validate_provenance_chain chain
    ok (record { observation = observation; after_value = after_value; provenance_chain = chain })

  -- `_derive_field`
  abbrev derive_changed : Option A → List ProvenanceStep → Result (Known A)
  derive_changed none chain = err assertion_error
  derive_changed (some value) chain = known_confirmed value chain

  abbrev derive_by : ChangeObservation → Known A → FieldDelta A → Result (Known A)
  derive_by changed previous delta = derive_changed delta.after_value delta.provenance_chain
  derive_by unchanged previous delta =
      make_known previous.status previous.value
        (previous.provenance_chain ++ ProvenanceStep.previous_confirmed_carry_forward ∷ [])
  derive_by ChangeObservation.unknown previous delta = known_unknown (ProvenanceStep.unknown ∷ [])

  unfoldable pub derive_field : Known A → FieldDelta A → Result (Known A)
  unfolding known_confirmed known_unknown make_known
  derive_field previous delta = derive_by delta.observation previous delta
