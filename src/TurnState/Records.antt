-- ===== src/TurnState/Records.antt =====
-- src/maple_next/domain/turn_state.py: identities, confirmations, and the three records of the
-- lifecycle with their `__post_init__` checks.
use maple_next.Base.{
  ℕ, String, Bool, not, ◌||◌, Option, ltb, Result, ok, value_error, raise_if, ◌>>◌, is_blank, Eq,
  discrete_eq, String-discrete, ℕ_discrete,
}
use maple_next.TurnState.Known.{Known, FieldDelta}
use maple_next.TurnState.Side.{
  SideState, SideDelta, validate_known, validate_delta, validate_field_text,
}

pub record TurnIdentity : Type 0 where
  pub session_id : String
  pub match_id : String
  pub generation : ℕ
  pub turn_id : String
  pub turn_number : ℕ
  pub battle_revision : ℕ

-- `TurnIdentity.__post_init__`; a revision is a natural number here, so it is never negative.
unfoldable pub make_identity : TurnIdentity → Result TurnIdentity
make_identity i = do
  raise_if (is_blank i.session_id || is_blank i.match_id || is_blank i.turn_id)
      (value_error "identity ids must be explicit")
  raise_if (ltb i.turn_number 1) (value_error "turn number must be positive")
  ok i

pub record ConfirmationMeta : Type 0 where
  pub confirmed_by_human : Bool
  pub confirmed_at_utc : String
  pub provenance : String

unfoldable pub make_confirmation : ConfirmationMeta → Result ConfirmationMeta
make_confirmation c = do
  raise_if (not c.confirmed_by_human) (value_error "EXPLICIT_HUMAN_CONFIRMATION_REQUIRED")
  raise_if (is_blank c.confirmed_at_utc) (value_error "confirmation timestamp must be explicit")
  raise_if (is_blank c.provenance) (value_error "provenance must be explicit")
  ok c

pub record ConfirmedTurnState : Type 0 where
  pub confirmed_state_id : String
  pub identity : TurnIdentity
  pub previous_confirmed_state_id : Option String
  pub self_side : SideState
  pub opponent_side : SideState
  pub weather : Known String
  pub terrain : Known String
  pub confirmation : ConfirmationMeta
  pub evidence_id : Option String

unfoldable pub make_confirmed_state : ConfirmedTurnState → Result ConfirmedTurnState
make_confirmed_state s = do
  raise_if (is_blank s.confirmed_state_id) (value_error "confirmed_state_id must be explicit")
  validate_known validate_field_text s.weather
  validate_known validate_field_text s.terrain
  ok s

pub record ActionResultDelta : Type 0 where
  pub delta_id : String
  pub identity : TurnIdentity
  pub based_on_confirmed_state_id : String
  pub self_side : SideDelta
  pub opponent_side : SideDelta
  pub weather : FieldDelta String
  pub terrain : FieldDelta String
  pub confirmation : ConfirmationMeta

unfoldable pub make_delta : ActionResultDelta → Result ActionResultDelta
make_delta d = do
  raise_if (is_blank d.delta_id) (value_error "delta_id must be explicit")
  raise_if (is_blank d.based_on_confirmed_state_id)
      (value_error "based_on_confirmed_state_id must be explicit")
  validate_delta validate_field_text d.weather
  validate_delta validate_field_text d.terrain
  ok d

pub record NextTurnStateDraft : Type 0 where
  pub draft_id : String
  pub identity : TurnIdentity
  pub based_on_confirmed_state_id : String
  pub source_delta_id : String
  pub self_side : SideState
  pub opponent_side : SideState
  pub weather : Known String
  pub terrain : Known String
  pub derived_at_utc : String
  pub provider_ready : Bool

unfoldable pub make_draft : NextTurnStateDraft → Result NextTurnStateDraft
make_draft d = do
  raise_if d.provider_ready (value_error "NEXT_TURN_DRAFT_MUST_NOT_BE_PROVIDER_READY")
  raise_if (is_blank d.draft_id) (value_error "draft_id must be explicit")
  raise_if (is_blank d.derived_at_utc) (value_error "derived_at_utc must be explicit")
  ok d

-- Equality of identities, as the dataclass compares them.
unfoldable pub TurnIdentity-discrete : Discrete TurnIdentity
TurnIdentity-discrete = hlevel (String-discrete, ℕ_discrete)

instance abbrev pub identity_eq : Eq TurnIdentity
identity_eq = discrete_eq TurnIdentity-discrete
