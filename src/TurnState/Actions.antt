-- ===== src/TurnState/Actions.antt =====
-- src/maple_next/domain/turn_state.py: what a match remembers of a Pokemon, the entries of the
-- opponent's Pokemon, and the confirmation of a legal action. A prefill's confidence, a float, is left
-- out with its check.
use maple_next.Base.{
  ℕ, String, ◌||◌, Option, none, some, ltb, Result, ok, value_error, identity_error, stale_error,
  raise_if, ◌>>◌, ◌>>=◌, strip, is_blank, ◌!=◌, string_eq, option_eq,
}
use maple_next.Enums.{HpBucket, ActionType}
use maple_next.TurnState.Known.{Known}
use maple_next.TurnState.Side.{validate_known, validate_field_text}
use maple_next.TurnState.Records.{TurnIdentity, ConfirmationMeta, identity_eq}

pub record PokemonLocalMemory : Type 0 where
  pub pokemon_name : String
  pub hp_bucket : Known HpBucket
  pub status : Known String

unfoldable pub make_local_memory : PokemonLocalMemory → Result PokemonLocalMemory
make_local_memory m = do
  raise_if (is_blank m.pokemon_name) (value_error "pokemon_name must be explicit")
  validate_known validate_field_text m.status
  ok m

pub record OpponentEntryEvent : Type 0 where
  pub event_id : String
  pub session_id : String
  pub match_id : String
  pub generation : ℕ
  pub entry_ordinal : ℕ
  pub confirmed_state_id : String
  pub turn_id : String
  pub turn_number : ℕ
  pub species_id : Option String
  pub species_name : String
  pub opponent_entity_id : String
  pub handled_at_utc : Option String

unfoldable pub make_entry_event : OpponentEntryEvent → Result OpponentEntryEvent
make_entry_event e = do
  raise_if (is_blank e.event_id) (value_error "event_id must be explicit")
  raise_if (is_blank e.session_id) (value_error "session_id must be explicit")
  raise_if (is_blank e.match_id) (value_error "match_id must be explicit")
  raise_if (is_blank e.confirmed_state_id) (value_error "confirmed_state_id must be explicit")
  raise_if (is_blank e.turn_id) (value_error "turn_id must be explicit")
  raise_if (is_blank e.species_name) (value_error "species_name must be explicit")
  raise_if (is_blank e.opponent_entity_id) (value_error "opponent_entity_id must be explicit")
  raise_if (ltb e.generation 1 || ltb e.entry_ordinal 1 || ltb e.turn_number 1)
      (value_error "entry event ordinals and identities must be positive")
  ok e

pub record LegalActionPrefillDraft : Type 0 where
  pub prefill_id : String
  pub identity : TurnIdentity
  pub based_on_confirmed_state_id : String
  pub action_type : ActionType
  pub action_name : String
  pub derived_at_utc : String

unfoldable pub make_prefill : LegalActionPrefillDraft → Result LegalActionPrefillDraft
make_prefill p = do
  raise_if (is_blank p.prefill_id) (value_error "prefill_id must be explicit")
  raise_if (is_blank p.action_name) (value_error "prefill action_name must be explicit")
  raise_if (is_blank p.based_on_confirmed_state_id)
      (value_error "based_on_confirmed_state_id must be explicit")
  ok p

pub record ConfirmedLegalActionSelection : Type 0 where
  pub confirmation_id : String
  pub identity : TurnIdentity
  pub action_type : ActionType
  pub action_name : String
  pub confirmation : ConfirmationMeta
  pub source_prefill_id : Option String

unfoldable pub make_action_selection :
    ConfirmedLegalActionSelection → Result ConfirmedLegalActionSelection
make_action_selection a = do
  raise_if (is_blank a.confirmation_id) (value_error "confirmation_id must be explicit")
  raise_if (is_blank a.action_name) (value_error "action_name must be explicit")
  ok a

abbrev check_prefill :
    TurnIdentity → Option String → Option LegalActionPrefillDraft → Result (Option String)
check_prefill identity latest none = ok none
check_prefill identity latest (some prefill) = do
  raise_if (prefill.identity != identity) (identity_error "PREFILL_IDENTITY_MISMATCH")
  raise_if (latest != some prefill.based_on_confirmed_state_id)
      (stale_error "STALE_PREFILL_CONFIRMATION")
  ok (some prefill.prefill_id)

unfoldable pub confirm_legal_action_selection :
    String
    → TurnIdentity
    → ActionType
    → String
    → ConfirmationMeta
    → Option LegalActionPrefillDraft
    → Option String
    → Result ConfirmedLegalActionSelection
unfolding make_action_selection
confirm_legal_action_selection id identity action_type action_name confirmation prefill latest = do
  source ← check_prefill identity latest prefill
  make_action_selection (record {
    confirmation_id = id;
    identity = identity;
    action_type = action_type;
    action_name = strip action_name;
    confirmation = confirmation;
    source_prefill_id = source;
  })
