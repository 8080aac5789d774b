-- ===== src/LegalSwitches.antt =====
-- src/maple_next/domain/legal_switches.py: the switches that are legal for a Turn, proposed from the
-- applied selection and what the match remembers, and confirmed by a human. The memory is the function
-- that `local_memory_by_name.get` is.
pub mod Laws
pub mod Proposed
use maple_next.Base.{
  String, Bool, true, false, not, ◌&&◌, ◌||◌, Option, none, some, List, [], ◌∷◌, map, any_of, keep,
  Result, ok, value_error, legal_switch_error, raise_if, ◌>>◌, ◌>>=◌, strip, is_blank, is_empty,
  ◌==◌, string_eq, option_eq, member, all_distinct,
}
use maple_next.Enums.{HpBucket, zero, hp_bucket_eq}
use maple_next.Models.{AppliedSelectionSnapshot}
use maple_next.TurnState.Known.{is_confirmed}
use maple_next.TurnState.Records.{TurnIdentity, ConfirmationMeta}
use maple_next.TurnState.Actions.{PokemonLocalMemory}

pub data LegalSwitchStatus : Type 0 where
  confirmed_nonempty confirmed_none not_captured_or_unresolved : LegalSwitchStatus

pub record LegalSwitchConfirmation : Type 0 where
  pub confirmation_id : String
  pub identity : TurnIdentity
  pub based_on_confirmed_state_id : String
  pub applied_selection_id : String
  pub legal_switches : List String
  pub status : LegalSwitchStatus
  pub confirmation : ConfirmationMeta

abbrev pub no_switches : List String → Bool
no_switches [] = true
no_switches (name ∷ names) = false

-- The last two checks of the status against the set.
abbrev pub check_status : LegalSwitchStatus → List String → Result (Unit {0})
check_status confirmed_nonempty names =
    raise_if (no_switches names)
      (legal_switch_error "CONFIRMED_NONEMPTY_REQUIRES_AT_LEAST_ONE_SWITCH")
check_status confirmed_none names =
    raise_if (not (no_switches names))
      (legal_switch_error "CONFIRMED_NONE_REQUIRES_EMPTY_SWITCH_SET")
check_status not_captured_or_unresolved names = ok tt

abbrev pub is_unresolved : LegalSwitchStatus → Bool
is_unresolved not_captured_or_unresolved = true
is_unresolved _ = false

-- `LegalSwitchConfirmation.__post_init__`
unfoldable pub make_switch_confirmation : LegalSwitchConfirmation → Result LegalSwitchConfirmation
make_switch_confirmation c = do
  raise_if (is_blank c.confirmation_id) (value_error "confirmation_id must be explicit")
  raise_if (is_blank c.based_on_confirmed_state_id)
      (value_error "based_on_confirmed_state_id must be explicit")
  raise_if (is_blank c.applied_selection_id) (value_error "applied_selection_id must be explicit")
  raise_if (not c.confirmation.confirmed_by_human)
      (legal_switch_error "LEGAL_SWITCH_CONFIRMATION_REQUIRES_HUMAN_CONFIRMATION")
  raise_if (is_unresolved c.status)
      (legal_switch_error "UNRESOLVED_IS_NEVER_A_PERSISTABLE_CONFIRMATION")
  raise_if (any_of is_blank c.legal_switches) (legal_switch_error "LEGAL_SWITCH_NAME_BLANK")
  raise_if (not (all_distinct c.legal_switches)) (legal_switch_error "DUPLICATE_LEGAL_SWITCH_NAME")
  check_status c.status c.legal_switches
  ok c

unfoldable pub is_confirmed_fainted : Option PokemonLocalMemory → Bool
is_confirmed_fainted none = false
is_confirmed_fainted (some memory) =
    is_confirmed memory.hp_bucket && memory.hp_bucket.value == some zero

abbrev pub LocalMemory : Type 0
LocalMemory = String → Option PokemonLocalMemory

module _ (three : List String) (active : String) (memory : LocalMemory) where
  unfoldable pub is_candidate : String → Bool
  is_candidate name = not (name == active) && not (is_confirmed_fainted (memory name))

  unfoldable pub derive_legal_switch_candidates : Result (List String)
  unfolding is_candidate
  derive_legal_switch_candidates = do
    raise_if (not (member active three))
        (legal_switch_error "CURRENT_ACTIVE_OUTSIDE_SELECTED_THREE")
    ok (keep is_candidate three)

  -- The loop over the names that the human confirms; `seen` holds the names before.
  unfoldable pub check_switches : List String → List String → Result (Unit {0})
  check_switches seen [] = ok tt
  check_switches seen (raw_name ∷ rest) = do
    let name = strip raw_name
    raise_if (is_empty name) (legal_switch_error "LEGAL_SWITCH_NAME_BLANK")
    raise_if (member name seen) (legal_switch_error "DUPLICATE_LEGAL_SWITCH_NAME")
    raise_if (not (member name three)) (legal_switch_error "LEGAL_SWITCH_OUTSIDE_SELECTED_THREE")
    raise_if (name == active) (legal_switch_error "LEGAL_SWITCH_INCLUDES_CURRENT_ACTIVE")
    raise_if (is_confirmed_fainted (memory name))
        (legal_switch_error "LEGAL_SWITCH_INCLUDES_CONFIRMED_FAINTED")
    check_switches (name ∷ seen) rest

unfoldable pub confirm_legal_switches :
    AppliedSelectionSnapshot
    → String
    → LocalMemory
    → LegalSwitchConfirmation
    → Result LegalSwitchConfirmation
confirm_legal_switches applied active memory asked = do
  raise_if (not (member active applied.selected_three))
      (legal_switch_error "CURRENT_ACTIVE_OUTSIDE_SELECTED_THREE")
  check_switches applied.selected_three active memory [] asked.legal_switches
  make_switch_confirmation (record asked {
    applied_selection_id = applied.applied_selection_id;
    legal_switches = map strip asked.legal_switches;
  })
