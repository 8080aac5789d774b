-- ===== src/Application/Switches.antt =====
-- The commands of src/maple_next/application/service.py on the legal switches of the current Turn.
use maple_next.Base.{
  String, Bool, true, false, not, ◌&&◌, ◌||◌, Option, none, some, List, [], ◌∷◌, Error,
  domain_error, legal_switch_error, value_error, is_empty, if◌then◌else◌, ◌==◌, ◌!=◌, string_eq,
}
use Prim.Native.String.{◌++◌}
use maple_next.Enums.{turn_reviewed}
use maple_next.Models.{BattleSession, BattleTurn, AppliedSelectionSnapshot}
use maple_next.TurnState.Known.{Known, is_confirmed}
use maple_next.TurnState.Records.{
  TurnIdentity, make_identity, identity_eq, make_confirmation, ConfirmedTurnState,
}
use maple_next.TurnState.Actions.{PokemonLocalMemory}
use maple_next.TurnState.Json.{Python}
use maple_next.LegalSwitches.{
  LegalSwitchStatus, LegalSwitchConfirmation, LocalMemory, derive_legal_switch_candidates,
  confirm_legal_switches,
}
use maple_next.Repository.{Exec, ◌>>=◌, ◌>>◌, guard, lift, pure, required, rescue, transaction}
use maple_next.Repository.Rows.{get_turn, get_applied_selection}
use maple_next.Repository.TurnStates.{get_latest_confirmed_turn_state_for_identity}
use maple_next.Repository.Memories.{get_pokemon_local_state}
use maple_next.Repository.Switches.{upsert_legal_switch_confirmation}
use maple_next.Application.Session.{require_session}

-- What `_current_legal_switch_binding` returns.
pub record SwitchBinding : Type 0 where
  pub identity : TurnIdentity
  pub applied : AppliedSelectionSnapshot
  pub latest_state : ConfirmedTurnState

abbrev pub current_identity : BattleSession → BattleTurn → TurnIdentity
current_identity session turn = record {
  session_id = session.session_id;
  match_id = session.match_id;
  generation = session.generation;
  turn_id = turn.turn_id;
  turn_number = turn.turn_number;
  battle_revision = session.battle_revision;
}

-- `memory_by_name[name] = memory`, before the entries of the names that follow.
abbrev pub remember : String → Option PokemonLocalMemory → LocalMemory → LocalMemory
remember name found later wanted = elim (later wanted) [
  | none ↦ if wanted == name then found else none
  | some memory ↦ some memory
]

abbrev no_memory : LocalMemory
no_memory wanted = none

-- `not self_active.is_confirmed or not self_active.value`
abbrev pub active_value : Known String → Option String
active_value known = if is_confirmed known then known.value else none

abbrev pub is_unknown_active : Option String → Bool
is_unknown_active none = true
is_unknown_active (some name) = is_empty name

-- `except LegalSwitchError`
abbrev unavailable : Error → Error
unavailable (legal_switch_error e) = domain_error ("LEGAL_SWITCH_CANDIDATES_UNAVAILABLE:" ++ e)
unavailable e = e

-- `except (LegalSwitchError, ValueError)`
abbrev pub rejected : Error → Error
rejected (legal_switch_error e) = domain_error ("LEGAL_SWITCH_CONFIRMATION_REJECTED:" ++ e)
rejected (value_error e) = domain_error ("LEGAL_SWITCH_CONFIRMATION_REJECTED:" ++ e)
rejected e = e

module _ (py : Python) where
  unfoldable pub current_legal_switch_binding : Exec SwitchBinding
  current_legal_switch_binding = do
    session ← require_session turn_reviewed
    turn_id ← required (domain_error "CURRENT_TURN_REQUIRED") session.current_turn_id
    applied_id ←
        required (domain_error "APPLIED_SELECTION_REQUIRED") session.current_applied_selection_id
    turn ← get_turn turn_id
    identity ← lift (make_identity (current_identity session turn))
    found ←
        get_latest_confirmed_turn_state_for_identity py session.session_id session.match_id
          session.generation
    latest_state ← required (domain_error "CONFIRMED_STATE_NOT_CURRENT_BINDING") found
    guard (latest_state.identity != identity) (domain_error "CONFIRMED_STATE_NOT_CURRENT_BINDING")
    applied ← get_applied_selection applied_id
    pure (record { identity = identity; applied = applied; latest_state = latest_state })

  unfoldable pub self_local_memory_by_name : TurnIdentity → List String → Exec LocalMemory
  self_local_memory_by_name identity [] = pure no_memory
  self_local_memory_by_name identity (name ∷ names) = do
    found ←
        get_pokemon_local_state identity.session_id identity.match_id identity.generation py "SELF"
          name
    later ← self_local_memory_by_name identity names
    pure (remember name found later)

  unfoldable pub derive_legal_switch_candidates_for_current_turn : Exec (List String)
  unfolding current_legal_switch_binding self_local_memory_by_name
  derive_legal_switch_candidates_for_current_turn = do
    b ← current_legal_switch_binding
    guard (is_unknown_active (active_value b.latest_state.self_side.active))
        (domain_error "SELF_ACTIVE_UNKNOWN")
    active ←
        required (domain_error "SELF_ACTIVE_UNKNOWN") (active_value b.latest_state.self_side.active)
    memory ← self_local_memory_by_name b.identity b.applied.selected_three
    rescue unavailable
        (lift (derive_legal_switch_candidates b.applied.selected_three active memory))

  -- What the domain's `confirm_legal_switches` is asked for.
  abbrev pub asked :
      SwitchBinding → List String → LegalSwitchStatus → String → String → LegalSwitchConfirmation
  asked b legal_switches status confirmation_id now = record {
    confirmation_id = confirmation_id;
    identity = b.identity;
    based_on_confirmed_state_id = b.latest_state.confirmed_state_id;
    applied_selection_id = b.applied.applied_selection_id;
    legal_switches = legal_switches;
    status = status;
    confirmation = record {
      confirmed_by_human = true;
      confirmed_at_utc = now;
      provenance = "HUMAN_INPUT";
    };
  }

  -- The method `confirm_legal_switches`.
  unfoldable pub confirm_current_switches :
      List String → LegalSwitchStatus → Bool → String → String → Exec LegalSwitchConfirmation
  unfolding current_legal_switch_binding self_local_memory_by_name
  confirm_current_switches legal_switches status human_confirmed confirmation_id now = do
    guard (not human_confirmed) (domain_error "HUMAN_ACTION_CONFIRMATION_REQUIRED")
    transaction do
      b ← current_legal_switch_binding
      let known = active_value b.latest_state.self_side.active
      guard (is_unknown_active known) (domain_error "SELF_ACTIVE_UNKNOWN")
      active ← required (domain_error "SELF_ACTIVE_UNKNOWN") known
      guard (active == "UNKNOWN") (domain_error "SELF_ACTIVE_UNKNOWN")
      memory ← self_local_memory_by_name b.identity b.applied.selected_three
      let request = asked b legal_switches status confirmation_id now
      confirmation ← rescue rejected (
          lift (
            maple_next.Base.◌>>=◌ (make_confirmation request.confirmation)
              λ _. confirm_legal_switches b.applied active memory request))
      upsert_legal_switch_confirmation confirmation
      pure confirmation
