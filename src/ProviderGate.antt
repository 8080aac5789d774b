-- ===== src/ProviderGate.antt =====
-- `evaluate_provider_ready_gate` of src/maple_next/domain/turn_state_projection.py. The values are typed,
-- so the checks on a value's Python class are void.
pub mod Ready
pub mod Switches
use maple_next.Base.{
  ℕ, String, Bool, true, false, not, ◌&&◌, ◌||◌, Option, none, some, List, [], ◌∷◌, any_of, ltb,
  ◌==◌, ◌!=◌, string_eq, nat_eq, option_eq, member, if◌then◌else◌,
}
use maple_next.TurnState.Known.{Known, is_confirmed}
use maple_next.TurnState.Records.{TurnIdentity, identity_eq, ConfirmedTurnState}
use maple_next.TurnState.Actions.{ConfirmedLegalActionSelection}
use maple_next.LegalSwitches.{LegalSwitchConfirmation}

pub data GateDenialReason : Type 0 where
  state_not_human_confirmed identity_mismatch stale_confirmed_state : GateDenialReason
  newer_open_draft_exists self_active_unknown opponent_active_unknown : GateDenialReason
  self_active_literal_unknown_value opponent_active_literal_unknown_value : GateDenialReason
  legal_actions_empty legal_actions_not_confirmed : GateDenialReason
  legal_actions_identity_mismatch legal_switches_unresolved : GateDenialReason
  legal_switches_identity_mismatch legal_switches_stale_binding : GateDenialReason
  legal_switches_applied_selection_missing : GateDenialReason
  legal_switches_active_outside_selected_three : GateDenialReason
  legal_switches_member_outside_selected_three : GateDenialReason
  legal_switches_member_is_active legal_switches_member_confirmed_fainted : GateDenialReason

pub record ProviderReadyGateResult : Type 0 where
  pub allowed : Bool
  pub denial_reasons : List GateDenialReason

-- What the gate reads beside the confirmed state.
pub record GateInput : Type 0 where
  pub confirmed_legal_actions : List ConfirmedLegalActionSelection
  pub current_identity : TurnIdentity
  pub latest_confirmed_state_id : String
  pub latest_open_draft_turn_number : Option ℕ
  pub latest_open_draft_battle_revision : Option ℕ
  pub legal_switch_confirmation : Option LegalSwitchConfirmation
  pub selected_three : Option (List String)
  pub confirmed_fainted_members : List String

-- `if b: reasons.append(reason)`, before the reasons that follow.
abbrev pub when : Bool → GateDenialReason → List GateDenialReason → List GateDenialReason
when true reason rest = reason ∷ rest
when false reason rest = rest

abbrev pub newer_draft : Option ℕ → Option ℕ → TurnIdentity → Bool
newer_draft (some turn) (some revision) identity =
    ltb identity.turn_number turn
    || turn == identity.turn_number && ltb identity.battle_revision revision
newer_draft _ _ identity = false

abbrev pub literal_unknown : Known String → Bool
literal_unknown active = is_confirmed active && active.value == some "UNKNOWN"

-- The name of a confirmed active Pokemon.
abbrev pub active_name : Known String → Option String
active_name active = if is_confirmed active then active.value else none

abbrev pub named_in : Option String → List String → Bool
named_in none names = false
named_in (some name) names = member name names

abbrev pub no_actions : List ConfirmedLegalActionSelection → Bool
no_actions [] = true
no_actions (action ∷ actions) = false

abbrev pub binding_reasons :
    GateInput → Option LegalSwitchConfirmation → List GateDenialReason → List GateDenialReason
binding_reasons input none rest = legal_switches_unresolved ∷ rest
binding_reasons input (some c) rest =
    when (c.identity != input.current_identity) legal_switches_identity_mismatch (
      when (c.based_on_confirmed_state_id != input.latest_confirmed_state_id)
        legal_switches_stale_binding rest)

abbrev pub member_reasons :
    GateInput → Option String → List String → Option LegalSwitchConfirmation → List GateDenialReason
member_reasons input active three none = []
member_reasons input active three (some c) =
    when (any_of (λ name. not (member name three)) c.legal_switches)
      legal_switches_member_outside_selected_three
      (when (named_in active c.legal_switches) legal_switches_member_is_active (
        when (any_of (λ name. member name input.confirmed_fainted_members) c.legal_switches)
          legal_switches_member_confirmed_fainted []))

abbrev pub content_reasons :
    GateInput → Option String → Option (List String) → List GateDenialReason
content_reasons input active none = legal_switches_applied_selection_missing ∷ []
content_reasons input active (some three) =
    when (not (named_in active three)) legal_switches_active_outside_selected_three
      (member_reasons input active three input.legal_switch_confirmation)

unfoldable pub denial_reasons : ConfirmedTurnState → GateInput → List GateDenialReason
denial_reasons state input =
    let self_active = state.self_side.active in
    let opponent_active = state.opponent_side.active in
    when (state.identity != input.current_identity) identity_mismatch (
      when (state.confirmed_state_id != input.latest_confirmed_state_id) stale_confirmed_state (
        when
          (newer_draft input.latest_open_draft_turn_number input.latest_open_draft_battle_revision
            state.identity)
          newer_open_draft_exists
          (when (not (is_confirmed self_active)) self_active_unknown (
            when (literal_unknown self_active) self_active_literal_unknown_value (
              when (not (is_confirmed opponent_active)) opponent_active_unknown (
                when (literal_unknown opponent_active) opponent_active_literal_unknown_value (
                  when (no_actions input.confirmed_legal_actions) legal_actions_empty (
                    when
                      (any_of (λ action. action.identity != input.current_identity)
                        input.confirmed_legal_actions)
                      legal_actions_identity_mismatch
                      (binding_reasons input input.legal_switch_confirmation (
                        content_reasons input (active_name self_active)
                          input.selected_three))))))))))

abbrev pub no_reasons : List GateDenialReason → Bool
no_reasons [] = true
no_reasons (reason ∷ reasons) = false

unfoldable pub evaluate_provider_ready_gate :
    ConfirmedTurnState → GateInput → ProviderReadyGateResult
unfolding denial_reasons
evaluate_provider_ready_gate state input =
    if not state.confirmation.confirmed_by_human
    then record { allowed = false; denial_reasons = state_not_human_confirmed ∷ [] }
    else record {
      allowed = no_reasons (denial_reasons state input);
      denial_reasons = denial_reasons state input;
    }
