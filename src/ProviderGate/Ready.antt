-- ===== src/ProviderGate/Ready.antt =====
-- What `evaluate_provider_ready_gate` of src/maple_next/domain/turn_state_projection.py allows.
use maple_next.Base.{
  String, Bool, true, false, not, ◌≡◌, refl, Option, none, some, List, [], ◌∷◌, any_of, ◌==◌, ◌!=◌,
  string_eq, member, Eq, ==-eq, Bool-cases, inl, inr, ap, ◌∙◌, sym,
}
use maple_next.TurnState.Known.{is_confirmed}
use maple_next.TurnState.Records.{identity_eq, ConfirmedTurnState}
use maple_next.LegalSwitches.{LegalSwitchConfirmation}
use maple_next.ProviderGate.{
  GateDenialReason, GateInput, when, newer_draft, literal_unknown, active_name, named_in,
  no_actions, binding_reasons, member_reasons, content_reasons, denial_reasons, no_reasons,
  evaluate_provider_ready_gate,
}

-- The confirmation is bound to this state, and its names are members of the selected three, other than
-- the active Pokemon and those known to have fainted.
pub record IsLegalSet (state : ConfirmedTurnState) (input : GateInput) (three : List String)
    (c : LegalSwitchConfirmation) : Type 0 where
  pub found : input.legal_switch_confirmation ≡ some c
  pub selection : input.selected_three ≡ some three
  pub identity : c.identity ≡ input.current_identity
  pub based_on : c.based_on_confirmed_state_id ≡ input.latest_confirmed_state_id
  pub active : named_in (active_name state.self_side.active) three ≡ true
  pub inside : any_of (λ name. not (member name three)) c.legal_switches ≡ false
  pub inactive : named_in (active_name state.self_side.active) c.legal_switches ≡ false
  pub alive : any_of (λ name. member name input.confirmed_fainted_members) c.legal_switches ≡ false

pub record IsReady (state : ConfirmedTurnState) (input : GateInput) : Type 0 where
  pub human : state.confirmation.confirmed_by_human ≡ true
  pub identity : state.identity ≡ input.current_identity
  pub latest : state.confirmed_state_id ≡ input.latest_confirmed_state_id
  pub newest :
      newer_draft input.latest_open_draft_turn_number input.latest_open_draft_battle_revision
        state.identity
      ≡ false
  pub self_active : is_confirmed state.self_side.active ≡ true
  pub self_named : literal_unknown state.self_side.active ≡ false
  pub opponent_active : is_confirmed state.opponent_side.active ≡ true
  pub opponent_named : literal_unknown state.opponent_side.active ≡ false
  pub some_action : no_actions input.confirmed_legal_actions ≡ false
  pub bound_actions :
      any_of (λ action. action.identity != input.current_identity) input.confirmed_legal_actions
      ≡ false
  pub three : List String
  pub confirmation : LegalSwitchConfirmation
  pub switches : IsLegalSet state input three confirmation

unless :
    (b : Bool) (reason : GateDenialReason) (rest : List GateDenialReason)
    → when b reason rest ≡ []
    → (b ≡ false) × (rest ≡ [])
unless true reason rest h = cc
unless false reason rest h = (refl, h)

holds : (b : Bool) → not b ≡ false → b ≡ true
holds true h = refl
holds false h = cc

same {ℓ} : {A : Type ℓ} ⦃e : Eq A⦄ (a b : A) → (a != b) ≡ false → a ≡ b
same a b h = ==-eq a b (holds (a == b) h)

module _ (state : ConfirmedTurnState) (input : GateInput) where
  legal_set :
      (c : Option LegalSwitchConfirmation) (t : Option (List String))
      → input.legal_switch_confirmation ≡ c
      → input.selected_three ≡ t
      → binding_reasons input c (content_reasons input (active_name state.self_side.active) t) ≡ []
      → (three : List String) × (confirmation : LegalSwitchConfirmation) × IsLegalSet state input
          three confirmation
  legal_set none t ec et h = cc
  legal_set (some c) none ec et h =
      let (identity, h1) = unless (c.identity != input.current_identity) _ _ h in
      let (based_on, h2) =
        unless (c.based_on_confirmed_state_id != input.latest_confirmed_state_id) _ _ h1 in
      cc
  legal_set (some c) (some three) ec et h =
      let (identity, h1) = unless (c.identity != input.current_identity) _ _ h in
      let (based_on, h2) =
        unless (c.based_on_confirmed_state_id != input.latest_confirmed_state_id) _ _ h1 in
      let (active, h3) =
        unless (not (named_in (active_name state.self_side.active) three)) _ _ h2 in
      let members : member_reasons input (active_name state.self_side.active) three (some c) ≡ [] =
        sym (ap (member_reasons input (active_name state.self_side.active) three) ec) ∙ h3 in
      let (inside, h4) =
        unless (any_of (λ name. not (member name three)) c.legal_switches) _ _ members in
      let (inactive, h5) =
        unless (named_in (active_name state.self_side.active) c.legal_switches) _ _ h4 in
      let (alive, h6) =
        unless (any_of (λ name. member name input.confirmed_fainted_members) c.legal_switches) _ _
          h5 in
      (
        three,
        c,
        record {
          found = ec;
          selection = et;
          identity = same c.identity input.current_identity identity;
          based_on = same c.based_on_confirmed_state_id input.latest_confirmed_state_id based_on;
          active = holds _ active;
          inside = inside;
          inactive = inactive;
          alive = alive;
        },
      )

  no_reasons-IsReady :
      state.confirmation.confirmed_by_human ≡ true
      → denial_reasons state input ≡ []
      → IsReady state input
  unfolding denial_reasons
  no_reasons-IsReady human h =
      let (identity, h1) = unless (state.identity != input.current_identity) _ _ h in
      let (latest, h2) =
        unless (state.confirmed_state_id != input.latest_confirmed_state_id) _ _ h1 in
      let (newest, h3) = unless _ _ _ h2 in
      let (self_active, h4) = unless (not (is_confirmed state.self_side.active)) _ _ h3 in
      let (self_named, h5) = unless (literal_unknown state.self_side.active) _ _ h4 in
      let (opponent_active, h6) = unless (not (is_confirmed state.opponent_side.active)) _ _ h5 in
      let (opponent_named, h7) = unless (literal_unknown state.opponent_side.active) _ _ h6 in
      let (some_action, h8) = unless (no_actions input.confirmed_legal_actions) _ _ h7 in
      let (bound_actions, h9) = unless _ _ _ h8 in
      let (three, confirmation, switches) =
        legal_set input.legal_switch_confirmation input.selected_three refl refl h9 in
      record {
        human = human;
        identity = same state.identity input.current_identity identity;
        latest = same state.confirmed_state_id input.latest_confirmed_state_id latest;
        newest = newest;
        self_active = holds _ self_active;
        self_named = self_named;
        opponent_active = holds _ opponent_active;
        opponent_named = opponent_named;
        some_action = some_action;
        bound_actions = bound_actions;
        three = three;
        confirmation = confirmation;
        switches = switches;
      }

  none_denied : (reasons : List GateDenialReason) → no_reasons reasons ≡ true → reasons ≡ []
  none_denied [] h = refl
  none_denied (r ∷ rs) h = cc

  -- The gate allows a request only for a state that a human confirmed, that is the latest one of the
  -- current Turn with no newer draft, in which both active Pokemon are known by a name, with at least one
  -- legal action and all actions of this Turn, and with a confirmed set of legal switches that is bound
  -- to this state and legal for it.
  pub gate-IsReady : (evaluate_provider_ready_gate state input).allowed ≡ true → IsReady state input
  unfolding evaluate_provider_ready_gate
  gate-IsReady h = elim (Bool-cases state.confirmation.confirmed_by_human) [
    | inl e ↦
        let reasons : no_reasons (denial_reasons state input) ≡ true = rw e at h in
        no_reasons-IsReady e (none_denied _ reasons)
    | inr e ↦ let refused : false ≡ true = rw e at h in cc
  ]
