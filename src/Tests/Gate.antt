-- ===== src/Tests/Gate.antt =====
-- The theorem on the provider-ready gate of src/maple_next/domain/turn_state_projection.py at a state.
use maple_next.Base.{
  String, true, false, ◌≡◌, refl, none, some, [], ◌∷◌, any_of, member, ==_refl, ==-eq, ◌==◌,
  string_eq, find_first, Bool-cases, inl, inr, strip, is_blank, all_distinct, ok,
}
use maple_next.Enums.{ActionType, HpBucket, HpBucket-discrete}
use maple_next.Models.{AppliedSelectionSnapshot}
use maple_next.TurnState.Records.{identity_eq}
use maple_next.TurnState.Actions.{PokemonLocalMemory, ConfirmedLegalActionSelection}
use maple_next.LegalSwitches.{
  LegalSwitchConfirmation, confirmed_nonempty, LocalMemory, is_confirmed_fainted, check_switches,
  make_switch_confirmation, confirm_legal_switches,
}
use maple_next.ProviderGate.{GateInput, member_reasons, evaluate_provider_ready_gate}
use maple_next.ProviderGate.Switches.{confirmed-member_reasons}
use maple_next.ProviderGate.Ready.{IsReady, gate-IsReady}
use maple_next.Tests.Turns.{first_state, turn_one, meta, seen, hidden}

abbrev earthquake : ConfirmedLegalActionSelection
earthquake = record {
  confirmation_id = "a1";
  identity = turn_one;
  action_type = ActionType.move;
  action_name = "Earthquake";
  confirmation = meta;
  source_prefill_id = none;
}

abbrev switches : LegalSwitchConfirmation
switches = record {
  confirmation_id = "w1";
  identity = turn_one;
  based_on_confirmed_state_id = "c1";
  applied_selection_id = "applied";
  legal_switches = "Rotom" ∷ [];
  status = confirmed_nonempty;
  confirmation = meta;
}

abbrev input : GateInput
input = record {
  confirmed_legal_actions = earthquake ∷ [];
  current_identity = turn_one;
  latest_confirmed_state_id = "c1";
  latest_open_draft_turn_number = none;
  latest_open_draft_battle_revision = none;
  legal_switch_confirmation = some switches;
  selected_three = some ("Garchomp" ∷ "Rotom" ∷ "Ditto" ∷ []);
  confirmed_fainted_members = "Ditto" ∷ [];
}

input-allowed : (evaluate_provider_ready_gate first_state input).allowed ≡ true
unfolding evaluate_provider_ready_gate any_of member
input-allowed = rw (==_refl turn_one) refl

gate-IsReady_example : IsReady first_state input
gate-IsReady_example = gate-IsReady first_state input input-allowed

abbrev applied : AppliedSelectionSnapshot
applied = record {
  applied_selection_id = "applied";
  selected_three = "Garchomp" ∷ "Rotom" ∷ "Ditto" ∷ [];
  lead = "Garchomp";
  backline = "Rotom" ∷ "Ditto" ∷ [];
  source_advice_id = "advice";
}

abbrev ditto : PokemonLocalMemory
ditto = record { pokemon_name = "Ditto"; hp_bucket = seen HpBucket.zero; status = hidden }

abbrev memory : LocalMemory
memory name = find_first (λ m. m.pokemon_name == name) (ditto ∷ [])

switches-accepted : confirm_legal_switches applied "Garchomp" memory switches ≡ ok switches
unfolding confirm_legal_switches check_switches make_switch_confirmation strip is_blank member
    all_distinct is_confirmed_fainted find_first any_of
switches-accepted = refl

ditto-fainted :
    (name : String) → member name ("Ditto" ∷ []) ≡ true → is_confirmed_fainted (memory name) ≡ true
unfolding member is_confirmed_fainted find_first HpBucket-discrete
ditto-fainted name m = elim (Bool-cases (name == "Ditto")) [
  | inl e ↦ rw (==-eq name "Ditto" e) refl
  | inr e ↦ let none_left : false ≡ true = rw e at m in cc
]

confirmed-member_reasons_example :
    member_reasons input (some "Garchomp") ("Garchomp" ∷ "Rotom" ∷ "Ditto" ∷ []) (some switches)
    ≡ []
confirmed-member_reasons_example =
    confirmed-member_reasons applied "Garchomp" memory switches switches input switches-accepted
      ditto-fainted
