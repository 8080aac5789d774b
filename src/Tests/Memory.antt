-- ===== src/Tests/Memory.antt =====
-- The theorems on src/maple_next/domain/battle_memory.py and domain/legal_switches.py at concrete Turns.
use maple_next.Base.{
  ℕ, String, Bool, true, false, not, ◌≡◌, ◌≢◌, ◌↔◌, refl, Option, none, some, List, [], ◌∷◌, map,
  length, any_of, ok, err, Result, assertion_error, is_blank, is_empty, strip, member, all_distinct,
  string_eq, nat_eq, option_eq, keep, find_first, ◌-◌, ◌==◌, Bool-cases, inl, inr, ==-eq, ==_refl,
}
use maple_next.Enums.{ActionType, ActionOrder, HpBucket, HpBucket-discrete}
use maple_next.Models.{AppliedSelectionSnapshot}
use maple_next.TurnState.Known.{KnowledgeStatus}
use maple_next.TurnState.Records.{ConfirmedTurnState}
use maple_next.TurnState.Actions.{PokemonLocalMemory}
use maple_next.LegalSwitches.{
  LegalSwitchConfirmation, confirmed_none, confirmed_nonempty, LocalMemory, is_confirmed_fainted,
  derive_legal_switch_candidates, check_switches, make_switch_confirmation, confirm_legal_switches,
}
use maple_next.LegalSwitches.Laws.{IsLegalSwitch, candidates-legal, confirm_legal_switches-legal}
use maple_next.LegalSwitches.Proposed.{IsName, as_proposed, proposed-accepted}
use maple_next.BattleMemory.{
  make_battle_memory, action_unknown, action_confirmed, make_member, make_memory_turn, make_action,
  RichActionCompletionFacts, BattleMemory, SelectedBuildMember, SelectedBuildStatus,
}
use maple_next.BattleMemory.Chain.{
  require_same_match, find_state, walk_confirmed_state_chain, position,
}
use maple_next.BattleMemory.Build.{
  check_states, check_completions, check_deltas, memory_turns, find_completion, find_delta,
  deltas_per_state, assemble, build_battle_memory,
}
use maple_next.BattleMemory.Projection.{
  project_selected_three_builds, project_selected_three_builds-names,
}
use maple_next.BattleMemory.Termination.{walk_confirmed_state_chain-ends}
use maple_next.BattleMemory.Turns.{Recorded, build_battle_memory-Recorded}
use maple_next.Tests.Turns.{first_state, first_delta, turn_one, turn_two, meta, hidden, seen}

abbrev applied : AppliedSelectionSnapshot
applied = record {
  applied_selection_id = "applied";
  selected_three = "a" ∷ "b" ∷ "c" ∷ [];
  lead = "a";
  backline = "b" ∷ "c" ∷ [];
  source_advice_id = "advice";
}

abbrev fainted : PokemonLocalMemory
fainted = record { pokemon_name = "c"; hp_bucket = seen HpBucket.zero; status = hidden }

-- Only "c" is known to have fainted.
abbrev memory : LocalMemory
memory name =
    maple_next.Base.find_first (λ m. maple_next.Base.◌==◌ m.pokemon_name name) (fainted ∷ [])

abbrev asked : LegalSwitchConfirmation
asked = record {
  confirmation_id = "confirmation";
  identity = turn_one;
  based_on_confirmed_state_id = "c1";
  applied_selection_id = "";
  legal_switches = " b" ∷ [];
  status = confirmed_nonempty;
  confirmation = meta;
}

abbrev switches : LegalSwitchConfirmation
switches = record asked { applied_selection_id = "applied"; legal_switches = "b" ∷ [] }

asked-accepted : confirm_legal_switches applied "a" memory asked ≡ ok switches
unfolding confirm_legal_switches check_switches make_switch_confirmation strip is_blank member
    all_distinct is_confirmed_fainted find_first any_of
asked-accepted = refl

confirm_legal_switches-legal_example :
    (true ≡ true)
    × (all_distinct {A = String} ("b" ∷ []) ≡ true)
    × ((confirmed_nonempty ≡ confirmed_none) ↔ (switches.legal_switches ≡ []))
    × ((name : String)
        → member {A = String} name ("b" ∷ []) ≡ true
        → IsLegalSwitch ("a" ∷ "b" ∷ "c" ∷ []) "a" memory name)
confirm_legal_switches-legal_example =
    confirm_legal_switches-legal applied "a" memory asked switches asked-accepted

proposed : derive_legal_switch_candidates ("a" ∷ "b" ∷ "c" ∷ []) "a" memory ≡ ok ("b" ∷ [])
unfolding derive_legal_switch_candidates member keep is_confirmed_fainted find_first
    HpBucket-discrete
proposed = refl

candidates-legal_example :
    (member {A = String} "b" ("b" ∷ []) ≡ true)
    ↔ IsLegalSwitch ("a" ∷ "b" ∷ "c" ∷ []) "a" memory "b"
candidates-legal_example =
    candidates-legal ("a" ∷ "b" ∷ "c" ∷ []) "a" memory ("b" ∷ []) proposed "b"

named_first :
    (n name : String) (ns : List String)
    → IsName n
    → (member name ns ≡ true → IsName name)
    → member name (n ∷ ns) ≡ true
    → IsName name
unfolding member
named_first n name ns k rest m = elim (Bool-cases (name == n)) [
  | inl e ↦ rw (==-eq name n e) k
  | inr e ↦ rest (rw e at m)
]

no_name : (name : String) → member name [] ≡ true → IsName name
unfolding member
no_name name m = cc

letters : (name : String) → member name ("a" ∷ "b" ∷ "c" ∷ []) ≡ true → IsName name
unfolding strip
letters name =
    let a : IsName "a" = record { stripped = refl; named = refl } in
    let b : IsName "b" = record { stripped = refl; named = refl } in
    let c : IsName "c" = record { stripped = refl; named = refl } in
    named_first "a" name _ a (named_first "b" name _ b (named_first "c" name [] c (no_name name)))

proposed-accepted_example :
    confirm_legal_switches applied "a" memory (as_proposed asked ("b" ∷ [])) ≡ ok switches
unfolding all_distinct member is_blank strip
proposed-accepted_example =
    proposed-accepted applied "a" memory asked ("b" ∷ []) letters refl refl refl refl refl proposed

abbrev second_state : ConfirmedTurnState
second_state = record first_state {
  confirmed_state_id = "c2";
  identity = turn_two;
  previous_confirmed_state_id = some "c1";
}

abbrev states : List ConfirmedTurnState
states = first_state ∷ second_state ∷ []

walk_confirmed_state_chain-ends_example :
    walk_confirmed_state_chain second_state states ≢ err assertion_error
walk_confirmed_state_chain-ends_example = walk_confirmed_state_chain-ends second_state states

abbrev completion : RichActionCompletionFacts
completion = record {
  transaction_id = "x1";
  identity = turn_one;
  based_on_confirmed_state_id = "c1";
  own_action_type = ActionType.move;
  own_action_name = "Earthquake";
  opponent_action_type = none;
  opponent_action_name = none;
  action_order = ActionOrder.self_first;
  delta_id = "d1";
}

abbrev memory_of_two : BattleMemory
memory_of_two = record {
  turns =
      record {
        identity = turn_one;
        reviewed_confirmed_state_id = "c1";
        turn_start_self_active = seen "Garchomp";
        turn_start_opponent_active = seen "Garchomp";
        own_action = record {
          knowledge_status = KnowledgeStatus.confirmed;
          action_type = some ActionType.move;
          action_name = some "Earthquake";
        };
        opponent_action = record {
          knowledge_status = KnowledgeStatus.unknown;
          action_type = none;
          action_name = none;
        };
        action_order = ActionOrder.self_first;
        result = first_delta;
      }
      ∷ [];
}

memory_of_two-built :
    build_battle_memory turn_two second_state states (completion ∷ []) (first_delta ∷ [])
    ≡ ok memory_of_two
unfolding build_battle_memory check_states require_same_match any_of find_state find_first
    walk_confirmed_state_chain member position check_completions check_deltas memory_turns
    find_completion find_delta deltas_per_state keep make_memory_turn make_action is_blank
    make_battle_memory assemble action_unknown action_confirmed
memory_of_two-built = rw (==_refl turn_two, ==_refl second_state, ==_refl turn_one) refl

build_battle_memory-Recorded_example :
    (chain : List String) × (top : ℕ) × (walk_confirmed_state_chain second_state states ≡ ok chain)
    × (position "c2" chain ≡ some top)
    × (length memory_of_two.turns ≡ 2 - 1)
    × Recorded
        (record {
          states = states;
          completions = completion ∷ [];
          deltas = first_delta ∷ [];
          chain = chain;
          current_position = top;
        })
        1
        0
        memory_of_two.turns
build_battle_memory-Recorded_example =
    build_battle_memory-Recorded turn_two second_state states (completion ∷ []) (first_delta ∷ [])
      memory_of_two memory_of_two-built

abbrev named : String → SelectedBuildMember
named name = record {
  pokemon_name = name;
  build_status = SelectedBuildStatus.unknown;
  build = none;
}

abbrev six : List String
six = "a" ∷ "b" ∷ "c" ∷ "d" ∷ "e" ∷ "f" ∷ []

abbrev three : List String
three = "c" ∷ "a" ∷ "f" ∷ []

projected :
    project_selected_three_builds (λ _. "build") three six none none
    ≡ ok (named "c" ∷ named "a" ∷ named "f" ∷ [])
unfolding project_selected_three_builds all_distinct any_of make_member is_blank
projected = refl

project_selected_three_builds-names_example :
    (three ≡ three)
    × (length three ≡ 3)
    × (all_distinct {A = String} three ≡ true)
    × (any_of (λ name. not (member {A = String} name six)) three ≡ false)
project_selected_three_builds-names_example =
    project_selected_three_builds-names (λ _. "build") three six none none
      (named "c" ∷ named "a" ∷ named "f" ∷ []) projected
