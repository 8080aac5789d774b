-- ===== src/Tests/Switches.antt =====
-- The theorem on `confirm_legal_switches` of src/maple_next/application/service.py at a concrete match.
use maple_next.Base.{
  ℕ, String, Bool, true, false, not, ◌≡◌, refl, Option, none, some, List, [], ◌∷◌, Result, ok,
  Error, domain_error, arith, is_blank, strip, any_of, find_first, keep, member, all_distinct,
  if◌then◌else◌, string_eq, nat_eq, ==_refl, ◌!=◌,
}
use maple_next.Enums.{turn_reviewed, BattleState-discrete}
use maple_next.Models.{BattleSession, AppliedSelectionSnapshot}
use maple_next.TurnState.Records.{make_identity, make_confirmation, identity_eq, TurnIdentity}
use maple_next.LegalSwitches.{
  LegalSwitchConfirmation, LocalMemory, confirmed_nonempty, confirm_legal_switches, check_switches,
  make_switch_confirmation, is_confirmed_fainted,
}
use maple_next.TurnStateRows.{state_row}
use maple_next.TurnStateRows.Laws.{from_row-state_row}
use maple_next.Repository.{Repository, ◌>>=◌, lift, rescue}
use maple_next.Repository.Order.{latest}
use maple_next.Repository.Sessions.{find_active, load_active_session}
use maple_next.Repository.Rows.{get_turn, find_turn, get_applied_selection, find_applied}
use maple_next.Repository.TurnStates.{find_state_row, get_latest_confirmed_turn_state_for_identity}
use maple_next.Repository.Memories.{get_pokemon_local_state}
use maple_next.Repository.Switches.{
  is_bound_to, upsert_legal_switch_confirmation, put_confirmation, get_legal_switch_confirmation,
}
use maple_next.Repository.Forward.{step, given, present, passed, commits}
use maple_next.Application.Session.{require_session, require_active_session}
use maple_next.Application.Match.{opened}
use maple_next.Application.Switches.{
  SwitchBinding, current_legal_switch_binding, self_local_memory_by_name, confirm_current_switches,
  rejected, remember,
}
use maple_next.Application.SwitchLaws.{confirm_current_switches-get}
use maple_next.Tests.Turns.{first_state, turn_one}
use maple_next.Tests.Stores.{py, one_state, turn_one_row, recorded, first_state-IsStored}

abbrev reviewing : BattleSession
reviewing = record recorded { state = turn_reviewed; battle_revision = 5 }

abbrev applied : AppliedSelectionSnapshot
applied = record {
  applied_selection_id = "applied";
  selected_three = "Garchomp" ∷ "Rotom" ∷ "Gliscor" ∷ [];
  lead = "Garchomp";
  backline = "Rotom" ∷ "Gliscor" ∷ [];
  source_advice_id = "advice";
}

abbrev reviewed : Repository
reviewed = record one_state {
  sessions = reviewing ∷ [];
  turns = record { session_id = "s1"; row = turn_one_row } ∷ [];
  applied_selections = record { session_id = "s1"; row = applied } ∷ [];
}

abbrev binding : SwitchBinding
binding = record { identity = turn_one; applied = applied; latest_state = first_state }

abbrev chosen : LegalSwitchConfirmation
chosen = record {
  confirmation_id = "w1";
  identity = turn_one;
  based_on_confirmed_state_id = "c1";
  applied_selection_id = "applied";
  legal_switches = "Rotom" ∷ [];
  status = confirmed_nonempty;
  confirmation = record {
    confirmed_by_human = true;
    confirmed_at_utc = "2026-07-01T00:00:30Z";
    provenance = "HUMAN_INPUT";
  };
}

abbrev confirmed : Repository
confirmed = record reviewed { switch_confirmations = chosen ∷ [] }

newest :
    get_latest_confirmed_turn_state_for_identity py "s1" "m1" 1 reviewed
    ≡ (ok (some first_state), reviewed)
unfolding get_latest_confirmed_turn_state_for_identity ◌>>=◌ latest keep state_row
newest = rw (from_row-state_row py first_state first_state-IsStored) refl

in_review : require_session turn_reviewed reviewed ≡ (ok reviewing, reviewed)
unfolding require_session require_active_session load_active_session ◌>>=◌ find_active find_first
    opened BattleState-discrete
in_review = refl

turn_there : get_turn "t1" reviewed ≡ (ok turn_one_row, reviewed)
unfolding get_turn find_turn find_first ◌>>=◌
turn_there = refl

selection_there : get_applied_selection "applied" reviewed ≡ (ok applied, reviewed)
unfolding get_applied_selection find_applied find_first ◌>>=◌
selection_there = refl

identity_made : make_identity turn_one ≡ ok turn_one
unfolding make_identity is_blank
identity_made = refl

same_identity : (turn_one != turn_one) ≡ false
same_identity = rw (==_refl {A = TurnIdentity} turn_one) refl

bound : current_legal_switch_binding py reviewed ≡ (ok binding, reviewed)
unfolding current_legal_switch_binding lift opened
bound =
    step _ reviewing reviewed reviewed _
      (present _ "t1" reviewed _
        (present _ "applied" reviewed _
          (step _ turn_one_row reviewed reviewed _
            (given _ turn_one reviewed _
              (step _ (some first_state) reviewed reviewed _
                (present _ first_state reviewed _
                  (passed _ reviewed _ (step _ applied reviewed reviewed _ refl _ selection_there) _
                    _ same_identity)
                  _ _ refl)
                _ newest)
              _ identity_made)
            _ turn_there)
          _ _ refl)
        _ _ refl)
      _ in_review

-- Nothing is remembered of the three.
abbrev memory : LocalMemory
memory = remember "Garchomp" none (remember "Rotom" none (remember "Gliscor" none (λ wanted. none)))

remembered :
    self_local_memory_by_name py turn_one ("Garchomp" ∷ "Rotom" ∷ "Gliscor" ∷ []) reviewed
    ≡ (ok memory, reviewed)
unfolding self_local_memory_by_name get_pokemon_local_state find_first ◌>>=◌ lift
remembered = refl

allowed :
    rescue rejected
      (lift (
        maple_next.Base.◌>>=◌ (make_confirmation chosen.confirmation) (λ _.
          confirm_legal_switches applied "Garchomp" memory
            (record chosen { legal_switches = " Rotom" ∷ [] }))))
      reviewed
    ≡ (ok chosen, reviewed)
unfolding rescue lift make_confirmation confirm_legal_switches check_switches
    make_switch_confirmation strip is_blank member all_distinct is_confirmed_fainted any_of
allowed = refl

stored : upsert_legal_switch_confirmation chosen reviewed ≡ (ok tt, confirmed)
unfolding upsert_legal_switch_confirmation put_confirmation find_state_row find_applied find_first
    any_of ◌>>=◌ state_row
stored = refl

abbrev self_unknown : Error
self_unknown = domain_error "SELF_ACTIVE_UNKNOWN"

confirmed_now :
    confirm_current_switches py
      (" Rotom" ∷ [])
      confirmed_nonempty
      true
      "w1"
      "2026-07-01T00:00:30Z"
      reviewed
    ≡ (ok chosen, confirmed)
unfolding confirm_current_switches lift
confirmed_now =
    passed _ reviewed _
      (commits _ reviewed confirmed chosen (
        step _ binding reviewed reviewed _
          (passed _ reviewed _
            (present _ "Garchomp" reviewed _
              (passed _ reviewed _
                (step _ memory reviewed reviewed _
                  (step _ chosen reviewed reviewed _ (step _ tt reviewed confirmed _ refl _ stored)
                    _ allowed)
                  _ remembered)
                false self_unknown refl)
              self_unknown (some "Garchomp") refl)
            false self_unknown refl)
          _ bound))
      false (domain_error "HUMAN_ACTION_CONFIRMATION_REQUIRED") refl

confirm_current_switches-get_example :
    (get_legal_switch_confirmation turn_one "c1" "applied" confirmed).0 ≡ (
      if is_bound_to turn_one "c1" "applied" chosen
      then ok (some chosen)
      else (get_legal_switch_confirmation turn_one "c1" "applied" reviewed).0)
confirm_current_switches-get_example =
    confirm_current_switches-get py (" Rotom" ∷ []) confirmed_nonempty true "w1"
      "2026-07-01T00:00:30Z" reviewed confirmed chosen turn_one "c1" "applied" confirmed_now
