-- ===== src/Tests/Chain.antt =====
-- The theorems on the chain of Turn states at the state and the delta of Turns.antt.
use maple_next.Base.{String, true, ◌≡◌, refl, none, some, ok, err, stale_error, is_blank, ◌⊎◌}
use maple_next.TurnState.Known.{Known, ChangeObservation, derive_field}
use maple_next.TurnState.Records.{ConfirmedTurnState}
use maple_next.TurnState.Lifecycle.{derive_next_turn_state_draft, confirm_next_turn_state}
use maple_next.TurnState.Fields.{confirmed_needs_evidence}
use maple_next.TurnState.Bindings.{Advances}
use maple_next.TurnState.Derivation.{
  derive-eq-expected, confirm-derived, confirm_superseded, confirm-Advances, promoted,
}
use maple_next.TurnState.History.{start, then, promotion, Reached, History-Reached}
use maple_next.Tests.Turns.{
  apart, seen, became, turn_one, turn_two, meta, first_state, first_delta, draft,
  first_state-IsState, first_delta-IsResult, first_delta-BindsTo, turn_two-Advances,
}

abbrev second_state : ConfirmedTurnState
second_state = promoted draft "c2" meta none

derive-eq-expected_example :
    derive_next_turn_state_draft first_state first_delta "draft-2" turn_two "2026-07-01T00:01:00Z"
    ≡ ok draft
unfolding is_blank
derive-eq-expected_example =
    derive-eq-expected first_state first_delta turn_two "draft-2" "2026-07-01T00:01:00Z"
      first_state-IsState first_delta-IsResult first_delta-BindsTo turn_two-Advances refl refl

derived :
    derive_next_turn_state_draft first_state first_delta "draft-2" turn_two "2026-07-01T00:01:00Z"
    ≡ ok draft
unfolding is_blank
derived =
    derive-eq-expected first_state first_delta turn_two "draft-2" "2026-07-01T00:01:00Z"
      first_state-IsState first_delta-IsResult first_delta-BindsTo turn_two-Advances refl refl

confirm-derived_example :
    (confirm_next_turn_state draft "c2" first_state first_delta meta none ≡ ok second_state)
    × (second_state.previous_confirmed_state_id ≡ some "c1")
unfolding is_blank
confirm-derived_example =
    confirm-derived first_state first_delta turn_two "draft-2" "2026-07-01T00:01:00Z" "c2" meta none
      draft first_state-IsState first_delta-IsResult derived refl

confirmed : confirm_next_turn_state draft "c2" first_state first_delta meta none ≡ ok second_state
unfolding is_blank
confirmed =
    (confirm-derived first_state first_delta turn_two "draft-2" "2026-07-01T00:01:00Z" "c2" meta
      none draft first_state-IsState first_delta-IsResult derived refl).0

confirm_superseded_example :
    confirm_next_turn_state draft "c3" second_state first_delta meta none
    ≡ err (stale_error "DELTA_NOT_BASED_ON_CONFIRMED_STATE")
confirm_superseded_example =
    confirm_superseded first_state first_delta turn_two "draft-2" "2026-07-01T00:01:00Z" "c3" meta
      none second_state draft derived (apart "c2" "c1" refl)

confirm-Advances_example :
    Advances turn_one second_state.identity × (second_state.previous_confirmed_state_id ≡ some "c1")
confirm-Advances_example =
    confirm-Advances draft "c2" first_state first_delta meta none second_state confirmed

History-Reached_example : Reached turn_one 1 turn_two
History-Reached_example =
    History-Reached {root = first_state} {s = second_state} {n = 1}
      (then start (promotion draft "c2" first_delta meta none confirmed))

abbrev garchomp : Known String
garchomp = seen "Garchomp"

abbrev rotom : Known String
rotom = seen "Rotom"

derived_field : derive_field {A = String} (seen "Garchomp") (became "Rotom") ≡ ok (seen "Rotom")
unfolding derive_field
derived_field = refl

confirmed_needs_evidence_example :
    ((ChangeObservation.changed ≡ ChangeObservation.changed) × (rotom.value ≡ some "Rotom"))
    ⊎ ((ChangeObservation.changed ≡ ChangeObservation.unchanged)
        × (true ≡ true)
        × (rotom.value ≡ garchomp.value))
confirmed_needs_evidence_example =
    confirmed_needs_evidence (seen "Garchomp") (became "Rotom") (seen "Rotom") derived_field refl
