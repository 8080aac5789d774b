-- ===== src/Repository/StoreLaws.antt =====
-- What the tables of src/maple_next/persistence/turn_state_store.py give back.
use maple_next.Base.{◌≡◌, refl, arith, ◌∷◌, ok, find_first, string_eq, nat_eq, ==_refl}
use maple_next.TurnState.Records.{ConfirmedTurnState}
use maple_next.TurnState.Json.{Python}
use maple_next.TurnStateRows.{state_row}
use maple_next.TurnStateRows.Laws.{IsStored, from_row-state_row}
use maple_next.Repository.{Repository, ◌>>=◌}
use maple_next.Repository.TurnStates.{append_confirmed_turn_state, get_confirmed_turn_state}

appended :
    (state : ConfirmedTurnState) (s t : Repository)
    → append_confirmed_turn_state state s ≡ (ok tt, t)
    → t ≡ record s { confirmed_states = state_row state ∷ s.confirmed_states }
unfolding append_confirmed_turn_state ◌>>=◌
appended state s t h = ground arith

-- A confirmed state that passed its constructors is read back, unchanged, under its id once it was
-- appended.
pub get-append_confirmed_turn_state :
    (py : Python) (state : ConfirmedTurnState) (s t : Repository)
    → IsStored state
    → append_confirmed_turn_state state s ≡ (ok tt, t)
    → get_confirmed_turn_state py state.confirmed_state_id t ≡ (ok state, t)
unfolding get_confirmed_turn_state ◌>>=◌ find_first state_row
get-append_confirmed_turn_state py state s t k h =
    let same = appended state s t h in
    rw (same, ==_refl state.confirmed_state_id, from_row-state_row py state k) refl
