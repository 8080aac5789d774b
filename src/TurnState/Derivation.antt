-- ===== src/TurnState/Derivation.antt =====
-- What `derive_next_turn_state_draft` and `confirm_next_turn_state` of
-- src/maple_next/domain/turn_state.py return.
use maple_next.Base.{
  String, false, ◌≡◌, ◌≢◌, sym, subst, ap, Option, some, arith, ok, err, stale_error, is_blank,
  >>=-eq-ok, nat_eq, string_eq, ==_refl,
}
use text.Mathlib.TextEquality.{eq_iff}
use maple_next.TurnState.Side.{validate_field_text}
use maple_next.TurnState.Records.{
  TurnIdentity, ConfirmationMeta, ConfirmedTurnState, ActionResultDelta, NextTurnStateDraft,
  make_confirmed_state, make_draft,
}
use maple_next.TurnState.Lifecycle.{
  bind_delta, bind_next_identity, validate_turn_state_full_chain, derive_next_turn_state_draft,
  confirm_next_turn_state,
}
use maple_next.TurnState.Fields.{
  IsKnown, IsDelta, expected_field, derive_field-eq-expected, expected_field-valid,
}
use maple_next.TurnState.Sides.{IsSideState, IsSideDelta, expected_side, derive_side-eq-expected}
use maple_next.TurnState.Bindings.{
  BindsTo, Advances, bind_delta-BindsTo, BindsTo-bind_delta, bind_next-Advances, Advances-bind_next,
}

-- Every field of the state passed its checks.
pub record IsState (s : ConfirmedTurnState) : Type 0 where
  pub self_side : IsSideState s.self_side
  pub opponent_side : IsSideState s.opponent_side
  pub weather : IsKnown validate_field_text s.weather
  pub terrain : IsKnown validate_field_text s.terrain

pub record IsResult (d : ActionResultDelta) : Type 0 where
  pub self_side : IsSideDelta d.self_side
  pub opponent_side : IsSideDelta d.opponent_side
  pub weather : IsDelta validate_field_text d.weather
  pub terrain : IsDelta validate_field_text d.terrain

-- The draft, each field by its own rule.
abbrev pub expected_draft :
    ConfirmedTurnState → ActionResultDelta → String → TurnIdentity → String → NextTurnStateDraft
expected_draft s d draft_id next at = record {
  draft_id = draft_id;
  identity = next;
  based_on_confirmed_state_id = s.confirmed_state_id;
  source_delta_id = d.delta_id;
  self_side = expected_side s.self_side d.self_side;
  opponent_side = expected_side s.opponent_side d.opponent_side;
  weather = expected_field s.weather d.weather;
  terrain = expected_field s.terrain d.terrain;
  derived_at_utc = at;
  provider_ready = false;
}

abbrev pub promoted :
    NextTurnStateDraft → String → ConfirmationMeta → Option String → ConfirmedTurnState
promoted draft new_id confirmation evidence = record {
  confirmed_state_id = new_id;
  identity = draft.identity;
  previous_confirmed_state_id = some draft.based_on_confirmed_state_id;
  self_side = draft.self_side;
  opponent_side = draft.opponent_side;
  weather = draft.weather;
  terrain = draft.terrain;
  confirmation = confirmation;
  evidence_id = evidence;
}

module _ (s : ConfirmedTurnState) (d : ActionResultDelta) (next : TurnIdentity)
    (draft_id at : String) where
  -- If the state and the delta passed their constructors, the delta is bound to the state, the next
  -- identity is that of the following Turn, and the draft's id and time are not blank, then the
  -- derivation succeeds, and its draft is the expected one, field by field.
  pub derive-eq-expected :
      IsState s
      → IsResult d
      → BindsTo s d
      → Advances s.identity next
      → is_blank draft_id ≡ false
      → is_blank at ≡ false
      → derive_next_turn_state_draft s d draft_id next at ≡ ok (expected_draft s d draft_id next at)
  unfolding derive_next_turn_state_draft make_draft
  derive-eq-expected hs hd b a hid hat = rw (
    BindsTo-bind_delta s d b,
    Advances-bind_next s.identity next a,
    derive_side-eq-expected s.self_side d.self_side hs.self_side hd.self_side,
    derive_side-eq-expected s.opponent_side d.opponent_side hs.opponent_side hd.opponent_side,
    derive_field-eq-expected _ s.weather d.weather hs.weather hd.weather,
    derive_field-eq-expected _ s.terrain d.terrain hs.terrain hd.terrain,
    hid,
    hat,
  )

  module _ (draft : NextTurnStateDraft)
      (h : derive_next_turn_state_draft s d draft_id next at ≡ ok draft) where
    -- Whatever the inputs, a derivation that succeeds had a delta bound to the state and the
    -- identity of the following Turn.
    pub derive-bound : BindsTo s d × Advances s.identity next
    unfolding derive_next_turn_state_draft
    derive-bound =
        let (_, b, rest) = >>=-eq-ok (bind_delta s d) _ h in
        let (_, a, _) = >>=-eq-ok (bind_next_identity s.identity next) _ rest in
        (bind_delta-BindsTo s d b, bind_next-Advances s.identity next a)

    -- A derivation that succeeds gives a draft with the next identity, which names the state and the
    -- delta that it comes from and is not ready for a provider.
    pub derive-origin :
        (draft.identity ≡ next)
        × (draft.based_on_confirmed_state_id ≡ s.confirmed_state_id)
        × (draft.source_delta_id ≡ d.delta_id)
        × (draft.provider_ready ≡ false)
    unfolding derive_next_turn_state_draft make_draft
    derive-origin = ground arith

module _ (s : ConfirmedTurnState) (d : ActionResultDelta) (next : TurnIdentity)
    (draft_id at : String) (draft : NextTurnStateDraft) where
  made_same : (a b : NextTurnStateDraft) → make_draft a ≡ ok b → b ≡ a
  unfolding make_draft
  made_same a b h = ground arith

  -- A derivation from checked records that succeeds gives the expected draft.
  pub derived-expected :
      IsState s
      → IsResult d
      → derive_next_turn_state_draft s d draft_id next at ≡ ok draft
      → draft ≡ expected_draft s d draft_id next at
  unfolding derive_next_turn_state_draft
  derived-expected hs hd h =
      let (b, a) = derive-bound s d next draft_id at draft h in
      made_same _ _ (
        rw
          (
            BindsTo-bind_delta s d b,
            Advances-bind_next s.identity next a,
            derive_side-eq-expected s.self_side d.self_side hs.self_side hd.self_side,
            derive_side-eq-expected s.opponent_side d.opponent_side hs.opponent_side
                hd.opponent_side,
            derive_field-eq-expected _ s.weather d.weather hs.weather hd.weather,
            derive_field-eq-expected _ s.terrain d.terrain hs.terrain hd.terrain,
          )
          at h)

module _ (s : ConfirmedTurnState) (d : ActionResultDelta) (next : TurnIdentity)
    (draft_id at new_id : String) (c : ConfirmationMeta) (evidence : Option String) where
  confirm-expected_draft :
      IsState s
      → IsResult d
      → BindsTo s d
      → Advances s.identity next
      → is_blank new_id ≡ false
      → let draft = expected_draft s d draft_id next at in
        confirm_next_turn_state draft new_id s d c evidence ≡ ok (promoted draft new_id c evidence)
  unfolding confirm_next_turn_state validate_turn_state_full_chain make_confirmed_state
  confirm-expected_draft hs hd b a hid = rw (
    BindsTo-bind_delta s d b,
    Advances-bind_next s.identity next a,
    ==_refl s.confirmed_state_id,
    ==_refl d.delta_id,
    hid,
    expected_field-valid _ s.weather d.weather hs.weather hd.weather,
    expected_field-valid _ s.terrain d.terrain hs.terrain hd.terrain,
  )

  -- If the state and the delta passed their constructors, the derivation from them returned a draft, and
  -- the new id is not blank, then that draft is promoted against this state and delta, and the new
  -- state has the new id, holds the draft's identity and fields and the given confirmation and evidence,
  -- and names that state as its predecessor.
  pub confirm-derived :
      (draft : NextTurnStateDraft)
      → IsState s
      → IsResult d
      → derive_next_turn_state_draft s d draft_id next at ≡ ok draft
      → is_blank new_id ≡ false
      → (confirm_next_turn_state draft new_id s d c evidence
          ≡ ok (promoted draft new_id c evidence))
        × ((promoted draft new_id c evidence).previous_confirmed_state_id
            ≡ some s.confirmed_state_id)
  confirm-derived draft hs hd h hid =
      let (b, a) = derive-bound s d next draft_id at draft h in
      let (_, based, _, _) = derive-origin s d next draft_id at draft h in
      let same = derived-expected s d next draft_id at draft hs hd h in
      (
        subst
            (λ x.
              confirm_next_turn_state x new_id s d c evidence ≡ ok (promoted x new_id c evidence))
            (sym same) (confirm-expected_draft hs hd b a hid),
        ap some based,
      )

  -- A draft derived from a state is stale once another state is the latest: its promotion is
  -- refused, whatever else the two states have in common.
  pub confirm_superseded :
      (latest : ConfirmedTurnState) (draft : NextTurnStateDraft)
      → derive_next_turn_state_draft s d draft_id next at ≡ ok draft
      → latest.confirmed_state_id ≢ s.confirmed_state_id
      → confirm_next_turn_state draft new_id latest d c evidence
        ≡ err (stale_error "DELTA_NOT_BASED_ON_CONFIRMED_STATE")
  unfolding confirm_next_turn_state validate_turn_state_full_chain bind_delta
  confirm_superseded latest draft h new = ground (
    arith,
    (derive-bound s d next draft_id at draft h).0.based_on,
    eq_iff d.based_on_confirmed_state_id latest.confirmed_state_id,
  )

chain-bound :
    (s : ConfirmedTurnState) (d : ActionResultDelta) (draft : NextTurnStateDraft)
    → validate_turn_state_full_chain s d draft ≡ ok tt
    → (draft.based_on_confirmed_state_id ≡ s.confirmed_state_id)
      × (bind_next_identity s.identity draft.identity ≡ ok tt)
unfolding validate_turn_state_full_chain
chain-bound s d draft h = ground (
  arith,
  eq_iff draft.based_on_confirmed_state_id s.confirmed_state_id,
  eq_iff draft.source_delta_id d.delta_id,
)

made-same : (s s' : ConfirmedTurnState) → make_confirmed_state s ≡ ok s' → s ≡ s'
unfolding make_confirmed_state
made-same s s' h = ground arith

-- A promotion that succeeds, whatever its inputs, advances the latest state by one Turn and names it
-- as the predecessor.
pub confirm-Advances :
    (draft : NextTurnStateDraft) (new_id : String) (s : ConfirmedTurnState) (d : ActionResultDelta)
    (c : ConfirmationMeta) (evidence : Option String) (s' : ConfirmedTurnState)
    → confirm_next_turn_state draft new_id s d c evidence ≡ ok s'
    → Advances s.identity s'.identity × (s'.previous_confirmed_state_id ≡ some s.confirmed_state_id)
unfolding confirm_next_turn_state
confirm-Advances draft new_id s d c evidence s' h =
    let (u, chain, made) = >>=-eq-ok (validate_turn_state_full_chain s d draft) _ h in
    let (based, next) = chain-bound s d draft chain in
    let same = made-same (promoted draft new_id c evidence) s' made in
    (rw (← same) (bind_next-Advances s.identity draft.identity next), rw (← same) (ap some based))
