-- ===== src/TurnState/Bindings.antt =====
-- The checks `_bind_delta_to_confirmed_state` and `_bind_next_identity` of
-- src/maple_next/domain/turn_state.py decide two relations.
use maple_next.Base.{◌+◌, ◌<◌, ◌≡◌, ◌≢◌, ◌↔◌, arith, ok, nat_eq, string_eq}
use text.Mathlib.TextEquality.{eq_iff}
use maple_next.TurnState.Records.{TurnIdentity, ConfirmedTurnState, ActionResultDelta}
use maple_next.TurnState.Lifecycle.{bind_delta, bind_next_identity}

-- The delta observes the Turn of this very state.
pub record BindsTo (s : ConfirmedTurnState) (d : ActionResultDelta) : Type 0 where
  pub based_on : d.based_on_confirmed_state_id ≡ s.confirmed_state_id
  pub session : d.identity.session_id ≡ s.identity.session_id
  pub match_ : d.identity.match_id ≡ s.identity.match_id
  pub generation : d.identity.generation ≡ s.identity.generation
  pub turn : d.identity.turn_id ≡ s.identity.turn_id
  pub number : d.identity.turn_number ≡ s.identity.turn_number
  pub revision : d.identity.battle_revision ≡ s.identity.battle_revision

-- `next` is the identity of the Turn after the one of `previous`.
pub record Advances (previous next : TurnIdentity) : Type 0 where
  pub session : next.session_id ≡ previous.session_id
  pub match_ : next.match_id ≡ previous.match_id
  pub generation : next.generation ≡ previous.generation
  pub number : next.turn_number ≡ previous.turn_number + 1
  pub revision : previous.battle_revision < next.battle_revision
  pub turn : next.turn_id ≢ previous.turn_id

-- A delta that passes the check observes the Turn of this very state.
pub bind_delta-BindsTo :
    (s : ConfirmedTurnState) (d : ActionResultDelta) → bind_delta s d ≡ ok tt → BindsTo s d
unfolding bind_delta
bind_delta-BindsTo s d h = ground (
  arith,
  eq_iff d.based_on_confirmed_state_id s.confirmed_state_id,
  eq_iff d.identity.session_id s.identity.session_id,
  eq_iff d.identity.match_id s.identity.match_id,
  eq_iff d.identity.turn_id s.identity.turn_id,
)

-- A delta that observes the Turn of this very state passes the check.
pub BindsTo-bind_delta :
    (s : ConfirmedTurnState) (d : ActionResultDelta) → BindsTo s d → bind_delta s d ≡ ok tt
unfolding bind_delta
BindsTo-bind_delta s d h = ground (
  arith,
  eq_iff d.based_on_confirmed_state_id s.confirmed_state_id,
  eq_iff d.identity.session_id s.identity.session_id,
  eq_iff d.identity.match_id s.identity.match_id,
  eq_iff d.identity.turn_id s.identity.turn_id,
)

-- A delta passes the check exactly if it observes the Turn of this very state.
pub bind_delta_iff :
    (s : ConfirmedTurnState) (d : ActionResultDelta) → (bind_delta s d ≡ ok tt) ↔ BindsTo s d
bind_delta_iff s d = (bind_delta-BindsTo s d, BindsTo-bind_delta s d)

-- An identity that passes the check is that of the following Turn.
pub bind_next-Advances : (p n : TurnIdentity) → bind_next_identity p n ≡ ok tt → Advances p n
unfolding bind_next_identity
bind_next-Advances p n h = ground (
  arith,
  eq_iff n.session_id p.session_id,
  eq_iff n.match_id p.match_id,
  eq_iff n.turn_id p.turn_id,
)

-- The identity of the following Turn passes the check.
pub Advances-bind_next : (p n : TurnIdentity) → Advances p n → bind_next_identity p n ≡ ok tt
unfolding bind_next_identity
Advances-bind_next p n h = ground (
  arith,
  eq_iff n.session_id p.session_id,
  eq_iff n.match_id p.match_id,
  eq_iff n.turn_id p.turn_id,
)

-- An identity passes the check exactly if it is that of the following Turn.
pub bind_next_iff : (p n : TurnIdentity) → (bind_next_identity p n ≡ ok tt) ↔ Advances p n
bind_next_iff p n = (bind_next-Advances p n, Advances-bind_next p n)
