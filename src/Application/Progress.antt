-- ===== src/Application/Progress.antt =====
-- That `next_turn_with_action_result` of src/maple_next/application/service.py returns.
use maple_next.Base.{
  ◌+◌, String, true, false, not, ◌&&◌, ◌≡◌, refl, arith, some, List, ◌∷◌, ok, any_of, is_none,
  is_blank, ◌==◌, ◌!=◌, string_eq, nat_eq, option_eq, ==_refl, Eq,
}
use maple_next.Enums.{turn_recorded, state_eq}
use maple_next.Models.{BattleSession, BattleTurn, make_turn, turn_eq}
use maple_next.TurnState.Records.{make_identity, identity_eq, ConfirmedTurnState, ActionResultDelta}
use maple_next.TurnState.Same.{confirmed_state_eq, delta_eq}
use maple_next.TurnState.Json.{Python}
use maple_next.TurnState.Lifecycle.{validate_turn_state_full_chain}
use maple_next.TurnState.Bindings.{BindsTo, Advances, BindsTo-bind_delta, Advances-bind_next}
use maple_next.TurnState.Derivation.{IsState, IsResult, expected_draft, derive-eq-expected}
use maple_next.TurnStateRows.{draft_row}
use maple_next.Repository.{Repository, ◌>>=◌, lift}
use maple_next.Repository.Order.{last}
use maple_next.Repository.Sessions.{
  find_active, load_active_session, slot_taken, save_session, update_rows,
}
use maple_next.Repository.Rows.{append_turn, get_turn}
use maple_next.Repository.TurnStates.{
  same_turn, find_state_row, get_latest_confirmed_turn_state_for_identity,
  list_action_result_deltas_based_on, upsert_next_turn_state_draft, put_draft,
}
use maple_next.Repository.Forward.{step, given, present, passed, commits}
use maple_next.Application.Session.{require_active_session, require_session, set_pending_turn}
use maple_next.Application.Rich.{
  identity_of_turn, same_binding, or_empty, Phase1, derive_phase, advance_phase,
  next_turn_with_action_result,
}

module _ (py : Python) (state : ConfirmedTurnState) (delta : ActionResultDelta)
    (turn_id draft_id at : String) (s : Repository) where
  -- The repository and the arguments from which the next Turn can be taken.
  pub record IsReady (session : BattleSession) (current turn : BattleTurn)
      (deltas : List ActionResultDelta) : Type 0 where
    pub active : find_active s.sessions ≡ some session
    pub recorded : session.state ≡ turn_recorded
    pub turn_ : session.current_turn_id ≡ some current.turn_id
    pub current_ : get_turn current.turn_id s ≡ (ok current, s)
    pub same : state.identity.turn_id ≡ current.turn_id
    pub latest :
        get_latest_confirmed_turn_state_for_identity py session.session_id session.match_id
          session.generation s
        ≡ (ok (some state), s)
    pub listed : list_action_result_deltas_based_on py state.confirmed_state_id s ≡ (ok deltas, s)
    pub newest : last deltas ≡ some delta
    pub new : turn ≡ record { turn_id = turn_id; turn_number = current.turn_number + 1 }
    pub checked : IsState state
    pub checked_delta : IsResult delta
    pub bound : BindsTo state delta
    pub advances : Advances state.identity (identity_of_turn session turn)
    pub identity :
        make_identity (identity_of_turn session turn) ≡ ok (identity_of_turn session turn)
    pub draft : is_blank draft_id ≡ false
    pub time : is_blank at ≡ false
    pub unused : any_of (λ o. o.row.turn_id == turn.turn_id) s.turns ≡ false
    pub next :
        any_of
          (λ o. o.session_id == session.session_id && o.row.turn_number == turn.turn_number)
          s.turns
        ≡ false
    pub slot : slot_taken (set_pending_turn session turn) s.sessions ≡ false
    pub fresh :
        any_of
          (λ row.
            not (same_turn row.identity (identity_of_turn session turn))
            && row.draft_id == draft_id)
          s.drafts
        ≡ false
    pub kept : is_none (find_state_row state.confirmed_state_id s.confirmed_states) ≡ false
    pub kept_delta : any_of (λ row. row.delta_id == delta.delta_id) s.result_deltas ≡ true

pub same_test : {A : Type 0} ⦃e : Eq A⦄ (a : A) → (a != a) ≡ false
same_test a = rw (==_refl a) refl

equal_test : {A : Type 0} ⦃e : Eq A⦄ (a b : A) → a ≡ b → (a != b) ≡ false
equal_test a b h = rw (h, ==_refl b) refl

module _ (py : Python) (state : ConfirmedTurnState) (delta : ActionResultDelta)
    (turn_id draft_id at : String) (s : Repository) (session : BattleSession)
    (current turn : BattleTurn) (deltas : List ActionResultDelta)
    (h : IsReady py state delta turn_id draft_id at s session current turn deltas) where
  abbrev pub before : Phase1
  before = record {
    session = session;
    current_turn = current;
    turn = turn;
    identity = identity_of_turn session turn;
    draft = expected_draft state delta draft_id (identity_of_turn session turn) at;
  }

  in_session : require_session turn_recorded s ≡ (ok session, s)
  unfolding require_session require_active_session load_active_session ◌>>=◌
  in_session = rw (h.active, h.recorded) (ground arith)

  chain_valid : validate_turn_state_full_chain state delta before.draft ≡ ok tt
  unfolding validate_turn_state_full_chain
  chain_valid =
      rw
        (
          BindsTo-bind_delta state delta h.bound,
          Advances-bind_next state.identity (identity_of_turn session turn) h.advances,
          ==_refl state.confirmed_state_id,
          ==_refl delta.delta_id,
        )
        refl

  turn_made :
      make_turn (record { turn_id = turn_id; turn_number = current.turn_number + 1 }) ≡ ok turn
  unfolding make_turn
  turn_made = rw h.new (ground arith)

  pub derive_phase-returns : derive_phase py state delta turn_id draft_id at s ≡ (ok before, s)
  unfolding derive_phase lift
  derive_phase-returns =
      step _ session s s _
        (present _ current.turn_id s _
          (step _ current s s _
            (passed _ s _
              (step _ (some state) s s _
                (passed _ s _
                  (step _ deltas s s _
                    (passed _ s _
                      (given _ turn s _
                        (given _ (identity_of_turn session turn) s _
                          (given _ before.draft s _ (given _ tt s _ refl _ chain_valid) _ (
                            derive-eq-expected state delta (identity_of_turn session turn) draft_id
                              at h.checked h.checked_delta h.bound h.advances h.draft h.time))
                          _ h.identity)
                        _ turn_made)
                      _ _ (equal_test (last deltas) (some delta) h.newest))
                    _ h.listed)
                  _ _ (same_test (some state)))
                _ h.latest)
              _ _ (equal_test state.identity.turn_id current.turn_id h.same))
            _ h.current_)
          _ _ h.turn_)
        _ in_session

  -- The repository after the command.
  abbrev pub taken : Repository
  taken = record s {
    turns = record { session_id = session.session_id; row = turn } ∷ s.turns;
    sessions = update_rows (set_pending_turn session turn) s.sessions;
    drafts =
        put_draft
          (draft_row (expected_draft state delta draft_id (identity_of_turn session turn) at))
          s.drafts;
  }

  abbrev with_turn : Repository
  with_turn = record s { turns = record { session_id = session.session_id; row = turn } ∷ s.turns }

  abbrev with_session : Repository
  with_session = record with_turn {
    sessions = update_rows (set_pending_turn session turn) s.sessions;
  }

  turn_appended : append_turn session.session_id turn s ≡ (ok tt, with_turn)
  unfolding append_turn ◌>>=◌
  turn_appended = rw (h.unused, h.next) refl

  session_saved : save_session (set_pending_turn session turn) with_turn ≡ (ok tt, with_session)
  unfolding save_session ◌>>=◌
  session_saved = rw h.slot refl

  draft_stored : upsert_next_turn_state_draft before.draft with_session ≡ (ok tt, taken)
  unfolding upsert_next_turn_state_draft ◌>>=◌
  draft_stored = rw (h.fresh, h.kept, h.kept_delta) refl

  own_binding : not (same_binding session session) ≡ false
  own_binding =
      rw
        (
          ==_refl session.session_id,
          ==_refl session.match_id,
          ==_refl session.generation,
          ==_refl session.current_turn_id,
          ==_refl session.battle_revision,
        )
        refl

  id_there : or_empty session.current_turn_id ≡ current.turn_id
  id_there = rw h.turn_ refl

  current_there : get_turn (or_empty session.current_turn_id) s ≡ (ok current, s)
  current_there = rw id_there h.current_

  revision_kept :
      ((set_pending_turn session turn).battle_revision
        != (identity_of_turn session turn).battle_revision)
      ≡ false
  unfolding set_pending_turn
  revision_kept = same_test (session.battle_revision + 1)

  pub advance_phase-returns : advance_phase py state delta before s ≡ (ok turn, taken)
  unfolding advance_phase lift
  advance_phase-returns =
      step _ session s s _
        (passed _ s _
          (step _ current s s _
            (passed _ s _
              (step _ (some state) s s _
                (passed _ s _
                  (step _ deltas s s _
                    (passed _ s _
                      (step _ tt s with_turn _
                        (passed _ with_turn _
                          (step _ tt with_turn with_session _
                            (step _ tt with_session taken _ refl _ draft_stored) _ session_saved)
                          _ _ revision_kept)
                        _ turn_appended)
                      _ _ (equal_test (last deltas) (some delta) h.newest))
                    _ h.listed)
                  _ _ (same_test (some state)))
                _ h.latest)
              _ _ (same_test current))
            _ current_there)
          _ _ own_binding)
        _ in_session

  -- From such a repository the command returns the next Turn, and leaves the repository with the Turn,
  -- the session on it and its draft.
  pub next_turn_with_action_result-returns :
      next_turn_with_action_result py state delta turn_id draft_id at s ≡ (ok turn, taken)
  unfolding next_turn_with_action_result
  next_turn_with_action_result-returns =
      step _ before s s _ (commits _ s taken turn advance_phase-returns) _ derive_phase-returns
