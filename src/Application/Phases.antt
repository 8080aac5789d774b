-- ===== src/Application/Phases.antt =====
-- Proofs about the two phases of `next_turn_with_action_result` of src/maple_next/application/service.py.
use maple_next.Base.{
  String, true, false, ◌≡◌, refl, ap, subst, ◌∙◌, arith, Option, some, List, ok, Eq, ◌!=◌,
  string_eq, nat_eq, option_eq, ==-eq,
}
use maple_next.Enums.{BattleState, turn_recorded, state_eq}
use maple_next.Models.{BattleSession, BattleTurn, make_turn, turn_eq}
use maple_next.TurnState.Records.{
  TurnIdentity, make_identity, identity_eq, ConfirmedTurnState, ActionResultDelta,
  NextTurnStateDraft,
}
use maple_next.TurnState.Same.{confirmed_state_eq, delta_eq}
use maple_next.TurnState.Json.{Python}
use maple_next.TurnState.Derivation.{expected_draft}
use maple_next.TurnStateRows.{draft_row}
use maple_next.Repository.{Repository, ◌>>=◌, lift, transaction}
use maple_next.Repository.Order.{last}
use maple_next.Repository.Sessions.{find_active, load_active_session, save_session, update_rows}
use maple_next.Repository.Rows.{append_turn}
use maple_next.Repository.TurnStates.{
  get_latest_confirmed_turn_state_for_identity, list_action_result_deltas_based_on,
  upsert_next_turn_state_draft, put_draft,
}
use maple_next.Repository.Run.{Run, Run-bind, Run-transaction, Run-ok}
use maple_next.Repository.Trace.{Now, looks, makes, needs, passes}
use maple_next.Application.Session.{require_active_session, require_session, set_pending_turn}
use maple_next.Application.Rich.{
  identity_of_turn, same_binding, Phase1, derive_phase, advance_phase,
}
use maple_next.Application.Effect.Rich.{
  require_session-IsReadOnly, get_turn-IsReadOnly, latest-IsReadOnly, deltas-IsReadOnly,
}
use maple_next.TurnState.Derivation.{derived-expected}
use maple_next.Application.Hydrated.{latest-IsState, last-IsResult}

identity_same : (i j : TurnIdentity) → make_identity i ≡ ok j → j ≡ i
unfolding make_identity
identity_same i j h = ground arith

is_some_of {ℓ} : {A : Type ℓ} ⦃e : Eq A⦄ (o : Option A) (a : A) → (o != some a) ≡ false → o ≡ some a
is_some_of o a h = (option_eq.beq_iff o (some a)).0 (ground arith)

pub session_found :
    (st : BattleState) (s s' : Repository) (session : BattleSession)
    → require_session st s ≡ (ok session, s')
    → find_active s.sessions ≡ some session
unfolding require_session require_active_session load_active_session ◌>>=◌
session_found st s s' session h = ground arith

made_turn : (a b : BattleTurn) → make_turn a ≡ ok b → b ≡ a
unfolding make_turn
made_turn a b h = ground arith

module _ (py : Python) (state : ConfirmedTurnState) (delta : ActionResultDelta)
    (turn_id draft_id at : String) where
  -- What the first phase derived.
  pub record IsDerived (before : Phase1) : Type 0 where
    pub draft : before.draft ≡ expected_draft state delta draft_id before.identity at
    pub identity : before.identity ≡ identity_of_turn before.session before.turn

  derive_phase-Run :
      (s : Repository)
      → Run (Now s) (derive_phase py state delta turn_id draft_id at) (λ before t. IsDerived before)
  unfolding derive_phase lift
  derive_phase-Run s = looks s _ _ (require_session-IsReadOnly turn_recorded) λ session _.
      needs s _ _ _ λ current_id _. looks s _ _ (get_turn-IsReadOnly current_id) λ current _.
        passes (Now s) _ _ _ λ _. looks s _ _ (latest-IsReadOnly py _ _ _) λ latest l.
          passes (Now s) _ _ _ λ g. looks s _ _ (deltas-IsReadOnly py _) λ deltas ds.
            passes (Now s) _ _ _ λ n. makes s _ _ λ turn _. makes s _ _ λ identity i.
              makes s _ _ λ draft d. makes s _ _ λ _ _.
                let newest = is_some_of latest state g in
                let last_one = is_some_of (last deltas) delta n in
                let checked = latest-IsState py _ _ _ s state (
                  subst
                    (λ x.
                      get_latest_confirmed_turn_state_for_identity py session.session_id
                        session.match_id session.generation s
                      ≡ (ok x, s))
                    newest l) in
                let checked_delta = last-IsResult py _ s deltas delta ds last_one in
                record {
                  at = λ t p. record {
                    draft =
                        derived-expected state delta identity draft_id at draft checked
                          checked_delta d;
                    identity = identity_same _ identity i;
                  };
                }

-- What the second phase did: the state and the delta were the newest, the active session moved on to the new Turn, and the draft of the Turn that
-- was stored is the one that the rules of evidence give for the identity of that session.
pub record IsAdvanced (py : Python) (state : ConfirmedTurnState) (delta : ActionResultDelta)
    (draft_id at : String) (s t : Repository) (turn : BattleTurn) : Type 0 where
  pub session : BattleSession
  pub active : find_active s.sessions ≡ some session
  pub current :
      get_latest_confirmed_turn_state_for_identity py session.session_id session.match_id
        session.generation s
      ≡ (ok (some state), s)
  pub deltas : List ActionResultDelta
  pub listed : list_action_result_deltas_based_on py state.confirmed_state_id s ≡ (ok deltas, s)
  pub newest : last deltas ≡ some delta
  pub moved : t.sessions ≡ update_rows (set_pending_turn session turn) s.sessions
  pub stored :
      t.drafts
      ≡ put_draft
          (draft_row (expected_draft state delta draft_id (identity_of_turn session turn) at))
          s.drafts

same_identity :
    (a b : BattleSession) (turn : BattleTurn)
    → same_binding a b ≡ true
    → identity_of_turn b turn ≡ identity_of_turn a turn
same_identity a b turn h =
    let i = ==-eq a.session_id b.session_id (ground arith) in
    let m = ==-eq a.match_id b.match_id (ground arith) in
    let g = ==-eq a.generation b.generation (ground arith) in
    let r = ==-eq a.battle_revision b.battle_revision (ground arith) in rw (i, m, g, r) refl

module _ (s : Repository) where
  abbrev Untouched : Repository → Type 0
  Untouched t = (t.sessions ≡ s.sessions) × (t.drafts ≡ s.drafts)

  abbrev Moved : BattleSession → Repository → Type 0
  Moved new t = (t.sessions ≡ update_rows new s.sessions) × (t.drafts ≡ s.drafts)

  append_turn-Run :
      (id : String) (turn : BattleTurn) → Run (Now s) (append_turn id turn) (λ _ t. Untouched t)
  unfolding append_turn ◌>>=◌
  append_turn-Run id turn = record { at = λ t p. ground (arith, p) }

  save_session-Run : (new : BattleSession) → Run Untouched (save_session new) (λ _ t. Moved new t)
  unfolding save_session ◌>>=◌
  save_session-Run new = record { at = λ t p. ground arith }

  upsert-Run :
      (new : BattleSession) (draft : NextTurnStateDraft)
      → Run (Moved new) (upsert_next_turn_state_draft draft) (λ _ t.
        (t.sessions ≡ update_rows new s.sessions)
        × (t.drafts ≡ put_draft (draft_row draft) s.drafts))
  unfolding upsert_next_turn_state_draft ◌>>=◌
  upsert-Run new draft = record { at = λ t p. ground arith }

module _ (py : Python) (state : ConfirmedTurnState) (delta : ActionResultDelta)
    (turn_id draft_id at : String) (before : Phase1)
    (derived : IsDerived py state delta turn_id draft_id at before) where
  advance_phase-Run :
      (s : Repository)
      → Run
          (Now s)
          (advance_phase py state delta before)
          (λ turn t. IsAdvanced py state delta draft_id at s t turn)
  unfolding advance_phase lift
  advance_phase-Run s = looks s _ _ (require_session-IsReadOnly turn_recorded) λ session act.
      passes (Now s) _ _ _ λ b. looks s _ _ (get_turn-IsReadOnly _) λ current _.
        passes (Now s) _ _ _ λ _. looks s _ _ (latest-IsReadOnly py _ _ _) λ latest l.
          passes (Now s) _ _ _ λ g. looks s _ _ (deltas-IsReadOnly py _) λ deltas ds.
            passes (Now s) _ _ _ λ n.
              Run-bind _ _ (append_turn-Run s session.session_id before.turn) λ _.
                passes (Untouched s) _ _ _ λ _. Run-bind _ _ (save_session-Run s _) λ _.
                  Run-bind _ _ (upsert-Run s _ before.draft) λ _.
                    let same = same_identity session before.session before.turn (ground arith) in
                    let newest = is_some_of latest state g in
                    let stored : before.draft
                        ≡ expected_draft state delta draft_id (identity_of_turn session before.turn)
                            at =
                      derived.draft
                      ∙ ap (λ i. expected_draft state delta draft_id i at)
                          (derived.identity ∙ same) in
                    record {
                      at = λ t p. record {
                        session = session;
                        active = session_found turn_recorded s s session act;
                        current =
                            subst
                              (λ x.
                                get_latest_confirmed_turn_state_for_identity py session.session_id
                                  session.match_id session.generation s
                                ≡ (ok x, s))
                              newest l;
                        deltas = deltas;
                        listed = ds;
                        newest = is_some_of (last deltas) delta n;
                        moved = p.0;
                        stored =
                            subst (λ x. t.drafts ≡ put_draft (draft_row x) s.drafts) stored p.1;
                      };
                    }

-- Whatever the other commands did to the repository between the two phases: if the first phase derived
-- and the second one returned, then the state and the delta were still the newest of the match when the
-- second ran, the active session moved on to the new Turn, and the stored draft is the one that the
-- rules of evidence give for the identity of that session on the new Turn.
pub two_phases-IsAdvanced :
    (py : Python) (state : ConfirmedTurnState) (delta : ActionResultDelta)
    (turn_id draft_id at : String) (s1 s1' s2 s3 : Repository) (before : Phase1) (turn : BattleTurn)
    → derive_phase py state delta turn_id draft_id at s1 ≡ (ok before, s1')
    → transaction (advance_phase py state delta before) s2 ≡ (ok turn, s3)
    → IsAdvanced py state delta draft_id at s2 s3 turn
two_phases-IsAdvanced py state delta turn_id draft_id at s1 s1' s2 s3 before turn h k =
    let derived = Run-ok (derive_phase-Run py state delta turn_id draft_id at s1) refl h in
    Run-ok
      (Run-transaction _ (advance_phase-Run py state delta turn_id draft_id at before derived s2))
      refl k
