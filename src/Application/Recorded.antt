-- ===== src/Application/Recorded.antt =====
-- Proofs about `record_rich_actual_action` of src/maple_next/application/service.py.
use maple_next.Base.{
  not, String, Bool, false, true, ◌≡◌, refl, sym, ap, ◌∙◌, arith, ◌∷◌, ok, any_of, member, strip,
  nat_eq, string_eq, ◌==◌, ◌!=◌, ==-eq, Eq, some,
}
use maple_next.Enums.{turn_reviewed}
use maple_next.Models.{BattleSession, RecordedAction, make_recorded_action, TurnFactsSnapshot}
use maple_next.TurnState.Records.{identity_eq, ConfirmedTurnState}
use maple_next.TurnState.Json.{Python}
use maple_next.TurnStateRows.{delta_row}
use maple_next.TurnStateRows.OpponentAction.{encode_opponent_action}
use maple_next.Repository.{Repository, ◌>>=◌, ◌>>◌, pure, gets, lift}
use maple_next.Repository.Atomic.{IsReadOnly, gets-IsReadOnly, lift-IsReadOnly}
use maple_next.Repository.Sessions.{find_active, save_session, update_rows}
use maple_next.Repository.Rows.{append_recorded_action, has_recorded_action, get_turn_facts}
use maple_next.Repository.TurnStates.{get_confirmed_turn_state}
use maple_next.Repository.Completions.{completion_row, append_rich_action_completion}
use maple_next.Repository.Run.{Run, Run-bind, Run-transaction, Run-ok, Run-post, Reads-guard, Given}
use maple_next.Repository.Lands.{
  append_recorded_action-lands, append_action_result_delta-lands, insert_completion-lands,
  save_session-lands,
}
use maple_next.Repository.Trace.{
  Now, looks, makes, needs, passes, rescue-eq-ok, rescue-IsReadOnly, lift-eq-ok,
}
use maple_next.Application.Turn.{ActionEntry, legal_actions, action_recorded, record_action}
use maple_next.Application.Rich.{
  RichCompletion, check_rich, completion_of, complete_rich, record_rich_actual_action,
}
use maple_next.Application.Effect.Rich.{require_session-IsReadOnly}
use maple_next.Application.Phases.{session_found}

unequal_false {ℓ} : {A : Type ℓ} ⦃e : Eq A⦄ (a b : A) → (a != b) ≡ false → a ≡ b
unequal_false a b h = ==-eq a b (ground arith)

get_confirmed_turn_state-IsReadOnly :
    (py : Python) (id : String) → IsReadOnly (get_confirmed_turn_state py id)
unfolding get_confirmed_turn_state ◌>>=◌
get_confirmed_turn_state-IsReadOnly py id = record { at = λ s. ground arith }

pub get_turn_facts-IsReadOnly : (id : String) → IsReadOnly (get_turn_facts id)
unfolding get_turn_facts ◌>>=◌
get_turn_facts-IsReadOnly id = record { at = λ s. ground arith }

-- The repository after the four writes.
abbrev pub completed :
    Python
    → BattleSession
    → RichCompletion
    → String × String
    → RecordedAction
    → Repository
    → Repository
completed py session rich stored action s = record s {
  recorded_actions = record { session_id = session.session_id; row = action } ∷ s.recorded_actions;
  result_deltas = delta_row rich.delta ∷ s.result_deltas;
  completions = completion_row (completion_of py rich action) stored ∷ s.completions;
  sessions = update_rows (action_recorded session) s.sessions;
}

module _ (py : Python) (rich : RichCompletion) where
  -- The two rows of a completion.
  pub record IsCompleted (action : RecordedAction) (u t : Repository) : Type 0 where
    pub stored : String × String
    pub encoded :
        encode_opponent_action action.opponent_action_type action.opponent_action_name ≡ ok stored
    pub written : t ≡ record u {
      result_deltas = delta_row rich.delta ∷ u.result_deltas;
      completions = completion_row (completion_of py rich action) stored ∷ u.completions;
    }

  complete_rich-Run :
      (u : Repository) (action : RecordedAction)
      → Run (Now u) (complete_rich py rich action) (λ _ t. IsCompleted action u t)
  unfolding complete_rich append_rich_action_completion lift
  complete_rich-Run u action = passes (Now u) _ _ _ λ _.
      looks u _ _ (rescue-IsReadOnly _ _ (get_confirmed_turn_state-IsReadOnly py _)) λ base _.
        passes (Now u) _ _ _ λ _. makes u _ _ λ stored e.
          Run-bind _ _ (append_action_result_delta-lands u rich.delta) λ _.
            Run-post _ (insert_completion-lands _ _)
              λ _ t now. record { stored = stored; encoded = e; written = now }

module _ (py : Python) (rich : RichCompletion) (s : Repository) where
  -- The state that the action was taken in, and what the completion is bound to.
  pub record IsBoundTo (turn_id : String) : Type 0 where
    pub base : ConfirmedTurnState
    pub based : get_confirmed_turn_state py rich.delta.based_on_confirmed_state_id s ≡ (ok base, s)
    pub same_base : base.identity ≡ rich.identity
    pub same_delta : rich.delta.identity ≡ rich.identity
    pub of_turn : rich.identity.turn_id ≡ turn_id

  check_rich-Run :
      (action : RecordedAction)
      → Run (Now s) (check_rich py rich action) (λ _ t. (t ≡ s) × IsBoundTo action.turn_id)
  unfolding check_rich
  check_rich-Run action = passes (Now s) _ _ _ λ _. passes (Now s) _ _ _ λ turn.
      passes (Now s) _ _ _ λ delta.
        looks s _ _ (rescue-IsReadOnly _ _ (get_confirmed_turn_state-IsReadOnly py _)) λ base b.
          Run-post _ (Reads-guard (Now s) _ _) λ _ t (now, same). (
            now,
            record {
              base = base;
              based = rescue-eq-ok s _ _ base s b;
              same_base = unequal_false base.identity rich.identity same;
              same_delta = unequal_false rich.delta.identity rich.identity delta;
              of_turn = unequal_false rich.identity.turn_id action.turn_id turn;
            },
          )

recorded_as : (a b : RecordedAction) → make_recorded_action a ≡ ok b → b ≡ a
unfolding make_recorded_action
recorded_as a b h = ground arith

has_recorded_action-IsReadOnly : (id : String) → IsReadOnly (has_recorded_action id)
unfolding has_recorded_action
has_recorded_action-IsReadOnly id = gets-IsReadOnly _

-- What a rich recording that returned has read and written.
pub record IsRecorded (py : Python) (rich : RichCompletion) (entry : ActionEntry) (s t : Repository)
    (action : RecordedAction) : Type 0 where
  pub session : BattleSession
  pub active : find_active s.sessions ≡ some session
  pub on_turn : session.current_turn_id ≡ some action.turn_id
  pub first : any_of (λ o. o.row.turn_id == action.turn_id) s.recorded_actions ≡ false
  pub board_id : String
  pub on_board : session.current_reviewed_board_id ≡ some board_id
  pub facts : TurnFactsSnapshot
  pub reviewed : get_turn_facts board_id s ≡ (ok facts, s)
  pub legal : member action.action_name (legal_actions entry.action_type facts) ≡ true
  pub entered : action.action_name ≡ strip entry.action_name
  pub bound : IsBoundTo py rich s action.turn_id
  pub stored : String × String
  pub encoded :
      encode_opponent_action action.opponent_action_type action.opponent_action_name ≡ ok stored
  pub written : t ≡ completed py session rich stored action s

listed : (b : Bool) → not b ≡ false → b ≡ true
listed b h = ground arith

not_yet :
    (id : String) (b : Bool) (s : Repository)
    → has_recorded_action id s ≡ (ok b, s)
    → b ≡ false
    → any_of (λ o. o.row.turn_id == id) s.recorded_actions ≡ false
unfolding has_recorded_action gets
not_yet id b s h absent = ground arith

module _ (py : Python) (rich : RichCompletion) (entry : ActionEntry) (s : Repository) where
  -- The writes of an action of which all was checked that does not concern the completion.
  writes-Run :
      (session : BattleSession) (action : RecordedAction)
      → ((bound : IsBoundTo py rich s action.turn_id) (stored : String × String) (t : Repository)
          → encode_opponent_action action.opponent_action_type action.opponent_action_name
            ≡ ok stored
          → t ≡ completed py session rich stored action s
          → IsRecorded py rich entry s t action)
      → Run
          (Now s)
          (do
            check_rich py rich action
            append_recorded_action session.session_id action
            complete_rich py rich action
            save_session (action_recorded session)
            pure action)
          (λ a t. IsRecorded py rich entry s t a)
  unfolding lift
  writes-Run session action k = Run-bind _ _ (check_rich-Run py rich s action) λ _.
      Given (Now s) λ bound.
        Run-bind _ _ (append_recorded_action-lands s session.session_id action) λ _.
          Run-bind _ _ (complete_rich-Run py rich _ action) λ _. record {
            at = λ t c.
                (Run-bind _ _ (save_session-lands _ (action_recorded session))
                    (λ _. record { at = λ u now. k bound c.stored u c.encoded now })).at
                  t c.written;
          }

  record_rich_actual_action-Run :
      (action_id : String) (confirmed : Bool)
      → Run
          (Now s)
          (record_rich_actual_action py rich action_id entry confirmed)
          (λ action t. IsRecorded py rich entry s t action)
  unfolding record_rich_actual_action record_action has_recorded_action
  record_rich_actual_action-Run action_id confirmed = passes (Now s) _ _ _ λ _.
      passes (Now s) _ _ _ λ _. passes (Now s) _ _ _ λ _. Run-transaction _ (
        looks s _ _ (require_session-IsReadOnly turn_reviewed) λ session act.
          needs s _ _ _ λ turn_id on. needs s _ _ _ λ board_id board. passes (Now s) _ _ _ λ _.
            looks s _ _ (has_recorded_action-IsReadOnly turn_id) λ already found.
              passes (Now s) _ _ _ λ once.
                looks s _ _ (get_turn_facts-IsReadOnly board_id) λ facts read.
                  passes (Now s) _ _ _ λ legal.
                    looks s _ _ (rescue-IsReadOnly _ _ (lift-IsReadOnly _)) λ action made.
                      let same =
                        recorded_as _ action
                          (lift-eq-ok _ action s s (rescue-eq-ok s _ _ action s made)) in
                      let turn = ap (λ a. a.turn_id) same in
                      let name = ap (λ a. a.action_name) same in
                      writes-Run session action λ bound stored t e written. record {
                        session = session;
                        active = session_found turn_reviewed s s session act;
                        on_turn = on ∙ ap some (sym turn);
                        first = rw turn (not_yet turn_id already s found once);
                        board_id = board_id;
                        on_board = board;
                        facts = facts;
                        reviewed = read;
                        legal = rw name (listed _ legal);
                        entered = name;
                        bound = bound;
                        stored = stored;
                        encoded = e;
                        written = written;
                      })

-- If the recording of an action with a completion returns, then the action is of the Turn of the active
-- session, is its first, and is among the legal ones of the reviewed facts; the delta, the completion and
-- the state that the delta is based on are of one identity, on that Turn; and the four rows, no more and
-- no less, were written.
pub record_rich_actual_action-IsRecorded :
    (py : Python) (rich : RichCompletion) (entry : ActionEntry) (action_id : String)
    (confirmed : Bool) (s t : Repository) (action : RecordedAction)
    → record_rich_actual_action py rich action_id entry confirmed s ≡ (ok action, t)
    → IsRecorded py rich entry s t action
record_rich_actual_action-IsRecorded py rich entry action_id confirmed s t action h =
    Run-ok (record_rich_actual_action-Run py rich entry s action_id confirmed) refl h
