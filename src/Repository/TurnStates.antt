-- ===== src/Repository/TurnStates.antt =====
-- src/maple_next/persistence/turn_state_store.py: the tables of confirmed states, deltas, drafts and
-- completions, with the constraints of schema.py, foreign keys included.
use maple_next.Base.{
  ℕ, String, Bool, true, not, ◌&&◌, Option, none, some, List, ◌∷◌, any_of, find_first, keep, map,
  key_error, is_some, if◌then◌else◌, ◌==◌, string_eq, nat_eq, is_none,
}
use maple_next.TurnState.Records.{
  TurnIdentity, identity_eq, ConfirmedTurnState, ActionResultDelta, NextTurnStateDraft,
}
use maple_next.TurnState.Json.{Python}
use maple_next.TurnStateRows.{
  FixedEvidenceMetadata, make_evidence, StateRow, DraftRow, state_row, delta_row, draft_row,
  confirmed_turn_state_from_row, action_result_delta_from_row, next_turn_state_draft_from_row,
}
use maple_next.Repository.{Exec, ◌>>=◌, ◌>>◌, gets, modify, lift, required, constraint}
use maple_next.Repository.Order.{latest, in_order, read_rows, read_found}

unfoldable pub append_fixed_evidence_metadata : FixedEvidenceMetadata → Exec Unit
append_fixed_evidence_metadata metadata = do
  rows ← gets (λ s. s.fixed_evidence)
  constraint (any_of (λ row. row.evidence_id == metadata.evidence_id) rows)
      "fixed_evidence_metadata.evidence_id"
  modify (λ s. record s { fixed_evidence = metadata ∷ s.fixed_evidence })

unfoldable pub get_fixed_evidence_metadata : String → Exec FixedEvidenceMetadata
get_fixed_evidence_metadata id = do
  rows ← gets (λ s. s.fixed_evidence)
  row ← required (key_error id) (find_first (λ row. row.evidence_id == id) rows)
  lift (make_evidence row)

-- UNIQUE(session_id, turn_id, battle_revision)
abbrev pub same_turn : TurnIdentity → TurnIdentity → Bool
same_turn i j =
    i.session_id == j.session_id && i.turn_id == j.turn_id && i.battle_revision == j.battle_revision

unfoldable pub find_state_row : String → List StateRow → Option StateRow
find_state_row id rows = find_first (λ row. row.confirmed_state_id == id) rows

-- A foreign key that is null, or is the key of a row.
abbrev refers : {A : Type 0} → (A → String) → List A → Option String → Bool
refers key rows none = true
refers key rows (some id) = any_of (λ row. key row == id) rows

unfoldable pub append_confirmed_turn_state : ConfirmedTurnState → Exec Unit
unfolding find_state_row state_row
append_confirmed_turn_state state = do
  rows ← gets (λ s. s.confirmed_states)
  evidence ← gets (λ s. s.fixed_evidence)
  constraint (is_some (find_state_row state.confirmed_state_id rows))
      "confirmed_turn_states.confirmed_state_id"
  constraint (any_of (λ row. same_turn row.identity state.identity) rows)
      "confirmed_turn_states.session_id, turn_id, battle_revision"
  constraint
      (not (
        refers (λ row. row.confirmed_state_id) (state_row state ∷ rows)
          state.previous_confirmed_state_id))
      "FOREIGN KEY"
  constraint (not (refers (λ row. row.evidence_id) evidence state.evidence_id)) "FOREIGN KEY"
  modify (λ s. record s { confirmed_states = state_row state ∷ s.confirmed_states })

-- WHERE session_id = ? AND match_id = ? AND generation = ?
abbrev pub of_match : String → String → ℕ → TurnIdentity → Bool
of_match session_id match_id generation i =
    i.session_id == session_id && i.match_id == match_id && i.generation == generation

unfoldable pub append_action_result_delta : ActionResultDelta → Exec Unit
unfolding find_state_row delta_row
append_action_result_delta delta = do
  rows ← gets (λ s. s.result_deltas)
  states ← gets (λ s. s.confirmed_states)
  constraint (any_of (λ row. row.delta_id == delta.delta_id) rows) "action_result_deltas.delta_id"
  constraint (is_none (find_state_row delta.based_on_confirmed_state_id states)) "FOREIGN KEY"
  modify (λ s. record s { result_deltas = delta_row delta ∷ s.result_deltas })

-- The columns that `DO UPDATE SET` names; the match, generation and Turn number of the row stay.
abbrev pub redrafted : DraftRow → DraftRow → DraftRow
redrafted new row = record new { identity = row.identity }

unfoldable pub update_draft : DraftRow → List DraftRow → List DraftRow
update_draft new rows =
    map (λ row. if same_turn row.identity new.identity then redrafted new row else row) rows

abbrev pub put_draft : DraftRow → List DraftRow → List DraftRow
put_draft new rows =
    if any_of (λ row. same_turn row.identity new.identity) rows
    then update_draft new rows
    else new ∷ rows

unfoldable pub upsert_next_turn_state_draft : NextTurnStateDraft → Exec Unit
unfolding find_state_row draft_row update_draft
upsert_next_turn_state_draft draft = do
  rows ← gets (λ s. s.drafts)
  states ← gets (λ s. s.confirmed_states)
  deltas ← gets (λ s. s.result_deltas)
  constraint
      (any_of (λ row. not (same_turn row.identity draft.identity) && row.draft_id == draft.draft_id)
        rows)
      "next_turn_state_drafts.draft_id"
  constraint (is_none (find_state_row draft.based_on_confirmed_state_id states)) "FOREIGN KEY"
  constraint (not (any_of (λ row. row.delta_id == draft.source_delta_id) deltas)) "FOREIGN KEY"
  modify (λ s. record s { drafts = put_draft (draft_row draft) s.drafts })

module _ (py : Python) where
  unfoldable pub get_confirmed_turn_state : String → Exec ConfirmedTurnState
  unfolding find_state_row
  get_confirmed_turn_state id = do
    rows ← gets (λ s. s.confirmed_states)
    row ← required (key_error id) (find_state_row id rows)
    lift (confirmed_turn_state_from_row py row)

  unfoldable pub get_latest_confirmed_turn_state_for_identity :
      String → String → ℕ → Exec (Option ConfirmedTurnState)
  get_latest_confirmed_turn_state_for_identity session_id match_id generation = do
    rows ← gets (λ s. s.confirmed_states)
    lift (
        read_found (confirmed_turn_state_from_row py) (
          latest (λ row. row.identity)
            (keep (λ row. of_match session_id match_id generation row.identity) rows)))

  unfoldable pub list_confirmed_turn_states_for_match :
      String → String → ℕ → Exec (List ConfirmedTurnState)
  list_confirmed_turn_states_for_match session_id match_id generation = do
    rows ← gets (λ s. s.confirmed_states)
    lift (
        read_rows (confirmed_turn_state_from_row py) (
          in_order (λ row. row.identity)
            (keep (λ row. of_match session_id match_id generation row.identity) rows)))

  unfoldable pub get_action_result_delta : String → Exec ActionResultDelta
  get_action_result_delta id = do
    rows ← gets (λ s. s.result_deltas)
    row ← required (key_error id) (find_first (λ row. row.delta_id == id) rows)
    lift (action_result_delta_from_row py row)

  unfoldable pub list_action_result_deltas_based_on : String → Exec (List ActionResultDelta)
  list_action_result_deltas_based_on id = do
    rows ← gets (λ s. s.result_deltas)
    lift (
        read_rows (action_result_delta_from_row py) (
          in_order (λ row. row.identity)
            (keep (λ row. row.based_on_confirmed_state_id == id) rows)))

  unfoldable pub get_next_turn_state_draft : String → Exec NextTurnStateDraft
  get_next_turn_state_draft id = do
    rows ← gets (λ s. s.drafts)
    row ← required (key_error id) (find_first (λ row. row.draft_id == id) rows)
    lift (next_turn_state_draft_from_row py row)

  unfoldable pub get_latest_next_turn_state_draft_for_identity :
      String → String → ℕ → Exec (Option NextTurnStateDraft)
  get_latest_next_turn_state_draft_for_identity session_id match_id generation = do
    rows ← gets (λ s. s.drafts)
    lift (
        read_found (next_turn_state_draft_from_row py) (
          latest (λ row. row.identity)
            (keep (λ row. of_match session_id match_id generation row.identity) rows)))

-- `match_uses_rich_state_contract`
unfoldable pub match_uses_rich_state_contract : String → String → ℕ → Exec Bool
match_uses_rich_state_contract session_id match_id generation =
    gets
      (λ s. any_of (λ row. of_match session_id match_id generation row.identity) s.confirmed_states)
