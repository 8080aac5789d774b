-- ===== src/Repository/Rows.antt =====
-- src/maple_next/persistence: selection_store.py, turn_store.py, match_store.py and the selection
-- facts of session_store.py, with the constraints of schema.py that a write can break.
use maple_next.Base.{
  String, Bool, ◌&&◌, Option, List, ◌∷◌, any_of, find_first, key_error, ◌==◌, string_eq, nat_eq,
}
use maple_next.Models.{
  SelectionFacts, AppliedSelectionSnapshot, BattleTurn, TurnFactsSnapshot, TurnAdviceSnapshot,
  RecordedAction, MatchOutcomeRecord, MatchExportRecord,
}
use maple_next.Repository.{
  AdviceRow, Owned, Exec, ◌>>=◌, ◌>>◌, gets, modify, pure, required, constraint,
}

unfoldable pub append_selection_facts : String → SelectionFacts → Exec Unit
append_selection_facts session_id facts = do
  rows ← gets (λ s. s.selection_facts)
  constraint (any_of (λ o. o.row.reviewed_selection_id == facts.reviewed_selection_id) rows)
      "reviewed_selection_facts.reviewed_selection_id"
  modify λ s. record s {
    selection_facts = record { session_id = session_id; row = facts } ∷ s.selection_facts;
  }

unfoldable pub find_facts : String → List (Owned SelectionFacts) → Option (Owned SelectionFacts)
find_facts id rows = find_first (λ o. o.row.reviewed_selection_id == id) rows

unfoldable pub get_selection_facts : String → Exec SelectionFacts
unfolding find_facts
get_selection_facts id = do
  rows ← gets (λ s. s.selection_facts)
  found ← required (key_error id) (find_facts id rows)
  pure found.row

unfoldable pub append_selection_advice : AdviceRow → Exec Unit
append_selection_advice advice = do
  rows ← gets (λ s. s.selection_advices)
  constraint (any_of (λ row. row.advice_id == advice.advice_id) rows) "selection_advices.advice_id"
  constraint (any_of (λ row. row.job_id == advice.job_id) rows) "selection_advices.job_id"
  modify (λ s. record s { selection_advices = advice ∷ s.selection_advices })

unfoldable pub append_applied_selection : String → AppliedSelectionSnapshot → Exec Unit
append_applied_selection session_id snapshot = do
  rows ← gets (λ s. s.applied_selections)
  constraint (any_of (λ o. o.row.applied_selection_id == snapshot.applied_selection_id) rows)
      "applied_selections.applied_selection_id"
  constraint (any_of (λ o. o.session_id == session_id) rows) "applied_selections.session_id"
  modify λ s. record s {
    applied_selections = record { session_id = session_id; row = snapshot } ∷ s.applied_selections;
  }

unfoldable pub find_applied :
    String → List (Owned AppliedSelectionSnapshot) → Option (Owned AppliedSelectionSnapshot)
find_applied id rows = find_first (λ o. o.row.applied_selection_id == id) rows

unfoldable pub get_applied_selection : String → Exec AppliedSelectionSnapshot
unfolding find_applied
get_applied_selection id = do
  rows ← gets (λ s. s.applied_selections)
  found ← required (key_error id) (find_applied id rows)
  pure found.row

unfoldable pub append_turn : String → BattleTurn → Exec Unit
append_turn session_id turn = do
  rows ← gets (λ s. s.turns)
  constraint (any_of (λ o. o.row.turn_id == turn.turn_id) rows) "battle_turns.turn_id"
  constraint
      (any_of (λ o. o.session_id == session_id && o.row.turn_number == turn.turn_number) rows)
      "battle_turns.session_id, battle_turns.turn_number"
  modify (λ s. record s { turns = record { session_id = session_id; row = turn } ∷ s.turns })

unfoldable pub find_turn : String → List (Owned BattleTurn) → Option (Owned BattleTurn)
find_turn id rows = find_first (λ o. o.row.turn_id == id) rows

unfoldable pub get_turn : String → Exec BattleTurn
unfolding find_turn
get_turn id = do
  rows ← gets (λ s. s.turns)
  found ← required (key_error id) (find_turn id rows)
  pure found.row

unfoldable pub append_turn_facts : String → TurnFactsSnapshot → Exec Unit
append_turn_facts session_id facts = do
  rows ← gets (λ s. s.turn_facts)
  constraint (any_of (λ o. o.row.turn_facts_id == facts.turn_facts_id) rows)
      "reviewed_turn_facts.turn_facts_id"
  modify (λ s. record s {
    turn_facts = record { session_id = session_id; row = facts } ∷ s.turn_facts;
  })

unfoldable pub find_turn_facts :
    String → List (Owned TurnFactsSnapshot) → Option (Owned TurnFactsSnapshot)
find_turn_facts id rows = find_first (λ o. o.row.turn_facts_id == id) rows

unfoldable pub get_turn_facts : String → Exec TurnFactsSnapshot
unfolding find_turn_facts
get_turn_facts id = do
  rows ← gets (λ s. s.turn_facts)
  found ← required (key_error id) (find_turn_facts id rows)
  pure found.row

unfoldable pub append_turn_advice : String → TurnAdviceSnapshot → Exec Unit
append_turn_advice session_id advice = do
  rows ← gets (λ s. s.turn_advices)
  constraint (any_of (λ o. o.row.turn_advice_id == advice.turn_advice_id) rows)
      "turn_advices.turn_advice_id"
  constraint (any_of (λ o. o.row.job_id == advice.job_id) rows) "turn_advices.job_id"
  modify λ s. record s {
    turn_advices = record { session_id = session_id; row = advice } ∷ s.turn_advices;
  }

unfoldable pub append_recorded_action : String → RecordedAction → Exec Unit
append_recorded_action session_id action = do
  rows ← gets (λ s. s.recorded_actions)
  constraint (any_of (λ o. o.row.action_id == action.action_id) rows) "recorded_actions.action_id"
  constraint (any_of (λ o. o.row.turn_id == action.turn_id) rows) "recorded_actions.turn_id"
  modify λ s. record s {
    recorded_actions = record { session_id = session_id; row = action } ∷ s.recorded_actions;
  }

unfoldable pub has_recorded_action : String → Exec Bool
has_recorded_action turn_id = gets (λ s. any_of (λ o. o.row.turn_id == turn_id) s.recorded_actions)

unfoldable pub get_match_outcome : String → Exec (Option MatchOutcomeRecord)
get_match_outcome session_id =
    gets (λ s. find_first (λ row. row.session_id == session_id) s.outcomes)

unfoldable pub append_match_outcome : MatchOutcomeRecord → Exec Unit
append_match_outcome outcome = do
  rows ← gets (λ s. s.outcomes)
  constraint (any_of (λ row. row.session_id == outcome.session_id) rows) "match_outcomes.session_id"
  constraint (any_of (λ row. row.match_id == outcome.match_id) rows) "match_outcomes.match_id"
  constraint (any_of (λ row. row.generation == outcome.generation) rows) "match_outcomes.generation"
  modify (λ s. record s { outcomes = outcome ∷ s.outcomes })

unfoldable pub append_match_export : MatchExportRecord → Exec Unit
append_match_export export = do
  rows ← gets (λ s. s.exports)
  constraint (any_of (λ row. row.session_id == export.session_id) rows) "match_exports.session_id"
  constraint (any_of (λ row. row.match_id == export.match_id) rows) "match_exports.match_id"
  constraint (any_of (λ row. row.export_path == export.export_path) rows)
      "match_exports.export_path"
  modify (λ s. record s { exports = export ∷ s.exports })

unfoldable pub get_match_export : String → Exec (Option MatchExportRecord)
get_match_export session_id = gets (λ s. find_first (λ row. row.session_id == session_id) s.exports)
