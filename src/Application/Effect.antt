-- ===== src/Application/Effect.antt =====
-- What a command of src/maple_next/application does to the table of sessions, as a relation.
pub mod Rules
pub mod Steps
pub mod Commands
pub mod Reviews
pub mod Rich
pub mod Openings
pub mod Exports
pub mod Advice
pub mod Accepted
pub mod Results
pub mod TurnResults
use maple_next.Base.{
  ℕ, ◌+◌, ◌≤◌, String, Bool, true, false, ◌≡◌, Option, none, some, List, ◌∷◌, is_some, any_of, ◌==◌,
  string_eq, nat_eq,
}
use maple_next.Enums.{
  BattleState, selection_open, selection_advice_ready, battle_ready, turn_capture_pending,
  turn_review_required, turn_reviewed, turn_recorded, match_ended, match_exported, aborted,
}
use maple_next.Models.{BattleSession}
use maple_next.Repository.Sessions.{find_active, slot_taken, update_rows}
use maple_next.Application.Match.{released}

-- What the state of a session says of its other columns.
abbrev pub CoherentAt : BattleState → BattleSession → Type 0
CoherentAt selection_open s =
    (s.active_slot ≡ some 1)
    × (s.current_selection_advice_id ≡ none)
    × (s.current_applied_selection_id ≡ none)
    × (s.current_turn_id ≡ none)
CoherentAt selection_advice_ready s =
    (s.active_slot ≡ some 1)
    × (is_some s.current_selection_advice_id ≡ true)
    × (is_some s.current_reviewed_selection_id ≡ true)
    × (s.current_applied_selection_id ≡ none)
    × (s.current_turn_id ≡ none)
CoherentAt battle_ready s =
    (s.active_slot ≡ some 1)
    × (is_some s.current_applied_selection_id ≡ true)
    × (s.current_turn_id ≡ none)
CoherentAt turn_capture_pending s =
    (s.active_slot ≡ some 1)
    × (is_some s.current_applied_selection_id ≡ true)
    × (is_some s.current_turn_id ≡ true)
    × (s.current_reviewed_board_id ≡ none)
    × (s.current_turn_advice_id ≡ none)
CoherentAt turn_review_required s = ⊥
CoherentAt turn_reviewed s =
    (s.active_slot ≡ some 1)
    × (is_some s.current_applied_selection_id ≡ true)
    × (is_some s.current_turn_id ≡ true)
    × (is_some s.current_reviewed_board_id ≡ true)
CoherentAt turn_recorded s =
    (s.active_slot ≡ some 1)
    × (is_some s.current_applied_selection_id ≡ true)
    × (is_some s.current_turn_id ≡ true)
    × (is_some s.current_reviewed_board_id ≡ true)
    × (is_some s.current_turn_advice_id ≡ true)
CoherentAt match_ended s =
    (s.active_slot ≡ some 1) × (is_some s.current_applied_selection_id ≡ true)
CoherentAt match_exported s = is_some s.current_applied_selection_id ≡ true
CoherentAt aborted s = s.active_slot ≡ none

abbrev pub IsCoherent : BattleSession → Type 0
IsCoherent s = CoherentAt s.state s

-- The steps of the life of a match.
pub data Edge : BattleState → BattleState → Type 0 where
  advise : Edge selection_open selection_advice_ready
  apply : Edge selection_advice_ready battle_ready
  first_turn : Edge battle_ready turn_capture_pending
  review : Edge turn_capture_pending turn_reviewed
  record_action : Edge turn_reviewed turn_recorded
  later_turn : Edge turn_recorded turn_capture_pending
  end_unplayed : Edge battle_ready match_ended
  end_played : Edge turn_recorded match_ended
  export_ : Edge match_ended match_exported
  abort_selection : Edge selection_open aborted
  abort_advised : Edge selection_advice_ready aborted
  abort_ready : Edge battle_ready aborted
  abort_pending : Edge turn_capture_pending aborted
  abort_reviewing : Edge turn_review_required aborted
  abort_reviewed : Edge turn_reviewed aborted
  abort_recorded : Edge turn_recorded aborted

-- What a command is for: to leave the sessions alone, to edit the active one within its state, to bring it
-- to a state, or to open a match.
pub data Purpose : Type 0 where
  leaves edits opens : Purpose
  reaches : BattleState → Purpose

-- An edit keeps the state. What brings a session to a state takes an edge of the life of a match to it, and
-- one revision; or the session is in that state already. No revision is lost.
pub data Moved (p : Purpose) (old new : BattleSession) : Type 0 where
  stays :
      p ≡ edits
      → new.state ≡ old.state
      → old.battle_revision ≤ new.battle_revision
      → Moved p old new
  again :
      p ≡ reaches new.state
      → new.state ≡ old.state
      → old.battle_revision ≤ new.battle_revision
      → Moved p old new
  steps :
      p ≡ reaches new.state
      → Edge old.state new.state
      → new.battle_revision ≡ old.battle_revision + 1
      → Moved p old new

pub record Transition (p : Purpose) (old new : BattleSession) : Type 0 where
  pub session : new.session_id ≡ old.session_id
  pub match_ : new.match_id ≡ old.match_id
  pub generation : new.generation ≡ old.generation
  pub moved : Moved p old new
  pub coherent : IsCoherent old → IsCoherent new

-- The columns of a new row clash with no other row.
pub record IsFresh (new : BattleSession) (rows : List BattleSession) : Type 0 where
  pub session : any_of (λ row. row.session_id == new.session_id) rows ≡ false
  pub match_ : any_of (λ row. row.match_id == new.match_id) rows ≡ false
  pub generation : any_of (λ row. row.generation == new.generation) rows ≡ false
  pub slot : slot_taken new rows ≡ false
  pub state : new.state ≡ selection_open
  pub coherent : IsCoherent new

-- The table before and after a command. Where it must change, it does.
pub data Effect (p : Purpose) (must : Bool) (rows rows' : List BattleSession) : Type 0 where
  kept : must ≡ false → rows' ≡ rows → Effect p must rows rows'
  saved :
      (old new : BattleSession)
      → find_active rows ≡ some old
      → Transition p old new
      → slot_taken new rows ≡ false
      → rows' ≡ update_rows new rows
      → Effect p must rows rows'
  opened :
      (new : BattleSession)
      → p ≡ opens
      → find_active rows ≡ none
      → IsFresh new rows
      → rows' ≡ new ∷ rows
      → Effect p must rows rows'
  reopened :
      (old new : BattleSession)
      → p ≡ opens
      → find_active rows ≡ some old
      → old.state ≡ match_exported
      → IsFresh new (update_rows (released old) rows)
      → rows' ≡ new ∷ update_rows (released old) rows
      → Effect p must rows rows'
