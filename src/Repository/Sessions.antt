-- ===== src/Repository/Sessions.antt =====
-- src/maple_next/persistence/session_store.py and the table `battle_sessions` of schema.py.
use maple_next.Base.{
  ℕ, ◌+◌, Bool, ◌&&◌, Option, some, List, [], ◌∷◌, leb, if◌then◌else◌, any_of, find_first, ◌==◌,
  ◌!=◌, nat_eq, string_eq, option_eq, is_some,
}
use maple_next.Models.{BattleSession}
use maple_next.Repository.{Exec, ◌>>=◌, ◌>>◌, gets, modify, constraint}

abbrev pub is_active : BattleSession → Bool
is_active row = row.active_slot == some 1

-- `SELECT * FROM battle_sessions WHERE active_slot = 1`
unfoldable pub find_active : List BattleSession → Option BattleSession
find_active rows = find_first is_active rows

unfoldable pub load_active_session : Exec (Option BattleSession)
load_active_session = gets (λ s. find_active s.sessions)

unfoldable pub max_generation : List BattleSession → ℕ
max_generation [] = 0
max_generation (row ∷ rows) =
    let rest = max_generation rows in if leb rest row.generation then row.generation else rest

-- `SELECT COALESCE(MAX(generation), 0) + 1`
unfoldable pub next_generation : Exec ℕ
next_generation = gets (λ s. max_generation s.sessions + 1)

-- UNIQUE(active_slot): NULL slots never clash.
unfoldable pub slot_taken : BattleSession → List BattleSession → Bool
slot_taken session rows =
    any_of
      (λ row.
        row.session_id != session.session_id
        && is_some session.active_slot
        && row.active_slot == session.active_slot)
      rows

unfoldable pub insert_session : BattleSession → Exec Unit
insert_session session = do
  rows ← gets (λ s. s.sessions)
  constraint (any_of (λ row. row.session_id == session.session_id) rows)
      "battle_sessions.session_id"
  constraint (any_of (λ row. row.match_id == session.match_id) rows) "battle_sessions.match_id"
  constraint (any_of (λ row. row.generation == session.generation) rows)
      "battle_sessions.generation"
  constraint (slot_taken session rows) "battle_sessions.active_slot"
  modify (λ s. record s { sessions = session ∷ s.sessions })

-- The columns that `save_session` writes; ids, generation and both pins keep their values.
unfoldable pub with_columns : BattleSession → BattleSession → BattleSession
with_columns row session = record row {
  state = session.state;
  battle_revision = session.battle_revision;
  metadata_revision = session.metadata_revision;
  current_reviewed_selection_id = session.current_reviewed_selection_id;
  current_selection_advice_id = session.current_selection_advice_id;
  current_applied_selection_id = session.current_applied_selection_id;
  current_turn_id = session.current_turn_id;
  current_observation_id = session.current_observation_id;
  current_reviewed_board_id = session.current_reviewed_board_id;
  current_turn_advice_id = session.current_turn_advice_id;
  active_slot = session.active_slot;
}

-- `UPDATE battle_sessions SET … WHERE session_id = ?`
unfoldable pub update_rows : BattleSession → List BattleSession → List BattleSession
update_rows session [] = []
update_rows session (row ∷ rows) =
    (if row.session_id == session.session_id then with_columns row session else row)
    ∷ update_rows session rows

-- Some row is updated.
unfoldable pub is_stored : BattleSession → List BattleSession → Bool
is_stored session rows = any_of (λ row. row.session_id == session.session_id) rows

unfoldable pub save_session : BattleSession → Exec Unit
unfolding is_stored
save_session session = do
  rows ← gets (λ s. s.sessions)
  constraint (slot_taken session rows && is_stored session rows) "battle_sessions.active_slot"
  modify (λ s. record s { sessions = update_rows session s.sessions })
