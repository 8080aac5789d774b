-- ===== src/Repository/Lands.antt =====
-- Where the writes of single rows end, when they return.
use maple_next.Base.{String, arith, ◌∷◌, nat_eq, string_eq}
use maple_next.Models.{BattleSession, RecordedAction}
use maple_next.TurnState.Records.{identity_eq, ActionResultDelta}
use maple_next.TurnStateRows.{delta_row, CompletionRow}
use maple_next.Repository.{Repository, ◌>>=◌}
use maple_next.Repository.Sessions.{save_session, update_rows}
use maple_next.Repository.Rows.{append_recorded_action}
use maple_next.Repository.TurnStates.{append_action_result_delta}
use maple_next.Repository.Completions.{insert_completion}
use maple_next.Repository.Run.{Run}
use maple_next.Repository.Trace.{Now, lands}

module _ (s : Repository) where
  pub append_recorded_action-lands :
      (id : String) (action : RecordedAction)
      → Run (Now s) (append_recorded_action id action) (λ _. Now (record s {
        recorded_actions = record { session_id = id; row = action } ∷ s.recorded_actions;
      }))
  unfolding append_recorded_action ◌>>=◌
  append_recorded_action-lands id action = lands s _ _ λ a t h. ground (arith, h)

  pub append_action_result_delta-lands :
      (delta : ActionResultDelta)
      → Run
          (Now s)
          (append_action_result_delta delta)
          (λ _. Now (record s { result_deltas = delta_row delta ∷ s.result_deltas }))
  unfolding append_action_result_delta ◌>>=◌
  append_action_result_delta-lands delta = lands s _ _ λ a t h. ground (arith, h)

  pub insert_completion-lands :
      (row : CompletionRow)
      → Run
          (Now s)
          (insert_completion row)
          (λ _. Now (record s { completions = row ∷ s.completions }))
  unfolding insert_completion ◌>>=◌
  insert_completion-lands row = lands s _ _ λ a t h. ground (arith, h)

  pub save_session-lands :
      (new : BattleSession)
      → Run
          (Now s)
          (save_session new)
          (λ _. Now (record s { sessions = update_rows new s.sessions }))
  unfolding save_session ◌>>=◌
  save_session-lands new = lands s _ _ λ a t h. ground (arith, h)
