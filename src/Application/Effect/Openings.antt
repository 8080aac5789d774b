-- ===== src/Application/Effect/Openings.antt =====
-- The effect of the commands that open a session: `new_match` and `new_match_after_export`.
use maple_next.Application.Effect.{opens}
use maple_next.Base.{
  true, String, false, ◌≡◌, refl, Option, none, some, List, ◌∷◌, is_some, arith, ℕ, string_eq,
}
use maple_next.Enums.{selection_open, match_exported}
use maple_next.Models.{BattleSession}
use maple_next.Repository.{◌>>=◌, pure}
use maple_next.Repository.Sessions.{next_generation, find_active, update_rows, insert_session}
use maple_next.Repository.Run.{Run, Run-transaction, Run-bind, Run-weaken}
use maple_next.Repository.Quiet.{Quiet, Quiet-gets, Quiet-lift, Run-Quiet}
use maple_next.Repository.Unchanged.{Quiet-get_match_export}
use maple_next.Application.Match.{
  Pins, opened as open_row, new_match, released, new_match_after_export,
}
use maple_next.Application.Effect.{Effect, IsCoherent, IsFresh, opened, reopened}
use maple_next.Application.Effect.Rules.{
  Same, HasEffect, quiet, guards, in_state, reads, load_active-Run, insert_session-Run,
  save_session-Run,
}

opened-IsCoherent :
    (session_id match_id : String) (generation : ℕ) (pins : Pins)
    → IsCoherent (open_row session_id match_id generation pins)
unfolding open_row
opened-IsCoherent session_id match_id generation pins = ground arith

opened-state :
    (session_id match_id : String) (generation : ℕ) (pins : Pins)
    → (open_row session_id match_id generation pins).state ≡ selection_open
unfolding open_row
opened-state session_id match_id generation pins = refl

Quiet-next_generation : Quiet next_generation
unfolding next_generation
Quiet-next_generation = Quiet-gets _

no_value : {A : Type 0} (o : Option A) → is_some o ≡ false → o ≡ none
no_value none h = refl
no_value (some a) h = cc

-- The end of both commands: the row is inserted, and returned.
inserts :
    (rows ss : List BattleSession) (session_id match_id : String) (pins : Pins)
    → ((new : BattleSession) → IsFresh new rows → Effect opens true ss (new ∷ rows))
    → (generation : ℕ)
    → Run
        (Same rows)
        (insert_session (open_row session_id match_id generation pins) >>= λ _.
          pure (open_row session_id match_id generation pins))
        (λ _ s. Effect opens true ss s.sessions)
inserts rows ss session_id match_id pins k generation =
    let new = open_row session_id match_id generation pins in
    Run-bind (insert_session new) (λ _. pure new)
      (insert_session-Run rows new (opened-state session_id match_id generation pins)
        (opened-IsCoherent session_id match_id generation pins))
      λ _. record {
        at = λ s h.
            (Run-Quiet (λ t. Effect opens true ss t) (pure new) (Quiet-lift _)).at s
              (rw h.1 (k new h.0));
      }

module _ (rows : List BattleSession) where
  pub new_match-HasEffect :
      (session_id match_id : String) (pins : Pins)
      → HasEffect rows opens true (new_match session_id match_id pins)
  unfolding new_match
  new_match-HasEffect session_id match_id pins = Run-transaction _ (
      reads rows _ _ (λ a. find_active rows ≡ a) (load_active-Run rows)
        λ active a. guards rows _ _ _ λ g. quiet rows _ _ Quiet-next_generation λ generation.
          inserts rows rows session_id match_id pins
            (λ new f. opened new refl (rw a (no_value active g)) f refl) generation)

  pub new_match_after_export-HasEffect :
      (session_id match_id : String) (pins : Pins)
      → HasEffect rows opens true (new_match_after_export session_id match_id pins)
  unfolding new_match_after_export
  new_match_after_export-HasEffect session_id match_id pins = Run-transaction _ (
      in_state rows _ match_exported λ old act st.
        quiet rows _ _ (Quiet-get_match_export _) λ exported. guards rows _ _ _ λ _.
          Run-bind _ _ (save_session-Run rows (released old)) λ _.
            let rest = update_rows (released old) rows in
            Run-weaken (λ s h. h.1)
              (quiet rest _ _ Quiet-next_generation λ generation.
                inserts rest rows session_id match_id pins
                  (λ new f. reopened old new refl act st f refl) generation))
