-- ===== src/Repository/Handover.antt =====
-- The hand-over of a Selection attempt in src/maple_next/persistence/attempt_ledger_store.py.
use maple_next.Base.{
  String, Bool, true, false, ◌&&◌, ◌≡◌, ◌≢◌, refl, List, [], ◌∷◌, keep, ok, ◌==◌, string_eq, nat_eq,
  Bool-cases, inl, inr, if◌then◌else◌, ==-eq,
}
use maple_next.Repository.{Repository, SelectionAttemptRow, ◌>>=◌}
use maple_next.Repository.Gemini.{
  same_attempt, held_by, replace_holder, replace_gemini_selection_attempt_reservation,
}

module _ (attempt : SelectionAttemptRow) (old new : String) (apart : new ≢ old) where
  moved_row :
      (row : SelectionAttemptRow)
      → held_by attempt old (if held_by attempt old row then record row { job_id = new } else row)
        ≡ false
  moved_row row = elim (Bool-cases (held_by attempt old row)) [
    | inl e ↦ elim (Bool-cases (new == old)) [
      | inl f ↦ absurd (apart (==-eq new old f))
      | inr f ↦ rw (e, f) (and_false (same_attempt attempt row))
    ]
    | inr e ↦ rw (e, e) refl
  ]
    where
      and_false : (b : Bool) → (b && false) ≡ false
      and_false true = refl
      and_false false = refl

  none_held :
      (rows : List SelectionAttemptRow)
      → keep (held_by attempt old) (replace_holder attempt old new rows) ≡ []
  unfolding keep replace_holder
  none_held [] = refl
  none_held (row ∷ rows) = rw (moved_row row) (none_held rows)

  -- After an attempt has been handed from one job to another, a second hand-over that expects the first
  -- job to hold it is refused, to whichever job it is made.
  pub replace-once :
      (other : String) (s : Repository)
      → (replace_gemini_selection_attempt_reservation attempt old other
          (replace_gemini_selection_attempt_reservation attempt old new s).1).0
        ≡ ok false
  unfolding replace_gemini_selection_attempt_reservation ◌>>=◌
  replace-once other s = rw (none_held s.selection_attempts) refl
