-- ===== src/Repository/Attempts.antt =====
-- The Turn lane of src/maple_next/persistence/attempt_ledger_store.py. The primary key of the ledger is
-- all columns but the hash and the job.
use maple_next.Base.{Bool, true, false, ◌&&◌, ◌∷◌, any_of, ◌==◌, string_eq, nat_eq}
use maple_next.Repository.{AttemptRow, Exec, ◌>>=◌, ◌>>◌, gets, modify, pure}

-- What both tests compare.
unfoldable pub same_round : AttemptRow → AttemptRow → Bool
same_round a b =
    a.session_id == b.session_id
    && a.match_id == b.match_id
    && a.generation == b.generation
    && a.turn_number == b.turn_number
    && a.reviewed_snapshot_id == b.reviewed_snapshot_id

-- `turn_advice_attempt_reserved`: the revision is not compared.
unfoldable pub turn_advice_attempt_reserved : AttemptRow → Exec Bool
turn_advice_attempt_reserved attempt = gets (λ s. any_of (same_round attempt) s.turn_attempts)

abbrev reserve_unless : Bool → AttemptRow → Exec Bool
reserve_unless true attempt = pure false
reserve_unless false attempt = do
  modify (λ s. record s { turn_attempts = attempt ∷ s.turn_attempts })
  pure true

unfoldable pub reserve_turn_advice_attempt : AttemptRow → Exec Bool
reserve_turn_advice_attempt attempt = do
  rows ← gets (λ s. s.turn_attempts)
  reserve_unless
      (any_of (λ row. same_round attempt row && attempt.battle_revision == row.battle_revision)
        rows)
      attempt
