-- ===== src/Repository/Gemini.antt =====
-- The Selection lane of src/maple_next/persistence/attempt_ledger_store.py: the attempt ledger, whose
-- primary key is all columns but the job, and the audits of provider attempts.
use maple_next.Base.{
  ℕ, String, Bool, true, false, ◌&&◌, List, [], ◌∷◌, any_of, keep, leb, ◌==◌, ◌!=◌, string_eq,
  nat_eq, length, if◌then◌else◌, value_error, runtime_error, Option, none, some,
}
use maple_next.Repository.{
  SelectionAttemptRow, AttemptOutcome, started, ProviderAuditRow, Exec, ◌>>=◌, ◌>>◌, gets, modify,
  pure, guard, constraint,
}

abbrev same_round : SelectionAttemptRow → SelectionAttemptRow → Bool
same_round a b =
    a.session_id == b.session_id
    && a.match_id == b.match_id
    && a.generation == b.generation
    && a.reviewed_selection_id == b.reviewed_selection_id

abbrev pub same_attempt : SelectionAttemptRow → SelectionAttemptRow → Bool
same_attempt a b = same_round a b && a.battle_revision == b.battle_revision

abbrev reserve_unless : Bool → SelectionAttemptRow → Exec Bool
reserve_unless true attempt = pure false
reserve_unless false attempt = do
  modify (λ s. record s { selection_attempts = attempt ∷ s.selection_attempts })
  pure true

unfoldable pub reserve_gemini_selection_attempt : SelectionAttemptRow → Exec Bool
reserve_gemini_selection_attempt attempt = do
  rows ← gets (λ s. s.selection_attempts)
  reserve_unless (any_of (same_attempt attempt) rows) attempt

-- `gemini_selection_attempt_reserved`: the revision is not compared.
unfoldable pub gemini_selection_attempt_reserved : SelectionAttemptRow → Exec Bool
gemini_selection_attempt_reserved attempt =
    gets (λ s. any_of (same_round attempt) s.selection_attempts)

abbrev pub held_by : SelectionAttemptRow → String → SelectionAttemptRow → Bool
held_by attempt expected_job_id row = same_attempt attempt row && row.job_id == expected_job_id

unfoldable pub replace_holder :
    SelectionAttemptRow → String → String → List SelectionAttemptRow → List SelectionAttemptRow
replace_holder attempt expected_job_id new_job_id [] = []
replace_holder attempt expected_job_id new_job_id (row ∷ rows) =
    (if held_by attempt expected_job_id row then record row { job_id = new_job_id } else row)
    ∷ replace_holder attempt expected_job_id new_job_id rows

-- `replace_gemini_selection_attempt_reservation`: whether one row was changed.
unfoldable pub replace_gemini_selection_attempt_reservation :
    SelectionAttemptRow → String → String → Exec Bool
replace_gemini_selection_attempt_reservation attempt expected_job_id new_job_id = do
  rows ← gets (λ s. s.selection_attempts)
  modify λ s. record s {
    selection_attempts = replace_holder attempt expected_job_id new_job_id s.selection_attempts;
  }
  pure (length (keep (held_by attempt expected_job_id) rows) == 1)

abbrev is_attempt : String → ℕ → ProviderAuditRow → Bool
is_attempt job_id ordinal row = row.job_id == job_id && row.attempt_ordinal == ordinal

-- `start_selection_provider_attempt`; it commits by itself.
unfoldable pub start_selection_provider_attempt : String → ℕ → String → Exec Unit
start_selection_provider_attempt job_id attempt_ordinal model = do
  rows ← gets (λ s. s.provider_audits)
  constraint (attempt_ordinal != 1 && attempt_ordinal != 2)
      "provider_attempt_audits.attempt_ordinal"
  constraint (any_of (is_attempt job_id attempt_ordinal) rows)
      "provider_attempt_audits.job_id, provider_attempt_audits.lane, provider_attempt_audits.attempt_ordinal"
  modify λ s. record s {
    provider_audits =
        record {
          job_id = job_id;
          attempt_ordinal = attempt_ordinal;
          model = model;
          outcome = started;
          reason = "";
        }
        ∷ s.provider_audits;
  }

abbrev is_started : AttemptOutcome → Bool
is_started started = true
is_started _ = false

abbrev pub is_open : String → ℕ → ProviderAuditRow → Bool
is_open job_id ordinal row = is_attempt job_id ordinal row && is_started row.outcome

unfoldable pub finish_rows :
    String → ℕ → AttemptOutcome → String → List ProviderAuditRow → List ProviderAuditRow
finish_rows job_id ordinal outcome reason [] = []
finish_rows job_id ordinal outcome reason (row ∷ rows) =
    (if is_open job_id ordinal row then record row { outcome = outcome; reason = reason } else row)
    ∷ finish_rows job_id ordinal outcome reason rows

-- `finish_selection_provider_attempt`; the update is made before the count of rows is looked at.
unfoldable pub finish_selection_provider_attempt : String → ℕ → AttemptOutcome → String → Exec Unit
finish_selection_provider_attempt job_id attempt_ordinal outcome reason = do
  guard (is_started outcome) (value_error "invalid provider attempt outcome")
  rows ← gets (λ s. s.provider_audits)
  modify λ s. record s {
    provider_audits = finish_rows job_id attempt_ordinal outcome reason s.provider_audits;
  }
  guard (length (keep (is_open job_id attempt_ordinal) rows) != 1)
      (runtime_error "PROVIDER_ATTEMPT_AUDIT_NOT_STARTED")

abbrev later_of : ProviderAuditRow → Option ProviderAuditRow → Option ProviderAuditRow
later_of row none = some row
later_of row (some other) =
    if leb other.attempt_ordinal row.attempt_ordinal then some row else some other

-- `selection_provider_attempt_audits(job_id)[-1]`: the attempt with the largest ordinal.
unfoldable pub last_attempt : String → List ProviderAuditRow → Option ProviderAuditRow
last_attempt job_id [] = none
last_attempt job_id (row ∷ rows) =
    let rest = last_attempt job_id rows in if row.job_id == job_id then later_of row rest else rest
