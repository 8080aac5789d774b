-- ===== src/Repository.antt =====
-- src/maple_next/persistence: the tables of the SQLite repository as lists of rows, the newest row
-- first, and `SQLiteRepository.transaction`. A command reads and writes through actions of `Exec`; what
-- was written before an exception stays written until `transaction` rolls it back. The columns
-- `created_at` and `updated_at`, which no command reads, are left out.
pub mod Sessions
pub mod Jobs
pub mod Rows
pub mod Attempts
pub mod Gemini
pub mod Handover
pub mod Run
pub mod Quiet
pub mod Unchanged
pub mod Atomic
pub mod TurnStates
pub mod Order
pub mod Completions
pub mod Switches
pub mod Memories
pub mod Elsewhere
pub mod Trace
pub mod Lands
pub mod Forward
pub mod SwitchLaws
pub mod StoreLaws
pub mod Recovery
pub mod Ledger
pub mod Keeps
pub mod Lanes
pub mod LanesKept
use maple_next.Base.{
  ℕ, String, Bool, true, false, Option, none, some, List, [], ◌∷◌, Error, Result, ok, err,
  integrity_error, if◌then◌else◌, raise_if,
}
use maple_next.Enums.{ResultDisposition}
use maple_next.Models.{
  SelectionFacts, AppliedSelectionSnapshot, BattleTurn, TurnFactsSnapshot, TurnAdviceSnapshot,
  RecordedAction, BattleSession, MatchOutcomeRecord, MatchExportRecord,
}
use maple_next.Envelopes.{JobEnvelope}
use maple_next.TurnState.Actions.{OpponentEntryEvent}
use maple_next.LegalSwitches.{LegalSwitchConfirmation}
use maple_next.TurnStateRows.{
  FixedEvidenceMetadata, StateRow, DeltaRow, DraftRow, CompletionRow, LocalRow,
}

pub record JobRow : Type 0 where
  pub job : JobEnvelope
  pub dispatch_count : ℕ

pub record AuditRow : Type 0 where
  pub result_id : String
  pub job_id : String
  pub disposition : ResultDisposition
  pub reason : String

pub record AdviceRow : Type 0 where
  pub advice_id : String
  pub session_id : String
  pub job_id : String
  pub selected_three : List String
  pub lead : String
  pub backline : List String
  pub source_type : String
  pub model : String

-- A row of `turn_advice_attempt_ledger`; its lane is fixed.
pub record AttemptRow : Type 0 where
  pub session_id : String
  pub match_id : String
  pub generation : ℕ
  pub turn_number : ℕ
  pub battle_revision : ℕ
  pub reviewed_snapshot_id : String
  pub request_payload_hash : String
  pub job_id : String

-- A row of `gemini_selection_attempt_ledger`; its lane is fixed.
pub record SelectionAttemptRow : Type 0 where
  pub session_id : String
  pub match_id : String
  pub generation : ℕ
  pub battle_revision : ℕ
  pub reviewed_selection_id : String
  pub job_id : String

pub data AttemptOutcome : Type 0 where
  started succeeded failed : AttemptOutcome

-- A row of `provider_attempt_audits`; its lane is fixed.
pub record ProviderAuditRow : Type 0 where
  pub job_id : String
  pub attempt_ordinal : ℕ
  pub model : String
  pub outcome : AttemptOutcome
  pub reason : String

-- A row of `opponent_ability_memory`.
pub record AbilityRow : Type 0 where
  pub session_id : String
  pub match_id : String
  pub generation : ℕ
  pub opponent_entity_id : String
  pub species : String
  pub ability : String

-- A row of a table whose record does not hold the session's id.
pub record Owned (A : Type 0) : Type 0 where
  pub session_id : String
  pub row : A

pub record Repository : Type 0 where
  pub sessions : List BattleSession
  pub selection_facts : List (Owned SelectionFacts)
  pub selection_advices : List AdviceRow
  pub applied_selections : List (Owned AppliedSelectionSnapshot)
  pub turns : List (Owned BattleTurn)
  pub turn_facts : List (Owned TurnFactsSnapshot)
  pub turn_advices : List (Owned TurnAdviceSnapshot)
  pub recorded_actions : List (Owned RecordedAction)
  pub outcomes : List MatchOutcomeRecord
  pub exports : List MatchExportRecord
  pub jobs : List JobRow
  pub audits : List AuditRow
  pub turn_attempts : List AttemptRow
  pub selection_attempts : List SelectionAttemptRow
  pub provider_audits : List ProviderAuditRow
  pub fixed_evidence : List FixedEvidenceMetadata
  pub confirmed_states : List StateRow
  pub result_deltas : List DeltaRow
  pub drafts : List DraftRow
  pub completions : List CompletionRow
  pub local_states : List LocalRow
  pub abilities : List AbilityRow
  pub entry_events : List OpponentEntryEvent
  pub switch_confirmations : List LegalSwitchConfirmation

abbrev pub Exec : Type 0 → Type 0
Exec A = Repository → Result A × Repository

unfoldable pub lift : {A : Type 0} → Result A → Exec A
lift r s = (r, s)

unfoldable pub gets : {A : Type 0} → (Repository → A) → Exec A
gets f s = (ok (f s), s)

unfoldable pub modify : (Repository → Repository) → Exec Unit
modify f s = (ok tt, f s)

abbrev get_or_raise : {A : Type 0} → Error → Option A → Result A
get_or_raise e none = err e
get_or_raise e (some a) = ok a

-- A value that must be there: `if x is None: raise e`.
unfoldable pub required : {A : Type 0} → Error → Option A → Exec A
required e o = lift (get_or_raise e o)

abbrev continue : {A B : Type 0} → Result A → (A → Exec B) → Exec B
continue (ok a) f s = f a s
continue (err e) f s = (err e, s)

infixl 5 ◌>>=◌ ◌>>◌
-- Opening this opens the steps above.
unfoldable pub ◌>>=◌ : {A B : Type 0} → Exec A → (A → Exec B) → Exec B
unfolding lift gets modify required
◌>>=◌ m f s = let (r, s') = m s in continue r f s'

abbrev pub ◌>>◌ : {B : Type 0} → Exec Unit → Exec B → Exec B
m >> n = m >>= λ _. n

abbrev pub pure : {A : Type 0} → A → Exec A
pure a = lift (ok a)

-- `if b: raise e`
abbrev pub guard : Bool → Error → Exec Unit
guard b e = lift (raise_if b e)

-- An INSERT or UPDATE that would break a constraint of the schema raises `sqlite3.IntegrityError`.
abbrev pub constraint : Bool → String → Exec Unit
constraint broken name = guard broken (integrity_error name)

abbrev commit_or_roll_back :
    {A : Type 0} → Repository → Result A × Repository → Result A × Repository
commit_or_roll_back before (ok a, after) = (ok a, after)
commit_or_roll_back before (err e, after) = (err e, before)

-- `SQLiteRepository.transaction`: all writes or none.
unfoldable pub transaction : {A : Type 0} → Exec A → Exec A
transaction m s = commit_or_roll_back s (m s)

abbrev rethrown : {A : Type 0} → (Error → Error) → Result A × Repository → Result A × Repository
rethrown f (ok a, s) = (ok a, s)
rethrown f (err e, s) = (err (f e), s)

-- `try: … except …: raise … from exc`
unfoldable pub rescue : {A : Type 0} → (Error → Error) → Exec A → Exec A
rescue f m s = rethrown f (m s)
