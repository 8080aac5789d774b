-- ===== src/Application/Effect/Exports.antt =====
-- The effect of `export_match`: it keeps the sessions, or takes the active one from the end of its
-- match to the export.
use maple_next.Application.Effect.{reaches}
use maple_next.Base.{refl, String, Bool, true, false, List, Option, none, some, if◌then◌else◌, ◌≡◌}
use maple_next.Enums.{match_exported, match_ended}
use maple_next.Models.{BattleSession, MatchExportRecord}
use maple_next.Repository.{Exec}
use maple_next.Repository.Run.{Run-transaction}
use maple_next.Repository.Quiet.{Quiet, Quiet-lift, Run-Quiet}
use maple_next.Repository.Unchanged.{
  Quiet-get_match_outcome, Quiet-get_match_export, Quiet-append_match_export,
}
use maple_next.Application.Export.{ExportWorld, Files, Payload, exported}
use maple_next.Application.Export.Run.{
  record_export, commit_export, write_export, export_again, export_ended, export_match,
}
use maple_next.Application.Effect.{Effect, kept}
use maple_next.Application.Effect.Rules.{
  HasEffect, quiet, lifts, requires, guards, on_active, in_state, saves,
}
use maple_next.Application.Effect.Steps.{exported-Transition}
use maple_next.Repository.Sessions.{find_active}

module _ (rows : List BattleSession) where
  still : {A : Type 0} (m : Exec A) → Quiet m → HasEffect rows (reaches match_exported) false m
  still m q = record { at = λ s p. (Run-Quiet (λ t. Effect _ false rows t) m q).at s (kept refl p) }

  if-HasEffect :
      {A : Type 0} (b : Bool) (m n : Exec A)
      → HasEffect rows (reaches match_exported) false m
      → HasEffect rows (reaches match_exported) false n
      → HasEffect rows (reaches match_exported) false (if b then m else n)
  if-HasEffect true m n km kn = km
  if-HasEffect false m n km kn = kn

  module _ (w : ExportWorld) where
    record_export-HasEffect :
        (files : Files) (old : BattleSession) (export : MatchExportRecord) (encoded : String)
        (existing : Option MatchExportRecord)
        → find_active rows ≡ some old
        → old.state ≡ match_ended
        → HasEffect rows
            (reaches match_exported)
            false
            (record_export w files old export encoded existing)
    record_export-HasEffect files old export encoded (some existing) act st =
        lifts rows _ _ λ _ _. still _ (Quiet-lift _)
    record_export-HasEffect files old export encoded none act st =
        quiet rows _ _ (Quiet-append_match_export export)
          λ _. saves rows _ old (exported old) act (exported-Transition old st) (Quiet-lift _)

    commit_export-HasEffect :
        (files : Files) (session : BattleSession) (export : MatchExportRecord) (encoded : String)
        → HasEffect rows
            (reaches match_exported)
            false
            (commit_export w files session export encoded)
    commit_export-HasEffect files session export encoded = Run-transaction _ (
        in_state rows _ match_ended λ old act st. guards rows _ _ _ λ _.
          quiet rows _ _ (Quiet-get_match_export old.session_id)
            λ existing. record_export-HasEffect files old export encoded existing act st)

    write_export-HasEffect :
        (session : BattleSession) (payload : Payload) (now : String)
        (existing : Option MatchExportRecord)
        → HasEffect rows
            (reaches match_exported)
            false
            (write_export w session payload now existing)
    write_export-HasEffect session payload now (some existing) =
        lifts rows _ _ λ _ _. still _ (Quiet-lift _)
    write_export-HasEffect session payload now none = lifts rows _ _ λ files _.
        lifts rows _ _ λ _ _.
          lifts rows _ _ λ export _. commit_export-HasEffect files session export payload.encoded

    export_again-HasEffect :
        (session : BattleSession)
        → HasEffect rows (reaches match_exported) false (export_again w session)
    export_again-HasEffect session =
        quiet rows _ _ (Quiet-get_match_export session.session_id) λ found.
          requires rows _ _ _
            λ existing _. guards rows _ _ _ λ _. lifts rows _ _ λ _ _. still _ (Quiet-lift _)

    export_ended-HasEffect :
        (session : BattleSession) (now : String)
        → HasEffect rows (reaches match_exported) false (export_ended w session now)
    export_ended-HasEffect session now = guards rows _ _ _ λ _. guards rows _ _ _ λ _.
        quiet rows _ _ (Quiet-get_match_outcome session.session_id) λ found.
          requires rows _ _ _ λ outcome _. lifts rows _ _ λ legacy _. lifts rows _ _ λ payload _.
            quiet rows _ _ (Quiet-get_match_export session.session_id)
              λ existing. write_export-HasEffect session payload now existing

    pub export_match-HasEffect :
        (now : String) → HasEffect rows (reaches match_exported) false (export_match w now)
    unfolding export_match
    export_match-HasEffect now =
        on_active rows _ λ old act.
          if-HasEffect _ _ _ (export_again-HasEffect old) (export_ended-HasEffect old now)
