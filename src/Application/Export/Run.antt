-- ===== src/Application/Export/Run.antt =====
-- `export_match` of src/maple_next/application/match_service.py, with the branches of it that raise
-- before, in and after the transaction.
use maple_next.Base.{
  String, Option, none, some, ok, domain_error, ◌==◌, ◌!=◌, string_eq, if◌then◌else◌,
}
use maple_next.Enums.{match_ended, match_exported, state_eq}
use maple_next.Models.{BattleSession, MatchExportRecord, make_match_export}
use maple_next.Repository.{Exec, ◌>>=◌, ◌>>◌, guard, lift, pure, required, transaction}
use maple_next.Repository.Sessions.{save_session}
use maple_next.Repository.Rows.{get_match_outcome, append_match_export, get_match_export}
use maple_next.Application.Session.{require_active_session, require_session}
use maple_next.Application.Export.{
  ExportWorld, Files, Payload, verify_existing_export, publish, build_payload, verify_read_back,
  exported, export_row,
}

module _ (w : ExportWorld) where
  abbrev pub record_export :
      Files
      → BattleSession
      → MatchExportRecord
      → String
      → Option MatchExportRecord
      → Exec MatchExportRecord
  record_export files current export encoded (some existing) = do
    lift (verify_existing_export w files existing (some encoded))
    pure existing
  record_export files current export encoded none = do
    append_match_export export
    save_session (exported current)
    pure export

  abbrev pub commit_export :
      Files → BattleSession → MatchExportRecord → String → Exec MatchExportRecord
  commit_export files session export encoded = transaction do
    current ← require_session match_ended
    guard (current.session_id != session.session_id) (domain_error "MATCH_CHANGED_DURING_EXPORT")
    existing ← get_match_export current.session_id
    record_export files current export encoded existing

  abbrev pub write_export :
      BattleSession → Payload → String → Option MatchExportRecord → Exec MatchExportRecord
  write_export session payload now (some existing) = do
    lift (verify_existing_export w w.files existing (some payload.encoded))
    pure existing
  write_export session payload now none = do
    files ← lift (publish w (w.path_of session.match_id) payload.encoded)
    lift (
        if w.uses_rich_state session
        then verify_read_back w payload (files (w.path_of session.match_id))
        else ok tt)
    export ← lift (make_match_export w.is_hexadecimal (export_row w session payload now))
    commit_export files session export payload.encoded

  abbrev pub export_again : BattleSession → Exec MatchExportRecord
  export_again session = do
    found ← get_match_export session.session_id
    existing ← required (domain_error "MATCH_EXPORT_RECORD_MISSING") found
    guard w.inside_repository (domain_error "EXPORT_DIRECTORY_INSIDE_REPOSITORY")
    lift (verify_existing_export w w.files existing none)
    pure existing

  abbrev pub export_ended : BattleSession → String → Exec MatchExportRecord
  export_ended session now = do
    guard (session.state != match_ended) (domain_error "EXPECTED_MATCH_ENDED")
    guard w.inside_repository (domain_error "EXPORT_DIRECTORY_INSIDE_REPOSITORY")
    found ← get_match_outcome session.session_id
    outcome ← required (domain_error "MATCH_OUTCOME_REQUIRED") found
    legacy ← lift (w.legacy_payload session outcome)
    payload ← lift (build_payload w session outcome legacy (w.uses_rich_state session))
    existing ← get_match_export session.session_id
    write_export session payload now existing

  unfoldable pub export_match : String → Exec MatchExportRecord
  export_match now = do
    session ← require_active_session
    if session.state == match_exported then export_again session else export_ended session now
