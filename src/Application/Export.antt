-- ===== src/Application/Export.antt =====
-- `export_match` of src/maple_next/application/match_service.py. The directory of the exports, its
-- files, the digest of bytes and the payloads, which match_export_v3.py builds and parses, are the
-- fields of `ExportWorld`; bytes are texts.
pub mod Run
pub mod Verified
use Prim.Native.String.{◌++◌}
use maple_next.Base.{
  String, Bool, Option, none, some, Result, ok, err, domain_error, ◌==◌, ◌!=◌, is_none, string_eq,
  raise_if, if◌then◌else◌, ◌>>◌, ◌>>=◌, true, false, not,
}
use maple_next.Enums.{match_exported}
use maple_next.Models.{BattleSession, bump_battle, MatchOutcomeRecord, MatchExportRecord}

-- The bytes of the file at a path, if it can be read.
abbrev pub Files : Type 0
Files = String → Option String

pub record Payload : Type 0 where
  pub schema_version : String
  pub encoded : String

pub record ExportWorld : Type 0 where
  pub inside_repository : Bool
  pub path_of : String → String
  pub sha256 : String → String
  pub is_hexadecimal : String → Bool
  pub exists : String → Bool
  pub files : Files
  pub atomic_write : String → String → Option Files
  pub legacy_payload : BattleSession → MatchOutcomeRecord → Result Payload
  pub uses_rich_state : BattleSession → Bool
  pub rich_payload : BattleSession → MatchOutcomeRecord → Payload → Result Payload
  pub parse_rich_export : Payload → String → Option String

unfoldable pub exported : BattleSession → BattleSession
unfolding bump_battle
exported session = bump_battle (record session { state = match_exported })

module _ (w : ExportWorld) where
  abbrev pub content_matches : Option String → String → Bool
  content_matches none content = true
  content_matches (some expected) content = content == expected

  abbrev pub verify_content : MatchExportRecord → Option String → Option String → Result (Unit {0})
  verify_content export expected none = err (domain_error "EXPORT_FILE_UNREADABLE")
  verify_content export expected (some content) = do
    raise_if (w.sha256 content != export.sha256) (domain_error "EXPORT_HASH_MISMATCH")
    raise_if (not (content_matches expected content)) (domain_error "EXPORT_FILE_CONTENT_MISMATCH")

  unfoldable pub verify_existing_export :
      Files → MatchExportRecord → Option String → Result (Unit {0})
  verify_existing_export files export expected = do
    raise_if (export.export_path != w.path_of export.match_id) (domain_error "EXPORT_PATH_MISMATCH")
    verify_content export expected (files export.export_path)

  abbrev same_content : Option String → String → Result Files
  same_content none encoded = err (domain_error "EXPORT_WRITE_FAILED")
  same_content (some content) encoded =
      if content != encoded then err (domain_error "EXPORT_FILE_CONTENT_MISMATCH") else ok w.files

  abbrev written : Option Files → Result Files
  written none = err (domain_error "EXPORT_WRITE_FAILED")
  written (some files) = ok files

  -- The files after the export was written, or was found to be there.
  unfoldable pub publish : String → String → Result Files
  publish path encoded =
      if w.exists path
      then same_content (w.files path) encoded
      else written (w.atomic_write path encoded)

  abbrev parsed : String → Option String → Result (Unit {0})
  parsed prefix none = ok tt
  parsed prefix (some reason) = err (domain_error (prefix ++ reason))

  abbrev pub build_payload : BattleSession → MatchOutcomeRecord → Payload → Bool → Result Payload
  build_payload session outcome legacy false = ok legacy
  build_payload session outcome legacy true = do
    payload ← w.rich_payload session outcome legacy
    parsed "V3_EXPORT_PRE_WRITE_PARSE_FAILED:" (w.parse_rich_export payload payload.encoded)
    ok payload

  abbrev pub verify_read_back : Payload → Option String → Result (Unit {0})
  verify_read_back payload none = err (domain_error "V3_EXPORT_READ_BACK_FAILED")
  verify_read_back payload (some content) = do
    parsed "V3_EXPORT_READ_BACK_PARSE_FAILED:" (w.parse_rich_export payload content)
    raise_if (w.sha256 content != w.sha256 payload.encoded)
        (domain_error "V3_EXPORT_READ_BACK_HASH_MISMATCH")

  abbrev pub export_row : BattleSession → Payload → String → MatchExportRecord
  export_row session payload now = record {
    session_id = session.session_id;
    match_id = session.match_id;
    schema_version = payload.schema_version;
    export_path = w.path_of session.match_id;
    sha256 = w.sha256 payload.encoded;
    exported_at_utc = now;
  }
