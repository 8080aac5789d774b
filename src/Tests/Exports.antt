-- ===== src/Tests/Exports.antt =====
-- The theorems on the export of a match and on the hand-over of a Selection attempt at concrete inputs.
use maple_next.Base.{
  String, false, true, ◌≡◌, ◌↔◌, refl, none, some, [], ◌∷◌, ok, ◌==◌, string_eq, if◌then◌else◌,
}
use maple_next.Models.{MatchExportRecord}
use maple_next.Repository.{Repository, SelectionAttemptRow}
use maple_next.Repository.Gemini.{replace_gemini_selection_attempt_reservation}
use maple_next.Repository.Handover.{replace-once}
use maple_next.Application.Export.{ExportWorld, Files, verify_existing_export}
use maple_next.Application.Export.Verified.{IsIntact, verify_existing_export_iff}
use maple_next.Tests.Turns.{apart}
use maple_next.Tests.Commands.{empty}

abbrev exported_files : Files
exported_files path = if path == "maple-match-m1.json" then some "bytes" else none

abbrev world : ExportWorld
world = record {
  inside_repository = false;
  path_of = λ match_id. "maple-match-m1.json";
  sha256 = λ content. content;
  is_hexadecimal = λ text. true;
  exists = λ path. true;
  files = exported_files;
  atomic_write = λ path content. none;
  legacy_payload = λ session outcome. ok (record { schema_version = "v2"; encoded = "bytes" });
  uses_rich_state = λ session. false;
  rich_payload = λ session outcome payload. ok payload;
  parse_rich_export = λ payload content. none;
}

abbrev export : MatchExportRecord
export = record {
  session_id = "s1";
  match_id = "m1";
  schema_version = "v2";
  export_path = "maple-match-m1.json";
  sha256 = "bytes";
  exported_at_utc = "2026-07-01T00:00:00Z";
}

verify_existing_export_iff_example :
    (verify_existing_export world exported_files export (some "bytes") ≡ ok tt)
    ↔ ((content : String) × IsIntact world exported_files export (some "bytes") content)
verify_existing_export_iff_example =
    verify_existing_export_iff world exported_files export (some "bytes")

-- The export of the example is intact.
export_accepted : verify_existing_export world exported_files export (some "bytes") ≡ ok tt
unfolding verify_existing_export
export_accepted = refl

abbrev attempt : SelectionAttemptRow
attempt = record {
  session_id = "s1";
  match_id = "m1";
  generation = 1;
  battle_revision = 2;
  reviewed_selection_id = "facts";
  job_id = "j1";
}

abbrev reserved : Repository
reserved = record empty { selection_attempts = attempt ∷ [] }

replace-once_example :
    (replace_gemini_selection_attempt_reservation attempt "j1" "j3"
      (replace_gemini_selection_attempt_reservation attempt "j1" "j2" reserved).1).0
    ≡ ok false
replace-once_example = replace-once attempt "j1" "j2" (apart "j2" "j1" refl) "j3" reserved
