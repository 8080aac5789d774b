-- ===== src/Application/Export/Verified.antt =====
-- What `_verify_existing_export` of src/maple_next/application/match_service.py accepts.
use maple_next.Base.{
  String, true, ◌≡◌, ◌↔◌, refl, Option, none, some, ok, raise_if, >>=-eq-ok, arith, ◌!=◌, string_eq,
}
use maple_next.Models.{MatchExportRecord}
use maple_next.Application.Export.{
  ExportWorld, Files, content_matches, verify_content, verify_existing_export,
}

module _ (w : ExportWorld) where
  -- The file stands where the export of the match belongs, its digest is the recorded one, and it has
  -- the expected bytes, if there are any.
  pub record IsIntact (files : Files) (export : MatchExportRecord) (expected : Option String)
      (content : String) : Type 0 where
    pub path : export.export_path ≡ w.path_of export.match_id
    pub readable : files export.export_path ≡ some content
    pub digest : w.sha256 content ≡ export.sha256
    pub bytes : content_matches w expected content ≡ true

  checked :
      (export : MatchExportRecord) (expected found : Option String)
      → verify_content w export expected found ≡ ok tt
      → (content : String) × (found ≡ some content)
        × (w.sha256 content ≡ export.sha256)
        × (content_matches w expected content ≡ true)
  checked export expected none h = cc
  checked export expected (some content) h = (
    content,
    refl,
    ground (arith, string_eq.beq_iff (w.sha256 content) export.sha256),
    ground arith,
  )

  intact-content :
      (export : MatchExportRecord) (expected : Option String) (content : String)
      → w.sha256 content ≡ export.sha256
      → content_matches w expected content ≡ true
      → verify_content w export expected (some content) ≡ ok tt
  intact-content export expected content d b =
      ground (arith, string_eq.beq_iff (w.sha256 content) export.sha256)

  -- An existing export is accepted exactly if it is intact.
  pub verify_existing_export_iff :
      (files : Files) (export : MatchExportRecord) (expected : Option String)
      → (verify_existing_export w files export expected ≡ ok tt)
        ↔ ((content : String) × IsIntact files export expected content)
  unfolding verify_existing_export
  verify_existing_export_iff files export expected = (
    λ h.
        let (u, path, rest) =
          >>=-eq-ok (raise_if (export.export_path != w.path_of export.match_id) _) _ h in
        let (content, readable, digest, bytes) =
          checked export expected (files export.export_path) rest in
        (
          content,
          record {
            path = ground (arith, string_eq.beq_iff export.export_path (w.path_of export.match_id));
            readable = readable;
            digest = digest;
            bytes = bytes;
          },
        ),
    λ (content, i).
        let same = (string_eq.beq_iff export.export_path (w.path_of export.match_id)).1 i.path in
        rw (same, i.readable) (intact-content export expected content i.digest i.bytes),
  )
