-- ===== src/Application/Lanes/Openings.antt =====
-- `export_match`, the reservation of a Selection attempt and the state that a job of a lane expects.
use maple_next.Base.{ℕ, String, Bool, true, false, Option, none, some}
use maple_next.TeamBuild.{TeamBuild}
use maple_next.Models.{BattleSession, MatchExportRecord}
use maple_next.Envelopes.{JobEnvelope}
use maple_next.SelectionRequest.{SelectionAdviceRequest}
use maple_next.Repository.{SelectionAttemptRow}
use maple_next.Repository.Keeps.{Keeps}
use maple_next.Repository.Lanes.{Bound, insert_job-Bound}
use maple_next.Application.Export.{ExportWorld, Files, Payload}
use maple_next.Application.Export.Run.{record_export, write_export, export_match}
use maple_next.Application.Gemini.{failure_reason, admit_attempt, reserve_gemini_selection}
use maple_next.Application.Lanes.{command_rules, job_for-BindsLane}

module _ (w : ExportWorld) where
  record_export-Bound :
      (files : Files) (current : BattleSession) (export : MatchExportRecord) (encoded : String)
      (existing : Option MatchExportRecord)
      → Keeps Bound (record_export w files current export encoded existing)
  record_export-Bound files current export encoded none = search command_rules depth 40
  record_export-Bound files current export encoded (some existing) = search command_rules depth 40

  write_export-Bound :
      (session : BattleSession) (payload : Payload) (now : String)
      (existing : Option MatchExportRecord)
      → Keeps Bound (write_export w session payload now existing)
  write_export-Bound session payload now none = search (command_rules, record_export-Bound) depth 40
  write_export-Bound session payload now (some existing) = search command_rules depth 40

  pub export_match-Bound : (now : String) → Keeps Bound (export_match w now)
  unfolding export_match
  export_match-Bound now = search (command_rules, write_export-Bound) depth 40

module _ (read_int : String → Option ℕ) where
  failure_reason-Bound :
      (session : BattleSession) (transient : Bool) (latest : Option JobEnvelope)
      → Keeps Bound (failure_reason read_int session transient latest)
  failure_reason-Bound session transient none = search command_rules
  failure_reason-Bound session transient (some job) = search command_rules

  admit_attempt-Bound :
      (session : BattleSession) (attempt : SelectionAttemptRow) (reserved : Bool)
      (latest : Option JobEnvelope)
      → Keeps Bound (admit_attempt read_int session attempt reserved latest)
  admit_attempt-Bound session attempt true latest = search command_rules depth 40
  admit_attempt-Bound session attempt false latest =
      search (command_rules, failure_reason-Bound) depth 40

  pub reserve_gemini_selection-Bound :
      (sha256 : TeamBuild → String) (payload_hash : SelectionAdviceRequest → String)
      (job_id command_id now : String)
      → Keeps Bound (reserve_gemini_selection read_int sha256 payload_hash job_id command_id now)
  unfolding reserve_gemini_selection
  reserve_gemini_selection-Bound sha256 payload_hash job_id command_id now =
      search (command_rules, admit_attempt-Bound, insert_job-Bound, job_for-BindsLane) depth 60
