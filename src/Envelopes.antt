-- ===== src/Envelopes.antt =====
-- src/maple_next/workers/contracts/models.py: the envelopes of a job and of a worker's result.
-- A payload is a JSON value.
use maple_next.Base.{ℕ, String, Bool, Option, none, some, ◌==◌, string_eq, if◌then◌else◌}
use maple_next.Enums.{BattleState, JobType, JobStatus}

pub record JobEnvelope : Type 0 where
  pub contract_version : String
  pub job_id : String
  pub command_id : String
  pub job_type : JobType
  pub session_id : String
  pub match_id : String
  pub generation : ℕ
  pub turn_number : Option ℕ
  pub base_battle_revision : ℕ
  pub expected_state : BattleState
  pub input_snapshot_id : String
  pub request_payload_hash : String
  pub human_authorized_at : String
  pub status : JobStatus

-- JSON as a payload holds it; `negative n` is -(n + 1), and there are no fractions.
mutual
  pub data Json : Type 0 where
    null : Json
    boolean : Bool → Json
    number : ℕ → Json
    negative : ℕ → Json
    text : String → Json
    array : Items → Json
    object : Members → Json

  pub data Items : Type 0 where
    nil : Items
    cons : Json → Items → Items

  pub data Members : Type 0 where
    end : Members
    member : String → Json → Members → Members

-- `payload[name]`; the keys of a dict are distinct.
unfoldable pub lookup_member : String → Members → Option Json
lookup_member name Members.end = none
lookup_member name (Members.member key value rest) =
    if key == name then some value else lookup_member name rest

pub record ResultEnvelope : Type 0 where
  pub contract_version : String
  pub result_id : String
  pub job_id : String
  pub command_id : String
  pub job_type : JobType
  pub session_id : String
  pub match_id : String
  pub generation : ℕ
  pub turn_number : Option ℕ
  pub base_battle_revision : ℕ
  pub expected_state : BattleState
  pub input_snapshot_id : String
  pub request_payload_hash : String
  pub payload : Json
  pub source_type : String
  pub model : String
