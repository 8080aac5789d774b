-- ===== src/Enums.antt =====
-- src/maple_next/domain/enums.py: the canonical enumerations, a constructor for each member.
use maple_next.Base.{Bool, true, false, Eq, discrete_eq}

pub data BattleState : Type 0 where
  selection_open selection_advice_ready battle_ready turn_capture_pending : BattleState
  turn_review_required turn_reviewed turn_recorded match_ended match_exported aborted : BattleState

pub data MatchOutcome : Type 0 where
  win lose : MatchOutcome

pub data HpBucket : Type 0 where
  zero one_to_ten eleven_to_twenty twenty_one_to_thirty thirty_one_to_forty : HpBucket
  forty_one_to_fifty fifty_one_to_sixty sixty_one_to_seventy seventy_one_to_eighty : HpBucket
  eighty_one_to_ninety ninety_one_to_ninety_nine full unknown : HpBucket

pub data ActionType : Type 0 where
  move switch : ActionType

pub data ActionOrder : Type 0 where
  self_first opponent_first unknown : ActionOrder

pub data JobType : Type 0 where
  capture ocr selection_advice turn_advice : JobType

pub data JobStatus : Type 0 where
  queued in_flight succeeded failed timed_out cancelled interrupted delivery_unknown : JobStatus

pub data ResultDisposition : Type 0 where
  applied stale_rejected invalid_rejected duplicate_ignored : ResultDisposition

-- `JobStatus.is_terminal`
unfoldable pub is_terminal : JobStatus → Bool
is_terminal succeeded = true
is_terminal failed = true
is_terminal timed_out = true
is_terminal cancelled = true
is_terminal interrupted = true
is_terminal delivery_unknown = true
is_terminal _ = false

unfoldable pub BattleState-discrete : Discrete BattleState
BattleState-discrete = hlevel

unfoldable pub HpBucket-discrete : Discrete HpBucket
HpBucket-discrete = hlevel

unfoldable pub ActionType-discrete : Discrete ActionType
ActionType-discrete = hlevel

unfoldable pub JobType-discrete : Discrete JobType
JobType-discrete = hlevel

unfoldable pub JobStatus-discrete : Discrete JobStatus
JobStatus-discrete = hlevel

instance abbrev pub state_eq : Eq BattleState
state_eq = discrete_eq BattleState-discrete

instance abbrev pub hp_bucket_eq : Eq HpBucket
hp_bucket_eq = discrete_eq HpBucket-discrete

instance abbrev pub action_type_eq : Eq ActionType
action_type_eq = discrete_eq ActionType-discrete

instance abbrev pub job_type_eq : Eq JobType
job_type_eq = discrete_eq JobType-discrete

instance abbrev pub job_status_eq : Eq JobStatus
job_status_eq = discrete_eq JobStatus-discrete
