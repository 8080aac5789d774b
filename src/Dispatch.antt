-- ===== src/Dispatch.antt =====
-- src/maple_next/providers/turn_boundary.py: the policy that decides whether a Turn advice job is made.
use maple_next.Base.{String, Bool, true, false, not, if◌then◌else◌, ◌≡◌, ◌↔◌, arith}

pub data DispatchTrigger : Type 0 where
  trusted_human_activation window_open render refresh poll timer : DispatchTrigger
  state_change programmatic retry resend fallback : DispatchTrigger

pub record DispatchDecision : Type 0 where
  pub allowed : Bool
  pub reason_code : String

abbrev deny : String → DispatchDecision
deny reason = record { allowed = false; reason_code = reason }

abbrev pub is_trusted : DispatchTrigger → Bool
is_trusted trusted_human_activation = true
is_trusted _ = false

unfoldable pub decide_turn_advice_dispatch : DispatchTrigger → Bool → Bool → Bool → DispatchDecision
decide_turn_advice_dispatch trigger is_current_binding has_pending_job attempt_consumed =
    if not (is_trusted trigger)
    then deny "DENY_TRIGGER_NOT_TRUSTED_HUMAN_ACTIVATION"
    else if not is_current_binding
    then deny "DENY_BINDING_NOT_CURRENT"
    else if has_pending_job
    then deny "DENY_PENDING_JOB_EXISTS"
    else if attempt_consumed
    then deny "DENY_ATTEMPT_ALREADY_CONSUMED"
    else record { allowed = true; reason_code = "ALLOW_CREATE_ONE_JOB" }

-- A job is made exactly when a trusted human activation meets a current binding, no pending job and no
-- consumed attempt; every other trigger is refused whatever the rest says.
pub dispatch_iff_trusted :
    (trigger : DispatchTrigger) (is_current_binding has_pending_job attempt_consumed : Bool)
    → ((decide_turn_advice_dispatch trigger is_current_binding has_pending_job
          attempt_consumed).allowed
        ≡ true)
      ↔ ((trigger ≡ trusted_human_activation)
          × (is_current_binding ≡ true)
          × (has_pending_job ≡ false)
          × (attempt_consumed ≡ false))
unfolding decide_turn_advice_dispatch
dispatch_iff_trusted trigger is_current_binding has_pending_job attempt_consumed = ground arith
