-- ===== src/Runner/Report.antt =====
-- src/sdlc/requirement_runner.py: `CycleOutcome` and `CycleReport`. A report is kept without its
-- message, a text that its other fields determine, and without the record of the Ready step.
use sdlc.Base.{Bool, true, false, Option, List}
use sdlc.Fibery.{Requirement}
use sdlc.Differences.{Detail}
use sdlc.Dispatch.{DispatchResult}

pub data CycleOutcome : Type 0 where
  idle poll_failed candidate_read_failed candidate_changed claim_failed : CycleOutcome
  claim_not_confirmed succeeded handed_off reset_not_observed failed partial : CycleOutcome
  ready_decided ready_escalated ready_withdrawn ready_uncertain ready_failed : CycleOutcome
  scope_invalid : CycleOutcome

-- WAITING_OUTCOMES
unfoldable pub is_waiting : CycleOutcome → Bool
is_waiting idle = true
is_waiting poll_failed = true
is_waiting candidate_read_failed = true
is_waiting claim_failed = true
is_waiting claim_not_confirmed = true
is_waiting ready_withdrawn = true
is_waiting ready_failed = true
is_waiting _ = false

-- NORMAL_OUTCOMES
unfoldable pub is_normal_outcome : CycleOutcome → Bool
is_normal_outcome idle = true
is_normal_outcome candidate_changed = true
is_normal_outcome succeeded = true
is_normal_outcome handed_off = true
is_normal_outcome ready_decided = true
is_normal_outcome ready_escalated = true
is_normal_outcome ready_withdrawn = true
is_normal_outcome _ = false

pub record CycleReport : Type 0 where
  pub outcome : CycleOutcome
  pub requirement : Option Requirement
  pub dispatch_result : Option DispatchResult
  pub details : List Detail

abbrev pub report :
    CycleOutcome → Option Requirement → Option DispatchResult → List Detail → CycleReport
report outcome requirement result details = record {
  outcome = outcome;
  requirement = requirement;
  dispatch_result = result;
  details = details;
}
