-- ===== src/Runner/Loop.antt =====
-- src/sdlc/requirement_runner.py: `require_poll_interval`, `preflight` and
-- `run_requirement_runner`. `should_continue` answers True a number of times that is a parameter,
-- so every finite part of a run is covered; the reports are what `report` was called with.
pub mod Runs
pub mod Ended
use sdlc.Base.{
  ℕ, zero, suc, String, ◌⊎◌, inl, inr, Bool, true, false, Option, List, [], ◌∷◌, map, ltb,
  if◌then◌else◌,
}
use sdlc.Fibery.{Fallible, ok, failed}
use sdlc.Routes.{ProcessingStatus, not_processed, processing, succeeded, value}
use sdlc.Differences.{Detail}
use sdlc.Service.{
  slept, Action, History, Workspace, RequirementWorkers, pure, ◌>>=◌,
  validate_processing_status_field,
}
use sdlc.Runner.Report.{CycleOutcome, scope_invalid, is_waiting, CycleReport}
use sdlc.Runner.Scope.{ProjectScope}
use sdlc.Runner.Cycle.{ReadyStep, run_cycle}

pub data ℤ : Type 0 where
  pos negsuc : ℕ → ℤ

-- What a caller may give as an interval: a `bool`, an `int`, or a value of another type.
pub data Given : Type 0 where
  boolean : Bool → Given
  int : ℤ → Given
  other : Given

pub data IntervalError : Type 0 where
  type_error value_error : IntervalError

abbrev pub minimum_poll_interval : ℕ
minimum_poll_interval = 1

unfoldable pub require_poll_interval : Given → ℕ ⊎ IntervalError
require_poll_interval (boolean b) = inr type_error
require_poll_interval other = inr type_error
require_poll_interval (int (negsuc n)) = inr value_error
require_poll_interval (int (pos n)) = if ltb n minimum_poll_interval then inr value_error else inl n

-- PROCESSING_STATUS_OPTIONS
abbrev pub processing_status_options : List String
unfolding value
processing_status_options =
    map value (not_processed ∷ processing ∷ succeeded ∷ ProcessingStatus.failed ∷ [])

-- How a call of the runner ended, and whether `on_started` was called before.
pub data Ending : Type 0 where
  interval_refused : IntervalError → Ending
  preflight_refused : String → Ending
  stopped : Ending
  scope_lost : List Detail → Ending

abbrev pub is_scope_invalid : CycleOutcome → Bool
is_scope_invalid scope_invalid = true
is_scope_invalid _ = false

-- `if cycle.should_wait: sleep(interval)`
unfoldable pub pause : ℕ → CycleReport → History → History
unfolding is_waiting
pause interval cycle h = if is_waiting cycle.outcome then slept interval ∷ h else h

abbrev add_report : CycleReport → List CycleReport × Ending → List CycleReport × Ending
add_report cycle (reports, ending) = (cycle ∷ reports, ending)

module _ (workspace : Workspace) (workers : RequirementWorkers) (ready : Option ReadyStep)
    (scope : Option ProjectScope) where
  module _ (interval : ℕ) where
    after_cycle :
        CycleReport → Action (List CycleReport × Ending) → Action (List CycleReport × Ending)
    unfolding pause
    after_cycle cycle next =
        if is_scope_invalid cycle.outcome
        then pure (cycle ∷ [], scope_lost cycle.details)
        else (λ h. let (rest, h') = next (pause interval cycle h) in (add_report cycle rest, h'))

    -- The loop, while `should_continue` answers True `n` more times.
    unfoldable pub cycles : ℕ → Action (List CycleReport × Ending)
    unfolding after_cycle run_cycle
    cycles zero = pure ([], stopped)
    cycles (suc n) = do
      cycle ← run_cycle workspace workers ready scope
      after_cycle cycle (cycles n)

    preflighted : ℕ → Fallible (Unit {0}) → Action (List CycleReport × Ending)
    unfolding cycles
    preflighted n (failed e) = pure ([], preflight_refused e)
    preflighted n (ok _) = cycles n

  start_with : ℕ → ℕ ⊎ IntervalError → Action (List CycleReport × Ending)
  unfolding preflighted validate_processing_status_field
  start_with n (inr refused) = pure ([], interval_refused refused)
  start_with n (inl interval) = do
    checked ← validate_processing_status_field workspace processing_status_options
    preflighted interval n checked

  unfoldable pub run_requirement_runner : Given → ℕ → Action (List CycleReport × Ending)
  unfolding start_with require_poll_interval
  run_requirement_runner given n = start_with n (require_poll_interval given)
