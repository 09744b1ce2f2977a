-- ===== src/Runner/Finalize.antt =====
-- src/sdlc/requirement_runner.py: `finalize_cycle` with `_settle`, `_observe_handoff` and
-- `_partial`, which leave the visible status true after the dispatch of a confirmed claim.
pub mod Settled
use sdlc.Base.{String, Option, none, some, List, [], ◌∷◌, is_text, if◌then◌else◌}
use sdlc.Fibery.{Requirement, Fallible, ok}
use sdlc.Fibery
use sdlc.Routes.{
  ProcessingStatus, not_processed, processing, value, Worker, standard_process, Route,
}
use sdlc.Routes
use sdlc.Differences.{
  Detail, write_failed, no_route_dispatched, unestablished, binding_fields, cycle_fields,
}
use sdlc.Service.{Action, Workspace, pure, ◌>>=◌, set_processing_status}
use sdlc.Dispatch.{
  DispatchOutcome, route_completed, worker_failed, postcondition_not_reached,
  candidate_progression_conflict, candidate_progression_failed, partial_candidate_progression,
  DispatchResult,
}
use sdlc.Runner.Report.{
  CycleOutcome, CycleReport, report, succeeded, failed, partial, handed_off, reset_not_observed,
}
use sdlc.Runner.Claim.{Observation, observe}

-- `a or b`, where a record is always true.
abbrev or_else : Option Requirement → Requirement → Requirement
or_else none b = b
or_else (some a) b = a

abbrev settled_outcome : ProcessingStatus → CycleOutcome
settled_outcome ProcessingStatus.succeeded = succeeded
settled_outcome _ = failed

module _ (workspace : Workspace) (claimed : Requirement) (result : DispatchResult) where
  unfoldable pub partial_report : Requirement → List Detail → CycleReport
  partial_report requirement conflicts = report partial (some requirement) (some result) conflicts

  module _ (state : String) (final : ProcessingStatus) where
    settle_confirmed : Requirement → Observation → CycleReport
    unfolding partial_report
    settle_confirmed current (some settled, []) =
        report (settled_outcome final) (some settled) (some result) []
    settle_confirmed current (settled, conflicts) =
        partial_report (or_else settled current) conflicts

    settle_written : Requirement → Fallible (Unit {0}) → Action CycleReport
    unfolding partial_report settle_confirmed observe
    settle_written current (Fallible.failed e) =
        pure (partial_report current (write_failed (value final) e ∷ []))
    settle_written current (ok _) = do
      settled ← observe workspace claimed (some state) final cycle_fields
      pure (settle_confirmed current settled)

    settle_observed : Observation → Action CycleReport
    unfolding partial_report settle_written set_processing_status value
    settle_observed (some current, []) = do
      written ← set_processing_status workspace claimed.id (value final)
      settle_written current written
    settle_observed (current, conflicts) = pure (partial_report (or_else current claimed) conflicts)

    -- `_settle`: the final status, over this cycle's own Processing only, then read back.
    unfoldable pub settle : Action CycleReport
    unfolding settle_observed observe
    settle = do
      current ← observe workspace claimed (some state) processing cycle_fields
      settle_observed current

  handoff_observed : Observation → CycleReport
  unfolding partial_report value
  handoff_observed (some current, []) =
      if is_text current.processing_status (value not_processed)
      then report handed_off (some current) (some result) []
      else report reset_not_observed (some current) (some result) []
  handoff_observed (current, conflicts) = partial_report (or_else current claimed) conflicts

  -- `_observe_handoff`: looks at the new Review cycle and writes nothing.
  unfoldable pub observe_handoff : String → Action CycleReport
  unfolding handoff_observed observe
  observe_handoff review_state = do
    current ← observe workspace claimed (some review_state) not_processed binding_fields
    pure (handoff_observed current)

  completed : Worker → String → Action CycleReport
  unfolding observe_handoff settle
  completed standard_process state = observe_handoff state
  completed _ state = settle state ProcessingStatus.succeeded

  finalize_route : Route → DispatchOutcome → Action CycleReport
  unfolding completed settle partial_report
  finalize_route route route_completed = completed route.worker route.completed_state
  finalize_route route worker_failed = settle route.state ProcessingStatus.failed
  finalize_route route postcondition_not_reached = settle route.state ProcessingStatus.failed
  finalize_route route candidate_progression_conflict =
      settle route.completed_state ProcessingStatus.failed
  finalize_route route candidate_progression_failed =
      settle route.completed_state ProcessingStatus.failed
  finalize_route route partial_candidate_progression =
      settle route.completed_state ProcessingStatus.failed
  finalize_route route _ = pure (partial_report claimed (unestablished ∷ []))

  finalize_selected : Option Route → Action CycleReport
  unfolding finalize_route partial_report
  finalize_selected none = pure (partial_report claimed (no_route_dispatched ∷ []))
  finalize_selected (some route) = finalize_route route result.outcome

unfoldable pub finalize_cycle : Workspace → Requirement → DispatchResult → Action CycleReport
unfolding finalize_selected
finalize_cycle workspace claimed result =
    finalize_selected workspace claimed result result.selection.route
