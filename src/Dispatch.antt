-- ===== src/Dispatch.antt =====
-- src/sdlc/requirement_dispatcher.py, execution: `dispatch` runs the one worker of a selected
-- route and classifies its result. A DispatchResult is kept without its message, a text that its
-- other fields and the selection determine; its details are `Detail`s.
pub mod Promised
pub mod Progression
pub mod Contract
use sdlc.Base.{
  String, Bool, true, false, Option, none, some, List, [], ◌∷◌, map, is_text, if◌then◌else◌,
}
use sdlc.Fibery.{Requirement, Fallible, ok, failed}
use sdlc.Results.{WorkerResult, raw_processed, is_normal, report_lines}
use sdlc.Routes.{Worker, raw_process, Route, RouteSelection}
use sdlc.Differences.{Detail, message, route_drift}
use sdlc.Service.{Action, Workspace, RequirementWorkers, pure, ◌>>=◌, read_requirement, run}
use sdlc.Candidates.{preflight, progress_all}

pub data DispatchOutcome : Type 0 where
  route_completed no_route stale_route worker_failed postcondition_not_reached : DispatchOutcome
  candidate_progression_conflict candidate_progression_failed : DispatchOutcome
  partial_candidate_progression fibery_read_failed : DispatchOutcome

pub record DispatchResult : Type 0 where
  pub outcome : DispatchOutcome
  pub selection : RouteSelection
  pub worker_result : Option WorkerResult
  pub state_after : Option String
  pub progressed : List String
  pub details : List Detail

-- `raw_result.candidates`; only a RAW result has them.
unfoldable pub candidates_of : WorkerResult → List String
candidates_of (raw_processed r) = r.candidates
candidates_of _ = []

abbrev is_raw : Worker → Bool
is_raw raw_process = true
is_raw _ = false

abbrev pub state_of : Option Requirement → Option String
state_of none = none
state_of (some r) = r.state

module _ (workspace : Workspace) (selection : RouteSelection) where
  -- A result before any worker was called.
  abbrev pub unrun : DispatchOutcome → List Detail → DispatchResult
  unrun outcome details = record {
    outcome = outcome;
    selection = selection;
    worker_result = none;
    state_after = none;
    progressed = [];
    details = details;
  }

  abbrev pub after_run :
      DispatchOutcome → WorkerResult → Option String → List String → List Detail → DispatchResult
  after_run outcome result state_after progressed details = record {
    outcome = outcome;
    selection = selection;
    worker_result = some result;
    state_after = state_after;
    progressed = progressed;
    details = details;
  }

  module _ (result : WorkerResult) (state_after : Option String) where
    progress_outcome : List String × Option Detail → DispatchResult
    progress_outcome (progressed, none) = after_run route_completed result state_after progressed []
    progress_outcome ([], some failure) =
        after_run candidate_progression_failed result state_after [] (failure ∷ [])
    progress_outcome (name ∷ names, some failure) =
        after_run partial_candidate_progression result state_after (name ∷ names) (failure ∷ [])

    progress_preflighted : Fallible (List Requirement × List Detail) → Action DispatchResult
    unfolding progress_outcome
    progress_preflighted (failed e) =
        pure (after_run fibery_read_failed result state_after [] (message e ∷ []))
    progress_preflighted (ok (candidates, conflict ∷ conflicts)) =
        pure (after_run candidate_progression_conflict result state_after [] (conflict ∷ conflicts))
    progress_preflighted (ok (candidates, [])) = do
      progress ← progress_all workspace candidates []
      pure (progress_outcome progress)

    -- `_progress_candidates`
    unfoldable pub progress_candidates : Action DispatchResult
    unfolding progress_preflighted candidates_of
    progress_candidates = do
      verdicts ← preflight workspace selection.requirement (candidates_of result)
      progress_preflighted verdicts

  module _ (route : Route) (result : WorkerResult) where
    check_after : Fallible (Option Requirement) → Action DispatchResult
    unfolding progress_candidates
    check_after (failed e) = pure (after_run fibery_read_failed result none [] (message e ∷ []))
    check_after (ok after) =
        let state_after = state_of after in
        if is_text state_after route.completed_state
        then (if is_raw route.worker
            then progress_candidates result state_after
            else pure (after_run route_completed result state_after [] []))
        else pure (after_run postcondition_not_reached result state_after [] [])

    -- `_check_postcondition`: complete only in the State that the worker owns.
    unfoldable pub check_postcondition : Action DispatchResult
    unfolding check_after read_requirement
    check_postcondition = do
      after ← read_requirement workspace selection.requirement.id
      check_after after

  module _ (workers : RequirementWorkers) (route : Route) where
    classify : WorkerResult → Action DispatchResult
    unfolding check_postcondition is_normal report_lines
    classify result =
        if is_normal result
        then check_postcondition route result
        else pure (after_run worker_failed result none [] (map message (report_lines result)))

    run_if_unchanged : List Detail → Action DispatchResult
    unfolding run classify
    run_if_unchanged (d ∷ drift) = pure (unrun stale_route (d ∷ drift))
    run_if_unchanged [] = do
      result ← run workers route.worker selection.requirement.id
      classify result

    run_reread : Fallible (Option Requirement) → Action DispatchResult
    unfolding run_if_unchanged route_drift
    run_reread (failed e) = pure (unrun fibery_read_failed (message e ∷ []))
    run_reread (ok current) = run_if_unchanged (route_drift selection.requirement current)

  dispatch_route : RequirementWorkers → Option Route → Action DispatchResult
  unfolding run_reread read_requirement
  dispatch_route workers none = pure (unrun no_route [])
  dispatch_route workers (some route) = do
    current ← read_requirement workspace selection.requirement.id
    run_reread workers route current

unfoldable pub dispatch : Workspace → RequirementWorkers → RouteSelection → Action DispatchResult
unfolding dispatch_route
dispatch workspace workers selection = dispatch_route workspace selection workers selection.route
