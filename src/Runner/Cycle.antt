-- ===== src/Runner/Cycle.antt =====
-- src/sdlc/requirement_runner.py: `run_cycle`, one poll and then at most one claimed and
-- dispatched Requirement. The optional Ready step is a parameter: what it answers after a history.
pub mod Shape
use sdlc.Base.{String, ◌⊎◌, inl, inr, Option, none, some, List, [], ◌∷◌, map}
use sdlc.Fibery.{Requirement, Fallible, ok, failed}
use sdlc.Routes.{not_processed, value, routes, RouteSelection}
use sdlc.Differences.{message}
use sdlc.Service.{
  offered_ready, forgot, Action, History, Workspace, RequirementWorkers, pure, ◌>>=◌,
  find_eligible_requirements,
}
use sdlc.Dispatch.{dispatch}
use sdlc.Runner.Report.{CycleReport, report, idle, poll_failed}
use sdlc.Runner.Scope.{ProjectScope, scope_refusal}
use sdlc.Runner.Selection.{lowest_eligible, fresh_selection}
use sdlc.Runner.Claim.{claim}
use sdlc.Runner.Finalize.{finalize_cycle}

-- MACHINE_ROUTES, the keys of ROUTES.
abbrev pub machine_routes : List (String × String)
machine_routes = map (λ item. item.0) routes

abbrev pub ReadyStep : Type 0
ReadyStep = History → Option CycleReport

abbrev or_idle : Option CycleReport → CycleReport
or_idle none = report idle none none []
or_idle (some decided) = decided

abbrev pub scope_id : Option ProjectScope → Option String
scope_id none = none
scope_id (some s) = some s.project_id

-- `ready_decider.forget(claimed.id)`, where there is a Ready step.
forget : Option ReadyStep → String → History → History
forget none id h = h
forget (some _) id h = forgot id ∷ h

offer_ready : Option ReadyStep → Action CycleReport
offer_ready none h = (or_idle none, h)
offer_ready (some decider) h = (or_idle (decider h), offered_ready ∷ h)

module _ (workspace : Workspace) (workers : RequirementWorkers) (ready : Option ReadyStep)
    (scope : Option ProjectScope) where
  dispatch_claimed : RouteSelection → Requirement → Option CycleReport → Action CycleReport
  unfolding forget dispatch finalize_cycle
  dispatch_claimed selection claimed (some refused) = pure refused
  dispatch_claimed selection claimed none = λ h.
      let (result, h') = dispatch workspace workers selection (forget ready claimed.id h) in
      finalize_cycle workspace claimed result h'

  after_claim : RouteSelection → Requirement ⊎ CycleReport → Action CycleReport
  unfolding dispatch_claimed scope_refusal
  after_claim selection (inr refused) = pure refused
  after_claim selection (inl claimed) = do
    refused ← scope_refusal workspace scope claimed
    dispatch_claimed selection claimed refused

  claim_in_scope : RouteSelection → Option CycleReport → Action CycleReport
  unfolding after_claim claim
  claim_in_scope selection (some refused) = pure refused
  claim_in_scope selection none = do
    claimed ← claim workspace selection.requirement scope
    after_claim selection claimed

  after_selection : Requirement → RouteSelection ⊎ CycleReport → Action CycleReport
  unfolding claim_in_scope scope_refusal
  after_selection candidate (inr changed) = pure changed
  after_selection candidate (inl selection) = do
    refused ← scope_refusal workspace scope candidate
    claim_in_scope selection refused

  take_candidate : Option Requirement → Action CycleReport
  unfolding after_selection offer_ready fresh_selection
  take_candidate none = offer_ready ready
  take_candidate (some candidate) = do
    selection ← fresh_selection candidate scope workspace
    after_selection candidate selection

  after_poll : Fallible (List Requirement) → Action CycleReport
  unfolding take_candidate lowest_eligible
  after_poll (failed e) = pure (report poll_failed none none (message e ∷ []))
  after_poll (ok polled) = take_candidate (lowest_eligible polled)

  unfoldable pub run_cycle : Action CycleReport
  unfolding after_poll find_eligible_requirements value
  run_cycle = do
    polled ←
        find_eligible_requirements workspace machine_routes (value not_processed) (scope_id scope)
    after_poll polled
