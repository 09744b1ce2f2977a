-- ===== src/Runner/Workers.antt =====
-- `run_cycle` and `run_requirement_runner` of requirement_runner.py: how many workers they run.
use sdlc.Base.{
  ℕ, suc, ◌+◌, ◌≤◌, String, ◌≡◌, refl, ap, ◌∙◌, inl, inr, Option, List, [], ◌∷◌, ◌++◌, length,
  arith,
}
use sdlc.Fibery.{Requirement}
use sdlc.Results.{WorkerResult}
use sdlc.Routes.{process_state, Route, RouteSelection}
use sdlc.Service.{History, Workspace, RequirementWorkers}
use sdlc.Service.Effects.{Effect, state_write, status_write, worker_run, effects}
use sdlc.Candidates.Moved.{writes}
use sdlc.Dispatch.{
  DispatchOutcome, route_completed, no_route, stale_route, worker_failed, postcondition_not_reached,
  candidate_progression_conflict, candidate_progression_failed, partial_candidate_progression,
  fibery_read_failed, DispatchResult, candidates_of,
}
use sdlc.Dispatch.Promised.{Promise}
use sdlc.Dispatch.Contract.{Meaning}
use sdlc.Dispatch.Contract.Whole.{Contract}
use sdlc.Runner.Report.{
  CycleOutcome, CycleReport, idle, poll_failed, candidate_read_failed, candidate_changed,
  claim_failed, claim_not_confirmed, succeeded, handed_off, reset_not_observed, failed, partial,
  ready_decided, ready_escalated, ready_withdrawn, ready_uncertain, ready_failed, scope_invalid,
}
use sdlc.Runner.Scope.{ProjectScope}
use sdlc.Runner.Finalize.Settled.Truth.{Final}
use sdlc.Runner.Cycle.{ReadyStep, run_cycle}
use sdlc.Runner.Cycle.Shape.Whole.{Cycles, run_cycle-Cycles}
use sdlc.Runner.Loop.{Ending, cycles}
use sdlc.Runner.Loop.Runs.{Paused, waits, goes_on, Steps, ends, loses, steps, cycles-StepsTo}

-- How many of the effects are runs of a worker.
abbrev pub runs : List Effect → ℕ
runs [] = 0
runs (worker_run w id ∷ es) = suc (runs es)
runs (state_write id s ∷ es) = runs es
runs (status_write id s ∷ es) = runs es

runs-writes : (cs : List Requirement) (es : List Effect) → runs (writes cs es) ≡ runs es
runs-writes [] es = refl
runs-writes (c ∷ cs) es = runs-writes cs (state_write c.id process_state ∷ es)

-- The two histories show as many runs of a worker.
abbrev SameRuns : History → History → Type 0
SameRuns h h' = runs (effects h') ≡ runs (effects h)

module _ (workspace : Workspace) where
  Promise-runs :
      (raw : Requirement) (names : List String) (h h' : History) (old : List Effect)
      (outcome : DispatchOutcome) (progressed : List String)
      → Promise workspace raw names h h' old outcome progressed
      → runs (effects h') ≡ runs old
  Promise-runs raw names h h' old route_completed progressed (cs, a, m, n, e) =
      ap runs e ∙ runs-writes cs old
  Promise-runs raw names h h' old candidate_progression_conflict progressed ((n, e), _) = ap runs e
  Promise-runs raw names h h' old fibery_read_failed progressed ((n, e), _) = ap runs e
  Promise-runs raw names h h' old candidate_progression_failed progressed (c, rest, a, u, n, e) =
      ap runs e
  Promise-runs raw names h h' old partial_candidate_progression progressed
        (cs, c, rest, a, u, n, m, p, e) =
      ap runs e ∙ runs-writes (cs ++ c ∷ []) old
  Promise-runs raw names h h' old no_route progressed p = absurd p
  Promise-runs raw names h h' old stale_route progressed p = absurd p
  Promise-runs raw names h h' old worker_failed progressed p = absurd p
  Promise-runs raw names h h' old postcondition_not_reached progressed p = absurd p

  Meaning-runs :
      (selection : RouteSelection) (route : Route) (result : WorkerResult) (h h' : History)
      (outcome : DispatchOutcome) (d : DispatchResult)
      → Meaning workspace selection route result h h' outcome d
      → SameRuns h h'
  Meaning-runs selection route result h h' worker_failed d (n, e) = ap runs e
  Meaning-runs selection route result h h' postcondition_not_reached d (n, s, r, e) = ap runs e
  Meaning-runs selection route result h h' fibery_read_failed d ((n, e), _) = ap runs e
  Meaning-runs selection route result h h' route_completed d (reached, inl (w, e)) = ap runs e
  Meaning-runs selection route result h h' route_completed d (reached, inr (raw, promise)) =
      Promise-runs selection.requirement (candidates_of result) h h' (effects h) route_completed
        d.progressed promise
  Meaning-runs selection route result h h' candidate_progression_conflict d
        (reached, (raw, promise)) =
      Promise-runs selection.requirement (candidates_of result) h h' (effects h)
        candidate_progression_conflict d.progressed promise
  Meaning-runs selection route result h h' candidate_progression_failed d
        (reached, (raw, promise)) =
      Promise-runs selection.requirement (candidates_of result) h h' (effects h)
        candidate_progression_failed d.progressed promise
  Meaning-runs selection route result h h' partial_candidate_progression d
        (reached, (raw, promise)) =
      Promise-runs selection.requirement (candidates_of result) h h' (effects h)
        partial_candidate_progression d.progressed promise
  Meaning-runs selection route result h h' no_route d m = absurd m
  Meaning-runs selection route result h h' stale_route d m = absurd m

  Contract-runs :
      (selection : RouteSelection) (workers : RequirementWorkers) (h h' : History)
      (d : DispatchResult)
      → Contract workspace selection workers h (d, h')
      → runs (effects h') ≤ suc (runs (effects h))
  Contract-runs selection workers h h' d (inl (_, _, e)) =
      let same : SameRuns h h' = ap runs e in omega (arith, same)
  Contract-runs selection workers h h' d (inr ran) =
      let same : SameRuns ran.start h' =
        Meaning-runs selection ran.route ran.result ran.start h' d.outcome d ran.meaning.1 in
      let one : runs (effects ran.start) ≡ suc (runs (effects h)) = ap runs ran.called in
      omega (arith, same, one)

  Final-runs :
      (claimed : Requirement) (result : DispatchResult) (route : Route) (h h' : History)
      (o : CycleOutcome) (r : CycleReport)
      → Final workspace claimed result route h o r h'
      → SameRuns h h'
  Final-runs claimed result route h h' succeeded r (done, w, confirmed) = ap runs confirmed.written
  Final-runs claimed result route h h' failed r (state, fails, confirmed) =
      ap runs confirmed.written
  Final-runs claimed result route h h' handed_off r (back, a, b, c, d, e, f) = ap runs f
  Final-runs claimed result route h h' reset_not_observed r (back, a, b, c, d, e, f) = ap runs f
  Final-runs claimed result route h h' partial r (inl e) = ap runs e
  Final-runs claimed result route h h' partial r (inr (state, final, settling, own, e)) = ap runs e
  Final-runs claimed result route h h' idle r f = absurd f
  Final-runs claimed result route h h' poll_failed r f = absurd f
  Final-runs claimed result route h h' candidate_read_failed r f = absurd f
  Final-runs claimed result route h h' candidate_changed r f = absurd f
  Final-runs claimed result route h h' claim_failed r f = absurd f
  Final-runs claimed result route h h' claim_not_confirmed r f = absurd f
  Final-runs claimed result route h h' ready_decided r f = absurd f
  Final-runs claimed result route h h' ready_escalated r f = absurd f
  Final-runs claimed result route h h' ready_withdrawn r f = absurd f
  Final-runs claimed result route h h' ready_uncertain r f = absurd f
  Final-runs claimed result route h h' ready_failed r f = absurd f
  Final-runs claimed result route h h' scope_invalid r f = absurd f

  Cycles-runs :
      (workers : RequirementWorkers) (scope : Option ProjectScope) (h h' : History)
      (r : CycleReport)
      → Cycles workspace workers scope h (r, h')
      → runs (effects h') ≤ suc (runs (effects h))
  Cycles-runs workers scope h h' r (inl (inl e)) =
      let same : SameRuns h h' = ap runs e in omega (arith, same)
  Cycles-runs workers scope h h' r (inl (inr (id, e))) =
      let same : SameRuns h h' = ap runs e in omega (arith, same)
  Cycles-runs workers scope h h' r (inr (rows, candidate, answer, lowest, worked)) =
      let before : SameRuns h worked.start = ap runs worked.nothing_more in
      let during =
        Contract-runs worked.selection workers worked.start worked.middle worked.result
          worked.dispatched in
      let after =
        Final-runs worked.claimed worked.result worked.fresh.selected.route worked.middle h'
          r.outcome r worked.finalized in
      omega (arith, before, during, after)

  Paused-runs :
      (interval : ℕ) (cycle : CycleReport) (h h' : History)
      → Paused interval cycle h h'
      → SameRuns h h'
  Paused-runs interval cycle h h' (waits e) = refl
  Paused-runs interval cycle h h' (goes_on e) = refl

  Steps-runs :
      (workers : RequirementWorkers) (scope : Option ProjectScope) {interval n : ℕ} {h h' : History}
      {reports : List CycleReport} {ending : Ending}
      → Steps workspace workers scope interval h n reports ending h'
      → runs (effects h') ≤ length reports + runs (effects h)
  Steps-runs workers scope ends = omega arith
  Steps-runs workers scope (loses {h} {h₁} cycle is lost) =
      omega (arith, Cycles-runs workers scope h h₁ cycle is)
  Steps-runs workers scope (steps {h} {h₁} {h₂} cycle is held paused rest) = omega (
    arith,
    Cycles-runs workers scope h h₁ cycle is,
    Paused-runs _ cycle h₁ h₂ paused,
    Steps-runs workers scope rest,
  )

  module _ (workers : RequirementWorkers) (ready : Option ReadyStep) (scope : Option ProjectScope)
      (h : History) where
    -- A cycle runs at most one worker, whatever it reports.
    pub run_cycle-runs :
        let (r, h') = run_cycle workspace workers ready scope h in
        runs (effects h') ≤ suc (runs (effects h))
    run_cycle-runs =
        let (r, h') = run_cycle workspace workers ready scope h in
        Cycles-runs workers scope h h' r (run_cycle-Cycles workspace workers ready scope h)

    -- The loop runs at most as many workers as it reports cycles, however the workspace answers.
    pub cycles-runs :
        (interval n : ℕ)
        → let ((reports, ending), h') = cycles workspace workers ready scope interval n h in
          runs (effects h') ≤ length reports + runs (effects h)
    cycles-runs interval n =
        Steps-runs workers scope (cycles-StepsTo workspace workers ready scope interval n h)
