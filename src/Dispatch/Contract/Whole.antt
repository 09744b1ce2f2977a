-- ===== src/Dispatch/Contract/Whole.antt =====
-- `dispatch` of requirement_dispatcher.py from the choice of the route: its contract.
use mathlib.Core.Option.{some-injective}
use sdlc.Base.{String, ◌≡◌, refl, ◌⊎◌, inl, inr, Option, none, some, List, [], ◌∷◌, Bool-cases}
use sdlc.Fibery.{Requirement, Fallible, ok, failed}
use sdlc.Results.{WorkerResult, is_normal}
use sdlc.Routes.{Route, RouteSelection}
use sdlc.Differences.{Detail, binding_fields, changes}
use sdlc.Differences.Agreement.{Agree, changes-Agree, changes-nil}
use sdlc.Service.Growth.{Grows, here, later}
use sdlc.Service.{read, History, Workspace, RequirementWorkers, run}
use sdlc.Service.Effects.{worker_run, effects}
use sdlc.Dispatch.{
  DispatchOutcome, no_route, stale_route, fibery_read_failed, DispatchResult, classify,
  run_if_unchanged, run_reread, dispatch_route, dispatch,
}
use sdlc.Dispatch.Contract.{MeansAt, Means, check_postcondition-Means}

module _ (workspace : Workspace) (selection : RouteSelection) (workers : RequirementWorkers) where
  classify-Means :
      (route : Route) (result : WorkerResult) (h : History)
      → Means workspace selection route result h
          (classify workspace selection workers route result h)
  unfolding classify
  classify-Means route result h = elim (Bool-cases (is_normal result)) [
    | inl normal ↦ rw normal (check_postcondition-Means workspace selection route result h normal)
    | inr failed_worker ↦ rw failed_worker ((refl, refl), (failed_worker, refl))
  ]

  -- Why a dispatch that began at `h` called no worker.
  abbrev pub Refused : History → DispatchOutcome → Type 0
  Refused h no_route = selection.route ≡ none
  Refused h stale_route =
      (current : Option Requirement) × (workspace.on_read h selection.requirement.id ≡ ok current)
      × ((r : Requirement) → current ≡ some r → ¬ Agree binding_fields selection.requirement r)
  Refused h fibery_read_failed =
      (error : String) × (workspace.on_read h selection.requirement.id ≡ failed error)
  Refused h _ = ⊥

  -- The selected worker ran once, on a Requirement that a fresh read found as it was selected.
  pub record Ran (h : History) (d : DispatchResult) (h' : History) : Type 0 where
    pub route : Route
    pub result : WorkerResult
    pub selected : selection.route ≡ some route
    pub fresh : Requirement
    pub reread : workspace.on_read h selection.requirement.id ≡ ok (some fresh)
    pub unchanged : Agree binding_fields selection.requirement fresh
    pub start : History
    pub called : effects start ≡ worker_run route.worker selection.requirement.id ∷ effects h
    pub order : Grows h start
    pub meaning : MeansAt workspace selection route result start h' d

  abbrev pub Contract : History → DispatchResult × History → Type 0
  Contract h (d, h') =
      ((d.worker_result ≡ none) × (d.selection ≡ selection))
        × Refused h d.outcome
        × (effects h' ≡ effects h)
      ⊎ Ran h d h'

  run_if_unchanged-Contract :
      (route : Route) (h : History) (fresh : Requirement)
      → selection.route ≡ some route
      → workspace.on_read h selection.requirement.id ≡ ok (some fresh)
      → (drift : List Detail) → changes binding_fields selection.requirement fresh ≡ drift
      → Contract h (
          run_if_unchanged workspace selection workers route drift
            (read selection.requirement.id (workspace.on_read h selection.requirement.id) ∷ h))
  unfolding run_if_unchanged
  run_if_unchanged-Contract route h fresh sel reread (d ∷ drift) e =
      let other : (r : Requirement) → fresh ≡ r → ¬ Agree binding_fields selection.requirement r =
        λ r same_one same.
          cc (e, changes-nil binding_fields selection.requirement r same, same_one) in
      inl (
        (refl, refl),
        (some fresh, reread, λ r got same. other r (some-injective fresh r got) same),
        refl,
      )
  run_if_unchanged-Contract route h fresh sel reread [] e =
      let h₁ = read selection.requirement.id (workspace.on_read h selection.requirement.id) ∷ h in
      let (result, start) = run workers route.worker selection.requirement.id h₁ in
      inr (record {
        route = route;
        result = result;
        selected = sel;
        fresh = fresh;
        reread = reread;
        unchanged = changes-Agree binding_fields _ _ e;
        start = start;
        called = refl;
        order = later _ (later _ here);
        meaning = classify-Means route result start;
      })

  run_reread-Contract :
      (route : Route) (h : History) (answer : Fallible (Option Requirement))
      → selection.route ≡ some route
      → workspace.on_read h selection.requirement.id ≡ answer
      → Contract h (
          run_reread workspace selection workers route answer
            (read selection.requirement.id (workspace.on_read h selection.requirement.id) ∷ h))
  unfolding run_reread
  run_reread-Contract route h (failed e) sel reread = inl ((refl, refl), (e, reread), refl)
  run_reread-Contract route h (ok none) sel reread =
      inl ((refl, refl), (none, reread, λ r got same. cc), refl)
  run_reread-Contract route h (ok (some fresh)) sel reread =
      run_if_unchanged-Contract route h fresh sel reread _ refl

  route-Contract :
      (found : Option Route) (h : History)
      → selection.route ≡ found
      → Contract h (dispatch_route workspace selection workers found h)
  unfolding dispatch_route
  route-Contract none h sel = inl ((refl, refl), sel, refl)
  route-Contract (some route) h sel =
      run_reread-Contract route h (workspace.on_read h selection.requirement.id) sel refl

  pub dispatch-Contract : (h : History) → Contract h (dispatch workspace workers selection h)
  unfolding dispatch
  dispatch-Contract h = route-Contract selection.route h refl
