-- ===== src/Runner/Cycle/Shape/Whole.antt =====
-- `run_cycle` of requirement_runner.py: what a whole cycle does, on every path.
use sdlc.Base.{◌≡◌, refl, ◌⊎◌, inl, inr, Option, none, some, List, ◌∷◌}
use sdlc.Fibery.{Requirement, Fallible, ok}
use sdlc.Routes.{not_processed, value}
use sdlc.Service.{History, Workspace, RequirementWorkers, polled}
use sdlc.Service.Effects.{effects}
use sdlc.Service.Growth.{here, later}
use sdlc.Runner.Report.{CycleReport}
use sdlc.Runner.Scope.{ProjectScope}
use sdlc.Runner.Selection.{lowest_eligible, fresh_selection}
use sdlc.Runner.Selection.Fresh.{fresh_selection-IsFresh}
use sdlc.Runner.Cycle.{
  ReadyStep, machine_routes, scope_id, offer_ready, take_candidate, after_poll, run_cycle,
}
use sdlc.Runner.Cycle.Shape.{IsCalm, IsWorked, selection-Means}

module _ (workspace : Workspace) (workers : RequirementWorkers) (scope : Option ProjectScope)
    (h : History) where
  -- What the cycle's poll answered, the row that it took, and what became of it.
  abbrev pub Took : CycleReport × History → Type 0
  Took (r, h') =
      (rows : List Requirement) × (candidate : Requirement) × (workspace.on_poll h machine_routes
          (value not_processed) (scope_id scope)
        ≡ ok rows)
      × (lowest_eligible rows ≡ some candidate)
      × IsWorked workspace workers scope candidate h r h'

  abbrev pub Cycles : CycleReport × History → Type 0
  Cycles (r, h') = IsCalm h h' ⊎ Took (r, h')

module _ (workspace : Workspace) (workers : RequirementWorkers) (ready : Option ReadyStep)
    (scope : Option ProjectScope) (h : History) where
  offered-effects :
      (step : Option ReadyStep) (h₁ : History) → effects (offer_ready step h₁).1 ≡ effects h₁
  unfolding offer_ready
  offered-effects none h₁ = refl
  offered-effects (some decider) h₁ = refl

  took :
      (rows : List Requirement) (found : Option Requirement)
      → workspace.on_poll h machine_routes (value not_processed) (scope_id scope) ≡ ok rows
      → lowest_eligible rows ≡ found
      → Cycles workspace workers scope h (
          take_candidate workspace workers ready scope found (
            polled
              (scope_id scope)
              (workspace.on_poll h machine_routes (value not_processed) (scope_id scope))
            ∷ h))
  unfolding take_candidate
  took rows none answer lowest = inl (inl (offered-effects ready _))
  took rows (some candidate) answer lowest =
      let h₁ =
        polled (scope_id scope)
          (workspace.on_poll h machine_routes (value not_processed) (scope_id scope))
        ∷ h in
      let (selected, h₂) = fresh_selection candidate scope workspace h₁ in
      elim (selection-Means workspace workers scope ready candidate h selected h₁ h₂
        (fresh_selection-IsFresh workspace candidate scope h₁) (later _ here) (later _ here) refl) [
          | inl calm ↦ inl calm
          | inr worked ↦ inr (rows, candidate, answer, lowest, worked)
        ]

  polled-Cycles :
      (answer : Fallible (List Requirement))
      → workspace.on_poll h machine_routes (value not_processed) (scope_id scope) ≡ answer
      → Cycles workspace workers scope h (
          after_poll workspace workers ready scope answer (
            polled
              (scope_id scope)
              (workspace.on_poll h machine_routes (value not_processed) (scope_id scope))
            ∷ h))
  unfolding after_poll
  polled-Cycles (Fallible.failed error) got = inl (inl refl)
  polled-Cycles (ok rows) got = took rows (lowest_eligible rows) got refl

  -- A cycle either writes nothing but at most one claim and runs no worker; or it took the lowest
  -- eligible row of its poll and did, in this order: re-read it, unchanged and in scope, and
  -- selected the machine route of that read; found the bound Project to hold, with nothing written;
  -- wrote the claim and read it back; found the Project to hold again; dispatched that selection
  -- once, with the claim as the only write so far; and finalized what the dispatch reported.
  pub run_cycle-Cycles :
      Cycles workspace workers scope h (run_cycle workspace workers ready scope h)
  unfolding run_cycle
  run_cycle-Cycles =
      polled-Cycles (workspace.on_poll h machine_routes (value not_processed) (scope_id scope)) refl
