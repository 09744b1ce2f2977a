-- ===== src/Runner/Loop/Ended.antt =====
-- `run_requirement_runner` of requirement_runner.py: how many cycles a run reports and how it ends.
use sdlc.Base.{
  ℕ, suc, ◌≤◌, ◌≡◌, refl, ap, ◌≢◌, ◌⊎◌, inl, inr, Option, List, [], ◌∷◌, ◌++◌, length, All, arith,
}
use sdlc.Service.{History, Workspace, RequirementWorkers}
use sdlc.Runner.Report.{scope_invalid, CycleReport}
use sdlc.Runner.Scope.{ProjectScope}
use sdlc.Runner.Cycle.{ReadyStep}
use sdlc.Runner.Loop.{Ending, stopped, scope_lost, cycles}
use sdlc.Runner.Loop.Runs.{Steps, ends, loses, steps, cycles-StepsTo}

module _ (workspace : Workspace) (workers : RequirementWorkers) (ready : Option ReadyStep)
    (scope : Option ProjectScope) where
  abbrev pub Held : CycleReport → Type 0
  Held cycle = cycle.outcome ≢ scope_invalid

  -- Every cycle was reported, or a last one lost the scope and ended the run with its details.
  abbrev pub Ended : ℕ → List CycleReport → Ending → Type 0
  Ended n reports ending =
      (ending ≡ stopped) × (length reports ≡ n) × All Held reports
      ⊎ ((before : List CycleReport) × (last : CycleReport) × (reports ≡ before ++ last ∷ [])
          × All Held before
          × (last.outcome ≡ scope_invalid)
          × (ending ≡ scope_lost last.details)
          × (length reports ≤ n))

  Steps-Ended :
      {interval n : ℕ} {h h' : History} {reports : List CycleReport} {ending : Ending}
      → Steps workspace workers scope interval h n reports ending h'
      → Ended n reports ending
  Steps-Ended ends = inl (refl, refl, tt)
  Steps-Ended (loses cycle is lost) = inr ([], cycle, refl, tt, lost, refl, omega arith)
  Steps-Ended (steps cycle is held paused rest) = elim (Steps-Ended rest) [
    | inl (e, count, all) ↦ inl (e, ap suc count, (held, all))
    | inr (before, last, split, all, lost, e, bound) ↦ inr (
      cycle ∷ before,
      last,
      ap (λ l. cycle ∷ l) split,
      (held, all),
      lost,
      e,
      omega (arith, bound),
    )
  ]

  -- The loop reports every cycle that it runs: as many as `should_continue` allows, none of them
  -- SCOPE_INVALID; or, earlier, up to a first SCOPE_INVALID cycle, whose details it then raises.
  pub cycles-Ended :
      (interval n : ℕ) (h : History)
      → let ((reports, ending), h') = cycles workspace workers ready scope interval n h in
        Ended n reports ending
  cycles-Ended interval n h =
      Steps-Ended (cycles-StepsTo workspace workers ready scope interval n h)
