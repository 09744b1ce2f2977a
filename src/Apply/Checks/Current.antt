-- ===== src/Apply/Checks/Current.antt =====
-- `_check_dependencies` and `_check_resolutions` of requirement_apply.py: what holds when they pass.
use sdlc.Base.{ℕ, ◌≡◌, inl, List}
use sdlc.Fibery.{Requirement}
use sdlc.Evidence.{ReviewResult, Reader}
use sdlc.Dependencies.Closure.{Members}
use sdlc.Dependencies.Current.{Phase}
use sdlc.Dependencies.Current.Holds.{HoldsNow, require_current_dependencies-HoldsNow}
use sdlc.Apply.{Write, World, Resolutions, ApplyWorkspace}
use sdlc.Apply.Reads.{Keeps, Reads, reading-Reads, weaken-Reads}
use sdlc.Apply.Checks.{Evidence}
use sdlc.Apply.Checks.Read.{check_dependencies, check_resolutions}

module _ (reader : Reader) (resolutions : Resolutions) (workspace : ApplyWorkspace)
    (requirement : Requirement) where
  -- The dependencies hold after the given writes.
  abbrev pub DependenciesHold : List Write → ReviewResult → Phase → Type 0
  DependenciesHold writes reviewed phase =
      (members : Members) × HoldsNow reader (workspace.reads writes) requirement reviewed phase
        members

  pub check_dependencies-Hold :
      (reviewed : ReviewResult) (phase : Phase) (before now : World)
      → Keeps before now
      → Reads before
          (λ _. DependenciesHold before.writes reviewed phase)
          (check_dependencies reader resolutions workspace requirement reviewed phase)
          now
  unfolding check_dependencies
  check_dependencies-Hold reviewed phase before now kept =
      weaken-Reads (reading-Reads before now kept _ _) (λ members h. (
        members,
        require_current_dependencies-HoldsNow reader (workspace.reads before.writes) requirement
            reviewed phase now.moment members h,
      ))

  -- The resolutions hold at a moment after the given writes.
  abbrev pub ResolutionsHold : List Write → Evidence → Type 0
  ResolutionsHold writes e =
      (t : ℕ) × ((resolutions writes e.latest_process e.latest_review requirement.id t).0 ≡ inl tt)

  pub check_resolutions-Hold :
      (e : Evidence) (before now : World)
      → Keeps before now
      → Reads before
          (λ _. ResolutionsHold before.writes e)
          (check_resolutions reader resolutions workspace requirement e)
          now
  unfolding check_resolutions
  check_resolutions-Hold e before now kept =
      weaken-Reads (reading-Reads before now kept _ _) (λ _ h. (now.moment, h))
