-- ===== src/Apply/Run/Completed.antt =====
-- The writes of `apply_standard_requirement` of requirement_apply.py with the checks between them: what
-- holds when all succeed.
use sdlc.Base.{refl, []}
use sdlc.Fibery.{Requirement}
use sdlc.Evidence.{Reader}
use sdlc.Dependencies.Current.{applied}
use sdlc.Apply.{World, Resolutions, ApplyWorkspace, Structure}
use sdlc.Apply.Reads.{Ends, then-Ends, Reads-Ends, weaken-Ends}
use sdlc.Apply.Checks.{Evidence}
use sdlc.Apply.Checks.Unchanged.{IsRechecked, recheck_bindings-IsRechecked}
use sdlc.Apply.Checks.Current.{
  DependenciesHold, ResolutionsHold, check_dependencies-Hold, check_resolutions-Hold,
}
use sdlc.Apply.Plan.{Plan}
use sdlc.Apply.Writes.Journal.{AddsAt, StoppedAt, stopped_kept, ensure_edges-Ends}
use sdlc.Apply.Writes.Stored.{IsCompleted, transition_to_applied-Ends}
use sdlc.Apply.Run.{complete}

module _ (reader : Reader) (resolutions : Resolutions) (workspace : ApplyWorkspace) where
  -- The writes and the checks after the last edge all succeeded: the evidence was read again after
  -- the writes of all missing edges.
  pub record Completes (requirement : Requirement) (prepared : Structure × Evidence × Plan)
      (w : World) : Type 0 where
    pub at_last_edge : World
    pub done : IsCompleted workspace requirement prepared.2 at_last_edge w
    pub rechecked :
        IsRechecked reader resolutions workspace requirement at_last_edge.writes at_last_edge.moment
          prepared.0.root prepared.1
    pub dependencies :
        DependenciesHold reader resolutions workspace requirement at_last_edge.writes
          prepared.1.latest_review applied
    pub resolved :
        ResolutionsHold reader resolutions workspace requirement at_last_edge.writes prepared.1

  pub complete-Completes :
      (requirement : Requirement) (prepared : Structure × Evidence × Plan) (now : World)
      → AddsAt workspace requirement prepared.2 prepared.2.missing now
      → Ends
          (λ _ w. Completes requirement prepared w)
          (StoppedAt workspace requirement prepared.2)
          (complete reader resolutions workspace requirement prepared)
          now
  unfolding complete
  complete-Completes requirement (structure, evidence, plan) now start =
      then-Ends (ensure_edges-Ends workspace requirement plan plan.missing now start) (λ _ w all.
        then-Ends
          (Reads-Ends (λ v k. stopped_kept workspace requirement plan [] w v all k)
            (recheck_bindings-IsRechecked reader resolutions workspace requirement structure.root
              evidence w w (refl, refl)))
          (λ _ v k₁.
            then-Ends
              (Reads-Ends (λ v k. stopped_kept workspace requirement plan [] w v all k)
                (check_dependencies-Hold reader resolutions workspace requirement
                  evidence.latest_review applied w v k₁.0))
              (λ _ v k₂.
                then-Ends
                  (Reads-Ends (λ v k. stopped_kept workspace requirement plan [] w v all k)
                    (check_resolutions-Hold reader resolutions workspace requirement evidence w v
                      k₂.0))
                  (λ _ v k₃.
                    weaken-Ends (transition_to_applied-Ends workspace requirement plan w v all k₃.0)
                      (λ _ u done. record {
                        at_last_edge = w;
                        done = done;
                        rechecked = k₁.1;
                        dependencies = k₂.1;
                        resolved = k₃.1;
                      })))))
