-- ===== src/Tests/Witnesses.antt =====
-- Each property of the dispatcher and of the runner, at the sample workspace of Tests/Samples.
use mathlib.Core.List.{Memᴰ}
use sdlc.Base.{◌≡◌, refl, ◌↔◌, none, some, [], ◌∷◌, All}
use sdlc.Fibery.{Requirement}
use sdlc.Results.{raw_processed}
use sdlc.Routes.{not_processed, raw_process, route, select_route}
use sdlc.Routes.Selection.{IsMachine, select_route-exact}
use sdlc.Differences.{cycle_fields, differences}
use sdlc.Differences.Agreement.{Agree, differences-exact}
use sdlc.Service.Effects.{effects}
use sdlc.Candidates.{preflight}
use sdlc.Candidates.Admitted.{AreAdmitted}
use sdlc.Candidates.Preflight.{preflight-AreAdmitted}
use sdlc.Candidates.Effects.{preflight-effects}
use sdlc.Dispatch.{progress_candidates}
use sdlc.Dispatch.Promised.{Promise}
use sdlc.Dispatch.Progression.{progress_candidates-Keeps}
use sdlc.Dispatch.Contract.Whole.{Contract}
use sdlc.Runner.Scope.{check_project_scope}
use sdlc.Runner.Scope.Bound.{ScopeHolds, check_project_scope-none}
use sdlc.Runner.Selection.{selected, lowest_eligible, fresh_selection}
use sdlc.Runner.Selection.Order.{IsEligible, IsFirst, lowest_eligible-least}
use sdlc.Runner.Selection.Fresh.{IsFresh, fresh_selection-IsFresh}
use sdlc.Runner.Claim.{claim}
use sdlc.Runner.Claim.Confirmed.{IsClaimed, behind_write, claim-IsClaimed}
use sdlc.Runner.Finalize.{finalize_cycle}
use sdlc.Runner.Finalize.Settled.Truth.{Finalizes, finalize_cycle-Finalizes}
use sdlc.Runner.Cycle.{run_cycle}
use sdlc.Runner.Cycle.Shape.Whole.{Cycles, run_cycle-Cycles}
use sdlc.Tests.Samples.{
  raw, candidate, scope, store, workers, processed, selection, finished, worked, claimed,
}

run_cycle-Cycles_example :
    Cycles store workers (some scope) [] (run_cycle store workers none (some scope) [])
run_cycle-Cycles_example = run_cycle-Cycles store workers none (some scope) []

finalize_cycle-Finalizes_example :
    Finalizes store claimed finished
      (route "Raw" "Process" raw_process "Review")
      worked
      (finalize_cycle store claimed finished worked)
finalize_cycle-Finalizes_example =
    finalize_cycle-Finalizes store claimed finished (route "Raw" "Process" raw_process "Review")
      worked refl

preflight-AreAdmitted_example :
    AreAdmitted store raw worked
      (preflight store raw ("P-FR-0012" ∷ []) worked).1
      ("P-FR-0012" ∷ [])
      (candidate ∷ [])
unfolding preflight
preflight-AreAdmitted_example =
    preflight-AreAdmitted store raw ("P-FR-0012" ∷ []) worked (candidate ∷ []) refl

preflight-effects_example :
    effects (preflight store raw ("P-FR-0012" ∷ "P-FR-0013" ∷ []) worked).1 ≡ effects worked
preflight-effects_example = preflight-effects store raw ("P-FR-0012" ∷ "P-FR-0013" ∷ []) worked

progress_candidates-Keeps_example :
    let (d, h') =
      progress_candidates store selection (raw_processed processed) (some "Review") worked in
    Promise store raw ("P-FR-0012" ∷ []) worked h' (effects worked) d.outcome d.progressed
unfolding sdlc.Dispatch.candidates_of
progress_candidates-Keeps_example =
    progress_candidates-Keeps store selection (raw_processed processed) (some "Review") worked

select_route-exact_example :
    ((select_route raw not_processed).route ≡ some (route "Raw" "Process" raw_process "Review")) ↔ (
      (not_processed ≡ not_processed)
      × IsMachine raw.type_name raw.state (route "Raw" "Process" raw_process "Review"))
select_route-exact_example =
    select_route-exact raw not_processed (route "Raw" "Process" raw_process "Review")

lowest_eligible-least_example :
    IsEligible raw
    × Memᴰ raw (candidate ∷ raw ∷ [])
    × All (λ x. IsEligible x → IsFirst raw x) (candidate ∷ raw ∷ [])
unfolding lowest_eligible selected
lowest_eligible-least_example = lowest_eligible-least (candidate ∷ raw ∷ []) raw refl

fresh_selection-IsFresh_example : IsFresh store raw (some scope) selection []
unfolding fresh_selection selected
fresh_selection-IsFresh_example = fresh_selection-IsFresh store raw (some scope) [] selection refl

claim-IsClaimed_example :
    IsClaimed store raw (some scope) (behind_write store raw (some scope) []) claimed
unfolding claim differences
claim-IsClaimed_example = claim-IsClaimed store raw (some scope) [] claimed refl

check_project_scope-none_example : ScopeHolds store (some scope) []
unfolding check_project_scope
check_project_scope-none_example = check_project_scope-none store scope [] refl

differences-exact_example :
    (differences raw (some claimed) cycle_fields ≡ [])
    ↔ ((r : Requirement) × (some claimed ≡ some r) × Agree cycle_fields raw r)
differences-exact_example = differences-exact raw (some claimed) cycle_fields
