-- ===== src/Runner/Cycle/Shape.antt =====
-- `run_cycle` of requirement_runner.py after the candidate is taken: the order of its steps.
pub mod Whole
use sdlc.Base.{String, ◌≡◌, refl, ap, ◌∙◌, ◌⊎◌, inl, inr, Option, none, some, List, ◌∷◌}
use sdlc.Fibery.{Requirement}
use sdlc.Routes.{processing, value, RouteSelection}
use sdlc.Service.{History, Workspace, RequirementWorkers}
use sdlc.Service.Growth.{Grows, here, later, Grows-trans}
use sdlc.Service.Effects.{Effect, status_write, effects}
use sdlc.Dispatch.{DispatchResult, dispatch}
use sdlc.Dispatch.Contract.Whole.{Contract, dispatch-Contract}
use sdlc.Runner.Report.{CycleReport}
use sdlc.Runner.Scope.{ProjectScope, scope_refusal}
use sdlc.Runner.Scope.Bound.{
  ScopeHolds, scope_refusal-none, scope_refusal-Grows, scope_refusal-effects,
}
use sdlc.Runner.Selection.Fresh.{IsFresh}
use sdlc.Runner.Claim.{claim}
use sdlc.Runner.Claim.Confirmed.{
  IsClaimed, behind_write, claim-Grows, claim-IsClaimed, claim-effects,
}
use sdlc.Runner.Finalize.Settled.Truth.{Finalizes, finalize_cycle-Finalizes}
use sdlc.Runner.Cycle.{
  ReadyStep, forget, dispatch_claimed, after_claim, claim_in_scope, after_selection,
}

-- A claim's write, on top of earlier effects.
abbrev pub with_claim : String → List Effect → List Effect
with_claim id old = status_write id (value processing) ∷ old

-- Nothing was written, or nothing but the claim of one Requirement.
abbrev pub IsCalm : History → History → Type 0
IsCalm h h' = (effects h' ≡ effects h) ⊎ ((id : String) × (effects h' ≡ with_claim id (effects h)))

forget-effects :
    (step : Option ReadyStep) (id : String) (h : History) → effects (forget step id h) ≡ effects h
unfolding forget
forget-effects none id h = refl
forget-effects (some step) id h = refl

forget-Grows : (step : Option ReadyStep) (id : String) (h : History) → Grows h (forget step id h)
unfolding forget
forget-Grows none id h = here
forget-Grows (some step) id h = later _ here

Contract-selection :
    (workspace : Workspace) (selection : RouteSelection) (workers : RequirementWorkers)
    (d : DispatchResult) (h h' : History)
    → Contract workspace selection workers h (d, h')
    → d.selection ≡ selection
Contract-selection workspace selection workers d h h' (inl ((_, same), _, _)) = same
Contract-selection workspace selection workers d h h' (inr ran) = ran.meaning.0.1

module _ (workspace : Workspace) (workers : RequirementWorkers) (scope : Option ProjectScope)
    (candidate : Requirement) (h : History) where
  -- The candidate's selection was dispatched: what was established before, in the order of the
  -- histories at which it was read, and what came of it.
  pub record IsWorked (r : CycleReport) (h' : History) : Type 0 where
    pub selection : RouteSelection
    pub reread_at : History
    pub fresh : IsFresh workspace candidate scope selection reread_at
    pub scope_at : History
    pub scope_before_claim : ScopeHolds workspace scope scope_at
    pub nothing_yet : effects scope_at ≡ effects h
    pub claimed : Requirement
    pub confirmed_at : History
    pub confirmed : IsClaimed workspace selection.requirement scope confirmed_at claimed
    pub claim_written : effects confirmed_at ≡ with_claim selection.requirement.id (effects h)
    pub scope_again_at : History
    pub scope_before_dispatch : ScopeHolds workspace scope scope_again_at
    pub start : History
    pub nothing_more : effects start ≡ with_claim selection.requirement.id (effects h)
    pub result : DispatchResult
    pub middle : History
    pub dispatched : Contract workspace selection workers start (result, middle)
    pub finalized : Finalizes workspace claimed result fresh.selected.route middle (r, h')
    pub order :
        Grows h reread_at
        × Grows reread_at scope_at
        × Grows scope_at confirmed_at
        × Grows confirmed_at scope_again_at
        × Grows scope_again_at start

  abbrev pub Means : CycleReport × History → Type 0
  Means (r, h') = IsCalm h h' ⊎ IsWorked r h'

-- What stands before the claim, and what stands before the dispatch.
record IsReady (workspace : Workspace) (scope : Option ProjectScope) (candidate : Requirement)
    (h : History) (selection : RouteSelection) (scope_at : History) : Type 0 where
  reread_at : History
  fresh : IsFresh workspace candidate scope selection reread_at
  holds : ScopeHolds workspace scope scope_at
  nothing_yet : effects scope_at ≡ effects h
  first : Grows h reread_at
  second : Grows reread_at scope_at

module _ (workspace : Workspace) (workers : RequirementWorkers) (scope : Option ProjectScope)
    (ready : Option ReadyStep) (candidate : Requirement) (h : History) where
  module _ (selection : RouteSelection) (scope_at : History)
      (is_ready : IsReady workspace scope candidate h selection scope_at) (confirmed_at : History)
      (third : Grows scope_at confirmed_at)
      (claim_written : effects confirmed_at ≡ with_claim selection.requirement.id (effects h)) where
    claimed-Means :
        (claimed : Requirement) (refused : Option CycleReport) (scope_again_at h₂ : History)
        → IsClaimed workspace selection.requirement scope confirmed_at claimed
        → (refused ≡ none → ScopeHolds workspace scope scope_again_at)
        → Grows confirmed_at scope_again_at
        → Grows scope_again_at h₂
        → effects h₂ ≡ with_claim selection.requirement.id (effects h)
        → Means workspace workers scope candidate h
            (dispatch_claimed workspace workers ready scope selection claimed refused h₂)
    unfolding dispatch_claimed
    claimed-Means claimed (some refused) scope_again_at h₂ confirmed holds fourth fifth e =
        inl (inr (selection.requirement.id, e))
    claimed-Means claimed none scope_again_at h₂ confirmed holds fourth fifth e =
        let start = forget ready claimed.id h₂ in
        let (result, middle) = dispatch workspace workers selection start in
        let dispatched = dispatch-Contract workspace selection workers start in
        let same = Contract-selection workspace selection workers result start middle dispatched in
        inr (record {
          selection = selection;
          reread_at = is_ready.reread_at;
          fresh = is_ready.fresh;
          scope_at = scope_at;
          scope_before_claim = is_ready.holds;
          nothing_yet = is_ready.nothing_yet;
          claimed = claimed;
          confirmed_at = confirmed_at;
          confirmed = confirmed;
          claim_written = claim_written;
          scope_again_at = scope_again_at;
          scope_before_dispatch = holds refl;
          start = start;
          nothing_more = forget-effects ready claimed.id h₂ ∙ e;
          result = result;
          middle = middle;
          dispatched = dispatched;
          finalized =
              finalize_cycle-Finalizes workspace claimed result is_ready.fresh.selected.route middle
                (ap (λ s. s.route) same ∙ is_ready.fresh.selected.routed);
          order = (
            is_ready.first,
            is_ready.second,
            third,
            fourth,
            Grows-trans fifth (forget-Grows ready claimed.id h₂),
          );
        })

    after_claim-Means :
        (answer : Requirement ⊎ CycleReport) (h₁ : History)
        → ((c : Requirement)
            → answer ≡ inl c
            → IsClaimed workspace selection.requirement scope confirmed_at c)
        → Grows confirmed_at h₁
        → effects h₁ ≡ with_claim selection.requirement.id (effects h)
        → Means workspace workers scope candidate h
            (after_claim workspace workers ready scope selection answer h₁)
    unfolding after_claim
    after_claim-Means (inr refused) h₁ confirmed fourth e = inl (inr (selection.requirement.id, e))
    after_claim-Means (inl claimed) h₁ confirmed fourth e =
        let (refused, h₂) = scope_refusal workspace scope claimed h₁ in
        claimed-Means claimed refused h₁ h₂ (confirmed claimed refl)
          (scope_refusal-none workspace scope claimed h₁) fourth
          (scope_refusal-Grows workspace scope claimed h₁)
          (scope_refusal-effects workspace scope claimed h₁ ∙ e)

  claim-Means :
      (selection : RouteSelection) (scope_at h₁ : History) (refused : Option CycleReport)
      → (refused ≡ none → IsReady workspace scope candidate h selection scope_at)
      → Grows scope_at h₁
      → effects h₁ ≡ effects h
      → Means workspace workers scope candidate h
          (claim_in_scope workspace workers ready scope selection refused h₁)
  unfolding claim_in_scope
  claim-Means selection scope_at h₁ (some refused) is_ready grows e = inl (inl e)
  claim-Means selection scope_at h₁ none is_ready grows e =
      let (answer, h₂) = claim workspace selection.requirement scope h₁ in
      after_claim-Means selection scope_at (is_ready refl)
        (behind_write workspace selection.requirement scope h₁) (later _ grows)
        (ap (with_claim selection.requirement.id) e) answer h₂
        (claim-IsClaimed workspace selection.requirement scope h₁)
        (claim-Grows workspace selection.requirement scope h₁)
        (claim-effects workspace selection.requirement scope h₁
          ∙ ap (with_claim selection.requirement.id) e)

  selection-Means :
      (answer : RouteSelection ⊎ CycleReport) (reread_at h₁ : History)
      → ((s : RouteSelection) → answer ≡ inl s → IsFresh workspace candidate scope s reread_at)
      → Grows h reread_at
      → Grows reread_at h₁
      → effects h₁ ≡ effects h
      → Means workspace workers scope candidate h
          (after_selection workspace workers ready scope candidate answer h₁)
  unfolding after_selection
  selection-Means (inr changed) reread_at h₁ fresh first second e = inl (inl e)
  selection-Means (inl selection) reread_at h₁ fresh first second e =
      let (refused, h₂) = scope_refusal workspace scope candidate h₁ in
      claim-Means selection h₁ h₂ refused
        (λ none_refused. record {
          reread_at = reread_at;
          fresh = fresh selection refl;
          holds = scope_refusal-none workspace scope candidate h₁ none_refused;
          nothing_yet = e;
          first = first;
          second = second;
        })
        (scope_refusal-Grows workspace scope candidate h₁)
        (scope_refusal-effects workspace scope candidate h₁ ∙ e)
