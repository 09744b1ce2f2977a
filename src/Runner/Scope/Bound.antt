-- ===== src/Runner/Scope/Bound.antt =====
-- What a scoped cycle of requirement_runner.py has established when the scope is not refused.
use sdlc.Base.{
  ◌≡◌, refl, inl, inr, Option, none, some, [], arith, is_text_iff, Bool-cases, ◌==◌, eq_iff,
}
use sdlc.Fibery.{Project, Requirement, Fallible, ok}
use sdlc.Differences.{Detail}
use sdlc.Service.Growth.{Grows, here, later}
use sdlc.Service.{History, Workspace}
use sdlc.Service.Effects.{effects}
use sdlc.Runner.Scope.{
  ProjectScope, current_problem, check_project_scope, refusal, scope_refusal, outside_scope,
}

-- Read at this history, the bound Project is what the runner was bound to, in the same workspace.
abbrev pub ScopeHolds : Workspace → Option ProjectScope → History → Type 0
ScopeHolds workspace none asked = Unit
ScopeHolds workspace (some scope) asked =
    (current : Project) × (workspace.lock_scope asked ≡ scope.workspace_identity)
    × (workspace.on_read_project asked scope.project_id ≡ ok (some current))
    × (current.id ≡ scope.project_id)
    × (current.code ≡ some scope.project_code)

abbrev pub InScope : Option ProjectScope → Requirement → Type 0
InScope none r = Unit
InScope (some scope) r = r.project_id ≡ some scope.project_id

pub outside_scope-nil :
    (r : Requirement) (scope : Option ProjectScope)
    → outside_scope (some r) scope ≡ []
    → InScope scope r
unfolding outside_scope
outside_scope-nil r none e = tt
outside_scope-nil r (some scope) e = ground (arith, is_text_iff r.project_id scope.project_id)

current_problem-none :
    (scope : ProjectScope) (a : Fallible (Option Project))
    → current_problem scope a ≡ none
    → (current : Project) × (a ≡ ok (some current))
      × (current.id ≡ scope.project_id)
      × (current.code ≡ some scope.project_code)
unfolding current_problem
current_problem-none scope (Fallible.failed e) h = cc
current_problem-none scope (ok none) h = cc
current_problem-none scope (ok (some p)) h = (
  p,
  refl,
  ground (arith, eq_iff p.id scope.project_id),
  ground (arith, is_text_iff p.code scope.project_code),
)

module _ (workspace : Workspace) where
  -- `check_project_scope` passes only for the workspace, the Project and the Code that were bound.
  pub check_project_scope-none :
      (scope : ProjectScope) (h : History)
      → (check_project_scope workspace scope h).0 ≡ none
      → ScopeHolds workspace (some scope) h
  unfolding check_project_scope
  check_project_scope-none scope h e =
      elim (Bool-cases (workspace.lock_scope h == scope.workspace_identity)) [
        | inl same ↦
            let (current, read, id, code) =
              current_problem-none scope (workspace.on_read_project h scope.project_id)
                (rw same at e) in
            (current, (eq_iff _ _).0 same, read, id, code)
        | inr other ↦ absurd (no_problem (rw other at e))
      ]
    where
      no_problem : {d : Detail} → some d ≡ none → ⊥
      no_problem e = cc

  check_project_scope-effects :
      (scope : ProjectScope) (h : History)
      → effects (check_project_scope workspace scope h).1 ≡ effects h
  unfolding check_project_scope
  check_project_scope-effects scope h = ground arith

  refusal-none :
      (r : Requirement) (problem : Option Detail)
      → refusal workspace r problem ≡ none
      → problem ≡ none
  refusal-none r none e = refl
  refusal-none r (some d) e = cc

  pub scope_refusal-none :
      (scope : Option ProjectScope) (r : Requirement) (h : History)
      → (scope_refusal workspace scope r h).0 ≡ none
      → ScopeHolds workspace scope h
  unfolding scope_refusal
  scope_refusal-none none r h e = tt
  scope_refusal-none (some scope) r h e =
      check_project_scope-none scope h (refusal-none r (check_project_scope workspace scope h).0 e)

  pub scope_refusal-effects :
      (scope : Option ProjectScope) (r : Requirement) (h : History)
      → effects (scope_refusal workspace scope r h).1 ≡ effects h
  unfolding scope_refusal
  scope_refusal-effects none r h = refl
  scope_refusal-effects (some scope) r h = check_project_scope-effects scope h

  check_project_scope-Grows :
      (scope : ProjectScope) (h : History) → Grows h (check_project_scope workspace scope h).1
  unfolding check_project_scope
  check_project_scope-Grows scope h =
      elim (Bool-cases (workspace.lock_scope h == scope.workspace_identity)) [
        | inl same ↦ rw same (later _ here)
        | inr other ↦ rw other here
      ]

  pub scope_refusal-Grows :
      (scope : Option ProjectScope) (r : Requirement) (h : History)
      → Grows h (scope_refusal workspace scope r h).1
  unfolding scope_refusal
  scope_refusal-Grows none r h = here
  scope_refusal-Grows (some scope) r h = check_project_scope-Grows scope h
