-- ===== src/Runner/Project.antt =====
-- src/sdlc/requirement_runner.py: `resolve_project_scope`, once per runner start. The Project Code
-- that passes the first test is the selector itself, so the reads are given the selector.
pub mod Resolved
use sdlc.Base.{
  ℕ, String, ◌⊎◌, inl, inr, not, ◌||◌, Option, none, some, is_text, eqb, if◌then◌else◌, ◌==◌,
}
use sdlc.Fibery.{Project, Fallible, ok, failed}
use sdlc.ProjectCode.{Text, codes, same_codes, InvalidProjectCode, validate_project_code}
use sdlc.Service.{
  Action, History, Workspace, pure, ◌>>=◌, count_projects_with_code, find_project_by_code,
  read_project_by_id,
}
use sdlc.Runner.Scope.{ProjectScope}

-- Why `ProjectScopeError` is raised.
pub data ScopeProblem : Type 0 where
  not_a_code : InvalidProjectCode → ScopeProblem
  not_exact : (selector : String) → Text → ScopeProblem
  unresolved : String → ScopeProblem
  no_project ambiguous not_same : ScopeProblem

module _ (workspace : Workspace) (selector : String) where
  abbrev bound : Project → History → ProjectScope
  bound project h = record {
    project_id = project.id;
    project_code = selector;
    workspace_identity = workspace.lock_scope h;
  }

  judge_read_back : Project → Fallible (Option Project) → Action (ProjectScope ⊎ ScopeProblem)
  judge_read_back project (failed e) = pure (inr (unresolved e))
  judge_read_back project (ok none) = pure (inr not_same)
  judge_read_back project (ok (some current)) =
      if not (current.id == project.id) || not (is_text current.code selector)
      then pure (inr not_same)
      else (λ h. (inl (bound project h), h))

  read_back : Fallible (Option Project) → Action (ProjectScope ⊎ ScopeProblem)
  unfolding judge_read_back read_project_by_id
  read_back (failed e) = pure (inr (unresolved e))
  read_back (ok none) = pure (inr not_same)
  read_back (ok (some project)) = do
    current ← read_project_by_id workspace project.id
    judge_read_back project current

  find_the_one : Fallible ℕ → Action (ProjectScope ⊎ ScopeProblem)
  unfolding read_back find_project_by_code
  find_the_one (failed e) = pure (inr (unresolved e))
  find_the_one (ok count) =
      if eqb count 0
      then pure (inr no_project)
      else if not (eqb count 1)
      then pure (inr ambiguous)
      else (do project ← find_project_by_code workspace selector; read_back project)

  resolve_code : Text ⊎ InvalidProjectCode → Action (ProjectScope ⊎ ScopeProblem)
  unfolding find_the_one count_projects_with_code
  resolve_code (inr problem) = pure (inr (not_a_code problem))
  resolve_code (inl code) =
      if not (same_codes code (codes selector))
      then pure (inr (not_exact selector code))
      else (do count ← count_projects_with_code workspace selector; find_the_one count)

  unfoldable pub resolve_project_scope : Action (ProjectScope ⊎ ScopeProblem)
  unfolding resolve_code validate_project_code codes
  resolve_project_scope = resolve_code (validate_project_code (codes selector))
