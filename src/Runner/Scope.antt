-- ===== src/Runner/Scope.antt =====
-- src/sdlc/requirement_runner.py, the Project scope: `check_project_scope`, `_scope_refusal` and
-- `_outside`. A ProjectScopeError is kept as the `Detail` that its text is made of.
pub mod Bound
use sdlc.Base.{String, not, Option, none, some, List, [], ◌∷◌, is_text, if◌then◌else◌, ◌==◌}
use sdlc.Fibery.{Project, Requirement, Fallible, ok, failed}
use sdlc.Differences.{
  Detail, outside, workspace_moved, project_unreadable, project_gone, project_recoded,
}
use sdlc.Service.{Action, Workspace, pure, ◌>>=◌, read_project_by_id}
use sdlc.Runner.Report.{CycleReport, report, scope_invalid}

pub record ProjectScope : Type 0 where
  pub project_id : String
  pub project_code : String
  pub workspace_identity : String

current_problem : ProjectScope → Fallible (Option Project) → Option Detail
current_problem scope (failed e) = some (project_unreadable scope.project_code e)
current_problem scope (ok none) = some (project_gone scope.project_id)
current_problem scope (ok (some current)) =
    if not (current.id == scope.project_id)
    then some (project_gone scope.project_id)
    else if not (is_text current.code scope.project_code)
    then some (project_recoded scope.project_id current.code scope.project_code)
    else none

module _ (workspace : Workspace) where
  -- The failure is the text that ProjectScopeError carries; none when the scope holds.
  unfoldable pub check_project_scope : ProjectScope → Action (Option Detail)
  unfolding current_problem read_project_by_id
  check_project_scope scope h =
      if not (workspace.lock_scope h == scope.workspace_identity)
      then (some (workspace_moved (workspace.lock_scope h) scope.workspace_identity), h)
      else (do
        current ← read_project_by_id workspace scope.project_id
        pure (current_problem scope current))
          h

  abbrev refusal : Requirement → Option Detail → Option CycleReport
  refusal requirement none = none
  refusal requirement (some problem) =
      some (report scope_invalid (some requirement) none (problem ∷ []))

  -- `_scope_refusal`
  unfoldable pub scope_refusal : Option ProjectScope → Requirement → Action (Option CycleReport)
  unfolding check_project_scope
  scope_refusal none requirement = pure none
  scope_refusal (some scope) requirement = do
    problem ← check_project_scope scope
    pure (refusal requirement problem)

-- `_outside`: why a record that was read is not in the bound Project.
unfoldable pub outside_scope : Option Requirement → Option ProjectScope → List Detail
outside_scope none scope = []
outside_scope (some record_read) none = []
outside_scope (some record_read) (some scope) =
    if is_text record_read.project_id scope.project_id
    then []
    else outside record_read.project_id scope.project_code scope.project_id ∷ []
