-- ===== src/Apply/Plan.antt =====
-- The plan of one application, in requirement_apply.py: `_plan`, `_preflight_targets`,
-- `_validate_target`, `_partition_edges` and `_existing_edges`.
pub mod Divided
pub mod Targeted
use sdlc.Base.{
  String, not, Option, none, some, List, [], ◌∷◌, ◌++◌, map, is_text, same_text, if◌then◌else◌,
  ◌==◌,
}
use sdlc.Fibery.{Requirement}
use sdlc.Routes.{standard_type}
use sdlc.Attempts.{return, raise, require}
use sdlc.Results.{ApplyResultCode}
use sdlc.Evidence.{depends_on, affects}
use sdlc.Dependencies.{RequirementRelations}
use sdlc.Apply.{◌>>=◌, Edge, ApplyWorkspace, Failure, Stage, stage_failed, fetch}
use sdlc.Apply.Checks.{same_edge, has_edge}

-- `targets`, in the order of the edges.
abbrev pub Targets : Type 0
Targets = List (Edge × Requirement)

pub record Plan : Type 0 where
  pub targets : Targets
  pub present : List Edge
  pub missing : List Edge

abbrev pub invalid_target : List String → Failure
invalid_target causes = stage_failed ApplyResultCode.invalid_relation_target causes

unfoldable pub edges_of : RequirementRelations → List Edge
edges_of relations =
    map (λ id. (depends_on, id)) relations.depends_on ++ map (λ id. (affects, id)) relations.affects

unfoldable pub present_edges : List Edge → List Edge → List Edge
present_edges existing [] = []
present_edges existing (e ∷ es) =
    let rest = present_edges existing es in if has_edge e existing then e ∷ rest else rest

unfoldable pub missing_edges : List Edge → List Edge → List Edge
missing_edges existing [] = []
missing_edges existing (e ∷ es) =
    let rest = missing_edges existing es in if has_edge e existing then rest else e ∷ rest

-- `plan.targets[edge]`
unfoldable pub target_of : Edge → Targets → Option Requirement
target_of e [] = none
target_of e ((f, target) ∷ targets) = if same_edge f e then some target else target_of e targets

module _ (workspace : ApplyWorkspace) (requirement : Requirement) where
  -- `_validate_target`
  unfoldable pub validate_target : List Requirement → Stage Requirement
  validate_target [] = raise (stage_failed ApplyResultCode.relation_target_not_found [])
  validate_target (target ∷ other ∷ more) =
      raise (invalid_target (map (λ r. r.id) (target ∷ other ∷ more)))
  validate_target (target ∷ []) = do
    _ ← require (not (target.id == requirement.id)) (invalid_target [])
    _ ← require (is_text target.type_name standard_type) (invalid_target [])
    _ ← require (same_text target.project_id requirement.project_id) (invalid_target [])
    return target

  -- One round of the loop of `_preflight_targets`.
  unfoldable pub preflight_target : Edge → Stage Requirement
  unfolding validate_target
  preflight_target (kind, id) = do
    _ ← require (not (is_text requirement.requirement_id id)) (invalid_target [])
    matches ← fetch (λ ws t. (workspace.reads ws).find_requirements_by_requirement_id t id)
    validate_target matches

  -- `_preflight_targets`
  unfoldable pub preflight_targets : List Edge → Stage Targets
  unfolding preflight_target
  preflight_targets [] = return []
  preflight_targets (e ∷ es) = do
    target ← preflight_target e
    rest ← preflight_targets es
    return ((e, target) ∷ rest)

  -- `_existing_edges`
  unfoldable pub existing_edges : Stage (List Edge)
  unfolding edges_of
  existing_edges = do
    relations ← fetch (λ ws t. (workspace.reads ws).requirement_relations t requirement.id)
    return (edges_of relations)

  -- `_plan`
  unfoldable pub make_plan : List Edge → Stage Plan
  unfolding preflight_targets existing_edges present_edges missing_edges
  make_plan confirmed = do
    targets ← preflight_targets confirmed
    existing ← existing_edges
    return (record {
      targets = targets;
      present = present_edges existing confirmed;
      missing = missing_edges existing confirmed;
    })
