-- ===== src/Apply/Plan/Targeted.antt =====
-- `_plan` of requirement_apply.py: what holds of the plan that it returns.
use mathlib.Core.Path.{subst}
use sdlc.Base.{
  ℕ, suc, ◌≡◌, refl, inl, inr, true, false, not, some, List, [], ◌∷◌, All, All-map, is_text,
  same_text, Bool-cases, ◌==◌,
}
use sdlc.Fibery.{ok, Requirement}
use sdlc.Dependencies.{RequirementRelations}
use sdlc.Routes.{standard_type}
use sdlc.Apply.{Edge, Write, World, ApplyWorkspace}
use sdlc.Apply.Checks.{same_edge}
use sdlc.Apply.Reads.{
  Keeps, Reads, Any, fetch-Reads, require-Reads, return-Reads, raise-Reads, then-Reads,
  fetch-Answers, Ends, Ends-Reads, Reads-Ends, then-Ends, weaken-Ends, fetch-Ends,
}
use sdlc.Apply.Plan.{
  Targets, Plan, edges_of, present_edges, missing_edges, target_of, validate_target,
  preflight_target, preflight_targets, existing_edges, make_plan,
}
use sdlc.Apply.Plan.Divided.{
  Divides, same_edge_refl, relates, divided_by_relations, All-missing_edges,
}

-- The only Requirement that was found with the ID of an edge, after these writes: another one,
-- Standard and of the same Project. The ID is not the Requirement's own.
pub record IsTarget (workspace : ApplyWorkspace) (writes : List Write) (requirement : Requirement)
    (e : Edge) (target : Requirement) : Type 0 where
  pub asked : ℕ
  pub only :
      (workspace.reads writes).find_requirements_by_requirement_id asked e.1 ≡ ok (target ∷ [])
  pub other_id : not (is_text requirement.requirement_id e.1) ≡ true
  pub another : not (target.id == requirement.id) ≡ true
  pub is_standard : is_text target.type_name standard_type ≡ true
  pub same_project : same_text target.project_id requirement.project_id ≡ true

-- The target that the plan holds for an edge.
abbrev pub HasTarget : ApplyWorkspace → List Write → Requirement → Targets → Edge → Type 0
HasTarget workspace writes requirement targets e =
    (f : Edge) × (target : Requirement) × (target_of e targets ≡ some target)
    × (same_edge f e ≡ true)
    × IsTarget workspace writes requirement f target

-- The relations of the Requirement were read; each confirmed edge is present or missing as they
-- say, and has a target.
pub record IsPlan (workspace : ApplyWorkspace) (writes : List Write) (requirement : Requirement)
    (edges : List Edge) (plan : Plan) : Type 0 where
  pub read_at : ℕ
  pub relations : RequirementRelations
  pub are_read :
      (workspace.reads writes).requirement_relations read_at requirement.id ≡ ok relations
  pub divided : All (Divides (relates relations) plan.present plan.missing) edges
  pub present_exist : All (λ e. relates relations e ≡ true) plan.present
  pub missing_absent : All (λ e. relates relations e ≡ false) plan.missing
  pub targeted : All (HasTarget workspace writes requirement plan.targets) edges
  pub missing_targeted : All (HasTarget workspace writes requirement plan.targets) plan.missing

module _ (workspace : ApplyWorkspace) (requirement : Requirement) where
  target_of-cons :
      (ws : List Write) (f : Edge) (target : Requirement) (targets : Targets)
      → IsTarget workspace ws requirement f target
      → (e : Edge) → HasTarget workspace ws requirement targets e
      → HasTarget workspace ws requirement ((f, target) ∷ targets) e
  unfolding target_of
  target_of-cons ws f target targets valid e (g, other, got, same, h) =
      elim (Bool-cases (same_edge f e)) [
        | inl here ↦ (f, target, rw here refl, here, valid)
        | inr away ↦ (g, other, rw away got, same, h)
      ]

  target_of-head :
      (ws : List Write) (e : Edge) (target : Requirement) (targets : Targets)
      → IsTarget workspace ws requirement e target
      → HasTarget workspace ws requirement ((e, target) ∷ targets) e
  unfolding target_of
  target_of-head ws e target targets valid =
      (e, target, rw (same_edge_refl e) refl, same_edge_refl e, valid)

  validate_target-IsTarget :
      (e : Edge) (before now : World) (matches : List Requirement) (t : ℕ)
      → Keeps before now
      → not (is_text requirement.requirement_id e.1) ≡ true
      → (workspace.reads before.writes).find_requirements_by_requirement_id t e.1 ≡ ok matches
      → Reads before
          (IsTarget workspace before.writes requirement e)
          (validate_target workspace requirement matches)
          now
  unfolding validate_target
  validate_target-IsTarget e before now [] t kept h found = raise-Reads before now kept _ _
  validate_target-IsTarget e before now (r ∷ u ∷ more) t kept h found =
      raise-Reads before now kept _ _
  validate_target-IsTarget e before now (r ∷ []) t kept h found =
      then-Reads (require-Reads before now kept _ _) (λ _ w k another.
        then-Reads (require-Reads before w k _ _) (λ _ w k standard.
          then-Reads (require-Reads before w k _ _) (λ _ w k same.
            return-Reads before w k _ _ (record {
              asked = t;
              only = found;
              other_id = h;
              another = another;
              is_standard = standard;
              same_project = same;
            }))))

  preflight_target-IsTarget :
      (e : Edge) (before now : World)
      → Keeps before now
      → Reads before
          (IsTarget workspace before.writes requirement e)
          (preflight_target workspace requirement e)
          now
  unfolding preflight_target
  preflight_target-IsTarget e before now kept =
      then-Reads (require-Reads before now kept _ _) (λ _ w k other.
        then-Reads (fetch-Answers before w k _) (λ matches v kv found.
          validate_target-IsTarget e before v matches w.moment kv other found))

  preflight_targets-HaveTargets :
      (es : List Edge) (before now : World)
      → Keeps before now
      → Reads before
          (λ targets. All (HasTarget workspace before.writes requirement targets) es)
          (preflight_targets workspace requirement es)
          now
  unfolding preflight_targets
  preflight_targets-HaveTargets [] before now kept = return-Reads before now kept _ _ tt
  preflight_targets-HaveTargets (e ∷ es) before now kept =
      then-Reads (preflight_target-IsTarget e before now kept) (λ target w k valid.
        then-Reads (preflight_targets-HaveTargets es before w k) (λ targets w k rest.
          return-Reads before w k _ _ (
            target_of-head before.writes e target targets valid,
            All-map (target_of-cons before.writes e target targets valid) es rest,
          )))

  pub existing_edges-Reads :
      (before now : World)
      → Keeps before now
      → Reads before Any (existing_edges workspace requirement) now
  unfolding existing_edges
  existing_edges-Reads before now kept =
      then-Reads (fetch-Reads before now kept _) (λ relations w k _. return-Reads before w k _ _ tt)

  existing_edges-Ends :
      (before now : World)
      → Keeps before now
      → Ends
          (λ existing w.
            Keeps before w
            × (w.moment ≡ suc now.moment)
            × ((relations : RequirementRelations) × ((workspace.reads
                      before.writes).requirement_relations
                    now.moment requirement.id
                  ≡ ok relations)
                × (edges_of relations ≡ existing)))
          (Keeps before)
          (existing_edges workspace requirement)
          now
  unfolding existing_edges
  existing_edges-Ends before now kept =
      then-Ends (fetch-Ends before now kept _)
        (λ relations w k. record { outcome = (k.0, k.1, (relations, k.2, refl)) })

  -- With the moment after the last read of the plan.
  pub make_plan-Ends :
      (edges : List Edge) (before now : World)
      → Keeps before now
      → Ends
          (λ plan w.
            Keeps before w
            × ((h : IsPlan workspace before.writes requirement edges plan) × (w.moment
                  ≡ suc h.read_at)))
          (Keeps before)
          (make_plan workspace requirement edges)
          now
  unfolding make_plan
  make_plan-Ends edges before now kept =
      then-Ends (Reads-Ends (λ w k. k) (preflight_targets-HaveTargets edges before now kept))
        (λ targets w k.
          then-Ends (existing_edges-Ends before w k.0)
            (λ existing v (kv, later, (relations, got, same)). record {
              outcome = (kv, (planned targets w.moment relations existing k.1 got same, later));
            }))
    where
      planned :
          (targets : Targets) (t : ℕ) (relations : RequirementRelations) (existing : List Edge)
          → All (HasTarget workspace before.writes requirement targets) edges
          → (workspace.reads before.writes).requirement_relations t requirement.id ≡ ok relations
          → edges_of relations ≡ existing
          → IsPlan workspace before.writes requirement edges (record {
            targets = targets;
            present = present_edges existing edges;
            missing = missing_edges existing edges;
          })
      planned targets t relations existing targeted got same =
          let (divided, present, missing) =
            subst
              (λ x.
                All (Divides (relates relations) (present_edges x edges) (missing_edges x edges))
                  edges
                × All (λ e. relates relations e ≡ true) (present_edges x edges)
                × All (λ e. relates relations e ≡ false) (missing_edges x edges))
              same (divided_by_relations relations edges) in
          record {
            read_at = t;
            relations = relations;
            are_read = got;
            divided = divided;
            present_exist = present;
            missing_absent = missing;
            targeted = targeted;
            missing_targeted = All-missing_edges _ existing edges targeted;
          }

  -- `_plan` writes nothing. In a plan that it returns each confirmed edge is present where the
  -- relations of the Requirement, as they were read, have it, and missing where they do not. Each
  -- has a target, as each missing one has: the only Requirement that was found with the ID, which
  -- is another one, Standard, and of the same Project.
  pub make_plan-IsPlan :
      (edges : List Edge) (before now : World)
      → Keeps before now
      → Reads before
          (IsPlan workspace before.writes requirement edges)
          (make_plan workspace requirement edges)
          now
  make_plan-IsPlan edges before now kept =
      Ends-Reads (weaken-Ends (make_plan-Ends edges before now kept) (λ plan w k. (k.0, k.1.0)))
