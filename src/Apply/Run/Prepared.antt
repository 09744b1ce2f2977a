-- ===== src/Apply/Run/Prepared.antt =====
-- What is decided before the first write, in `apply_standard_requirement` of requirement_apply.py: what
-- was checked then.
use mathlib.Core.Path.{subst}
use sdlc.Base.{ℕ, suc, String, ◌≡◌, refl, ap, ◌∙◌, true, Option, none, some, List, [], ◌∷◌, is_text}
use sdlc.Fibery.{ok, Requirement}
use sdlc.Routes.{standard_type, apply_state}
use sdlc.NormativeTree.{DocumentNode}
use sdlc.Evidence.{Reader}
use sdlc.Dependencies.Current.{applying}
use sdlc.Attempts.{return}
use sdlc.Apply.Checks.Read.{recheck_bindings, check_dependencies, check_resolutions}
use sdlc.Apply.{
  ◌>>=◌, Write, World, Resolutions, ApplyWorkspace, Structure, standard_or, one_of,
  load_requirement, require_apply, resolve_structure,
}
use sdlc.Apply.Reads.{
  Keeps, Reads, Any, return-Reads, raise-Reads, fetch-Reads, fetch-Answers, require-Reads,
  then-Reads, weaken-Reads, Ends-Reads, then-Ends, Reads-Ends,
}
use sdlc.Apply.Checks.{Evidence}
use sdlc.Apply.Checks.Accepted.{IsAsReviewed, check_bindings-IsAsReviewed}
use sdlc.Apply.Checks.Unchanged.{
  IsEvidence, IsRechecked, read_evidence-IsEvidence, recheck_bindings-IsRechecked,
}
use sdlc.Apply.Checks.Current.{
  DependenciesHold, ResolutionsHold, check_dependencies-Hold, check_resolutions-Hold,
}
use sdlc.Apply.Plan.{Plan}
use sdlc.Apply.Plan.Targeted.{IsPlan, make_plan-Ends}
use sdlc.Apply.Run.{prepare}

module _ (reader : Reader) (resolutions : Resolutions) (workspace : ApplyWorkspace) where
  -- The Requirement that was read, of type Standard.
  pub record IsLoaded (writes : List Write) (entity_id : String) (requirement : Requirement)
      : Type 0 where
    pub asked : ℕ
    pub answer : workspace.read_requirement writes asked entity_id ≡ ok (some requirement)
    pub is_standard : is_text requirement.type_name standard_type ≡ true

  standard_or-Reads :
      (before now : World) (kept : Keeps before now) (o : Option Requirement)
      → Reads before
          (λ r. (o ≡ some r) × (is_text r.type_name standard_type ≡ true))
          (standard_or o)
          now
  standard_or-Reads before now kept none = raise-Reads before now kept _ _
  standard_or-Reads before now kept (some requirement) =
      then-Reads (require-Reads before now kept _ _)
        (λ _ w k h. return-Reads before w k _ _ (refl, h))

  one_of-Reads :
      (before now : World) (kept : Keeps before now)
      → (project : Option sdlc.Fibery.Project) (roots : List DocumentNode)
      → Reads before Any (one_of project roots) now
  one_of-Reads before now kept none roots = raise-Reads before now kept _ _
  one_of-Reads before now kept (some p) [] = raise-Reads before now kept _ _
  one_of-Reads before now kept (some p) (root ∷ []) = return-Reads before now kept _ _ tt
  one_of-Reads before now kept (some p) (root ∷ other ∷ more) = raise-Reads before now kept _ _

  resolve_structure-Reads :
      (requirement : Requirement) (before now : World)
      → Keeps before now
      → Reads before Any (resolve_structure workspace requirement) now
  unfolding resolve_structure
  resolve_structure-Reads requirement before now kept =
      then-Reads (fetch-Reads before now kept _) (λ project w k _.
        then-Reads (fetch-Reads before w k _)
          (λ attached w k _. one_of-Reads before w k project attached))

  -- What was checked before the first write. The second check follows the last read of the plan.
  pub record IsPrepared (writes : List Write) (requirement : Requirement)
      (prepared : Structure × Evidence × Plan) : Type 0 where
    pub in_apply : is_text requirement.state apply_state ≡ true
    pub is_evidence :
        IsEvidence reader resolutions workspace requirement writes prepared.0.root prepared.1
    pub as_reviewed : IsAsReviewed reader prepared.1
    pub is_plan : IsPlan workspace writes requirement prepared.1.confirmed prepared.2
    pub rechecked :
        IsRechecked reader resolutions workspace requirement writes
          (suc is_plan.read_at)
          prepared.0.root
          prepared.1
    pub dependencies :
        DependenciesHold reader resolutions workspace requirement writes prepared.1.latest_review
          applying
    pub resolved : ResolutionsHold reader resolutions workspace requirement writes prepared.1

  pub prepare-IsPrepared :
      (requirement : Requirement) (before now : World)
      → Keeps before now
      → Reads before
          (IsPrepared before.writes requirement)
          (prepare reader resolutions workspace requirement)
          now
  unfolding prepare require_apply
  prepare-IsPrepared requirement before now kept =
      then-Reads (require-Reads before now kept _ _) (λ _ w k in_apply.
        then-Reads (resolve_structure-Reads requirement before w k) (λ structure w k _.
          then-Reads
            (read_evidence-IsEvidence reader resolutions workspace requirement structure.root before
              w k)
            (λ evidence w k is_evidence.
              then-Reads (check_bindings-IsAsReviewed reader evidence before w k)
                (λ _ w k as_reviewed. Ends-Reads (
                  then-Ends (make_plan-Ends workspace requirement evidence.confirmed before w k)
                    (λ plan w k₁.
                      Reads-Ends (λ v k. k)
                        (checks structure evidence plan w k₁.0 in_apply is_evidence as_reviewed
                          k₁.1.0 k₁.1.1)))))))
    where
      checks :
          (structure : Structure) (evidence : Evidence) (plan : Plan) (now : World)
          → Keeps before now
          → is_text requirement.state apply_state ≡ true
          → IsEvidence reader resolutions workspace requirement before.writes structure.root
              evidence
          → IsAsReviewed reader evidence
          → (is_plan : IsPlan workspace before.writes requirement evidence.confirmed plan)
          → now.moment ≡ suc is_plan.read_at
          → Reads before
              (IsPrepared before.writes requirement)
              (recheck_bindings reader resolutions workspace requirement structure.root evidence
                >>= λ _.
                    check_dependencies reader resolutions workspace requirement
                      evidence.latest_review applying
                    >>= λ _.
                        check_resolutions reader resolutions workspace requirement evidence >>= λ _.
                        return (structure, evidence, plan))
              now
      checks structure evidence plan now kept in_apply is_evidence as_reviewed is_plan later =
          then-Reads
            (recheck_bindings-IsRechecked reader resolutions workspace requirement structure.root
              evidence before now kept)
            (λ _ w k rechecked.
              then-Reads
                (check_dependencies-Hold reader resolutions workspace requirement
                  evidence.latest_review applying before w k)
                (λ _ w k dependencies.
                  then-Reads
                    (check_resolutions-Hold reader resolutions workspace requirement evidence before
                      w k)
                    (λ _ w k resolved. return-Reads before w k _ _ (record {
                      in_apply = in_apply;
                      is_evidence = is_evidence;
                      as_reviewed = as_reviewed;
                      is_plan = is_plan;
                      rechecked =
                          subst
                            (λ t.
                              IsRechecked reader resolutions workspace requirement before.writes t
                                structure.root evidence)
                            later rechecked;
                      dependencies = dependencies;
                      resolved = resolved;
                    }))))

  pub load_requirement-IsLoaded :
      (entity_id : String) (before now : World)
      → Keeps before now
      → Reads before (IsLoaded before.writes entity_id) (load_requirement workspace entity_id) now
  unfolding load_requirement
  load_requirement-IsLoaded entity_id before now kept =
      then-Reads (fetch-Answers before now kept _) (λ answer w k got.
        weaken-Reads (standard_or-Reads before w k answer)
          (λ r h. record { asked = now.moment; answer = got ∙ ap ok h.0; is_standard = h.1 }))
