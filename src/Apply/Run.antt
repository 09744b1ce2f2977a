-- ===== src/Apply/Run.antt =====
-- `apply_standard_requirement` of requirement_apply.py.
pub mod Prepared
pub mod Completed
pub mod Outcome
pub mod Journaled
use sdlc.Base.{ℕ, String, ◌⊎◌, inl, inr, Option, none, some, List, [], ◌∷◌, is_text, if◌then◌else◌}
use sdlc.Fibery.{Requirement}
use sdlc.Routes.{applied_state}
use sdlc.Attempts.{return}
use sdlc.Results.{ApplyResultCode}
use sdlc.Evidence.{Reader}
use sdlc.Dependencies.Current.{applying, applied}
use sdlc.Apply.{
  ◌>>=◌, Edge, Created, World, Resolutions, ApplyWorkspace, Failure, stage_failed, attribute_error,
  Stage, Structure, load_requirement, require_apply, resolve_structure,
}
use sdlc.Apply.Checks.{Evidence, check_bindings}
use sdlc.Apply.Checks.Read.{read_evidence, recheck_bindings, check_dependencies, check_resolutions}
use sdlc.Apply.Plan.{Plan, make_plan}
use sdlc.Apply.Writes.{ensure_edges, transition_to_applied}

-- `ApplyResult`. A PARTIAL_APPLY names the code of the stage that failed.
pub record ApplyReport : Type 0 where
  pub code : ApplyResultCode
  pub stage_code : Option ApplyResultCode
  pub requirement_id : Option String
  pub state : Option String
  pub relations_added : List Edge
  pub relations_present : List Edge
  pub created : List Created
  pub details : List String

-- `_failure_result`
unfoldable pub failure_result :
    Option Requirement → ApplyResultCode → List String → List Created → ApplyReport
failure_result requirement stage causes [] = record {
  code = stage;
  stage_code = none;
  requirement_id = elim requirement [ none ↦ none | some r ↦ r.requirement_id ];
  state = elim requirement [ none ↦ none | some r ↦ r.state ];
  relations_added = [];
  relations_present = [];
  created = [];
  details = causes;
}
failure_result requirement stage causes (c ∷ created) = record {
  code = ApplyResultCode.partial_apply;
  stage_code = some stage;
  requirement_id = elim requirement [ none ↦ none | some r ↦ r.requirement_id ];
  state = elim requirement [ none ↦ none | some r ↦ r.state ];
  relations_added = [];
  relations_present = [];
  created = c ∷ created;
  details = causes;
}

-- The report of a run that ended with a failure, unless an AttributeError leaves the call.
unfoldable pub failed_report : Option Requirement → Failure → List Created → Option ApplyReport
unfolding failure_result
failed_report requirement (stage_failed code causes) created =
    some (failure_result requirement code causes created)
failed_report requirement attribute_error created = none

-- `_already_applied`
unfoldable pub already_applied : Requirement → ApplyReport
already_applied requirement = record {
  code = ApplyResultCode.requirement_already_applied;
  stage_code = none;
  requirement_id = requirement.requirement_id;
  state = requirement.state;
  relations_added = [];
  relations_present = [];
  created = [];
  details = [];
}

unfoldable pub applied_report : Requirement → Plan → List Created → ApplyReport
applied_report requirement plan created = record {
  code = ApplyResultCode.requirement_applied;
  stage_code = none;
  requirement_id = requirement.requirement_id;
  state = some applied_state;
  relations_added = plan.missing;
  relations_present = plan.present;
  created = created;
  details = [];
}

module _ (reader : Reader) (resolutions : Resolutions) (workspace : ApplyWorkspace) where
  -- What is decided before the first write.
  unfoldable pub prepare : Requirement → Stage (Structure × Evidence × Plan)
  unfolding require_apply resolve_structure read_evidence check_bindings make_plan recheck_bindings
      check_dependencies check_resolutions
  prepare requirement = do
    _ ← require_apply workspace requirement
    structure ← resolve_structure workspace requirement
    evidence ← read_evidence reader resolutions workspace requirement structure.root
    _ ← check_bindings reader evidence
    plan ← make_plan workspace requirement evidence.confirmed
    _ ← recheck_bindings reader resolutions workspace requirement structure.root evidence
    _ ← check_dependencies reader resolutions workspace requirement evidence.latest_review applying
    _ ← check_resolutions reader resolutions workspace requirement evidence
    return (structure, evidence, plan)

  -- The writes, and the checks between them.
  unfoldable pub complete : Requirement → Structure × Evidence × Plan → Stage (Unit {0})
  unfolding ensure_edges recheck_bindings check_dependencies check_resolutions transition_to_applied
  complete requirement (structure, evidence, plan) = do
    _ ← ensure_edges workspace requirement plan.targets plan.missing
    _ ← recheck_bindings reader resolutions workspace requirement structure.root evidence
    _ ← check_dependencies reader resolutions workspace requirement evidence.latest_review applied
    _ ← check_resolutions reader resolutions workspace requirement evidence
    transition_to_applied workspace requirement

  unfoldable pub apply_loaded : Requirement → Stage Plan
  unfolding prepare complete
  apply_loaded requirement = do
    prepared ← prepare requirement
    _ ← complete requirement prepared
    return prepared.2

  unfoldable pub reported : Requirement → (Plan ⊎ Failure) × World → Option ApplyReport × World
  unfolding applied_report failed_report
  reported requirement (inl plan, w) = (some (applied_report requirement plan w.created), w)
  reported requirement (inr failure, w) = (failed_report (some requirement) failure w.created, w)

  unfoldable pub apply_or_report : (Requirement ⊎ Failure) × World → Option ApplyReport × World
  unfolding reported apply_loaded already_applied failed_report
  apply_or_report (inr failure, w) = (failed_report none failure w.created, w)
  apply_or_report (inl requirement, w) =
      if is_text requirement.state applied_state
      then (some (already_applied requirement), w)
      else reported requirement (apply_loaded requirement w)

  -- From the moment of the call, with no write and an empty journal.
  unfoldable pub apply_standard_requirement : String → ℕ → Option ApplyReport × World
  unfolding apply_or_report load_requirement
  apply_standard_requirement entity_id t =
      apply_or_report
        (load_requirement workspace entity_id (record { moment = t; writes = []; created = [] }))
