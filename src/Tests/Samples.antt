-- ===== src/Tests/Samples.antt =====
-- A small workspace that replays a history over its first records, its workers, and one RAW
-- Requirement with one candidate.
use sdlc.Base.{String, true, Option, none, some, List, [], ◌∷◌, is_text, if◌then◌else◌, ◌==◌}
use sdlc.Fibery.{Project, Requirement, ok}
use sdlc.Results.{
  ProcessResult, ProcessResultCode, StandardProcessResultCode, StandardReviewResultCode,
  ApplyResultCode,
}
use sdlc.Results.{raw_processed}
use sdlc.Routes.{not_processed, route, RouteSelection, route_selected, runs}
use sdlc.Dispatch.{route_completed, DispatchResult}
use sdlc.Routes.{Worker, raw_process, standard_process, standard_review, standard_apply}
use sdlc.Service.{wrote_state, wrote_status, ran, History, Workspace, RequirementWorkers}
use sdlc.Runner.Scope.{ProjectScope}

abbrev pub raw : Requirement
raw = record {
  id = "e1";
  public_id = "7";
  requirement_id = some "P-RAW-0007";
  title = none;
  type_name = some "Raw";
  state = some "Process";
  revision = none;
  project_id = some "p1";
  source_fingerprint = none;
  category = none;
  processing_status = some "Not Processed";
}

abbrev pub candidate : Requirement
candidate = record {
  id = "e2";
  public_id = "12";
  requirement_id = some "P-FR-0012";
  title = none;
  type_name = some "Standard";
  state = some "Draft";
  revision = none;
  project_id = some "p1";
  source_fingerprint = none;
  category = none;
  processing_status = none;
}

abbrev pub project : Project
project = record { id = "p1"; name = "Pilot"; code = some "P"; state = none; public_id = "1" }

abbrev pub scope : ProjectScope
scope = record { project_id = "p1"; project_code = "P"; workspace_identity = "w" }

abbrev left_by : Worker → String
left_by raw_process = "Review"
left_by standard_process = "Review"
left_by standard_review = "Ready"
left_by standard_apply = "Applied"

-- The record after the writes and the runs of a history.
abbrev pub replay : History → Requirement → Requirement
replay [] r = r
replay (wrote_state id s (ok _) ∷ h) r =
    let before = replay h r in if id == r.id then record before { state = some s } else before
replay (wrote_status id s (ok _) ∷ h) r =
    let before = replay h r in
    if id == r.id then record before { processing_status = some s } else before
replay (ran w id _ ∷ h) r =
    let before = replay h r in
    if id == r.id then record before { state = some (left_by w) } else before
replay (_ ∷ h) r = replay h r

abbrev pub with_id : String → List Requirement → Option Requirement
with_id id [] = none
with_id id (r ∷ rs) = if r.id == id then some r else with_id id rs

abbrev pub named : String → List Requirement → List Requirement
named name [] = []
named name (r ∷ rs) =
    let rest = named name rs in if is_text r.requirement_id name then r ∷ rest else rest

abbrev pub records : History → List Requirement
records h = replay h raw ∷ replay h candidate ∷ []

abbrev pub store : Workspace
store = record {
  on_poll = λ h routes status project. ok (records h);
  on_read = λ h id. ok (with_id id (records h));
  on_find = λ h name. ok (named name (records h));
  on_sources = λ h id. ok (if id == "e2" then raw ∷ [] else []);
  on_set_state = λ h id state. ok tt;
  on_set_status = λ h id status. ok tt;
  on_read_project = λ h id. ok (if id == "p1" then some project else none);
  on_find_project = λ h code. ok (if code == "P" then some project else none);
  on_count_projects = λ h code. ok (if code == "P" then 1 else 0);
  on_validate = λ h options. ok tt;
  lock_scope = λ h. "w";
}

abbrev pub processed : ProcessResult
processed = record {
  code = ProcessResultCode.raw_requirement_processed;
  message = "processed";
  raw_requirement_id = some "P-RAW-0007";
  candidates = "P-FR-0012" ∷ [];
  findings = [];
  no_candidate_reason = none;
  model_invoked = true;
  created = [];
  details = [];
}

abbrev pub workers : RequirementWorkers
workers = record {
  process_raw = λ h id. processed;
  process_standard = λ h new_cycle id. record {
    code = StandardProcessResultCode.requirement_processed;
    message = "";
    requirement_id = none;
    iteration = none;
    findings = [];
    proposed_relations = [];
    model_invoked = true;
    created = [];
    details = [];
  };
  review_standard = λ h id. record {
    code = StandardReviewResultCode.requirement_reviewed;
    message = "";
    requirement_id = none;
    iteration = none;
    verdict = none;
    blocking = [];
    warnings = [];
    verifications = [];
    relations = [];
    model_invoked = true;
    created = [];
    details = [];
  };
  apply_standard = λ h id. record {
    code = ApplyResultCode.requirement_applied;
    message = "";
    requirement_id = none;
    state = none;
    relations_added = [];
    relations_present = [];
    created = [];
    details = [];
  };
}

abbrev pub selection : RouteSelection
selection = record {
  requirement = raw;
  status = not_processed;
  decision = route_selected;
  reason = runs raw_process;
  route = some (route "Raw" "Process" raw_process "Review");
}

-- The RAW after its claim, the history behind its worker's run, and what its dispatch reports.
abbrev pub claimed : Requirement
claimed = record raw { processing_status = some "Processing" }

abbrev pub worked : History
worked =
    ran raw_process "e1" (raw_processed processed) ∷ wrote_status "e1" "Processing" (ok tt) ∷ []

abbrev pub finished : DispatchResult
finished = record {
  outcome = route_completed;
  selection = selection;
  worker_result = some (raw_processed processed);
  state_after = some "Review";
  progressed = "P-FR-0012" ∷ [];
  details = [];
}
