-- ===== src/Service.antt =====
-- The operations that requirement_dispatcher.py and requirement_runner.py call: the workspace
-- protocols of src/sdlc/fibery_workspace.py and the four bound workers. Fibery, the workers and
-- everybody else who writes to the workspace are the environment: each answer may depend on the
-- whole history of calls and answers so far, and on nothing that the caller controls otherwise.
-- A caller is an action on that history, the latest event first.
pub mod Effects
pub mod Growth
use sdlc.Base.{String, ℕ, Bool, true, Option, List, ◌∷◌}
use sdlc.Fibery.{Project, Requirement, Fallible}
use sdlc.Results.{
  ProcessResult, StandardProcessResult, StandardReviewResult, ApplyResult, WorkerResult,
  raw_processed, standard_processed, standard_reviewed, standard_applied,
}
use sdlc.Routes.{Worker, raw_process, standard_process, standard_review, standard_apply}

pub data Event : Type 0 where
  polled : Option String → Fallible (List Requirement) → Event
  read : String → Fallible (Option Requirement) → Event
  found : String → Fallible (List Requirement) → Event
  sources : String → Fallible (List Requirement) → Event
  wrote_state : String → String → Fallible (Unit {0}) → Event
  wrote_status : String → String → Fallible (Unit {0}) → Event
  read_project : String → Fallible (Option Project) → Event
  found_project : String → Fallible (Option Project) → Event
  counted_projects : String → Fallible ℕ → Event
  validated_options : List String → Fallible (Unit {0}) → Event
  ran : Worker → String → WorkerResult → Event
  offered_ready : Event
  forgot : String → Event
  slept : ℕ → Event

abbrev pub History : Type 0
History = List Event

abbrev pub Action {ℓ} : Type ℓ → Type ℓ
Action A = History → A × History

-- What the environment answers to each operation after a history.
pub record Workspace : Type 0 where
  pub on_poll :
      History → List (String × String) → String → Option String → Fallible (List Requirement)
  pub on_read : History → String → Fallible (Option Requirement)
  pub on_find : History → String → Fallible (List Requirement)
  pub on_sources : History → String → Fallible (List Requirement)
  pub on_set_state : History → String → String → Fallible (Unit {0})
  pub on_set_status : History → String → String → Fallible (Unit {0})
  pub on_read_project : History → String → Fallible (Option Project)
  pub on_find_project : History → String → Fallible (Option Project)
  pub on_count_projects : History → String → Fallible ℕ
  pub on_validate : History → List String → Fallible (Unit {0})
  pub lock_scope : History → String

pub record RequirementWorkers : Type 0 where
  pub process_raw : History → String → ProcessResult
  pub process_standard : History → (authorized_new_cycle : Bool) → String → StandardProcessResult
  pub review_standard : History → String → StandardReviewResult
  pub apply_standard : History → String → ApplyResult

module _ {ℓ} {A : Type ℓ} where
  abbrev pub pure : A → Action A
  pure a h = (a, h)

module _ {ℓ κ} {A : Type ℓ} {B : Type κ} where
  infixl 5 ◌>>=◌
  abbrev pub ◌>>=◌ : Action A → (A → Action B) → Action B
  m >>= f = λ h. let (a, h') = m h in f a h'

module _ (workspace : Workspace) where
  unfoldable pub find_eligible_requirements :
      List (String × String) → String → Option String → Action (Fallible (List Requirement))
  find_eligible_requirements routes status project h =
      let answer = workspace.on_poll h routes status project in (answer, polled project answer ∷ h)

  unfoldable pub read_requirement : String → Action (Fallible (Option Requirement))
  read_requirement id h = let answer = workspace.on_read h id in (answer, read id answer ∷ h)

  unfoldable pub find_requirements_by_requirement_id : String → Action (Fallible (List Requirement))
  find_requirements_by_requirement_id id h =
      let answer = workspace.on_find h id in (answer, found id answer ∷ h)

  unfoldable pub derived_from : String → Action (Fallible (List Requirement))
  derived_from id h = let answer = workspace.on_sources h id in (answer, sources id answer ∷ h)

  unfoldable pub set_requirement_state : String → String → Action (Fallible (Unit {0}))
  set_requirement_state id state h =
      let answer = workspace.on_set_state h id state in (answer, wrote_state id state answer ∷ h)

  unfoldable pub set_processing_status : String → String → Action (Fallible (Unit {0}))
  set_processing_status id status h =
      let answer = workspace.on_set_status h id status in
      (answer, wrote_status id status answer ∷ h)

  unfoldable pub read_project_by_id : String → Action (Fallible (Option Project))
  read_project_by_id id h =
      let answer = workspace.on_read_project h id in (answer, read_project id answer ∷ h)

  unfoldable pub find_project_by_code : String → Action (Fallible (Option Project))
  find_project_by_code code h =
      let answer = workspace.on_find_project h code in (answer, found_project code answer ∷ h)

  unfoldable pub count_projects_with_code : String → Action (Fallible ℕ)
  count_projects_with_code code h =
      let answer = workspace.on_count_projects h code in (answer, counted_projects code answer ∷ h)

  unfoldable pub validate_processing_status_field : List String → Action (Fallible (Unit {0}))
  validate_processing_status_field options h =
      let answer = workspace.on_validate h options in (answer, validated_options options answer ∷ h)

module _ (workers : RequirementWorkers) (h : History) (id : String) where
  abbrev answer_of : Worker → WorkerResult
  answer_of raw_process = raw_processed (workers.process_raw h id)
  answer_of standard_process = standard_processed (workers.process_standard h true id)
  answer_of standard_review = standard_reviewed (workers.review_standard h id)
  answer_of standard_apply = standard_applied (workers.apply_standard h id)

-- `_run` of requirement_dispatcher.py. Standard Process is called as an authorized new cycle.
unfoldable pub run : RequirementWorkers → Worker → String → Action WorkerResult
run workers worker id h =
    let answer = answer_of workers h id worker in (answer, ran worker id answer ∷ h)
