-- ===== src/Routes.antt =====
-- src/sdlc/requirement_dispatcher.py, selection: the Processing Status vocabulary, the four
-- machine routes, the states that select none, and `select_route`. The reason of a selection is
-- kept as `Reason`, which holds what the printed text is made of.
pub mod Selection
use sdlc.Base.{
  String, Bool, true, false, ◌&&◌, Option, none, some, List, [], ◌∷◌, is_text, if◌then◌else◌,
}
use sdlc.Fibery.{Requirement}

pub data ProcessingStatus : Type 0 where
  not_processed processing succeeded failed : ProcessingStatus

-- `status.value`
unfoldable pub value : ProcessingStatus → String
value not_processed = "Not Processed"
value processing = "Processing"
value succeeded = "Succeeded"
value failed = "Failed"

pub data Worker : Type 0 where
  raw_process standard_process standard_review standard_apply : Worker

abbrev pub raw_type : String
raw_type = "Raw"

abbrev pub standard_type : String
standard_type = "Standard"

abbrev pub draft_state : String
draft_state = "Draft"

abbrev pub process_state : String
process_state = "Process"

abbrev pub review_state : String
review_state = "Review"

abbrev pub ready_state : String
ready_state = "Ready"

abbrev pub apply_state : String
apply_state = "Apply"

abbrev pub applied_state : String
applied_state = "Applied"

pub record Route : Type 0 where
  pub type_name : String
  pub state : String
  pub worker : Worker
  pub completed_state : String

abbrev pub route : String → String → Worker → String → Route
route type_name state worker completed_state = record {
  type_name = type_name;
  state = state;
  worker = worker;
  completed_state = completed_state;
}

-- A dictionary keyed by `(Type, State)`, as its items in insertion order.
abbrev pub Table {ℓ} : Type ℓ → Type ℓ
Table V = List ((String × String) × V)

abbrev pub routes : Table Route
routes =
    ((raw_type, process_state), route raw_type process_state raw_process review_state)
    ∷ (
      (standard_type, process_state),
      route standard_type process_state standard_process review_state,
    )
    ∷ ((standard_type, review_state), route standard_type review_state standard_review ready_state)
    ∷ ((standard_type, apply_state), route standard_type apply_state standard_apply applied_state)
    ∷ []

pub data RouteDecision : Type 0 where
  route_selected human_boundary no_machine_work status_not_eligible unsupported_state :
      RouteDecision

pub data Reason : Type 0 where
  raw_not_authorized raw_cycle_complete draft_not_inherited human_decision_due : Reason
  application_completed no_machine_route : Reason
  status_is : ProcessingStatus → Reason
  runs : Worker → Reason

abbrev pub no_route_states : Table (RouteDecision × Reason)
no_route_states =
    ((raw_type, draft_state), (human_boundary, raw_not_authorized))
    ∷ ((raw_type, review_state), (no_machine_work, raw_cycle_complete))
    ∷ ((standard_type, draft_state), (no_machine_work, draft_not_inherited))
    ∷ ((standard_type, ready_state), (human_boundary, human_decision_due))
    ∷ ((standard_type, applied_state), (no_machine_work, application_completed))
    ∷ []

-- `table.get((type_name, state))`
unfoldable pub get {ℓ} : {V : Type ℓ} → Table V → Option String → Option String → Option V
get [] type_name state = none
get (((t, s), v) ∷ table) type_name state =
    if is_text type_name t && is_text state s then some v else get table type_name state

pub record RouteSelection : Type 0 where
  pub requirement : Requirement
  pub status : ProcessingStatus
  pub decision : RouteDecision
  pub reason : Reason
  pub route : Option Route

abbrev is_not_processed : ProcessingStatus → Bool
is_not_processed not_processed = true
is_not_processed _ = false

abbrev unrouted : Option (RouteDecision × Reason) → RouteDecision × Reason
unrouted none = (unsupported_state, no_machine_route)
unrouted (some known) = known

-- The selection, once `routes.get(key)` has answered.
select_from : Option Route → Requirement → ProcessingStatus → RouteSelection
unfolding get
select_from none requirement status =
    let (decision, reason) =
      unrouted (get no_route_states requirement.type_name requirement.state) in
    record {
      requirement = requirement;
      status = status;
      decision = decision;
      reason = reason;
      route = none;
    }
select_from (some found) requirement status =
    if is_not_processed status
    then record {
      requirement = requirement;
      status = status;
      decision = route_selected;
      reason = runs found.worker;
      route = some found;
    }
    else record {
      requirement = requirement;
      status = status;
      decision = status_not_eligible;
      reason = status_is status;
      route = none;
    }

unfoldable pub select_route : Requirement → ProcessingStatus → RouteSelection
unfolding select_from get
select_route requirement status =
    select_from (get routes requirement.type_name requirement.state) requirement status
