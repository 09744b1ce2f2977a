-- ===== src/Differences.antt =====
-- The comparison of two reads of one Requirement: `_route_drift` of
-- src/sdlc/requirement_dispatcher.py and `_differences`, `BINDING_FIELDS`, `CYCLE_FIELDS` of
-- src/sdlc/requirement_runner.py. A printed difference is kept as a `Detail`, which holds the
-- values that its text shows.
pub mod Agreement
use sdlc.Base.{String, Bool, Option, none, some, List, [], ◌∷◌, ◌++◌, same_text, if◌then◌else◌}
use sdlc.Fibery.{Requirement}

pub data Field : Type 0 where
  requirement_id type_name state project_id processing_status : Field

-- `getattr(record, field)`
unfoldable pub get_field : Field → Requirement → Option String
get_field requirement_id r = r.requirement_id
get_field type_name r = r.type_name
get_field state r = r.state
get_field project_id r = r.project_id
get_field processing_status r = r.processing_status

abbrev pub binding_fields : List Field
binding_fields = requirement_id ∷ type_name ∷ state ∷ project_id ∷ []

abbrev pub cycle_fields : List Field
cycle_fields = binding_fields ++ processing_status ∷ []

pub data Detail : Type 0 where
  message : String → Detail
  gone : String → Detail
  changed : Field → Option String → Option String → Detail
  outside : Option String → String → String → Detail
  unresolved : String → (several : Bool) → Detail
  wrong_type : String → Option String → Detail
  wrong_project : String → Option String → Option String → Detail
  wrong_state : String → Option String → Detail
  not_derived : String → String → Detail
  unconfirmed : String → String → Detail
  read_back : String → Option String → Detail
  read_failed : String → Detail
  write_failed : (status : String) → String → Detail
  no_route_dispatched unestablished : Detail
  workspace_moved : String → String → Detail
  project_unreadable : String → String → Detail
  project_gone : String → Detail
  project_recoded : String → Option String → String → Detail

-- The fields, in order, in which the two records differ.
unfoldable pub changes : List Field → Requirement → Requirement → List Detail
unfolding get_field
changes [] expected current = []
changes (f ∷ fields) expected current =
    let rest = changes fields expected current in
    if same_text (get_field f expected) (get_field f current)
    then rest
    else changed f (get_field f expected) (get_field f current) ∷ rest

unfoldable pub differences : Requirement → Option Requirement → List Field → List Detail
unfolding changes
differences expected none fields = gone expected.id ∷ []
differences expected (some current) fields = changes fields expected current

unfoldable pub route_drift : Requirement → Option Requirement → List Detail
unfolding changes
route_drift selected none = gone selected.id ∷ []
route_drift selected (some current) = changes binding_fields selected current
