-- ===== src/Runner/Selection.antt =====
-- src/sdlc/requirement_runner.py: `_selected`, `_public_id_order`, `_lowest_eligible` and
-- `_fresh_selection`. A public id is ASCII: `isdigit` and `int` are those of decimal digits.
pub mod Order
pub mod Fresh
use Prim.Native.Char.{code}
use Prim.Native.String.{compare}
use text.Mathlib.Text.{is_lt}
use sdlc.Base.{
  ℕ, ◌+◌, ◌-◌, ◌*◌, String, ◌⊎◌, inl, inr, Bool, true, false, not, ◌&&◌, Option, none, some, List,
  [], ◌∷◌, ◌++◌, ltb, leb, if◌then◌else◌, ◌==◌,
}
use sdlc.Fibery.{Requirement, Fallible, ok, failed}
use sdlc.Routes.{
  ProcessingStatus, not_processed, processing, succeeded, value, RouteSelection, RouteDecision,
  route_selected, select_route,
}
use sdlc.Differences.{Detail, message, cycle_fields, differences}
use sdlc.Service.{Action, Workspace, pure, ◌>>=◌, read_requirement}
use sdlc.Runner.Report.{CycleReport, report, candidate_read_failed, candidate_changed}
use sdlc.Runner.Scope.{ProjectScope, outside_scope}

-- `ProcessingStatus(text)`; none where it raises ValueError.
unfoldable pub parse_status : Option String → Option ProcessingStatus
unfolding value
parse_status none = none
parse_status (some s) =
    if s == value not_processed
    then some not_processed
    else if s == value processing
    then some processing
    else if s == value succeeded
    then some succeeded
    else if s == value ProcessingStatus.failed
    then some ProcessingStatus.failed
    else none

abbrev is_selected : RouteDecision → Bool
is_selected route_selected = true
is_selected _ = false

select_at : Requirement → Option ProcessingStatus → Option RouteSelection
unfolding select_route
select_at requirement none = none
select_at requirement (some status) =
    let selection = select_route requirement status in
    if is_selected selection.decision then some selection else none

-- `_selected`
unfoldable pub selected : Requirement → Option RouteSelection
unfolding select_at parse_status
selected requirement = select_at requirement (parse_status requirement.processing_status)

all_digits : String → Bool
all_digits String.[] = true
all_digits (String.◌∷◌ c s) = leb 48 (code c) && leb (code c) 57 && all_digits s

-- `str.isdigit`
unfoldable pub is_digits : String → Bool
unfolding all_digits
is_digits s = not (s == "") && all_digits s

unfoldable pub to_int_from : ℕ → String → ℕ
to_int_from n String.[] = n
to_int_from n (String.◌∷◌ c s) = to_int_from (n * 10 + (code c - 48)) s

-- `int(text)`
unfoldable pub to_int : String → ℕ
unfolding to_int_from
to_int s = to_int_from 0 s

pub record OrderKey : Type 0 where
  pub not_numeric : Bool
  pub number : ℕ
  pub public_id : String

-- `_public_id_order`
unfoldable pub public_id_order : Requirement → OrderKey
unfolding is_digits to_int
public_id_order record_read =
    let numeric = is_digits record_read.public_id in
    record {
      not_numeric = not numeric;
      number = if numeric then to_int record_read.public_id else 0;
      public_id = record_read.public_id;
    }

-- `<` on the tuples: the first component that differs decides, False before True.
unfoldable pub key_lt : OrderKey → OrderKey → Bool
key_lt a b =
    let rest =
      if ltb a.number b.number
      then true
      else if ltb b.number a.number
      then false
      else is_lt (compare a.public_id b.public_id) in
    if a.not_numeric
    then (if b.not_numeric then rest else false)
    else (if b.not_numeric then true else rest)

-- `min` keeps the earliest of the least.
unfoldable pub min_from : Requirement → List Requirement → Requirement
unfolding key_lt public_id_order
min_from best [] = best
min_from best (r ∷ rs) =
    min_from (if key_lt (public_id_order r) (public_id_order best) then r else best) rs

abbrev some_selection : Option RouteSelection → Bool
some_selection none = false
some_selection (some _) = true

unfoldable pub eligible : List Requirement → List Requirement
eligible [] = []
eligible (r ∷ rs) = let rest = eligible rs in if some_selection (selected r) then r ∷ rest else rest

abbrev min_or_none : List Requirement → Option Requirement
min_or_none [] = none
min_or_none (r ∷ rs) = some (min_from r rs)

-- `_lowest_eligible`
unfoldable pub lowest_eligible : List Requirement → Option Requirement
unfolding min_from eligible
lowest_eligible polled = min_or_none (eligible polled)

module _ (candidate : Requirement) (scope : Option ProjectScope) where
  abbrev changed : Option Requirement → List Detail → RouteSelection ⊎ CycleReport
  changed none found = inr (report candidate_changed (some candidate) none found)
  changed (some fresh) found = inr (report candidate_changed (some fresh) none found)

  select_fresh : Requirement → Option RouteSelection → RouteSelection ⊎ CycleReport
  select_fresh fresh none = changed (some fresh) []
  select_fresh fresh (some selection) = inl selection

  select_unchanged : Option Requirement → List Detail → RouteSelection ⊎ CycleReport
  unfolding select_fresh
  select_unchanged none found = changed none found
  select_unchanged (some fresh) (d ∷ found) = changed (some fresh) (d ∷ found)
  select_unchanged (some fresh) [] = select_fresh fresh (selected fresh)

  select_reread : Fallible (Option Requirement) → RouteSelection ⊎ CycleReport
  unfolding select_unchanged differences outside_scope
  select_reread (failed e) =
      inr (report candidate_read_failed (some candidate) none (message e ∷ []))
  select_reread (ok fresh) =
      select_unchanged fresh (differences candidate fresh cycle_fields ++ outside_scope fresh scope)

  -- `_fresh_selection`
  unfoldable pub fresh_selection : Workspace → Action (RouteSelection ⊎ CycleReport)
  unfolding select_reread read_requirement
  fresh_selection workspace = do
    fresh ← read_requirement workspace candidate.id
    pure (select_reread fresh)
