-- ===== src/Evidence/Names.antt =====
-- `parse_process_result_name` of process_result.py, `parse_review_result_name` of review_result.py, and
-- the choice of the newest artifact of one kind, as dependency_evidence.py and requirement_apply.py
-- make it.
pub mod Newest
use sdlc.Base.{
  ℕ, String, Bool, true, false, Option, none, some, List, [], ◌∷◌, ◌++◌, ◌⊎◌, inl, inr, ltb, eqb,
  if◌then◌else◌,
}
use sdlc.ProjectCode.{Text, codes, lstrip, rstrip, same_codes}
use sdlc.RequirementId.{read_number}
use sdlc.ArtifactNames.{after_prefix, ends_numbered, owner_then}
use sdlc.NormativeTree.{DocumentNode}

pub data ResultKind : Type 0 where
  process review : ResultKind

abbrev pub middle : ResultKind → String
middle process = " — Process Result "
middle review = " — Review Result "

abbrev number_of : Option Text → Option ℕ
unfolding read_number
number_of none = none
number_of (some digits) = some (read_number digits)

-- ` — Process Result (\d{4,})$`
unfoldable pub numbered : ResultKind → Text → Option ℕ
unfolding after_prefix codes number_of
numbered kind s =
    let digits = after_prefix (codes (middle kind)) s in
    if ends_numbered digits then number_of digits else none

-- `NAME_PATTERN.match(name.strip())`, its owner and its iteration.
unfoldable pub parse_result_name : ResultKind → String → Option (Text × ℕ)
unfolding owner_then numbered codes lstrip rstrip
parse_result_name kind name = owner_then (numbered kind) (rstrip (lstrip (codes name)))

-- `parsed is None or parsed[0] != requirement_id`, else the iteration.
abbrev of_owner : Option String → Option (Text × ℕ) → Option ℕ
unfolding codes
of_owner owner none = none
of_owner none (some parsed) = none
of_owner (some id) (some (o, iteration)) = if same_codes o (codes id) then some iteration else none

unfoldable pub iteration_of : ResultKind → Option String → DocumentNode → Option ℕ
unfolding parse_result_name of_owner
iteration_of kind owner node = of_owner owner (parse_result_name kind node.name)

abbrev pub Numbered : Type 0
Numbered = List (ℕ × DocumentNode)

abbrev pub has_number : ℕ → Numbered → Bool
has_number i [] = false
has_number i ((j, node) ∷ nodes) = if eqb j i then true else has_number i nodes

collect_one : DocumentNode → Option ℕ → Numbered → (Numbered → Numbered ⊎ ℕ) → Numbered ⊎ ℕ
collect_one node none nodes next = next nodes
collect_one node (some i) nodes next =
    if has_number i nodes then inr i else next (nodes ++ (i, node) ∷ [])

-- The loop over the artifacts; an iteration that comes twice is refused.
unfoldable pub collect : ResultKind → Option String → List DocumentNode → Numbered → Numbered ⊎ ℕ
unfolding collect_one iteration_of
collect kind owner [] nodes = inl nodes
collect kind owner (node ∷ rest) nodes =
    collect_one node (iteration_of kind owner node) nodes (collect kind owner rest)

-- `nodes[max(nodes)]`
unfoldable pub newest_from : ℕ × DocumentNode → Numbered → ℕ × DocumentNode
newest_from best [] = best
newest_from (i, node) ((j, other) ∷ nodes) =
    newest_from (if ltb i j then (j, other) else (i, node)) nodes

abbrev pub newest : Numbered → Option (ℕ × DocumentNode)
unfolding newest_from
newest [] = none
newest (first ∷ nodes) = some (newest_from first nodes)

abbrev newest_of : Numbered ⊎ ℕ → Option (ℕ × DocumentNode) ⊎ ℕ
unfolding newest
newest_of (inl nodes) = inl (newest nodes)
newest_of (inr twice) = inr twice

-- The newest artifact of a Requirement, none, or an iteration that two artifacts carry.
unfoldable pub latest_artifact :
    ResultKind → Option String → List DocumentNode → Option (ℕ × DocumentNode) ⊎ ℕ
unfolding collect newest_of
latest_artifact kind owner nodes = newest_of (collect kind owner nodes [])
