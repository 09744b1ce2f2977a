-- ===== src/Dependencies/Closure.antt =====
-- `resolve_interpretation_set`, `_visit` and `_require_members_current` of dependency_evidence.py. The
-- depth-first search is given as many rounds as it can be deep; an error without a value says that
-- the rounds ran out.
pub mod Search
pub mod Visited
pub mod Rounds
pub mod Whole
pub mod Acyclic
use sdlc.Base.{
  ℕ, zero, suc, String, ◌⊎◌, inl, inr, Bool, true, false, ◌&&◌, ◌||◌, Option, none, some, List, [],
  ◌∷◌, ◌++◌, length, leb, eqb, is_text, if◌then◌else◌, ◌==◌,
}
use sdlc.Fibery.{Requirement}
use sdlc.Attempts.{Attempt, return, raise, ◌>>=◌}
use sdlc.NormativeTree.{listed}
use sdlc.Dictionary.{Dictionary, keys, get, put}
use sdlc.Dictionary.Sets.{sorted_set}
use sdlc.Evidence.{DependencyOrigin, existing, proposed, transitive, DependencyBinding, Reader}
use sdlc.Dependencies.{
  invalid, cycle, stale, on_the_path, too_many_members, stale_member, out_of_rounds,
  DependencyEvidenceError, DependencyWorkspace, Reading, or_empty, DependencyMember, direct_ids,
  binding, decided,
}
use sdlc.Dependencies.Read.{read_member}

abbrev pub Members : Type 0
Members = Dictionary DependencyMember

-- `INTERPRETATION_SET_LIMIT`
abbrev pub set_limit : ℕ
set_limit = 100

abbrev pub Search : Type 0 → Type 0
Search A = Attempt ℕ (Option DependencyEvidenceError) A

abbrev pub searched :
    {A : Type 0} → (A ⊎ DependencyEvidenceError) × ℕ → (A ⊎ Option DependencyEvidenceError) × ℕ
searched (inl a, t) = (inl a, t)
searched (inr error, t) = (inr (some error), t)

-- The loop over dependencies.
unfoldable pub each : (String → Members → Search Members) → List String → Members → Search Members
each next [] members = return members
each next (id ∷ ids) members = do more ← next id members; each next ids more

abbrev pub same_origin : DependencyOrigin → DependencyOrigin → Bool
same_origin existing existing = true
same_origin proposed proposed = true
same_origin transitive transitive = true
same_origin _ _ = false

-- `==` on bindings.
unfoldable pub same_binding : DependencyBinding → DependencyBinding → Bool
same_binding a b =
    a.requirement_id == b.requirement_id
    && (a.entity_id == b.entity_id
        && (same_origin a.origin b.origin
            && (a.tree_fingerprint == b.tree_fingerprint
                && (eqb a.review_iteration b.review_iteration
                    && a.review_digest == b.review_digest))))

is_current_of : DependencyBinding → Option DependencyMember → Bool
unfolding same_binding
is_current_of bound none = false
is_current_of bound (some member) = same_binding bound (binding member bound.origin)

-- The bound dependencies of one member, against the members that were read.
unfoldable pub first_stale : Members → List DependencyBinding → Option DependencyBinding
unfolding is_current_of get
first_stale members [] = none
first_stale members (bound ∷ more) =
    let rest = first_stale members more in
    if is_current_of bound (get bound.requirement_id members) then rest else some bound

abbrev stale_error : DependencyMember → DependencyBinding → DependencyEvidenceError
stale_error member bound = record {
  failure = stale;
  problem = stale_member;
  details = or_empty member.found.requirement_id ∷ bound.requirement_id ∷ [];
}

unless_stale :
    DependencyMember
    → Option DependencyBinding
    → Unit {0} ⊎ DependencyEvidenceError
    → Unit {0} ⊎ DependencyEvidenceError
unless_stale member none rest = rest
unless_stale member (some bound) rest = inr (stale_error member bound)

-- `_require_members_current`: these members, against all of them.
unfoldable pub members_current : Members → Members → Unit {0} ⊎ DependencyEvidenceError
unfolding unless_stale first_stale
members_current members [] = inl tt
members_current members ((id, member) ∷ rest) =
    unless_stale member (first_stale members member.review.dependency_bindings)
      (members_current members rest)

module _ (reader : Reader) (workspace : DependencyWorkspace) (requirement : Requirement) where
  abbrev pub reading : String → Search DependencyMember
  reading id t = searched (read_member reader workspace requirement id t)

  -- `_visit`
  unfoldable pub visit : ℕ → String → List String → Members → Search Members
  unfolding each put
  visit zero id path members = raise none
  visit (suc fuel) id path members =
      if is_text requirement.requirement_id id || listed id path
      then raise (
          some (record {
            failure = cycle;
            problem = on_the_path;
            details = or_empty requirement.requirement_id ∷ path ++ id ∷ [];
          }))
      else if listed id (keys members)
      then return members
      else if leb set_limit (length members)
      then raise (some (record { failure = invalid; problem = too_many_members; details = [] }))
      else (do
        member ← reading id
        each (λ dependency. visit fuel dependency (path ++ id ∷ [])) (direct_ids member)
            (put id member members))

  -- The search from every direct dependency. Each round goes one member deeper.
  unfoldable pub visit_all : List String → Search Members
  unfolding visit each sorted_set
  visit_all ids = each (λ id. visit (suc set_limit) id []) (sorted_set ids) []

  abbrev found_or_error :
      (Members ⊎ Option DependencyEvidenceError) × ℕ → (Members ⊎ DependencyEvidenceError) × ℕ
  found_or_error (inl members, t) = (inl members, t)
  found_or_error (inr (some error), t) = (inr error, t)
  found_or_error (inr none, t) =
      (inr (record { failure = invalid; problem = out_of_rounds; details = [] }), t)

  unless_outdated : Members → Unit {0} ⊎ DependencyEvidenceError → Members ⊎ DependencyEvidenceError
  unless_outdated members (inl _) = inl members
  unless_outdated members (inr error) = inr error

  -- `resolve_interpretation_set`
  unfoldable pub resolve_interpretation_set : List String → Reading Members
  unfolding visit_all unless_outdated members_current
  resolve_interpretation_set ids = do
    members ← (λ t. found_or_error (visit_all ids t))
    decided (unless_outdated members (members_current members members))
