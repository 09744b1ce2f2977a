-- ===== src/Dependencies/Current.antt =====
-- `require_current_dependencies` and `_require_own_edges` of dependency_evidence.py.
pub mod Holds
use sdlc.Base.{
  ℕ, String, ◌⊎◌, inl, inr, Bool, true, false, not, ◌&&◌, Option, none, some, List, [], ◌∷◌, ◌++◌,
  map, is_text, if◌then◌else◌,
}
use sdlc.Fibery.{Requirement}
use sdlc.Routes.{applied_state}
use sdlc.Attempts.{return, raise, require, ◌>>=◌}
use sdlc.Dictionary.{Dictionary, keys, get, put}
use sdlc.Dictionary.Sets.{all_listed, same_set, sorted_set, either_only}
use sdlc.Evidence.{
  DependencyOrigin, DependencyBinding, is_existing_origin, ReviewResult, is_dependency_bound,
  Reader,
}
use sdlc.Dependencies.{
  DependencyFailure, invalid, cycle, stale, not_applied, read_failed, Problem, unbound_review,
  not_the_bindings, own_edges_differ, unapplied_dependencies, no_requirement, out_of_rounds,
  DependencyEvidenceError, DependencyWorkspace, Reading, DependencyMember, direct_only, decided,
}
use sdlc.Dependencies.Read.{depends_on_of}
use sdlc.Dependencies.Closure.{Members, same_binding, resolve_interpretation_set}
use sdlc.Dependencies.Bindings.{BindError, no_member, bind}

pub data Phase : Type 0 where
  reviewed applying applied : Phase

abbrev pub is_reviewed : Phase → Bool
is_reviewed reviewed = true
is_reviewed _ = false

put_all : Dictionary DependencyOrigin → List DependencyBinding → Dictionary DependencyOrigin
unfolding put
put_all dict [] = dict
put_all dict (b ∷ bs) = put_all (put b.requirement_id b.origin dict) bs

-- `direct`, the origins of the bound direct dependencies.
unfoldable pub direct_of : ReviewResult → Dictionary DependencyOrigin
unfolding put_all
direct_of review = put_all [] (direct_only review.dependency_bindings)

-- A cycle and a failed read are passed on; any other error means that the evidence is stale.
unfoldable pub restale : DependencyEvidenceError → DependencyEvidenceError
restale error = again error.failure
  where
    again : DependencyFailure → DependencyEvidenceError
    again cycle = error
    again read_failed = error
    again _ = record error { failure = stale }

abbrev restale_answer :
    (Members ⊎ DependencyEvidenceError) × ℕ → (Members ⊎ DependencyEvidenceError) × ℕ
unfolding restale
restale_answer (inl members, t) = (inl members, t)
restale_answer (inr error, t) = (inr (restale error), t)

-- `==` on tuples of bindings.
unfoldable pub same_bindings : List DependencyBinding → List DependencyBinding → Bool
unfolding same_binding
same_bindings [] [] = true
same_bindings [] (b ∷ bs) = false
same_bindings (a ∷ as') [] = false
same_bindings (a ∷ as') (b ∷ bs) = same_binding a b && same_bindings as' bs

abbrev has_binding : DependencyBinding → List DependencyBinding → Bool
unfolding same_binding
has_binding a [] = false
has_binding a (b ∷ bs) = if same_binding a b then true else has_binding a bs

abbrev ids_missing : List DependencyBinding → List DependencyBinding → List String
unfolding has_binding
ids_missing [] bs = []
ids_missing (a ∷ as') bs =
    let rest = ids_missing as' bs in if has_binding a bs then rest else a.requirement_id ∷ rest

abbrev stale_because : Problem → List String → DependencyEvidenceError
stale_because problem details = record { failure = stale; problem = problem; details = details }

-- The bindings that are computed now, against those of the review. On a resolved set `bind` makes no
-- error.
compare_bindings :
    List DependencyBinding → List DependencyBinding ⊎ BindError → Unit {0} ⊎ DependencyEvidenceError
unfolding same_bindings ids_missing sorted_set
compare_bindings bound (inl current) =
    if same_bindings current bound
    then inl tt
    else inr (
        stale_because not_the_bindings
          (sorted_set (ids_missing current bound ++ ids_missing bound current)))
compare_bindings bound (inr (no_member id)) =
    inr (record { failure = invalid; problem = no_requirement; details = id ∷ [] })
compare_bindings bound (inr BindError.out_of_rounds) =
    inr (record { failure = invalid; problem = out_of_rounds; details = [] })

abbrev pub intended_edges : ReviewResult → List String
intended_edges review = map (λ b. b.requirement_id) (direct_only review.dependency_bindings)

abbrev existing_only : List DependencyBinding → List DependencyBinding
existing_only [] = []
existing_only (b ∷ bs) =
    let rest = existing_only bs in if is_existing_origin b.origin then b ∷ rest else rest

abbrev pub existing_edges : ReviewResult → List String
existing_edges review = map (λ b. b.requirement_id) (existing_only review.dependency_bindings)

-- Which edges a phase allows.
unfoldable pub edges_allowed : ReviewResult → Phase → List String → Bool
edges_allowed review reviewed actual = same_set actual (existing_edges review)
edges_allowed review applying actual =
    all_listed (existing_edges review) actual && all_listed actual (intended_edges review)
edges_allowed review applied actual = same_set actual (intended_edges review)

abbrev expected_edges : ReviewResult → Phase → List String
expected_edges review applied = intended_edges review
expected_edges review _ = existing_edges review

-- A direct dependency is a member, so it is not missing here.
not_applied_member : Option DependencyMember → Bool
not_applied_member none = true
not_applied_member (some member) = not (is_text member.found.state applied_state)

unfoldable pub unapplied : Members → List String → List String
unfolding not_applied_member get
unapplied members [] = []
unapplied members (id ∷ ids) =
    let rest = unapplied members ids in
    if not_applied_member (get id members) then id ∷ rest else rest

unless_unapplied : List String → Reading (Unit {0})
unless_unapplied [] = return tt
unless_unapplied (id ∷ ids) =
    raise (record { failure = not_applied; problem = unapplied_dependencies; details = id ∷ ids })

module _ (reader : Reader) (workspace : DependencyWorkspace) (requirement : Requirement)
    (review : ReviewResult) where
  -- `_require_own_edges`
  unfoldable pub require_own_edges : Phase → Reading (Unit {0})
  unfolding edges_allowed either_only depends_on_of
  require_own_edges phase = do
    actual ← depends_on_of reader workspace requirement
    require (edges_allowed review phase actual)
        (stale_because own_edges_differ (either_only actual (expected_edges review phase)))

  unfoldable pub require_applied : Phase → Members → Reading (Unit {0})
  unfolding unapplied unless_unapplied sorted_set
  require_applied reviewed members = return tt
  require_applied _ members =
      unless_unapplied (sorted_set (unapplied members (keys (direct_of review))))

  unfoldable pub require_current_dependencies : Phase → Reading Members
  unfolding is_dependency_bound direct_of resolve_interpretation_set compare_bindings bind
      require_own_edges require_applied restale_answer
  require_current_dependencies phase = do
    _ ←
        require (is_dependency_bound review)
          (record { failure = invalid; problem = unbound_review; details = [] })
    let direct = direct_of review
    members ← (λ t.
        restale_answer (resolve_interpretation_set reader workspace requirement (keys direct) t))
    _ ← decided (compare_bindings review.dependency_bindings (bind members direct))
    _ ← require_own_edges phase
    _ ← require_applied phase members
    return members
