-- ===== src/Dependencies/Closure/Whole.antt =====
-- `resolve_interpretation_set` of dependency_evidence.py: what a resolved interpretation set is.
use mathlib.Core.Path.{subst}
use sdlc.Base.{
  ℕ, suc, ◌≤◌, String, ◌⊎◌, ◌≡◌, refl, inl, inr, true, false, Option, none, some, List, [], ◌∷◌,
  ◌++◌, All, All-map, length, is_text, arith, Bool-cases, Option-cases, eq_iff,
}
use sdlc.Fibery.{Requirement}
use sdlc.Attempts.{after-inl, returned, refused}
use sdlc.NormativeTree.{listed}
use sdlc.NormativeTree.Scan.{NoRepeat}
use sdlc.Dictionary.{keys, get}
use sdlc.Dictionary.Sets.{sorted_set}
use sdlc.Evidence.{DependencyOrigin, existing, proposed, transitive, DependencyBinding, Reader}
use sdlc.Dependencies.{DependencyEvidenceError, DependencyWorkspace, DependencyMember, binding}
use sdlc.Dependencies.Closure.{
  Members, set_limit, same_origin, same_binding, first_stale, unless_stale, members_current,
  is_current_of, visit_all, found_or_error, unless_outdated, resolve_interpretation_set,
}
use sdlc.Dependencies.Closure.Search.{Reached, IsOrdered, IsRead, State-empty}
use sdlc.Dependencies.Closure.Visited.{Visited, each-Visited, visit-Visits}
use sdlc.Dependencies.Closure.Rounds.{Reached-at_once, in_direct}

same_origin-path : (a b : DependencyOrigin) → same_origin a b ≡ true → a ≡ b
same_origin-path existing existing h = refl
same_origin-path existing proposed h = cc
same_origin-path existing transitive h = cc
same_origin-path proposed existing h = cc
same_origin-path proposed proposed h = refl
same_origin-path proposed transitive h = cc
same_origin-path transitive existing h = cc
same_origin-path transitive proposed h = cc
same_origin-path transitive transitive h = refl

pub same_binding-path : (a b : DependencyBinding) → same_binding a b ≡ true → a ≡ b
unfolding same_binding
same_binding-path a b h = ground (
  arith,
  eq_iff a.requirement_id b.requirement_id,
  eq_iff a.entity_id b.entity_id,
  same_origin-path a.origin b.origin,
  eq_iff a.tree_fingerprint b.tree_fingerprint,
  eq_iff a.review_digest b.review_digest,
)

-- A binding that describes the member it names.
abbrev pub IsCurrent : Members → DependencyBinding → Type 0
IsCurrent members bound =
    (member : DependencyMember) × (get bound.requirement_id members ≡ some member)
    × (bound ≡ binding member bound.origin)

first_stale-none :
    (members : Members) (bindings : List DependencyBinding)
    → first_stale members bindings ≡ none
    → All (IsCurrent members) bindings
unfolding first_stale is_current_of
first_stale-none members [] h = tt
first_stale-none members (bound ∷ more) h = elim (Option-cases (get bound.requirement_id members)) [
  | inl missing ↦ absurd (some_bound bound (rw missing at h))
  | inr (member, got) ↦ elim (Bool-cases (same_binding bound (binding member bound.origin))) [
    | inl same ↦ (
      (member, got, same_binding-path bound (binding member bound.origin) same),
      first_stale-none members more (rw (got, same) at h),
    )
    | inr other ↦ absurd (some_bound bound (rw (got, other) at h))
  ]
]
  where
    some_bound : (b : DependencyBinding) → some b ≡ none → ⊥
    some_bound b e = cc

members_current-inl :
    (members rest : Members)
    → members_current members rest ≡ inl tt
    → All (λ e. All (IsCurrent members) e.1.review.dependency_bindings) rest
unfolding members_current unless_stale
members_current-inl members [] h = tt
members_current-inl members ((id, member) ∷ rest) h =
    elim (Option-cases (first_stale members member.review.dependency_bindings)) [
      | inl fine ↦ (
        first_stale-none members member.review.dependency_bindings fine,
        members_current-inl members rest (rw fine at h),
      )
      | inr (bound, stale) ↦ absurd (refused _ tt (rw stale at h))
    ]

module _ (reader : Reader) (workspace : DependencyWorkspace) (requirement : Requirement) where
  pub record IsInterpretationSet (direct : List String) (members : Members) : Type 0 where
    pub order : Members
    pub finished : All (λ e. get e.0 members ≡ some e.1) order
    pub complete : All (λ e. listed e.0 (keys order) ≡ true) members
    pub ordered : IsOrdered order
    pub has_direct : All (λ id. listed id (keys order) ≡ true) (sorted_set direct)
    pub without_own : All (λ e. is_text requirement.requirement_id e.0 ≡ false) members
    pub reached : All (λ e. Reached direct members e.0) members
    pub fresh : NoRepeat (keys members)
    pub few : length members ≤ set_limit
    pub read : All (IsRead reader workspace requirement direct) members
    pub current : All (λ e. All (IsCurrent members) e.1.review.dependency_bindings) members

  found-inl :
      (r : (Members ⊎ Option DependencyEvidenceError) × ℕ) (members : Members) (t : ℕ)
      → found_or_error reader workspace requirement r ≡ (inl members, t)
      → r.0 ≡ inl members
  found-inl (inl ms, s) members t e = ground arith
  found-inl (inr none, s) members t e = cc
  found-inl (inr (some error), s) members t e = cc

  current-inl :
      (members : Members) (r : Unit {0} ⊎ DependencyEvidenceError) (after : Members)
      → unless_outdated reader workspace requirement members r ≡ inl after
      → (members ≡ after) × (r ≡ inl tt)
  unfolding unless_outdated
  current-inl members (inl tt) after e = (returned members after e, refl)
  current-inl members (inr error) after e = absurd (refused error after e)

  off_empty :
      (order : Members) (x : String)
      → (listed x [] ≡ true) ⊎ (listed x (keys order) ≡ true)
      → listed x (keys order) ≡ true
  off_empty order x (inl h) = cc
  off_empty order x (inr h) = h

  set_of :
      (direct : List String) (members : Members)
      → Visited reader workspace requirement direct [] [] [] (sorted_set direct) members
      → All (λ e. All (IsCurrent members) e.1.review.dependency_bindings) members
      → IsInterpretationSet direct members
  set_of direct members v current =
      let done : Members = v.newer ++ [] in
      record {
        order = done;
        finished = v.state.finished;
        complete =
            All-map {P = λ e. (listed e.0 [] ≡ true) ⊎ (listed e.0 (keys done) ≡ true)}
              (λ e h. off_empty done e.0 h) members v.state.complete;
        ordered = v.state.ordered;
        has_direct = v.there;
        without_own = v.state.without_own;
        reached = v.state.reached;
        fresh = v.state.fresh;
        few = v.state.few;
        read = v.state.read;
        current = current;
      }

  -- A search that returns visited every direct dependency.
  visit_all-Visited :
      (direct : List String) (t : ℕ) (members : Members)
      → (visit_all reader workspace requirement direct t).0 ≡ inl members
      → Visited reader workspace requirement direct [] [] [] (sorted_set direct) members
  unfolding visit_all
  visit_all-Visited direct t members e =
      each-Visited reader workspace requirement direct [] _
        (visit-Visits reader workspace requirement direct (suc set_limit) []) (sorted_set direct) []
        [] t members (State-empty reader workspace requirement direct)
        (Reached-at_once direct [] (sorted_set direct) (in_direct direct)) e

  -- A resolved set has at most 100 members, each read once; it has the direct dependencies, those of
  -- its members and no others, and not the Requirement itself. Its members stand in an order in
  -- which each one's direct dependencies come behind it, and each binding of a member describes the
  -- member that it names.
  pub resolve_interpretation_set-IsInterpretationSet :
      (direct : List String) (t : ℕ) (members : Members)
      → (resolve_interpretation_set reader workspace requirement direct t).0 ≡ inl members
      → IsInterpretationSet direct members
  unfolding resolve_interpretation_set
  resolve_interpretation_set-IsInterpretationSet direct t members e =
      let run = visit_all reader workspace requirement direct t in
      let (found, t', got, rest) =
        after-inl (found_or_error reader workspace requirement run) _ members e in
      let (same, fine) = current-inl found (members_current found found) members rest in
      subst (IsInterpretationSet direct) same (
        set_of direct found (visit_all-Visited direct t found (found-inl run found t' got))
          (members_current-inl found found fine))
