-- ===== src/Dependencies/Current/Holds.antt =====
-- `require_current_dependencies` of dependency_evidence.py: what holds when it does not refuse.
use mathlib.Core.Path.{subst}
use sdlc.Base.{
  ℕ, suc, String, ◌⊎◌, ◌≡◌, refl, sym, ap, ◌∙◌, inl, inr, true, some, List, [], ◌∷◌, All, is_text,
  arith, Bool-cases, Option-cases, not_both, eq_refl,
}
use sdlc.Fibery.{Requirement, Fallible, ok, failed}
use sdlc.Routes.{applied_state}
use sdlc.Attempts.{after-inl, returned, refused, require, require-inl}
use sdlc.NormativeTree.{listed}
use sdlc.Dictionary.{keys, get}
use sdlc.Dictionary.Sets.{sorted_set, sorted_set-listed}
use sdlc.Evidence.{DependencyBinding, ReviewResult, is_dependency_bound, Reader}
use sdlc.Dependencies.{
  DependencyEvidenceError, RequirementRelations, DependencyWorkspace, DependencyMember,
}
use sdlc.Dependencies.Read.{depends_on_of}
use sdlc.Dependencies.Closure.{Members, resolve_interpretation_set}
use sdlc.Dependencies.Closure.Whole.{
  same_binding-path, IsInterpretationSet, resolve_interpretation_set-IsInterpretationSet,
}
use sdlc.Dependencies.Bindings.{BindError, no_member, bind}
use sdlc.Dependencies.Bindings.Exact.{IsBound, bind-IsBound}
use sdlc.Dependencies.Current.{
  Phase, reviewed, applying, applied, is_reviewed, direct_of, restale_answer, same_bindings,
  compare_bindings, edges_allowed, not_applied_member, unapplied, unless_unapplied,
  require_own_edges, require_applied, require_current_dependencies,
}

same_bindings-path : (xs ys : List DependencyBinding) → same_bindings xs ys ≡ true → xs ≡ ys
unfolding same_bindings
same_bindings-path [] [] h = refl
same_bindings-path [] (y ∷ ys) h = cc
same_bindings-path (x ∷ xs) [] h = cc
same_bindings-path (x ∷ xs) (y ∷ ys) h =
    let head = same_binding-path x y (ground arith) in
    let tail = same_bindings-path xs ys (ground arith) in (λ i. head i ∷ tail i)

compare-inl :
    (bound : List DependencyBinding) (r : List DependencyBinding ⊎ BindError) (a : Unit {0})
    → compare_bindings bound r ≡ inl a
    → r ≡ inl bound
unfolding compare_bindings
compare-inl bound (inl current) a h = elim (Bool-cases (same_bindings current bound)) [
  | inl same ↦ ap inl (same_bindings-path current bound same)
  | inr differ ↦ absurd (refused _ a (rw differ at h))
]
compare-inl bound (inr (no_member id)) a h = absurd (refused _ a h)
compare-inl bound (inr BindError.out_of_rounds) a h = absurd (refused _ a h)

restaled-inl :
    (r : (Members ⊎ DependencyEvidenceError) × ℕ) (members : Members) (t : ℕ)
    → restale_answer r ≡ (inl members, t)
    → r.0 ≡ inl members
unfolding restale_answer
restaled-inl (inl ms, s) members t h = ground arith
restaled-inl (inr e, s) members t h = cc

-- A direct dependency that is Applied.
abbrev pub IsApplied : Members → String → Type 0
IsApplied members id =
    (member : DependencyMember) × (get id members ≡ some member)
    × (is_text member.found.state applied_state ≡ true)

unapplied-nil :
    (members : Members) (ids : List String)
    → unapplied members ids ≡ []
    → All (IsApplied members) ids
unfolding unapplied not_applied_member
unapplied-nil members [] h = tt
unapplied-nil members (id ∷ ids) h = elim (Option-cases (get id members)) [
  | inl missing ↦ absurd (not_empty id (unapplied members ids) (rw missing at h))
  | inr (m, got) ↦ elim (Bool-cases (is_text m.found.state applied_state)) [
    | inl yes_applied ↦
        ((m, got, yes_applied), unapplied-nil members ids (rw (got, yes_applied) at h))
    | inr pending ↦ absurd (not_empty id (unapplied members ids) (rw (got, pending) at h))
  ]
]
  where
    not_empty : (x : String) (xs : List String) → x ∷ xs ≡ [] → ⊥
    not_empty x xs e = cc

sorted_set-nil : (xs : List String) → sorted_set xs ≡ [] → xs ≡ []
sorted_set-nil [] h = refl
sorted_set-nil (x ∷ xs) h =
    let there : listed x (x ∷ xs) ≡ true = rw (eq_refl x) refl in
    absurd (not_both there (sym (sorted_set-listed x (x ∷ xs)) ∙ ap (listed x) h))

unless_unapplied-inl :
    (ids : List String) (t : ℕ) (a : Unit {0}) → (unless_unapplied ids t).0 ≡ inl a → ids ≡ []
unfolding unless_unapplied
unless_unapplied-inl [] t a h = refl
unless_unapplied-inl (id ∷ ids) t a h = absurd (refused _ a h)

module _ (reader : Reader) (workspace : DependencyWorkspace) (requirement : Requirement)
    (review : ReviewResult) where
  -- The Requirement's edges were read, and the phase allows them.
  pub record OwnEdges (phase : Phase) : Type 0 where
    pub asked : ℕ
    pub relations : RequirementRelations
    pub answer : workspace.requirement_relations asked requirement.id ≡ ok relations
    pub allowed : edges_allowed review phase relations.depends_on ≡ true

  OwnEdges-read :
      (phase : Phase) (t : ℕ) (a : Unit {0})
      → (require_own_edges reader workspace requirement review phase t).0 ≡ inl a
      → OwnEdges phase
  unfolding require_own_edges depends_on_of
  OwnEdges-read phase t a h = go (workspace.requirement_relations t requirement.id) refl h
    where
      go :
          (r : Fallible RequirementRelations)
          → workspace.requirement_relations t requirement.id ≡ r
          → (require_own_edges reader workspace requirement review phase t).0 ≡ inl a
          → OwnEdges phase
      go (ok relations) got e = record {
        asked = t;
        relations = relations;
        answer = got;
        allowed =
            require-inl (edges_allowed review phase relations.depends_on) _ (suc t) a (rw got at e);
      }
      go (failed error) got e = absurd (refused _ a (rw got at e))

  abbrev pub AreApproved : Phase → Members → Type 0
  AreApproved phase members =
      (is_reviewed phase ≡ true) ⊎ All (IsApplied members) (keys (direct_of review))

  applied_read :
      (phase : Phase) (members : Members) (t : ℕ) (a : Unit {0})
      → (require_applied reader workspace requirement review phase members t).0 ≡ inl a
      → AreApproved phase members
  unfolding require_applied
  applied_read reviewed members t a h = inl refl
  applied_read applying members t a h =
      inr (unapplied-nil members _ (sorted_set-nil _ (unless_unapplied-inl _ t a h)))
  applied_read applied members t a h =
      inr (unapplied-nil members _ (sorted_set-nil _ (unless_unapplied-inl _ t a h)))

  pub record HoldsNow (phase : Phase) (members : Members) : Type 0 where
    pub bound : is_dependency_bound review ≡ true
    pub resolved :
        IsInterpretationSet reader workspace requirement (keys (direct_of review)) members
    pub one_each : IsBound members (direct_of review) (inl review.dependency_bindings)
    pub own_edges : OwnEdges phase
    pub approved : AreApproved phase members

  -- When the dependencies are not refused, the review binds dependencies; the members that were read
  -- are the resolved interpretation set of its direct ones; its bindings are exactly one for each
  -- member, which describes it; the phase allows the Requirement's own edges; and, but for the
  -- reviewed phase, every direct dependency is Applied.
  pub require_current_dependencies-HoldsNow :
      (phase : Phase) (t : ℕ) (members : Members)
      → (require_current_dependencies reader workspace requirement review phase t).0 ≡ inl members
      → HoldsNow phase members
  unfolding require_current_dependencies
  require_current_dependencies-HoldsNow phase t members e =
      let direct = direct_of review in
      let (_, t₀, is_bound, e₀) =
        after-inl (require (is_dependency_bound review) _ t) _ members e in
      let (found, t₁, got, e₁) =
        after-inl
          (restale_answer
            (resolve_interpretation_set reader workspace requirement (keys direct) t₀))
          _ members e₀ in
      let (a₂, t₂, compared, e₂) =
        after-inl (compare_bindings review.dependency_bindings (bind found direct), t₁) _ members
          e₁ in
      let (a₃, t₃, edges, e₃) =
        after-inl (require_own_edges reader workspace requirement review phase t₂) _ members e₂ in
      let (a₄, t₄, approved, e₄) =
        after-inl (require_applied reader workspace requirement review phase found t₃) _ members
          e₃ in
      let set =
        resolve_interpretation_set-IsInterpretationSet reader workspace requirement (keys direct) t₀
          found (restaled-inl _ found t₁ got) in
      let same =
        compare-inl review.dependency_bindings (bind found direct) a₂ (ap (λ r. r.0) compared) in
      subst (HoldsNow phase) (returned found members e₄) (record {
        bound = require-inl (is_dependency_bound review) _ t tt (ap (λ r. r.0) is_bound);
        resolved = set;
        one_each =
            subst (IsBound found direct) same
              (bind-IsBound reader workspace requirement direct found set);
        own_edges = OwnEdges-read phase t₂ a₃ (ap (λ r. r.0) edges);
        approved = applied_read phase found t₃ a₄ (ap (λ r. r.0) approved);
      })
