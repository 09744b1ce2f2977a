-- ===== src/Apply/Plan/Divided.antt =====
-- `_partition_edges` of requirement_apply.py: how it divides the edges.
use sdlc.Base.{
  ◌≡◌, refl, ◌⊎◌, inl, inr, Bool, true, false, ◌||◌, List, [], ◌∷◌, All, All-map, Bool-cases,
  eq_refl, ◌==◌, String, sym, map, ◌++◌, ap, ◌∙◌,
}
use sdlc.Evidence.{depends_on, affects}
use sdlc.NormativeTree.{listed}
use sdlc.Apply.{Edge}
use sdlc.Apply.Checks.{same_edge, has_edge}
use sdlc.Dependencies.{RequirementRelations}
use sdlc.Apply.Plan.{edges_of, present_edges, missing_edges}

-- The relations of a Requirement have this edge.
abbrev pub relates : RequirementRelations → Edge → Bool
relates relations (depends_on, id) = listed id relations.depends_on
relates relations (affects, id) = listed id relations.affects

-- An edge that exists is among the first ones, and one that does not among the others.
abbrev pub Divides : (Edge → Bool) → List Edge → List Edge → Edge → Type 0
Divides exists present missing e =
    ((exists e ≡ true) × (has_edge e present ≡ true))
    ⊎ ((exists e ≡ false) × (has_edge e missing ≡ true))

pub same_edge_refl : (e : Edge) → same_edge e e ≡ true
same_edge_refl (depends_on, id) = eq_refl id
same_edge_refl (affects, id) = eq_refl id

or_true : (a b : Bool) → b ≡ true → (a || b) ≡ true
or_true true b h = refl
or_true false b h = h

widen_present :
    (exists : Edge → Bool) (present missing : List Edge) (f e : Edge)
    → Divides exists present missing e
    → Divides exists (f ∷ present) missing e
widen_present exists present missing f e (inl (here, h)) = inl (here, or_true (same_edge f e) _ h)
widen_present exists present missing f e (inr h) = inr h

widen_missing :
    (exists : Edge → Bool) (present missing : List Edge) (f e : Edge)
    → Divides exists present missing e
    → Divides exists present (f ∷ missing) e
widen_missing exists present missing f e (inl h) = inl h
widen_missing exists present missing f e (inr (away, h)) = inr (away, or_true (same_edge f e) _ h)

divided_later :
    (existing es : List Edge) (e f : Edge)
    → Divides (λ f. has_edge f existing) (present_edges existing es) (missing_edges existing es) f
    → Divides
        (λ f. has_edge f existing)
        (present_edges existing (e ∷ es))
        (missing_edges existing (e ∷ es))
        f
unfolding present_edges missing_edges
divided_later existing es e f h = elim (Bool-cases (has_edge e existing)) [
  | inl here ↦ rw here (widen_present (λ x. has_edge x existing) _ _ e f h)
  | inr away ↦ rw away (widen_missing (λ x. has_edge x existing) _ _ e f h)
]

pub divided_edges :
    (existing es : List Edge)
    → All
        (Divides (λ f. has_edge f existing) (present_edges existing es) (missing_edges existing es))
        es
unfolding present_edges missing_edges
divided_edges existing [] = tt
divided_edges existing (e ∷ es) =
    (first, All-map (divided_later existing es e) es (divided_edges existing es))
  where
    first :
        Divides
          (λ f. has_edge f existing)
          (present_edges existing (e ∷ es))
          (missing_edges existing (e ∷ es))
          e
    first = elim (Bool-cases (has_edge e existing)) [
      | inl here ↦ rw here (inl (refl, rw (same_edge_refl e) refl))
      | inr away ↦ rw away (inr (refl, rw (same_edge_refl e) refl))
    ]

pub present_edges-exist :
    (existing es : List Edge) → All (λ e. has_edge e existing ≡ true) (present_edges existing es)
unfolding present_edges
present_edges-exist existing [] = tt
present_edges-exist existing (e ∷ es) =
    let rest = present_edges-exist existing es in
    elim (Bool-cases (has_edge e existing)) [
      | inl here ↦ rw here (here, rest)
      | inr away ↦ rw away rest
    ]

pub missing_edges-absent :
    (existing es : List Edge) → All (λ e. has_edge e existing ≡ false) (missing_edges existing es)
unfolding missing_edges
missing_edges-absent existing [] = tt
missing_edges-absent existing (e ∷ es) =
    let rest = missing_edges-absent existing es in
    elim (Bool-cases (has_edge e existing)) [
      | inl here ↦ rw here rest
      | inr away ↦ rw away (away, rest)
    ]

pub All-missing_edges :
    (P : Edge → Type 0) (existing es : List Edge) → All P es → All P (missing_edges existing es)
unfolding missing_edges
All-missing_edges P existing [] h = tt
All-missing_edges P existing (e ∷ es) h =
    let rest = All-missing_edges P existing es h.1 in
    elim (Bool-cases (has_edge e existing)) [
      | inl here ↦ rw here rest
      | inr away ↦ rw away (h.0, rest)
    ]

depends_on-first :
    (id : String) (ids : List String) (es : List Edge)
    → has_edge (depends_on, id) (map (λ i. (depends_on, i)) ids ++ es)
      ≡ (listed id ids || has_edge (depends_on, id) es)
depends_on-first id [] es = refl
depends_on-first id (i ∷ ids) es =
    let rest = depends_on-first id ids es in
    elim (Bool-cases (i == id)) [ inl here ↦ rw here refl | inr away ↦ rw away rest ]

affects-behind :
    (id : String) (ids : List String) (es : List Edge)
    → has_edge (affects, id) (map (λ i. (depends_on, i)) ids ++ es) ≡ has_edge (affects, id) es
affects-behind id [] es = refl
affects-behind id (i ∷ ids) es = affects-behind id ids es

no_depends_on :
    (id : String) (ids : List String)
    → has_edge (depends_on, id) (map (λ i. (affects, i)) ids) ≡ false
no_depends_on id [] = refl
no_depends_on id (i ∷ ids) = no_depends_on id ids

affects-listed :
    (id : String) (ids : List String)
    → has_edge (affects, id) (map (λ i. (affects, i)) ids) ≡ listed id ids
affects-listed id [] = refl
affects-listed id (i ∷ ids) =
    let rest = affects-listed id ids in
    elim (Bool-cases (i == id)) [ inl here ↦ rw here refl | inr away ↦ rw away rest ]

or_false : (b : Bool) → (b || false) ≡ b
or_false true = refl
or_false false = refl

-- `_existing_edges` has exactly the edges of the relations.
pub has_edge-edges_of :
    (relations : RequirementRelations) (e : Edge)
    → has_edge e (edges_of relations) ≡ relates relations e
unfolding edges_of
has_edge-edges_of relations (depends_on, id) =
    depends_on-first id relations.depends_on _
    ∙ ap (λ b. listed id relations.depends_on || b) (no_depends_on id relations.affects)
    ∙ or_false _
has_edge-edges_of relations (affects, id) =
    affects-behind id relations.depends_on _ ∙ affects-listed id relations.affects

-- The partition, in terms of the relations.
pub divided_by_relations :
    (relations : RequirementRelations) (es : List Edge)
    → let existing = edges_of relations in
      All (Divides (relates relations) (present_edges existing es) (missing_edges existing es)) es
      × All (λ e. relates relations e ≡ true) (present_edges existing es)
      × All (λ e. relates relations e ≡ false) (missing_edges existing es)
divided_by_relations relations es =
    let existing = edges_of relations in
    let same = has_edge-edges_of relations in
    (
      All-map (divided _ _) es (divided_edges existing es),
      All-map (λ e h. sym (same e) ∙ h) _ (present_edges-exist existing es),
      All-map (λ e h. sym (same e) ∙ h) _ (missing_edges-absent existing es),
    )
  where
    divided :
        (present missing : List Edge) (e : Edge)
        → Divides (λ f. has_edge f (edges_of relations)) present missing e
        → Divides (relates relations) present missing e
    divided present missing e (inl (here, h)) = inl (sym (has_edge-edges_of relations e) ∙ here, h)
    divided present missing e (inr (away, h)) = inr (sym (has_edge-edges_of relations e) ∙ away, h)
