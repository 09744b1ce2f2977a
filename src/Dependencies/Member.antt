-- ===== src/Dependencies/Member.antt =====
-- `_read_member` of dependency_evidence.py: what an admitted member is.
pub mod Admitted
use mathlib.Core.Path.{subst}
use sdlc.Base.{
  ℕ, suc, String, ◌⊎◌, ◌≡◌, refl, ap, ◌∙◌, inl, inr, Bool, true, false, Option, none, some, List,
  [], ◌∷◌,
}
use sdlc.Fibery.{Requirement, Fallible, ok, failed}
use sdlc.Attempts.{after-inl, returned, refused, require, require-inl, given}
use sdlc.NormativeTree.{DocumentNode, NormativeTreeError, NormativeTree}
use sdlc.NormativeTree.Manifest.Observed.{manifest_of_tree}
use sdlc.NormativeTree.Manifest.Drift.{fingerprint}
use sdlc.Evidence.{
  ProcessResult, ReviewResult, is_dependency_bound, WhatStatus, clear, blocked_on_what, Clearance,
  incoherent, unknown, established, Reader,
}
use sdlc.Evidence.What.{what_clearance}
use sdlc.Evidence.Names.{ResultKind, review, latest_artifact}
use sdlc.Dependencies.{
  DependencyEvidenceError, RequirementRelations, DependencyWorkspace, or_empty, ask,
  DependencyMember, the_only, one_root, unless_read, newest_or_twice, clearance_if, coherent,
  is_clear,
}
use sdlc.Dependencies.Read.{
  depends_on_of, reviews_latest, require_admissible_review, edges_agree, require_edges_agree,
  member_of,
}

pub ask-inl :
    {A : Type 0} (read : ℕ → Fallible A) (t : ℕ) (a : A) → (ask read t).0 ≡ inl a → read t ≡ ok a
ask-inl {A} read t a e = go (read t) refl e
  where
    go : (r : Fallible A) → read t ≡ r → (ask read t).0 ≡ inl a → read t ≡ ok a
    go (ok b) got h = got ∙ ap ok (returned b a (rw got at h))
    go (failed error) got h = absurd (refused _ a (rw got at h))

pub given-inl :
    {A : Type 0} (e : DependencyEvidenceError) (o : Option A) (t : ℕ) (a : A)
    → (given e o t).0 ≡ inl a
    → o ≡ some a
given-inl e none t a h = absurd (refused e a h)
given-inl e (some b) t a h = ap some (returned b a h)

pub the_only-inl :
    (id : String) (rs : List Requirement) (found : Requirement)
    → the_only id rs ≡ inl found
    → rs ≡ found ∷ []
unfolding the_only
the_only-inl id [] found h = absurd (refused _ found h)
the_only-inl id (r ∷ []) found h = ap (λ x. x ∷ []) (returned r found h)
the_only-inl id (r ∷ s ∷ more) found h = absurd (refused _ found h)

pub one_root-inl :
    (id : String) (ds : List DocumentNode) (root : DocumentNode)
    → one_root id ds ≡ inl root
    → ds ≡ root ∷ []
unfolding one_root
one_root-inl id [] root h = absurd (refused _ root h)
one_root-inl id (d ∷ []) root h = ap (λ x. x ∷ []) (returned d root h)
one_root-inl id (d ∷ e ∷ more) root h = absurd (refused _ root h)

pub unless_read-inl :
    (id : String) (r : (NormativeTree ⊎ NormativeTreeError) × ℕ) (tree : NormativeTree)
    → (unless_read id r).0 ≡ inl tree
    → r.0 ≡ inl tree
unfolding unless_read
unless_read-inl id (inl t, s) tree h = ap inl (returned t tree h)
unless_read-inl id (inr e, s) tree h = absurd (refused _ tree h)

pub newest-inl :
    (id : String) (r : Option (ℕ × DocumentNode) ⊎ ℕ) (newest : Option (ℕ × DocumentNode))
    → newest_or_twice id r ≡ inl newest
    → r ≡ inl newest
unfolding newest_or_twice
newest-inl id (inl n) newest h = ap inl (returned n newest h)
newest-inl id (inr i) newest h = absurd (refused _ newest h)

-- A clear status is that of the comparison.
is_clear-established :
    (id : String) (bound : Bool) (c : Clearance) (status : Option WhatStatus)
    → coherent id (clearance_if bound c) ≡ inl status
    → is_clear status ≡ true
    → c ≡ established clear
unfolding coherent clearance_if
is_clear-established id false c none h t = cc
is_clear-established id false c (some s) h t = cc
is_clear-established id true incoherent status h t = absurd (refused _ status h)
is_clear-established id true unknown none h t = cc
is_clear-established id true unknown (some s) h t = cc
is_clear-established id true (established clear) status h t = refl
is_clear-established id true (established blocked_on_what) none h t = cc
is_clear-established id true (established blocked_on_what) (some blocked_on_what) h t = cc
is_clear-established id true (established blocked_on_what) (some clear) h t = cc

module _ (reader : Reader) (workspace : DependencyWorkspace) where
  -- The newest artifact of one kind, and its text when it was read.
  pub record Newest (kind : ResultKind) (found : Requirement) (tree : NormativeTree)
      (content : String) : Type 0 where
    pub number : ℕ
    pub node : DocumentNode
    pub chosen :
        latest_artifact kind found.requirement_id tree.artifacts ≡ inl (some (number, node))
    pub asked : ℕ
    pub answer : workspace.tree.read_document_content asked (or_empty node.secret) ≡ ok content

  -- The review is clear and of this tree and this Process Result, and the edges agree with it.
  pub record IsCertified (found : Requirement) (root : DocumentNode) (tree : NormativeTree)
      (result : ProcessResult) (content : String) (member : DependencyMember) : Type 0 where
    pub same_found : member.found ≡ found
    pub parsed : reader.parse_review_result content ≡ some member.review
    pub digest_of : member.review_digest ≡ reader.document_fingerprint content
    pub tree_of :
        member.tree_fingerprint
        ≡ fingerprint reader.digest
            (manifest_of_tree reader.document_fingerprint (or_empty found.requirement_id) root tree)
    pub bound : is_dependency_bound member.review ≡ true
    pub reviews :
        reviews_latest reader workspace found member.tree_fingerprint result member.review ≡ true
    pub is_clear : what_clearance member.review result ≡ established clear
    pub asked : ℕ
    pub relations : RequirementRelations
    pub answer : workspace.requirement_relations asked found.id ≡ ok relations
    pub agree : edges_agree reader workspace member relations.depends_on ≡ true

  edges_read :
      (member : DependencyMember) (t : ℕ) (a : Unit {0})
      → (require_edges_agree reader workspace member t).0 ≡ inl a
      → (relations : RequirementRelations) × (workspace.requirement_relations t member.found.id
          ≡ ok relations)
        × (edges_agree reader workspace member relations.depends_on ≡ true)
  unfolding require_edges_agree depends_on_of
  edges_read member t a h = go (workspace.requirement_relations t member.found.id) refl h
    where
      go :
          (r : Fallible RequirementRelations)
          → workspace.requirement_relations t member.found.id ≡ r
          → (require_edges_agree reader workspace member t).0 ≡ inl a
          → (relations : RequirementRelations) × (workspace.requirement_relations t member.found.id
              ≡ ok relations)
            × (edges_agree reader workspace member relations.depends_on ≡ true)
      go (ok relations) got e = (
        relations,
        got,
        require-inl (edges_agree reader workspace member relations.depends_on) _ (suc t) a
            (rw got at e),
      )
      go (failed error) got e = absurd (refused _ a (rw got at e))

  admissible-inl :
      (found : Requirement) (text : String) (result : ProcessResult) (reviewed : ReviewResult)
      (t : ℕ) (a : Unit {0})
      → (require_admissible_review reader workspace found text result reviewed t).0 ≡ inl a
      → (is_dependency_bound reviewed ≡ true)
        × (reviews_latest reader workspace found text result reviewed ≡ true)
  unfolding require_admissible_review
  admissible-inl found text result reviewed t a h =
      let (a₁, t₁, is, rest) = after-inl (require (is_dependency_bound reviewed) _ t) _ a h in
      (
        require-inl (is_dependency_bound reviewed) _ t a₁ (ap (λ r. r.0) is),
        require-inl (reviews_latest reader workspace found text result reviewed) _ t₁ a rest,
      )

  pub member_of-IsCertified :
      (id : String) (found : Requirement) (tree : NormativeTree) (root : DocumentNode)
      (result : ProcessResult) (content : String) (t : ℕ) (member : DependencyMember)
      → (member_of reader workspace id found tree root result content t).0 ≡ inl member
      → IsCertified found root tree result content member
  unfolding member_of
  member_of-IsCertified id found tree root result content t member e =
      let current =
        fingerprint reader.digest (
          manifest_of_tree reader.document_fingerprint (or_empty found.requirement_id) root tree) in
      let (reviewed, t₁, parsed, e₁) =
        after-inl (given _ (reader.parse_review_result content) t) _ member e in
      let (status, t₂, judged, e₂) =
        after-inl
          (
            coherent id
                (clearance_if (is_dependency_bound reviewed) (what_clearance reviewed result)),
            t₁,
          )
          _ member e₁ in
      let (a₃, t₃, admitted, e₃) =
        after-inl (require_admissible_review reader workspace found current result reviewed t₂) _
          member e₂ in
      let (a₄, t₄, cleared, e₄) = after-inl (require (is_clear status) _ t₃) _ member e₃ in
      let made : DependencyMember = record {
        found = found;
        tree_fingerprint = current;
        review = reviewed;
        review_digest = reader.document_fingerprint content;
      } in
      let (a₅, t₅, agreed, e₅) =
        after-inl (require_edges_agree reader workspace made t₄) _ member e₄ in
      let (bound, reviews) =
        admissible-inl found current result reviewed t₂ a₃ (ap (λ r. r.0) admitted) in
      let (relations, answer, agree) = edges_read made t₄ a₅ (ap (λ r. r.0) agreed) in
      subst (IsCertified found root tree result content) (returned made member e₅) (record {
        same_found = refl;
        parsed = given-inl _ (reader.parse_review_result content) t reviewed (ap (λ r. r.0) parsed);
        digest_of = refl;
        tree_of = refl;
        bound = bound;
        reviews = reviews;
        is_clear =
            is_clear-established id (is_dependency_bound reviewed) (what_clearance reviewed result)
              status (ap (λ r. r.0) judged)
              (require-inl (is_clear status) _ t₃ a₄ (ap (λ r. r.0) cleared));
        asked = t₄;
        relations = relations;
        answer = answer;
        agree = agree;
      })
