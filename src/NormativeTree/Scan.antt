-- ===== src/NormativeTree/Scan.antt =====
-- The loop of `read_normative_tree` over the children of one Document: nothing listed is dropped,
-- no id is visited twice, and the limits hold.
use mathlib.Core.List.{Memᴰ}
use mathlib.Core.Path.{subst}
use sdlc.Base.{
  ℕ, suc, ◌≤◌, String, ◌≡◌, refl, ap, ◌∙◌, ◌⊎◌, inl, inr, false, Option, none, some, List, [], ◌∷◌,
  ◌++◌, map, All, length, ltb, arith, Bool-cases,
}
use sdlc.ProjectCode.{Text, codes, same_codes}
use sdlc.ProjectCode.Format.{same_codes-path}
use sdlc.ArtifactNames.{ArtifactKind, classify_artifact_name}
use sdlc.NormativeTree.{
  DocumentNode, max_depth, max_documents, NormativeTreeError, listed_twice, too_deep, too_many,
  foreign_artifact, TreeWorkspace, Reading, after, listed, Queued, Scanned, admit_artifact,
  with_artifact, with_added, below, scan_child, scan,
}

module _ {ℓ κ} {A : Type ℓ} {B : Type κ} where
  -- A sequence that returns went through its first part.
  pub after-inl :
      (r : (A ⊎ NormativeTreeError) × ℕ) (f : A → Reading B) (b : B)
      → (after r f).0 ≡ inl b
      → (a : A) × (t : ℕ) × (r ≡ (inl a, t)) × ((f a t).0 ≡ inl b)
  after-inl (inl a, t) f b e = (a, t, refl, e)
  after-inl (inr error, t) f b e = cc

pub returned {ℓ} : {A : Type ℓ} (a b : A) → ◌≡◌ {A = A ⊎ NormativeTreeError} (inl a) (inl b) → a ≡ b
returned a b e = ground arith

pub refused {ℓ} :
    {A : Type ℓ} (error : NormativeTreeError) (b : A)
    → ◌≡◌ {A = A ⊎ NormativeTreeError} (inr error) (inl b)
    → ⊥
refused error b e = cc

-- The ids put in front of the visited ones, one after another.
abbrev pub onto : List String → List String → List String
onto [] visited = visited
onto (id ∷ ids) visited = onto ids (id ∷ visited)

pub onto-append :
    (xs ys visited : List String) → onto (xs ++ ys) visited ≡ onto ys (onto xs visited)
onto-append [] ys visited = refl
onto-append (x ∷ xs) ys visited = onto-append xs ys (x ∷ visited)

abbrev pub NoRepeat : List String → Type 0
NoRepeat [] = Unit
NoRepeat (id ∷ ids) = (listed id ids ≡ false) × NoRepeat ids

abbrev pub nodes_of : List Queued → List DocumentNode
nodes_of queue = map (λ q. q.node) queue

abbrev pub ids_of : List DocumentNode → List String
ids_of nodes = map (λ n. n.id) nodes

module _ (workspace : TreeWorkspace) (owner : String) (root : DocumentNode) where
  -- An artifact of this Requirement, by its name.
  abbrev pub IsOwnArtifact : DocumentNode → Type 0
  IsOwnArtifact d =
      (kind : ArtifactKind) × (classify_artifact_name d.name ≡ some (codes owner, kind))

  abbrev pub IsBelow : DocumentNode → ℕ → Queued → Type 0
  IsBelow node depth q = (q.parent ≡ some node.id) × (q.depth ≡ suc depth) × (q.depth ≤ max_depth)

  abbrev pub IsKept : Scanned → DocumentNode → Type 0
  IsKept s c = Memᴰ c s.artifacts ⊎ Memᴰ c (nodes_of s.added)

  pub record IsScan (node : DocumentNode) (depth : ℕ) (children : List DocumentNode)
      (visited : List String) (s : Scanned) : Type 0 where
    pub seen : s.visited ≡ onto (ids_of (nodes_of s.added)) visited
    pub fresh : NoRepeat visited → NoRepeat s.visited
    pub bounded : length visited ≤ max_documents → length s.visited ≤ max_documents
    pub placed : All (IsBelow node depth) s.added
    pub complete : All (IsKept s) children
    pub owned : All IsOwnArtifact s.artifacts

  own_admitted :
      (parent child : DocumentNode) (artifact_owner : Text) (t : ℕ)
      → (admit_artifact workspace owner root parent child artifact_owner t).0 ≡ inl tt
      → artifact_owner ≡ codes owner
  unfolding admit_artifact
  own_admitted parent child artifact_owner t e =
      elim (Bool-cases (same_codes artifact_owner (codes owner))) [
        | inl same ↦ same_codes-path artifact_owner (codes owner) same
        | inr foreign ↦ absurd (refused (foreign_artifact child.id) tt (rw foreign at e))
      ]

  keep_artifact :
      (child : DocumentNode) (s : Scanned) (cs : List DocumentNode)
      → All (IsKept s) cs
      → All (IsKept (with_artifact workspace owner root child s)) cs
  keep_artifact child s [] h = tt
  keep_artifact child s (c ∷ cs) h =
      (elim h.0 [ inl a ↦ inl (Memᴰ.tail a) | inr q ↦ inr q ], keep_artifact child s cs h.1)

  keep_added :
      (item : Queued) (s : Scanned) (cs : List DocumentNode)
      → All (IsKept s) cs
      → All (IsKept (with_added workspace owner root item s)) cs
  keep_added item s [] h = tt
  keep_added item s (c ∷ cs) h =
      (elim h.0 [ inl a ↦ inl a | inr q ↦ inr (Memᴰ.tail q) ], keep_added item s cs h.1)

  module _ (node : DocumentNode) (depth : ℕ) (child : DocumentNode) (children : List DocumentNode)
      (visited : List String) where
    artifact-IsScan :
        (kind : ArtifactKind) (artifact_owner : Text) (s : Scanned)
        → classify_artifact_name child.name ≡ some (artifact_owner, kind)
        → artifact_owner ≡ codes owner
        → IsScan node depth children visited s
        → IsScan node depth (child ∷ children) visited (with_artifact workspace owner root child s)
    artifact-IsScan kind artifact_owner s named own is = record {
      seen = is.seen;
      fresh = is.fresh;
      bounded = is.bounded;
      placed = is.placed;
      complete = (inl (Memᴰ.head refl), keep_artifact child s children is.complete);
      owned = ((kind, named ∙ ap (λ o. some (o, kind)) own), is.owned);
    }

    added-IsScan :
        (s : Scanned)
        → listed child.id visited ≡ false
        → suc depth ≤ max_depth
        → suc (length visited) ≤ max_documents
        → IsScan node depth children (child.id ∷ visited) s
        → IsScan node depth
            (child ∷ children)
            visited
            (with_added workspace owner root (below workspace owner root node depth child) s)
    added-IsScan s new depth_ok count_ok is = record {
      seen = is.seen;
      fresh = λ h. is.fresh (new, h);
      bounded = λ h. is.bounded count_ok;
      placed = ((refl, refl, depth_ok), is.placed);
      complete = (
        inr (Memᴰ.head refl),
        keep_added (below workspace owner root node depth child) s children is.complete,
      );
      owned = is.owned;
    }

    scan_child-IsScan :
        (found : Option (Text × ArtifactKind)) (next : List String → Reading Scanned) (t : ℕ)
        (s : Scanned)
        → classify_artifact_name child.name ≡ found
        → ((v : List String) (t₁ : ℕ) (s₁ : Scanned)
            → (next v t₁).0 ≡ inl s₁
            → IsScan node depth children v s₁)
        → (scan_child workspace owner root node depth child found visited next t).0 ≡ inl s
        → IsScan node depth (child ∷ children) visited s
    unfolding scan_child
    scan_child-IsScan (some (artifact_owner, kind)) next t s named rest e =
        let (_, t₁, admitted, e₁) =
          after-inl (admit_artifact workspace owner root node child artifact_owner t) _ s e in
        let (s₂, t₂, returned_rest, e₂) = after-inl (next visited t₁) _ s e₁ in
        let own = own_admitted node child artifact_owner t (ap (λ r. r.0) admitted) in
        subst (IsScan node depth (child ∷ children) visited) (returned _ s e₂) (
          artifact-IsScan kind artifact_owner s₂ named own
            (rest visited t₁ s₂ (ap (λ r. r.0) returned_rest)))
    scan_child-IsScan none next t s named rest e = elim (Bool-cases (listed child.id visited)) [
      | inl twice ↦ absurd (refused (listed_twice child.id) s (rw twice at e))
      | inr new ↦ elim (Bool-cases (ltb max_depth (suc depth))) [
        | inl deep ↦ absurd (refused (too_deep child.id) s (rw (new, deep) at e))
        | inr depth_ok ↦ elim (Bool-cases (ltb max_documents (suc (length visited)))) [
          | inl many ↦
              absurd (refused (too_many (suc (length visited))) s (rw (new, depth_ok, many) at e))
          | inr count_ok ↦
              let (s₂, t₂, returned_rest, e₂) =
                after-inl (next (child.id ∷ visited) t) _ s (rw (new, depth_ok, count_ok) at e) in
              subst (IsScan node depth (child ∷ children) visited) (returned _ s e₂) (
                added-IsScan s₂ new (ground arith) (ground arith)
                  (rest (child.id ∷ visited) t s₂ (ap (λ r. r.0) returned_rest)))
        ]
      ]
    ]

  -- A scan that returns keeps every child, visits new ids only and stays within the limits.
  pub scan-IsScan :
      (node : DocumentNode) (depth : ℕ) (children : List DocumentNode) (visited : List String)
      (t : ℕ) (s : Scanned)
      → (scan workspace owner root node depth children visited t).0 ≡ inl s
      → IsScan node depth children visited s
  unfolding scan
  scan-IsScan node depth [] visited t s e =
      subst (IsScan node depth [] visited) (returned _ s e) (record {
        seen = refl;
        fresh = λ h. h;
        bounded = λ h. h;
        placed = tt;
        complete = tt;
        owned = tt;
      })
  scan-IsScan node depth (child ∷ children) visited t s e =
      scan_child-IsScan node depth child children visited (classify_artifact_name child.name)
        (scan workspace owner root node depth children) t s refl
        (λ v t₁ s₁ e₁. scan-IsScan node depth children v t₁ s₁ e₁) e
