-- ===== src/NormativeTree/Rounds.antt =====
-- The loop of `read_normative_tree` ends: as many rounds as Documents are allowed are enough.
use sdlc.Base.{
  ℕ, zero, suc, ◌+◌, ◌≤◌, String, ◌≡◌, ◌≢◌, refl, ap, ◌∙◌, ◌⊎◌, inl, inr, Option, none, some, List,
  [], ◌∷◌, ◌++◌, length, length-append, ltb, arith, Bool-cases, ◌==◌,
}
use sdlc.Fibery.{Fallible, ok, failed}
use sdlc.ProjectCode.{Text, codes, same_codes}
use sdlc.ArtifactNames.{ArtifactKind, classify_artifact_name}
use sdlc.NormativeTree.{
  DocumentNode, max_depth, max_documents, max_text_chars, NormativeTreeError, unreadable, unlisted,
  unfinished, TreeWorkspace, Reading, after, listed, Queued, NormativeTree, Scanned, answered,
  sorted_answer, secret_of, read_body, children_of, no_nested, admit_artifact, scan_child, scan,
  chars_of, visit, walk, read_normative_tree,
}
use sdlc.NormativeTree.Scan.{onto, nodes_of, ids_of, IsScan, scan-IsScan}

-- This reading did not run out of rounds.
abbrev Ends {ℓ} : {A : Type ℓ} → (A ⊎ NormativeTreeError) × ℕ → Type ℓ
Ends r = r.0 ≢ inr unfinished

module _ {ℓ κ} {A : Type ℓ} {B : Type κ} where
  after-Ends :
      (r : (A ⊎ NormativeTreeError) × ℕ) (f : A → Reading B)
      → Ends r
      → ((a : A) (t : ℕ) → r.0 ≡ inl a → Ends (f a t))
      → Ends (after r f)
  after-Ends (inl a, t) f h rest = rest a t refl
  after-Ends (inr error, t) f h rest = λ e. h (cc)

module _ (workspace : TreeWorkspace) (owner : String) (root : DocumentNode) where
  answered-Ends :
      {A : Type 0} (error : NormativeTreeError) (a : Fallible A) (t : ℕ)
      → error ≢ unfinished
      → Ends {A = A} (answered workspace error a, t)
  answered-Ends error (failed _) t ne e = ne (ground arith)
  answered-Ends error (ok a) t ne e = cc

  children-Ends : (node : DocumentNode) (t : ℕ) → Ends (children_of workspace node t)
  unfolding children_of
  children-Ends node t =
      answered-Ends (unlisted node.id)
        (sorted_answer workspace (workspace.child_documents t node.id)) (suc t) (λ e. cc)

  body-Ends : (node : DocumentNode) (t : ℕ) → Ends (read_body workspace node t)
  unfolding read_body
  body-Ends node t = elim (Bool-cases (secret_of node == "")) [
    | inl e ↦ rw e (λ eq. cc)
    | inr e ↦ rw e (
        answered-Ends (unreadable node.id) (workspace.read_document_content t (secret_of node))
          (suc t) (λ eq. cc))
  ]

  nested-Ends : (ds : List DocumentNode) (t : ℕ) → Ends (no_nested workspace owner root ds t)
  nested-Ends [] t e = cc
  nested-Ends (d ∷ ds) t e = cc

  admit-Ends :
      (parent child : DocumentNode) (artifact_owner : Text) (t : ℕ)
      → Ends (admit_artifact workspace owner root parent child artifact_owner t)
  unfolding admit_artifact
  admit-Ends parent child artifact_owner t =
      elim (Bool-cases (same_codes artifact_owner (codes owner))) [
        | inr foreign ↦ rw foreign (λ e. cc)
        | inl own ↦ elim (Bool-cases (parent.id == root.id)) [
          | inr misplaced ↦ rw (own, misplaced) (λ e. cc)
          | inl under_root ↦
              rw (own, under_root)
                (after-Ends (children_of workspace child t) _ (children-Ends child t)
                  (λ ds t₁ got. nested-Ends ds t₁))
        ]
      ]

  scan_child-Ends :
      (node : DocumentNode) (depth : ℕ) (child : DocumentNode)
      (found : Option (Text × ArtifactKind)) (visited : List String)
      (next : List String → Reading Scanned) (t : ℕ)
      → ((v : List String) (t₁ : ℕ) → Ends (next v t₁))
      → Ends (scan_child workspace owner root node depth child found visited next t)
  unfolding scan_child
  scan_child-Ends node depth child (some (artifact_owner, kind)) visited next t h =
      after-Ends (admit_artifact workspace owner root node child artifact_owner t) _
        (admit-Ends node child artifact_owner t)
        (λ _ t₁ got. after-Ends (next visited t₁) _ (h visited t₁) (λ s t₂ got₂ e. cc))
  scan_child-Ends node depth child none visited next t h =
      elim (Bool-cases (listed child.id visited)) [
        | inl twice ↦ rw twice (λ e. cc)
        | inr new ↦ elim (Bool-cases (ltb max_depth (suc depth))) [
          | inl deep ↦ rw (new, deep) (λ e. cc)
          | inr depth_ok ↦ elim (Bool-cases (ltb max_documents (suc (length visited)))) [
            | inl many ↦ rw (new, depth_ok, many) (λ e. cc)
            | inr count_ok ↦
                rw (new, depth_ok, count_ok)
                  (after-Ends (next (child.id ∷ visited) t) _ (h (child.id ∷ visited) t)
                    (λ s t₂ got e. cc))
          ]
        ]
      ]

  scan-Ends :
      (node : DocumentNode) (depth : ℕ) (children : List DocumentNode) (visited : List String)
      (t : ℕ)
      → Ends (scan workspace owner root node depth children visited t)
  unfolding scan
  scan-Ends node depth [] visited t = λ e. cc
  scan-Ends node depth (child ∷ children) visited t =
      scan_child-Ends node depth child (classify_artifact_name child.name) visited
        (scan workspace owner root node depth children) t
        (λ v t₁. scan-Ends node depth children v t₁)

  onto-length :
      (queue : List Queued) (visited : List String)
      → length (onto (ids_of (nodes_of queue)) visited) ≡ length queue + length visited
  onto-length [] visited = omega arith
  onto-length (q ∷ queue) visited = omega (arith, onto-length queue (q.node.id ∷ visited))

  -- Enough rounds for this queue: what is not visited yet may still be queued.
  abbrev Enough : ℕ → List Queued → List String → Type 0
  Enough fuel queue visited =
      (max_documents + length queue ≤ fuel + length visited) × (length visited ≤ max_documents)

  scanned-Enough :
      (fuel : ℕ) (item : Queued) (queue : List Queued) (visited : List String)
      (children : List DocumentNode) (s : Scanned)
      → Enough (suc fuel) (item ∷ queue) visited
      → IsScan workspace owner root item.node item.depth children visited s
      → Enough fuel (queue ++ s.added) s.visited
  scanned-Enough fuel item queue visited children s enough is =
      let more : length s.visited ≡ length s.added + length visited =
        ap length is.seen ∙ onto-length s.added visited in
      (omega (arith, enough.0, more, length-append queue s.added), is.bounded enough.1)

  visit-Ends :
      (fuel : ℕ) (item : Queued) (queue : List Queued) (visited : List String) (chars : ℕ)
      (body : String) (next : List Queued → List String → ℕ → Reading NormativeTree) (t : ℕ)
      → Enough (suc fuel) (item ∷ queue) visited
      → ((q : List Queued) (v : List String) (n t₁ : ℕ) → Enough fuel q v → Ends (next q v n t₁))
      → Ends (visit workspace owner root item queue visited chars body next t)
  unfolding visit
  visit-Ends fuel item queue visited chars body next t enough h =
      let total = chars + chars_of workspace owner root item.node body in
      elim (Bool-cases (ltb max_text_chars total)) [
        | inl long ↦ rw long (λ e. cc)
        | inr fits ↦ rw fits (
            after-Ends (children_of workspace item.node t) _ (children-Ends item.node t)
              (λ children t₁ got.
                after-Ends (scan workspace owner root item.node item.depth children visited t₁) _
                  (scan-Ends item.node item.depth children visited t₁)
                  (λ s t₂ scanned.
                    after-Ends (next (queue ++ s.added) s.visited total t₂) _
                      (h (queue ++ s.added) s.visited total t₂ (
                        scanned-Enough fuel item queue visited children s enough (
                          scan-IsScan workspace owner root item.node item.depth children visited t₁
                            s scanned)))
                      (λ rest t₃ walked e. cc))))
      ]

  walk-Ends :
      (fuel : ℕ) (queue : List Queued) (visited : List String) (chars t : ℕ)
      → Enough fuel queue visited
      → Ends (walk workspace owner root fuel queue visited chars t)
  unfolding walk
  walk-Ends fuel [] visited chars t enough = λ e. cc
  walk-Ends zero (item ∷ queue) visited chars t enough = absurd (too_few enough.0 enough.1)
    where
      too_few :
          max_documents + length (item ∷ queue) ≤ 0 + length visited
          → length visited ≤ max_documents
          → ⊥
      too_few a b = omega arith
  walk-Ends (suc fuel) (item ∷ queue) visited chars t enough =
      after-Ends (read_body workspace item.node t) _ (body-Ends item.node t) (λ body t₁ got.
        visit-Ends fuel item queue visited chars body (walk workspace owner root fuel) t₁ enough
          (λ q v n t₂ more. walk-Ends fuel q v n t₂ more))

  -- The traversal ends within one round for each Document that is allowed: it returns a tree or one
  -- of the refusals of the source, whatever the workspace answers.
  pub read_normative_tree-ends :
      (t : ℕ) → (read_normative_tree workspace owner root t).0 ≢ inr unfinished
  unfolding read_normative_tree
  read_normative_tree-ends t =
      walk-Ends max_documents (record { node = root; parent = none; depth = 0 } ∷ []) (root.id ∷ [])
        0 t (omega arith, omega arith)
