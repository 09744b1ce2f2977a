-- ===== src/NormativeTree/Walk/Whole.antt =====
-- `read_normative_tree` of normative_tree.py, round by round: what a returned tree is.
use mathlib.Core.Path.{subst}
use sdlc.Base.{
  ℕ, zero, suc, ◌+◌, ◌≤◌, String, ◌≡◌, refl, sym, ap, inl, inr, none, List, [], ◌∷◌, ◌++◌, All,
  length, ltb, arith, Bool-cases,
}
use sdlc.Fibery.{Fallible, ok, failed}
use sdlc.NormativeTree.{
  DocumentNode, max_documents, max_text_chars, too_much_text, unlisted, unfinished, TreeWorkspace,
  Reading, sorted_by_id, Queued, NormativeTree, answered, sorted_answer, children_of, read_body,
  scan, chars_of, visit, walk, read_normative_tree,
}
use sdlc.NormativeTree.Scan.{
  after-inl, returned, refused, onto, NoRepeat, ids_of, IsOwnArtifact, IsScan, scan-IsScan,
}
use sdlc.NormativeTree.Walk.{nodes_in, text_chars, ArePlaced, IsComplete, IsWalk, visited-IsWalk}

module _ (workspace : TreeWorkspace) (owner : String) (root : DocumentNode) where
  children-answer :
      (node : DocumentNode) (t : ℕ) (children : List DocumentNode)
      → (children_of workspace node t).0 ≡ inl children
      → (listed_now : List DocumentNode) × (workspace.child_documents t node.id ≡ ok listed_now)
        × (sorted_by_id listed_now ≡ children)
  unfolding children_of
  children-answer node t children e = go (workspace.child_documents t node.id) refl e
    where
      go :
          (a : Fallible (List DocumentNode))
          → workspace.child_documents t node.id ≡ a
          → answered workspace (unlisted node.id) (sorted_answer workspace a) ≡ inl children
          → (listed_now : List DocumentNode) × (workspace.child_documents t node.id ≡ ok listed_now)
            × (sorted_by_id listed_now ≡ children)
      go (failed error) got eq = absurd (refused (unlisted node.id) children eq)
      go (ok ds) got eq = (ds, got, returned _ children eq)

  visit-IsWalk :
      (item : Queued) (queue : List Queued) (visited : List String) (chars : ℕ) (body : String)
      (next : List Queued → List String → ℕ → Reading NormativeTree) (t : ℕ) (tree : NormativeTree)
      → ((q : List Queued) (v : List String) (n t₁ : ℕ) (rest : NormativeTree)
          → (next q v n t₁).0 ≡ inl rest
          → IsWalk workspace owner root q v n rest)
      → (visit workspace owner root item queue visited chars body next t).0 ≡ inl tree
      → IsWalk workspace owner root (item ∷ queue) visited chars tree
  unfolding visit
  visit-IsWalk item queue visited chars body next t tree walks e =
      let total = chars + chars_of workspace owner root item.node body in
      elim (Bool-cases (ltb max_text_chars total)) [
        | inl long ↦ absurd (refused (too_much_text total) tree (rw long at e))
        | inr fits ↦
            let (children, t₁, got, e₁) =
              after-inl (children_of workspace item.node t) _ tree (rw fits at e) in
            let (s, t₂, scanned, e₂) =
              after-inl (scan workspace owner root item.node item.depth children visited t₁) _ tree
                e₁ in
            let (rest, t₃, walked, e₃) =
              after-inl (next (queue ++ s.added) s.visited total t₂) _ tree e₂ in
            let (listed_now, answer, sorted) =
              children-answer item.node t children (ap (λ r. r.0) got) in
            let is =
              scan-IsScan workspace owner root item.node item.depth children visited t₁ s
                (ap (λ r. r.0) scanned) in
            subst (IsWalk workspace owner root (item ∷ queue) visited chars) (returned _ tree e₃) (
              visited-IsWalk workspace owner root item queue visited chars body listed_now s rest t
                answer (ground arith)
                (subst (λ cs. IsScan workspace owner root item.node item.depth cs visited s)
                  (sym sorted) is)
                (walks (queue ++ s.added) s.visited total t₂ rest (ap (λ r. r.0) walked)))
      ]

  walk-IsWalk :
      (fuel : ℕ) (queue : List Queued) (visited : List String) (chars t : ℕ) (tree : NormativeTree)
      → (walk workspace owner root fuel queue visited chars t).0 ≡ inl tree
      → IsWalk workspace owner root queue visited chars tree
  unfolding walk
  walk-IsWalk fuel [] visited chars t tree e =
      subst (IsWalk workspace owner root [] visited chars) (returned _ tree e) (record {
        later = [];
        nodes = refl;
        fresh = λ h. h;
        bounded = λ h. h;
        text = λ h. omega (arith, h);
        placed = λ known h. tt;
        owned = tt;
        complete = tt;
      })
  walk-IsWalk zero (item ∷ queue) visited chars t tree e = absurd (refused unfinished tree e)
  walk-IsWalk (suc fuel) (item ∷ queue) visited chars t tree e =
      let (body, t₁, got, e₁) = after-inl (read_body workspace item.node t) _ tree e in
      visit-IsWalk item queue visited chars body (walk workspace owner root fuel) t₁ tree
        (λ q v n t₂ rest h. walk-IsWalk fuel q v n t₂ rest h) e₁

  -- What a returned tree is. The ids are without repetition, listed from the last one back.
  pub record IsTree (tree : NormativeTree) : Type 0 where
    pub others : List DocumentNode
    pub from_root : nodes_in workspace owner root tree.documents ≡ root ∷ others
    pub no_repeat : NoRepeat (onto (ids_of others) (root.id ∷ []))
    pub few : length (onto (ids_of others) (root.id ∷ [])) ≤ max_documents
    pub short : text_chars workspace owner root tree.documents ≤ max_text_chars
    pub placed : ArePlaced workspace owner root [] tree.documents
    pub own_artifacts : All (IsOwnArtifact workspace owner root) tree.artifacts
    pub complete : All (IsComplete workspace owner root tree) tree.documents

  -- A tree that is returned begins with the Root; every other Document stands one level below an
  -- earlier one, at most 16 levels deep; no Document id occurs twice, there are at most 100, and
  -- their names and bodies have at most 400,000 characters. Every child that was listed under one
  -- of its Documents is a Document of it or one of its artifacts, all of which carry the artifact
  -- name of this Requirement.
  pub read_normative_tree-IsTree :
      (t : ℕ) (tree : NormativeTree)
      → (read_normative_tree workspace owner root t).0 ≡ inl tree
      → IsTree tree
  unfolding read_normative_tree
  read_normative_tree-IsTree t tree e =
      let w =
        walk-IsWalk max_documents (record { node = root; parent = none; depth = 0 } ∷ [])
          (root.id ∷ []) 0 t tree e in
      record {
        others = w.later;
        from_root = w.nodes;
        no_repeat = w.fresh (refl, tt);
        few = w.bounded (omega arith);
        short = omega (arith, w.text (omega arith));
        placed = w.placed [] (inl (refl, refl, refl), tt);
        own_artifacts = w.owned;
        complete = w.complete;
      }
