-- ===== src/NormativeTree/Walk.antt =====
-- The loop of `read_normative_tree` over its queue: what one round keeps.
pub mod Whole
use mathlib.Core.List.Memᴰ
use mathlib.Core.List.{Memᴰ, map-append, append_assoc}
use mathlib.Core.Path.{subst}
use sdlc.Base.{
  ℕ, suc, ◌+◌, ◌≤◌, String, ◌≡◌, refl, sym, ap, ◌∙◌, ◌⊎◌, inl, inr, Option, none, some, List, [],
  ◌∷◌, ◌++◌, map, All, All-append, length, arith,
}
use sdlc.Fibery.{ok}
use sdlc.NormativeTree.{
  DocumentNode, max_depth, max_documents, max_text_chars, TreeWorkspace, sorted_by_id,
  NormativeDocument, Queued, NormativeTree, Scanned, document_of, add_document, chars_of,
}
use sdlc.NormativeTree.Scan.{
  onto, onto-append, NoRepeat, nodes_of, ids_of, IsOwnArtifact, IsBelow, IsScan,
}

module _ (workspace : TreeWorkspace) (owner : String) (root : DocumentNode) where
  abbrev pub nodes_in : List NormativeDocument → List DocumentNode
  nodes_in documents = map (λ d. d.node) documents

  abbrev pub text_chars : List NormativeDocument → ℕ
  text_chars [] = 0
  text_chars (d ∷ ds) = chars_of workspace owner root d.node d.body + text_chars ds

  -- The root at depth 0, or one level below a Document of these.
  abbrev pub IsPlaced : List NormativeDocument → DocumentNode → Option String → ℕ → Type 0
  IsPlaced known node parent depth =
      (node ≡ root) × (parent ≡ none) × (depth ≡ 0)
      ⊎ ((above : NormativeDocument) × Memᴰ above known
          × (parent ≡ some above.node.id)
          × (depth ≡ suc above.depth)
          × (depth ≤ max_depth))

  -- Each Document stands one level below an earlier one.
  abbrev pub ArePlaced : List NormativeDocument → List NormativeDocument → Type 0
  ArePlaced known [] = Unit
  ArePlaced known (d ∷ ds) = IsPlaced known d.node d.parent d.depth × ArePlaced (d ∷ known) ds

  -- The children that the workspace listed under a Document are all in the tree.
  abbrev pub IsComplete : NormativeTree → NormativeDocument → Type 0
  IsComplete tree d =
      (t : ℕ) × (children : List DocumentNode) × (workspace.child_documents t d.node.id
        ≡ ok children)
      × All (λ c. Memᴰ c tree.artifacts ⊎ Memᴰ c (nodes_in tree.documents)) (sorted_by_id children)

  abbrev QueuePlaced : List NormativeDocument → List Queued → Type 0
  QueuePlaced known queue = All (λ q. IsPlaced known q.node q.parent q.depth) queue

  record IsWalk (queue : List Queued) (visited : List String) (chars : ℕ) (tree : NormativeTree)
      : Type 0 where
    later : List DocumentNode
    nodes : nodes_in tree.documents ≡ nodes_of queue ++ later
    fresh : NoRepeat visited → NoRepeat (onto (ids_of later) visited)
    bounded : length visited ≤ max_documents → length (onto (ids_of later) visited) ≤ max_documents
    text : chars ≤ max_text_chars → chars + text_chars tree.documents ≤ max_text_chars
    placed :
        (known : List NormativeDocument) → QueuePlaced known queue → ArePlaced known tree.documents
    owned : All (IsOwnArtifact workspace owner root) tree.artifacts
    complete : All (IsComplete tree) tree.documents

  QueuePlaced-widen :
      (d : NormativeDocument) (known : List NormativeDocument) (queue : List Queued)
      → QueuePlaced known queue
      → QueuePlaced (d ∷ known) queue
  QueuePlaced-widen d known [] h = tt
  QueuePlaced-widen d known (q ∷ queue) h = (
    elim h.0 [
      | inl at_root ↦ inl at_root
      | inr (above, m, p, d, bound) ↦ inr (above, Memᴰ.tail m, p, d, bound)
    ],
    QueuePlaced-widen d known queue h.1,
  )

  below-QueuePlaced :
      (d : NormativeDocument) (known : List NormativeDocument) (added : List Queued)
      → All (IsBelow workspace owner root d.node d.depth) added
      → QueuePlaced (d ∷ known) added
  below-QueuePlaced d known [] h = tt
  below-QueuePlaced d known (q ∷ added) h =
      let (p, deeper, bound) = h.0 in
      (inr (d, Memᴰ.head refl, p, deeper, bound), below-QueuePlaced d known added h.1)

  module _ (item : Queued) (queue : List Queued) (visited : List String) (chars : ℕ) (body : String)
      (children : List DocumentNode) (s : Scanned) (rest : NormativeTree) where
    abbrev whole : NormativeTree
    whole =
        add_document workspace owner root (document_of workspace owner root item body) s.artifacts
          rest

    abbrev IsIn : NormativeTree → DocumentNode → Type 0
    IsIn tree c = Memᴰ c tree.artifacts ⊎ Memᴰ c (nodes_in tree.documents)

    In-whole : (cs : List DocumentNode) → All (IsIn rest) cs → All (IsIn whole) cs
    In-whole [] h = tt
    In-whole (c ∷ cs) h = (
      elim h.0 [ inl a ↦ inl (Memᴰ.append_right s.artifacts a) | inr d ↦ inr (Memᴰ.tail d) ],
      In-whole cs h.1,
    )

    Complete-whole :
        (ds : List NormativeDocument) → All (IsComplete rest) ds → All (IsComplete whole) ds
    Complete-whole [] h = tt
    Complete-whole (d ∷ ds) h =
        let (t, cs, answer, all) = h.0 in
        ((t, cs, answer, In-whole (sorted_by_id cs) all), Complete-whole ds h.1)

    kept_In :
        (later : List DocumentNode)
        → nodes_in rest.documents ≡ nodes_of (queue ++ s.added) ++ later
        → (cs : List DocumentNode) → All (λ c. Memᴰ c s.artifacts ⊎ Memᴰ c (nodes_of s.added)) cs
        → All (IsIn whole) cs
    kept_In later e [] h = tt
    kept_In later e (c ∷ cs) h = (
      elim h.0 [
        | inl a ↦ inl (Memᴰ.append_left rest.artifacts a)
        | inr q ↦ inr (
            Memᴰ.tail (
              subst (Memᴰ c) (sym e) (
                Memᴰ.append_left later (
                  subst (Memᴰ c) (sym (map-append (λ x. x.node) queue s.added))
                    (Memᴰ.append_right (nodes_of queue) q)))))
      ],
      kept_In later e cs h.1,
    )

    visited-IsWalk :
        (t : ℕ)
        → workspace.child_documents t item.node.id ≡ ok children
        → chars + chars_of workspace owner root item.node body ≤ max_text_chars
        → IsScan workspace owner root item.node item.depth (sorted_by_id children) visited s
        → IsWalk
            (queue ++ s.added)
            s.visited
            (chars + chars_of workspace owner root item.node body)
            rest
        → IsWalk (item ∷ queue) visited chars whole
    visited-IsWalk t answer fits is walked =
        let later = nodes_of s.added ++ walked.later in
        let on_top : onto (ids_of later) visited ≡ onto (ids_of walked.later) s.visited =
          ap (λ l. onto l visited) (map-append (λ n. n.id) (nodes_of s.added) walked.later)
          ∙ onto-append (ids_of (nodes_of s.added)) (ids_of walked.later) visited
          ∙ ap (onto (ids_of walked.later)) (sym is.seen) in
        record {
          later = later;
          nodes =
              ap (λ l. item.node ∷ l)
                (walked.nodes
                  ∙ ap (λ l. l ++ walked.later) (map-append (λ x. x.node) queue s.added)
                  ∙ append_assoc (nodes_of queue) (nodes_of s.added) walked.later);
          fresh = λ h. subst NoRepeat (sym on_top) (walked.fresh (is.fresh h));
          bounded = λ h.
              subst (λ l. length l ≤ max_documents) (sym on_top) (walked.bounded (is.bounded h));
          text = λ h. omega (arith, walked.text fits);
          placed = λ known h.
              let d = document_of workspace owner root item body in
              (
                h.0,
                walked.placed (d ∷ known) (
                    All-append (λ q. IsPlaced (d ∷ known) q.node q.parent q.depth) queue s.added
                      (QueuePlaced-widen d known queue h.1)
                      (below-QueuePlaced d known s.added is.placed)),
              );
          owned =
              All-append (IsOwnArtifact workspace owner root) s.artifacts rest.artifacts is.owned
                walked.owned;
          complete = (
            (
              t,
              children,
              answer,
              kept_In walked.later walked.nodes (sorted_by_id children) is.complete,
            ),
            Complete-whole rest.documents walked.complete,
          );
        }
