-- ===== src/NormativeTree/Manifest/Observed/Passes.antt =====
-- `read_normative_tree` and `_validate_structure` of normative_tree.py, on one returned tree.
use mathlib.Core.List.Memᴰ
use Prim.Native.String.{compare}
use text.Mathlib.Text.{is_lt}
use mathlib.Core.Path.{subst}
use sdlc.Base.{
  not_both, ℕ, String, Bool-cases, ◌≡◌, refl, sym, ap, ◌∙◌, inl, inr, true, false, none, List, [],
  ◌∷◌, All, arith, eq_iff, ◌==◌,
}
use sdlc.NormativeTree.{
  DocumentNode, NormativeDocument, NormativeTree, TreeWorkspace, listed, read_normative_tree,
}
use sdlc.NormativeTree.Scan.{NoRepeat, ids_of}
use sdlc.NormativeTree.Walk.{nodes_in, ArePlaced}
use sdlc.NormativeTree.Walk.Whole.{read_normative_tree-IsTree}
use sdlc.NormativeTree.Manifest.{
  TreeEntry, is_root, document_ids, roots_of, wrong_roots, validate_structure,
}
use sdlc.NormativeTree.Manifest.Chains.{validate_structure-ends}
use sdlc.NormativeTree.Manifest.Observed.{insert_entry, sorted_entries, manifest_of_tree}
use sdlc.NormativeTree.Manifest.Observed.Order.{
  sorted-NoRepeat, sorted-All, NoRepeat-repeats, onto_one-NoRepeat,
}
use sdlc.NormativeTree.Manifest.Observed.Valid.{
  entries_for, ids-entries, placed-IsUnder, IsOfTree, entries-IsOfTree, chains-Fine,
}

-- An entry with a parent.
abbrev IsChild : TreeEntry → Type 0
IsChild e = is_root e.parent_document_id ≡ false

roots_of-children : (es : List TreeEntry) → All IsChild es → roots_of es ≡ []
unfolding roots_of
roots_of-children [] h = refl
roots_of-children (e ∷ es) h = rw (h.0) (roots_of-children es h.1)

roots_of-insert :
    (e : TreeEntry) (es : List TreeEntry)
    → is_root e.parent_document_id ≡ true
    → All IsChild es
    → roots_of (insert_entry e es) ≡ e ∷ []
unfolding roots_of insert_entry
roots_of-insert e [] root h = rw root refl
roots_of-insert e (f ∷ fs) root h =
    elim (Bool-cases (is_lt (compare f.document_id e.document_id))) [
      | inr first ↦ rw first (rw (root, h.0) (ap (λ l. e ∷ l) (roots_of-children fs h.1)))
      | inl later ↦ rw later (rw (h.0) (roots_of-insert e fs root h.1))
    ]

module _ (fingerprint : String → String) (workspace : TreeWorkspace) (owner : String)
    (root : DocumentNode) where
  placed-children :
      (known ds : List NormativeDocument)
      → listed root.id (document_ids (entries_for fingerprint workspace owner root ds)) ≡ false
      → ArePlaced workspace owner root known ds
      → All IsChild (entries_for fingerprint workspace owner root ds)
  placed-children known [] away h = tt
  placed-children known (d ∷ ds) away h =
      let other : (d.node.id == root.id) ≡ false = ground arith in
      (
        elim h.0 [
          | inl (node, parent, depth) ↦
              let same = (eq_iff d.node.id root.id).1 (ap (λ n. n.id) node) in
              absurd (not_both same other)
          | inr (above, here_is, parent, level, bound) ↦ rw parent refl
        ],
        placed-children (d ∷ known) ds (ground arith) h.1,
      )

  first_is_root :
      (docs : List NormativeDocument) (others : List DocumentNode)
      → nodes_in workspace owner root docs ≡ root ∷ others
      → NoRepeat (document_ids (entries_for fingerprint workspace owner root docs))
      → ArePlaced workspace owner root [] docs
      → wrong_roots root.id
          (roots_of (sorted_entries (entries_for fingerprint workspace owner root docs)))
        ≡ false
  unfolding sorted_entries wrong_roots
  first_is_root [] others e fresh placed = cc
  first_is_root (d ∷ ds) others e fresh placed =
      let node : d.node ≡ root = cc in
      let away =
        subst
          (λ n.
            listed n.id (document_ids (entries_for fingerprint workspace owner root ds)) ≡ false)
          node fresh.0 in
      let children = placed-children (d ∷ []) ds away placed.1 in
      let none_above : d.parent ≡ none = elim placed.0 [
        | inl (is, parent, depth) ↦ parent
        | inr (above, m, p, l, b) ↦ absurd (Memᴰ.not-nil m)
      ] in
      let id_is = (eq_iff d.node.id root.id).1 (ap (λ n. n.id) node) in
      ap (wrong_roots root.id) (
        roots_of-insert _ (sorted_entries (entries_for fingerprint workspace owner root ds))
          (rw none_above refl)
          (sorted-All IsChild (entries_for fingerprint workspace owner root ds) children))
      ∙ rw id_is refl

  -- The manifest of a tree that is returned passes the validation of its structure, whatever the
  -- fingerprints are.
  pub read_normative_tree-validates :
      (t : ℕ) (tree : NormativeTree)
      → (read_normative_tree workspace owner root t).0 ≡ inl tree
      → validate_structure (manifest_of_tree fingerprint owner root tree) ≡ none
  unfolding validate_structure manifest_of_tree
  read_normative_tree-validates t tree e =
      let is = read_normative_tree-IsTree workspace owner root t tree e in
      let es = entries_for fingerprint workspace owner root tree.documents in
      let nodes =
        ids-entries fingerprint workspace owner root tree.documents ∙ ap ids_of is.from_root in
      let fresh : NoRepeat (document_ids es) =
        subst NoRepeat (sym nodes) (onto_one-NoRepeat root.id (ids_of is.others) is.no_repeat) in
      let under =
        placed-IsUnder fingerprint workspace owner root tree.documents [] tree.documents
          (λ x m. absurd (Memᴰ.not-nil m)) (λ x m. m) is.placed in
      let once = NoRepeat-repeats (document_ids (sorted_entries es)) (sorted-NoRepeat es fresh) in
      let right = first_is_root tree.documents is.others is.from_root fresh is.placed in
      let all_of =
        sorted-All (IsOfTree fingerprint workspace owner root tree.documents fresh under) es (
          entries-IsOfTree fingerprint workspace owner root tree.documents fresh under
            tree.documents (λ x m. m)) in
      let fine =
        chains-Fine fingerprint workspace owner root tree.documents fresh under (sorted_entries es)
          all_of in
      rw (once, right)
        (elim fine [
          | inl none_found ↦ none_found
          | inr endless_found ↦ absurd (
              validate_structure-ends (manifest_of_tree fingerprint owner root tree)
                (rw (once, right) endless_found))
        ])
