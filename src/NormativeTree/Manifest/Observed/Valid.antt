-- ===== src/NormativeTree/Manifest/Observed/Valid.antt =====
-- The chains of parents in the manifest of a tree, and its entries without a parent.
use mathlib.Core.List.Memᴰ
use mathlib.Core.List.{Memᴰ}
use mathlib.Core.Path.{subst}
use sdlc.Base.{
  ℕ, zero, suc, ◌≤◌, ◌<◌, String, ◌≡◌, refl, sym, ap, ◌∙◌, ◌⊎◌, inl, inr, true, false, Option, none,
  some, List, [], ◌∷◌, map, All, arith, Bool-cases, eq_iff, ◌==◌, length,
}
use sdlc.NormativeTree.{DocumentNode, NormativeDocument, TreeWorkspace, listed}
use sdlc.NormativeTree.Scan.{NoRepeat, ids_of}
use sdlc.NormativeTree.Walk.{nodes_in, ArePlaced}
use sdlc.NormativeTree.Manifest.{
  TreeEntry, StructureProblem, endless, document_ids, entry_of, jump, up, climb, or_rest, chains,
}
use sdlc.NormativeTree.Manifest.Observed.{sorted_entries, entry_for}
use sdlc.NormativeTree.Manifest.Observed.Order.{
  all_at, sorted-NoRepeat, sorted-mem, mem-listed, entry_of-mem,
}

-- No problem, or none that the loop's rounds let it find.
abbrev pub Fine : Option StructureProblem → Type 0
Fine o = (o ≡ none) ⊎ (o ≡ some endless)

module _ (fingerprint : String → String) (workspace : TreeWorkspace) (owner : String)
    (root : DocumentNode) where
  abbrev pub entries_for : List NormativeDocument → List TreeEntry
  entries_for ds = map (entry_for fingerprint) ds

  pub ids-entries :
      (ds : List NormativeDocument)
      → document_ids (entries_for ds) ≡ ids_of (nodes_in workspace owner root ds)
  ids-entries [] = refl
  ids-entries (d ∷ ds) = ap (λ l. d.node.id ∷ l) (ids-entries ds)

  -- The Root, or a Document one level below another one of these.
  abbrev pub IsUnder : List NormativeDocument → NormativeDocument → Type 0
  IsUnder docs d =
      (d.node ≡ root) × (d.parent ≡ none)
      ⊎ ((above : NormativeDocument) × Memᴰ above docs
          × (d.parent ≡ some above.node.id)
          × (d.depth ≡ suc above.depth))

  pub placed-IsUnder :
      (docs known ds : List NormativeDocument)
      → ((x : NormativeDocument) → Memᴰ x known → Memᴰ x docs)
      → ((x : NormativeDocument) → Memᴰ x ds → Memᴰ x docs)
      → ArePlaced workspace owner root known ds
      → All (IsUnder docs) ds
  placed-IsUnder docs known [] k m h = tt
  placed-IsUnder docs known (d ∷ ds) k m h = (
    elim h.0 [
      | inl (node, parent, depth) ↦ inl (node, parent)
      | inr (above, here_is, parent, depth, bound) ↦ inr (above, k above here_is, parent, depth)
    ],
    placed-IsUnder docs (d ∷ known) ds
        (λ x n. elim (Memᴰ.cases_cons n) [ inl same ↦ m x (Memᴰ.head same) | inr far ↦ k x far ])
        (λ x n. m x (Memᴰ.tail n)) h.1,
  )

  unique :
      (ds : List NormativeDocument) (a b : NormativeDocument)
      → NoRepeat (document_ids (entries_for ds))
      → Memᴰ a ds
      → Memᴰ b ds
      → a.node.id ≡ b.node.id
      → a ≡ b
  unique [] a b h m n e = absurd (Memᴰ.not-nil m)
  unique (d ∷ ds) a b h m n e = elim (Memᴰ.cases_cons m) [
    | inl a_first ↦ elim (Memᴰ.cases_cons n) [
      | inl b_first ↦ a_first ∙ sym b_first
      | inr b_later ↦ absurd (clash d b ds h.0 b_later (ap (λ x. x.node.id) (sym a_first) ∙ e))
    ]
    | inr a_later ↦ elim (Memᴰ.cases_cons n) [
      | inl b_first ↦ absurd (clash d a ds h.0 a_later (ap (λ x. x.node.id) (sym b_first) ∙ sym e))
      | inr b_later ↦ unique ds a b h.1 a_later b_later e
    ]
  ]
    where
      clash :
          (d x : NormativeDocument) (ds : List NormativeDocument)
          → listed d.node.id (document_ids (entries_for ds)) ≡ false
          → Memᴰ x ds
          → d.node.id ≡ x.node.id
          → ⊥
      clash d x ds new m same =
          let there =
            mem-listed (entry_for fingerprint x) (entries_for ds)
              (Memᴰ.map (entry_for fingerprint) m) in
          let t : true ≡ false =
            sym there ∙ ap (λ id. listed id (document_ids (entries_for ds))) (sym same) ∙ new in
          cc

  module _ (docs : List NormativeDocument) (fresh : NoRepeat (document_ids (entries_for docs)))
      (under : All (IsUnder docs) docs) where
    abbrev pub entries : List TreeEntry
    entries = sorted_entries (entries_for docs)

    found :
        (d : NormativeDocument)
        → Memᴰ d docs
        → entry_of d.node.id entries ≡ some (entry_for fingerprint d)
    found d m =
        entry_of-mem (entry_for fingerprint d) entries (sorted-NoRepeat (entries_for docs) fresh) (
          sorted-mem (entry_for fingerprint d) (entries_for docs)
            (Memᴰ.map (entry_for fingerprint) m))

    -- These ids are of Documents deeper than this depth.
    abbrev AreDeeper : ℕ → List String → Type 0
    AreDeeper k seen =
        All (λ id. (x : NormativeDocument) × Memᴰ x docs × (x.node.id ≡ id) × (k < x.depth)) seen

    deeper-less : (k j : ℕ) (seen : List String) → j ≤ k → AreDeeper k seen → AreDeeper j seen
    deeper-less k j [] le h = tt
    deeper-less k j (id ∷ seen) le ((x, m, same, less), h) =
        ((x, m, same, omega (arith, le, less)), deeper-less k j seen le h)

    unseen :
        (d : NormativeDocument) (seen : List String)
        → Memᴰ d docs
        → AreDeeper d.depth seen
        → listed d.node.id seen ≡ false
    unseen d [] m h = refl
    unseen d (id ∷ seen) m ((x, n, same, less), h) = elim (Bool-cases (id == d.node.id)) [
      | inr other ↦ rw (other, unseen d seen m h) refl
      | inl is ↦
          let x_is_d = unique docs x d fresh n m (same ∙ (eq_iff id d.node.id).0 is) in
          let level = ap (λ y. y.depth) x_is_d in absurd (too_deep d.depth x.depth less level)
    ]
      where
        too_deep : (a b : ℕ) → a < b → b ≡ a → ⊥
        too_deep a b l e = omega (arith, l, e)

    climb-Fine :
        (origin : String) (fuel : ℕ) (d : NormativeDocument) (seen : List String)
        → Memᴰ d docs
        → AreDeeper d.depth seen
        → Fine (climb entries origin fuel (entry_for fingerprint d) seen)
    unfolding climb up jump
    climb-Fine origin zero d seen m h = inr refl
    climb-Fine origin (suc fuel) d seen m h = elim (all_at (IsUnder docs) docs d under m) [
      | inl (node, parent) ↦
          subst
            (λ p.
              Fine (up entries origin (climb entries origin fuel) (entry_for fingerprint d) p seen))
            (sym parent) (inl refl)
      | inr (above, n, parent, level) ↦
          subst
            (λ p.
              Fine (up entries origin (climb entries origin fuel) (entry_for fingerprint d) p seen))
            (sym parent)
            (subst
              (λ f.
                Fine (
                  jump entries origin (climb entries origin fuel) (entry_for fingerprint d) f seen))
              (sym (found above n))
              (rw (unseen d seen m h) (
                climb-Fine origin fuel above (d.node.id ∷ seen) n (
                  (d, m, refl, omega (arith, level)),
                  deeper-less d.depth above.depth seen (omega (arith, level)) h,
                ))))
    ]

    abbrev pub IsOfTree : TreeEntry → Type 0
    IsOfTree e = (d : NormativeDocument) × Memᴰ d docs × (e ≡ entry_for fingerprint d)

    pub entries-IsOfTree :
        (ds : List NormativeDocument)
        → ((x : NormativeDocument) → Memᴰ x ds → Memᴰ x docs)
        → All IsOfTree (entries_for ds)
    entries-IsOfTree [] m = tt
    entries-IsOfTree (d ∷ ds) m =
        ((d, m d (Memᴰ.head refl), refl), entries-IsOfTree ds (λ x n. m x (Memᴰ.tail n)))

    or_rest-Fine :
        (first rest : Option StructureProblem) → Fine first → Fine rest → Fine (or_rest first rest)
    or_rest-Fine none rest a b = b
    or_rest-Fine (some p) rest a b = a

    pub chains-Fine : (rest : List TreeEntry) → All IsOfTree rest → Fine (chains entries rest)
    unfolding chains
    chains-Fine [] h = inl refl
    chains-Fine (e ∷ rest) ((d, m, same), h) =
        or_rest-Fine (climb entries e.document_id (suc (length entries)) e []) (chains entries rest)
          (subst (λ x. Fine (climb entries e.document_id (suc (length entries)) x [])) (sym same)
            (climb-Fine e.document_id (suc (length entries)) d [] m tt))
          (chains-Fine rest h)
