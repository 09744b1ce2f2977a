-- ===== src/NormativeTree/Manifest/Drift/Named.antt =====
-- `describe_drift` of normative_tree.py: what each printed line tells.
use mathlib.Core.List.{Memᴰ}
use sdlc.Base.{
  String, ◌≡◌, refl, sym, ◌∙◌, ◌↔◌, inl, inr, Bool, true, false, List, [], ◌∷◌, All, All-append,
  same_text, Bool-cases, not_both, Option-cases, eq_iff, ◌==◌,
}
use sdlc.NormativeTree.{listed}
use sdlc.NormativeTree.Manifest.{TreeEntry, TreeManifest, document_ids, entry_of}
use sdlc.NormativeTree.Manifest.Drift.Dictionary.{
  entry_of-found, by_id-mem, by_id-listed, only_in-All,
}
use sdlc.NormativeTree.Manifest.Drift.{
  Drift, root_changed, added, removed, reparented, renamed, content_changed, tree_changed,
  by_document_id, unless, entry_drift, changed_to, common_drift, or_changed, fingerprint,
  describe_drift,
}

-- An entry of these with this id, and none of the others has it.
abbrev IsOnlyIn : List TreeEntry → List TreeEntry → String → String → Type 0
IsOnlyIn these others name id =
    (e : TreeEntry) × Memᴰ e these
    × (e.name ≡ name)
    × (e.document_id ≡ id)
    × (listed id (document_ids others) ≡ false)

-- Two entries with this id, one of each manifest.
abbrev AreCommon : TreeManifest → TreeManifest → String → TreeEntry → TreeEntry → Type 0
AreCommon expected observed id old new =
    Memᴰ old expected.entries
    × Memᴰ new observed.entries
    × (old.document_id ≡ id)
    × (new.document_id ≡ id)

module _ (digest : TreeManifest → String) (expected observed : TreeManifest) where
  -- What a printed line tells of the two manifests.
  abbrev pub IsDrift : Drift → Type 0
  IsDrift (root_changed from to) =
      (expected.root_document_id ≡ from) × (observed.root_document_id ≡ to) × ((from == to) ≡ false)
  IsDrift (added name id) = IsOnlyIn observed.entries expected.entries name id
  IsDrift (removed name id) = IsOnlyIn expected.entries observed.entries name id
  IsDrift (reparented name id) =
      (old : TreeEntry) × (new : TreeEntry) × AreCommon expected observed id old new
      × (new.name ≡ name)
      × (same_text old.parent_document_id new.parent_document_id ≡ false)
  IsDrift (renamed id from to) =
      (old : TreeEntry) × (new : TreeEntry) × AreCommon expected observed id old new
      × (old.name ≡ from)
      × (new.name ≡ to)
      × ((from == to) ≡ false)
  IsDrift (content_changed name id) =
      (old : TreeEntry) × (new : TreeEntry) × AreCommon expected observed id old new
      × (new.name ≡ name)
      × ((old.content_fingerprint == new.content_fingerprint) ≡ false)
  IsDrift tree_changed = (fingerprint digest expected == fingerprint digest observed) ≡ false

  unless-All : (b : Bool) (d : Drift) → (b ≡ false → IsDrift d) → All IsDrift (unless b d)
  unless-All true d h = tt
  unless-All false d h = (h refl, tt)

  entry_drift-IsDrift :
      (old new : TreeEntry)
      → AreCommon expected observed new.document_id old new
      → All IsDrift (entry_drift old new)
  unfolding entry_drift
  entry_drift-IsDrift old new c =
      All-append IsDrift _ _
        (unless-All _ (reparented new.name new.document_id) (λ f. (old, new, c, refl, f)))
        (All-append IsDrift _ _
          (unless-All _ (renamed new.document_id old.name new.name)
            (λ f. (old, new, c, refl, refl, f)))
          (unless-All _ (content_changed new.name new.document_id) (λ f. (old, new, c, refl, f))))

  common_drift-IsDrift :
      (before : List TreeEntry)
      → ((x : TreeEntry) → Memᴰ x before → Memᴰ x expected.entries)
      → All IsDrift (common_drift (by_document_id observed.entries) before)
  unfolding common_drift changed_to
  common_drift-IsDrift [] m = tt
  common_drift-IsDrift (old ∷ before) m =
      All-append IsDrift
        (changed_to old (entry_of old.document_id (by_document_id observed.entries))) _
        (elim (Option-cases (entry_of old.document_id (by_document_id observed.entries))) [
          | inl none_found ↦ rw none_found tt
          | inr (new, found) ↦
              let (there, same) = entry_of-found old.document_id _ new found in
              rw found (
                entry_drift-IsDrift old new
                  (m old (Memᴰ.head refl), by_id-mem new observed.entries there, sym same, refl))
        ])
        (common_drift-IsDrift before (λ x n. m x (Memᴰ.tail n)))

  or_changed-All :
      (drift : List Drift)
      → IsDrift tree_changed
      → All IsDrift drift
      → All IsDrift (or_changed drift)
  or_changed-All [] c h = (c, tt)
  or_changed-All (d ∷ ds) c h = h

  or_changed-cons : (drift : List Drift) → or_changed drift ≡ [] → ⊥
  or_changed-cons [] e = cc
  or_changed-cons (d ∷ ds) e = cc

  -- Nothing is printed exactly when the fingerprints are equal, and each printed line is true of the
  -- two manifests: the Root's ids differ; the Document is in one manifest only; or it is in both,
  -- and its parents, its names or its contents differ.
  pub describe_drift-IsDrift :
      ((describe_drift digest expected observed ≡ [])
        ↔ (fingerprint digest expected ≡ fingerprint digest observed))
      × All IsDrift (describe_drift digest expected observed)
  unfolding describe_drift
  describe_drift-IsDrift =
      let before = by_document_id expected.entries in
      let after = by_document_id observed.entries in
      let root = expected.root_document_id in
      let iff = eq_iff (fingerprint digest expected) (fingerprint digest observed) in
      elim (Bool-cases (fingerprint digest expected == fingerprint digest observed)) [
        | inl same ↦ rw same (((λ e. iff.0 same), (λ e. refl)), tt)
        | inr other ↦ rw other (
          ((λ e. absurd (or_changed-cons _ e)), (λ e. absurd (not_both (iff.1 e) other))),
          or_changed-All _ other (
              All-append IsDrift _ _
                (unless-All _ (root_changed root observed.root_document_id) (λ f. (refl, refl, f)))
                (All-append IsDrift _ _
                  (only_in-All IsDrift (λ e. added e.name e.document_id) before after
                    (λ e m f. (
                      e,
                      by_id-mem e observed.entries m,
                      refl,
                      refl,
                      sym (by_id-listed e.document_id expected.entries) ∙ f,
                    )))
                  (All-append IsDrift _ _
                    (only_in-All IsDrift (λ e. removed e.name e.document_id) after before
                      (λ e m f. (
                        e,
                        by_id-mem e expected.entries m,
                        refl,
                        refl,
                        sym (by_id-listed e.document_id observed.entries) ∙ f,
                      )))
                    (common_drift-IsDrift before (λ x m. by_id-mem x expected.entries m))))),
        )
      ]
