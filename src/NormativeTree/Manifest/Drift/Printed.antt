-- ===== src/NormativeTree/Manifest/Drift/Printed.antt =====
-- `describe_drift` of normative_tree.py: which differences it prints.
use mathlib.Core.List.Memᴰ
use mathlib.Core.List.{Memᴰ}
use mathlib.Core.Path.{subst}
use sdlc.Base.{
  String, ◌≡◌, refl, sym, ap, ◌∙◌, ◌⊎◌, All, inl, inr, Bool, true, false, some, List, [], ◌∷◌, ◌++◌,
  same_text, Bool-cases, eq_iff, ◌==◌,
}
use sdlc.NormativeTree.{listed}
use sdlc.NormativeTree.Scan.{NoRepeat}
use sdlc.NormativeTree.Manifest.{TreeEntry, TreeManifest, document_ids, entry_of}
use sdlc.NormativeTree.Manifest.Drift.{
  Drift, root_changed, added, removed, reparented, renamed, content_changed, by_document_id,
  only_in, unless, entry_drift, changed_to, common_drift, or_changed, fingerprint, describe_drift,
}
use sdlc.NormativeTree.Manifest.Drift.Dictionary.{by_id-listed}
use sdlc.NormativeTree.Manifest.Drift.Kept.{by_id-has, by_id-found}

every {ℓ κ} : {A : Type ℓ} (P : A → Type κ) (xs : List A) → ((x : A) → Memᴰ x xs → P x) → All P xs
every P [] h = tt
every P (x ∷ xs) h = (h x (Memᴰ.head refl), every P xs (λ y m. h y (Memᴰ.tail m)))

only_in-has :
    (say : TreeEntry → Drift) (others es : List TreeEntry) (x : TreeEntry)
    → Memᴰ x es
    → listed x.document_id (document_ids others) ≡ false
    → Memᴰ (say x) (only_in say others es)
unfolding only_in
only_in-has say others [] x m new = absurd (Memᴰ.not-nil m)
only_in-has say others (e ∷ es) x m new = elim (Memᴰ.cases_cons m) [
  | inl same ↦
      let new_e = ap (λ y. listed y.document_id (document_ids others)) (sym same) ∙ new in
      rw new_e (Memᴰ.head (ap say same))
  | inr far ↦
      let rest = only_in-has say others es x far new in
      elim (Bool-cases (listed e.document_id (document_ids others))) [
        | inl known ↦ rw known rest
        | inr other ↦ rw other (Memᴰ.tail rest)
      ]
]

common_drift-has :
    (after before : List TreeEntry) (old new : TreeEntry) (d : Drift)
    → Memᴰ old before
    → entry_of old.document_id after ≡ some new
    → Memᴰ d (entry_drift old new)
    → Memᴰ d (common_drift after before)
unfolding common_drift changed_to
common_drift-has after [] old new d m found there = absurd (Memᴰ.not-nil m)
common_drift-has after (e ∷ before) old new d m found there = elim (Memᴰ.cases_cons m) [
  | inl same ↦
      let found_e = ap (λ y. entry_of y.document_id after) (sym same) ∙ found in
      Memᴰ.append_left (common_drift after before)
        (rw found_e (subst (λ y. Memᴰ d (entry_drift y new)) same there))
  | inr far ↦
      Memᴰ.append_right (changed_to e (entry_of e.document_id after))
        (common_drift-has after before old new d far found there)
]

or_changed-has : (d : Drift) (drift : List Drift) → Memᴰ d drift → Memᴰ d (or_changed drift)
or_changed-has d [] m = absurd (Memᴰ.not-nil m)
or_changed-has d (x ∷ xs) m = m

unless-has : (b : Bool) (d : Drift) → b ≡ false → Memᴰ d (unless b d)
unless-has b d f = rw f (Memᴰ.head refl)

module _ (digest : TreeManifest → String) (expected observed : TreeManifest) where
  abbrev IsPrinted : Drift → Type 0
  IsPrinted d = Memᴰ d (describe_drift digest expected observed)

  -- Each of the three values of an entry is the same, or the difference is printed.
  abbrev AreCompared : TreeEntry → TreeEntry → Type 0
  AreCompared old new =
      ((same_text old.parent_document_id new.parent_document_id ≡ true)
        ⊎ IsPrinted (reparented new.name new.document_id))
      × (((old.name == new.name) ≡ true) ⊎ IsPrinted (renamed new.document_id old.name new.name))
      × (((old.content_fingerprint == new.content_fingerprint) ≡ true)
          ⊎ IsPrinted (content_changed new.name new.document_id))

  pub record ArePrinted : Type 0 where
    pub root :
        ((expected.root_document_id == observed.root_document_id) ≡ true)
        ⊎ IsPrinted (root_changed expected.root_document_id observed.root_document_id)
    pub additions :
        All
          (λ e.
            (listed e.document_id (document_ids expected.entries) ≡ true)
            ⊎ IsPrinted (added e.name e.document_id))
          observed.entries
    pub removals :
        All
          (λ e.
            (listed e.document_id (document_ids observed.entries) ≡ true)
            ⊎ IsPrinted (removed e.name e.document_id))
          expected.entries
    pub changes :
        All
          (λ old.
            All
              (λ new. ((old.document_id == new.document_id) ≡ false) ⊎ AreCompared old new)
              observed.entries)
          expected.entries

  module _ (once_before : NoRepeat (document_ids expected.entries))
      (once_after : NoRepeat (document_ids observed.entries))
      (differ : (fingerprint digest expected == fingerprint digest observed) ≡ false) where
    abbrev before : List TreeEntry
    before = by_document_id expected.entries

    abbrev after : List TreeEntry
    after = by_document_id observed.entries

    abbrev root_line : List Drift
    root_line =
        unless (expected.root_document_id == observed.root_document_id)
          (root_changed expected.root_document_id observed.root_document_id)

    abbrev added_lines : List Drift
    added_lines = only_in (λ e. added e.name e.document_id) before after

    abbrev removed_lines : List Drift
    removed_lines = only_in (λ e. removed e.name e.document_id) after before

    is_printed :
        (d : Drift)
        → Memᴰ d (root_line ++ (added_lines ++ (removed_lines ++ common_drift after before)))
        → IsPrinted d
    unfolding describe_drift
    is_printed d m = rw differ (or_changed-has d _ m)

    same_or_shown : (b : Bool) (d : Drift) → (b ≡ false → IsPrinted d) → (b ≡ true) ⊎ IsPrinted d
    same_or_shown b d h = elim (Bool-cases b) [ inl t ↦ inl t | inr f ↦ inr (h f) ]

    common-IsPrinted :
        (old new : TreeEntry) (d : Drift)
        → Memᴰ old expected.entries
        → Memᴰ new observed.entries
        → old.document_id ≡ new.document_id
        → Memᴰ d (entry_drift old new)
        → IsPrinted d
    common-IsPrinted old new d m n same there =
        let found =
          ap (λ id. entry_of id after) same ∙ by_id-found new observed.entries once_after n in
        is_printed d (
          Memᴰ.append_right root_line (
            Memᴰ.append_right added_lines (
              Memᴰ.append_right removed_lines (
                common_drift-has after before old new d
                  (by_id-has old expected.entries once_before m) found there))))

    compared :
        (old new : TreeEntry)
        → Memᴰ old expected.entries
        → Memᴰ new observed.entries
        → old.document_id ≡ new.document_id
        → AreCompared old new
    unfolding entry_drift
    compared old new m n same =
        let parents =
          unless (same_text old.parent_document_id new.parent_document_id)
            (reparented new.name new.document_id) in
        let names = unless (old.name == new.name) (renamed new.document_id old.name new.name) in
        let contents =
          unless (old.content_fingerprint == new.content_fingerprint)
            (content_changed new.name new.document_id) in
        (
          same_or_shown _ _ (λ f.
              common-IsPrinted old new _ m n same
                (Memᴰ.append_left (names ++ contents) (unless-has _ _ f))),
          same_or_shown _ _ (λ f.
              common-IsPrinted old new _ m n same
                (Memᴰ.append_right parents (Memᴰ.append_left contents (unless-has _ _ f)))),
          same_or_shown _ _ (λ f.
              common-IsPrinted old new _ m n same
                (Memᴰ.append_right parents (Memᴰ.append_right names (unless-has _ _ f)))),
        )

    -- When two manifests without a repeated id have different fingerprints, every difference is
    -- printed: another Root, each Document that only one of them lists, and for each that both
    -- list, another parent, another name and another content.
    pub describe_drift-ArePrinted : ArePrinted
    describe_drift-ArePrinted = record {
      root = same_or_shown _ _ (λ f. is_printed _ (
          Memᴰ.append_left (added_lines ++ (removed_lines ++ common_drift after before))
            (unless-has _ _ f)));
      additions = every _ observed.entries (λ e m. same_or_shown _ _ (λ f. is_printed _ (
          Memᴰ.append_right root_line (
            Memᴰ.append_left (removed_lines ++ common_drift after before) (
              only_in-has (λ x. added x.name x.document_id) before after e
                (by_id-has e observed.entries once_after m)
                (by_id-listed e.document_id expected.entries ∙ f))))));
      removals = every _ expected.entries (λ e m. same_or_shown _ _ (λ f. is_printed _ (
          Memᴰ.append_right root_line (
            Memᴰ.append_right added_lines (
              Memᴰ.append_left (common_drift after before) (
                only_in-has (λ x. removed x.name x.document_id) after before e
                  (by_id-has e expected.entries once_before m)
                  (by_id-listed e.document_id observed.entries ∙ f)))))));
      changes = every _ expected.entries (λ old m. every _ observed.entries (λ new n.
          elim (Bool-cases (old.document_id == new.document_id)) [
            | inl t ↦ inr (compared old new m n ((eq_iff old.document_id new.document_id).0 t))
            | inr f ↦ inl f
          ]));
    }
