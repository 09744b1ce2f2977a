-- ===== src/NormativeTree/Manifest/Drift/Kept.antt =====
-- The dictionaries of `describe_drift` of normative_tree.py keep entries without a repeated id.
use mathlib.Core.List.Memᴰ
use mathlib.Core.List.{Memᴰ}
use sdlc.Base.{
  ◌≡◌, refl, sym, ap, ◌∙◌, inl, inr, false, some, List, [], ◌∷◌, arith, Bool-cases, not_both,
  eq_iff, ◌==◌,
}
use sdlc.NormativeTree.{listed}
use sdlc.NormativeTree.Scan.{NoRepeat}
use sdlc.NormativeTree.Manifest.{TreeEntry, document_ids, entry_of}
use sdlc.NormativeTree.Manifest.Observed.Order.{
  other_text, entry_of-mem, sorted-mem, sorted-NoRepeat,
}
use sdlc.NormativeTree.Manifest.Drift.{put_entry, put_entries, by_document_id}
use sdlc.NormativeTree.Manifest.Drift.Dictionary.{put_entry-listed}

put_entry-has : (e : TreeEntry) (es : List TreeEntry) → Memᴰ e (put_entry e es)
unfolding put_entry
put_entry-has e [] = Memᴰ.head refl
put_entry-has e (f ∷ fs) = elim (Bool-cases (f.document_id == e.document_id)) [
  | inl t ↦ rw t (Memᴰ.head refl)
  | inr n ↦ rw n (Memᴰ.tail (put_entry-has e fs))
]

put_entry-keeps :
    (x e : TreeEntry) (es : List TreeEntry)
    → (x.document_id == e.document_id) ≡ false
    → Memᴰ x es
    → Memᴰ x (put_entry e es)
unfolding put_entry
put_entry-keeps x e [] other m = Memᴰ.tail m
put_entry-keeps x e (f ∷ fs) other m = elim (Bool-cases (f.document_id == e.document_id)) [
  | inl t ↦ rw t (elim (Memᴰ.cases_cons m) [
    | inl same ↦ absurd (not_both (ap (λ y. y.document_id == e.document_id) same ∙ t) other)
    | inr far ↦ Memᴰ.tail far
  ])
  | inr n ↦ rw n (elim (Memᴰ.cases_cons m) [
    | inl same ↦ Memᴰ.head same
    | inr far ↦ Memᴰ.tail (put_entry-keeps x e fs other far)
  ])
]

put_entries-keeps :
    (x : TreeEntry) (dict es : List TreeEntry)
    → listed x.document_id (document_ids es) ≡ false
    → Memᴰ x dict
    → Memᴰ x (put_entries dict es)
unfolding put_entries
put_entries-keeps x dict [] away m = m
put_entries-keeps x dict (e ∷ es) away m =
    let apart : (e.document_id == x.document_id) ≡ false = ground arith in
    put_entries-keeps x (put_entry e dict) es (ground arith)
      (put_entry-keeps x e dict (other_text e.document_id x.document_id apart) m)

put_entries-has :
    (x : TreeEntry) (dict es : List TreeEntry)
    → NoRepeat (document_ids es)
    → Memᴰ x es
    → Memᴰ x (put_entries dict es)
unfolding put_entries
put_entries-has x dict [] fresh m = absurd (Memᴰ.not-nil m)
put_entries-has x dict (e ∷ es) fresh m = elim (Memᴰ.cases_cons m) [
  | inl same ↦
      put_entries-keeps x (put_entry e dict) es
        (ap (λ y. listed y.document_id (document_ids es)) same ∙ fresh.0)
        (rw (sym same) (put_entry-has x dict))
  | inr far ↦ put_entries-has x (put_entry e dict) es fresh.1 far
]

put_entry-NoRepeat :
    (e : TreeEntry) (es : List TreeEntry)
    → NoRepeat (document_ids es)
    → NoRepeat (document_ids (put_entry e es))
unfolding put_entry
put_entry-NoRepeat e [] h = (refl, tt)
put_entry-NoRepeat e (f ∷ fs) h = elim (Bool-cases (f.document_id == e.document_id)) [
  | inl t ↦ rw t (
    ap (λ id. listed id (document_ids fs)) (sym ((eq_iff f.document_id e.document_id).0 t)) ∙ h.0,
    h.1,
  )
  | inr n ↦
      let still : listed f.document_id (document_ids (put_entry e fs)) ≡ false =
        put_entry-listed f.document_id e fs
        ∙ rw (other_text f.document_id e.document_id n, h.0) refl in
      rw n (still, put_entry-NoRepeat e fs h.1)
]

put_entries-NoRepeat :
    (dict es : List TreeEntry)
    → NoRepeat (document_ids dict)
    → NoRepeat (document_ids (put_entries dict es))
unfolding put_entries
put_entries-NoRepeat dict [] h = h
put_entries-NoRepeat dict (e ∷ es) h =
    put_entries-NoRepeat (put_entry e dict) es (put_entry-NoRepeat e dict h)

-- Of entries without a repeated id, each is in the dictionary, under its id.
pub by_id-has :
    (x : TreeEntry) (es : List TreeEntry)
    → NoRepeat (document_ids es)
    → Memᴰ x es
    → Memᴰ x (by_document_id es)
unfolding by_document_id
by_id-has x es fresh m = sorted-mem x (put_entries [] es) (put_entries-has x [] es fresh m)

pub by_id-found :
    (x : TreeEntry) (es : List TreeEntry)
    → NoRepeat (document_ids es)
    → Memᴰ x es
    → entry_of x.document_id (by_document_id es) ≡ some x
unfolding by_document_id
by_id-found x es fresh m =
    entry_of-mem x (by_document_id es)
      (sorted-NoRepeat (put_entries [] es) (put_entries-NoRepeat [] es tt)) (by_id-has x es fresh m)
