-- ===== src/NormativeTree/Manifest/Drift/Dictionary.antt =====
-- The dictionaries of `describe_drift` of normative_tree.py: which entries and ids they have.
use mathlib.Core.List.Memᴰ
use mathlib.Core.List.{Memᴰ}
use sdlc.Base.{
  or_swap, String, ◌≡◌, refl, ap, ◌∙◌, ◌⊎◌, inl, inr, Bool, true, false, ◌||◌, some, List, [], ◌∷◌,
  All, Bool-cases, eq_iff, ◌==◌,
}
use sdlc.NormativeTree.{listed}
use sdlc.NormativeTree.Manifest.{TreeEntry, document_ids, entry_of}
use sdlc.NormativeTree.Manifest.Observed.Order.{sorted-listed, mem-sorted}
use sdlc.NormativeTree.Manifest.Drift.{Drift, put_entry, put_entries, by_document_id, only_in}

pub entry_of-found :
    (id : String) (es : List TreeEntry) (e : TreeEntry)
    → entry_of id es ≡ some e
    → Memᴰ e es × (e.document_id ≡ id)
unfolding entry_of
entry_of-found id [] e h = cc
entry_of-found id (f ∷ es) e h = elim (Bool-cases (f.document_id == id)) [
  | inl t ↦
      let same : some f ≡ some e = rw t at h in
      let is : e ≡ f = cc in
      (Memᴰ.head is, ap (λ x. x.document_id) is ∙ (eq_iff f.document_id id).0 t)
  | inr n ↦ let (m, same) = entry_of-found id es e (rw n at h) in (Memᴰ.tail m, same)
]

put_entry-mem : (x e : TreeEntry) (es : List TreeEntry) → Memᴰ x (put_entry e es) → Memᴰ x (e ∷ es)
unfolding put_entry
put_entry-mem x e [] m = m
put_entry-mem x e (f ∷ fs) m = elim (Bool-cases (f.document_id == e.document_id)) [
  | inl t ↦
      let there : Memᴰ x (e ∷ fs) = rw t at m in
      elim (Memᴰ.cases_cons there) [
        | inl same ↦ Memᴰ.head same
        | inr far ↦ Memᴰ.tail (Memᴰ.tail far)
      ]
  | inr n ↦
      let there : Memᴰ x (f ∷ put_entry e fs) = rw n at m in
      elim (Memᴰ.cases_cons there) [
        | inl same ↦ Memᴰ.tail (Memᴰ.head same)
        | inr far ↦ elim (Memᴰ.cases_cons (put_entry-mem x e fs far)) [
          | inl same ↦ Memᴰ.head same
          | inr rest ↦ Memᴰ.tail (Memᴰ.tail rest)
        ]
      ]
]

pub put_entry-listed :
    (id : String) (e : TreeEntry) (es : List TreeEntry)
    → listed id (document_ids (put_entry e es)) ≡ listed id (document_ids (e ∷ es))
unfolding put_entry
put_entry-listed id e [] = refl
put_entry-listed id e (f ∷ fs) = elim (Bool-cases (f.document_id == e.document_id)) [
  | inl t ↦
      let same : (f.document_id == id) ≡ (e.document_id == id) =
        ap (λ i. i == id) ((eq_iff f.document_id e.document_id).0 t) in
      rw (t, same) (twice (e.document_id == id) (listed id (document_ids fs)))
  | inr n ↦
      let rest = put_entry-listed id e fs in
      rw (n, rest)
        (or_swap (f.document_id == id) (e.document_id == id) (listed id (document_ids fs)))
]
  where
    twice : (a b : Bool) → (a || b) ≡ (a || (a || b))
    twice true b = refl
    twice false b = refl

put_entries-mem :
    (x : TreeEntry) (dict es : List TreeEntry)
    → Memᴰ x (put_entries dict es)
    → Memᴰ x es ⊎ Memᴰ x dict
unfolding put_entries
put_entries-mem x dict [] m = inr m
put_entries-mem x dict (e ∷ es) m = elim (put_entries-mem x (put_entry e dict) es m) [
  | inl far ↦ inl (Memᴰ.tail far)
  | inr put ↦ elim (Memᴰ.cases_cons (put_entry-mem x e dict put)) [
    | inl same ↦ inl (Memᴰ.head same)
    | inr before ↦ inr before
  ]
]

pub by_id-mem : (x : TreeEntry) (es : List TreeEntry) → Memᴰ x (by_document_id es) → Memᴰ x es
unfolding by_document_id
by_id-mem x es m = elim (put_entries-mem x [] es (mem-sorted x (put_entries [] es) m)) [
  | inl there ↦ there
  | inr nowhere ↦ absurd (Memᴰ.not-nil nowhere)
]

put_entries-listed :
    (id : String) (dict es : List TreeEntry)
    → listed id (document_ids (put_entries dict es))
      ≡ (listed id (document_ids es) || listed id (document_ids dict))
unfolding put_entries
put_entries-listed id dict [] = refl
put_entries-listed id dict (e ∷ es) =
    put_entries-listed id (put_entry e dict) es
    ∙ rw (put_entry-listed id e dict)
        (swap (listed id (document_ids es)) (e.document_id == id) (listed id (document_ids dict)))
  where
    swap : (a b c : Bool) → (a || (b || c)) ≡ ((b || a) || c)
    swap true true c = refl
    swap true false c = refl
    swap false true c = refl
    swap false false c = refl

pub by_id-listed :
    (id : String) (es : List TreeEntry)
    → listed id (document_ids (by_document_id es)) ≡ listed id (document_ids es)
unfolding by_document_id
by_id-listed id es =
    sorted-listed id (put_entries [] es)
    ∙ put_entries-listed id [] es
    ∙ or_false (listed id (document_ids es))
  where
    or_false : (b : Bool) → (b || false) ≡ b
    or_false true = refl
    or_false false = refl

pub only_in-All {ℓ} :
    (P : Drift → Type ℓ) (say : TreeEntry → Drift) (others es : List TreeEntry)
    → ((e : TreeEntry) → Memᴰ e es → listed e.document_id (document_ids others) ≡ false → P (say e))
    → All P (only_in say others es)
unfolding only_in
only_in-All P say others [] h = tt
only_in-All P say others (e ∷ es) h =
    let rest = only_in-All P say others es (λ x m f. h x (Memᴰ.tail m) f) in
    elim (Bool-cases (listed e.document_id (document_ids others))) [
      | inl known ↦ rw known rest
      | inr new ↦ rw new (h e (Memᴰ.head refl) new, rest)
    ]
