-- ===== src/NormativeTree/Manifest/Observed/Order.antt =====
-- The entries of a manifest, sorted: the same entries, without a repeated id.
use mathlib.Core.List.Memᴰ
use mathlib.Core.List.{Memᴰ}
use mathlib.Core.Path.{subst}
use Prim.Native.String.{compare}
use text.Mathlib.Text.{is_lt}
use sdlc.Base.{
  or_swap, not_both, String, ◌≡◌, refl, sym, ap, ◌∙◌, inl, inr, true, false, ◌||◌, some, List, [],
  ◌∷◌, All, arith, Bool-cases, eq_iff, ◌==◌,
}
use sdlc.NormativeTree.{listed}
use sdlc.NormativeTree.Scan.{NoRepeat, onto}
use sdlc.NormativeTree.Manifest.{TreeEntry, document_ids, repeats, entry_of}
use sdlc.NormativeTree.Manifest.Observed.{insert_entry, sorted_entries}

pub other_text : (a b : String) → (a == b) ≡ false → (b == a) ≡ false
other_text a b f = elim (Bool-cases (b == a)) [
  | inl t ↦ let same = (eq_iff a b).1 (sym ((eq_iff b a).0 t)) in absurd (not_both same f)
  | inr g ↦ g
]

insert-listed :
    (id : String) (e : TreeEntry) (es : List TreeEntry)
    → listed id (document_ids (insert_entry e es)) ≡ listed id (document_ids (e ∷ es))
unfolding insert_entry
insert-listed id e [] = refl
insert-listed id e (f ∷ fs) = elim (Bool-cases (is_lt (compare f.document_id e.document_id))) [
  | inr first ↦ rw first refl
  | inl later ↦
      let rest = insert-listed id e fs in
      rw (later, rest)
        (or_swap (f.document_id == id) (e.document_id == id) (listed id (document_ids fs)))
]

insert-NoRepeat :
    (e : TreeEntry) (es : List TreeEntry)
    → listed e.document_id (document_ids es) ≡ false
    → NoRepeat (document_ids es)
    → NoRepeat (document_ids (insert_entry e es))
unfolding insert_entry
insert-NoRepeat e [] new h = (refl, tt)
insert-NoRepeat e (f ∷ fs) new h = elim (Bool-cases (is_lt (compare f.document_id e.document_id))) [
  | inr first ↦ rw first (new, h)
  | inl later ↦
      let apart : (f.document_id == e.document_id) ≡ false = ground arith in
      let away : listed e.document_id (document_ids fs) ≡ false = ground arith in
      let still : listed f.document_id (document_ids (insert_entry e fs)) ≡ false =
        insert-listed f.document_id e fs
        ∙ rw (other_text f.document_id e.document_id apart, h.0) refl in
      rw later (still, insert-NoRepeat e fs away h.1)
]

pub sorted-listed :
    (id : String) (es : List TreeEntry)
    → listed id (document_ids (sorted_entries es)) ≡ listed id (document_ids es)
unfolding sorted_entries
sorted-listed id [] = refl
sorted-listed id (e ∷ es) =
    insert-listed id e (sorted_entries es)
    ∙ ap (λ b. e.document_id == id || b) (sorted-listed id es)

-- Sorting repeats no id.
pub sorted-NoRepeat :
    (es : List TreeEntry) → NoRepeat (document_ids es) → NoRepeat (document_ids (sorted_entries es))
unfolding sorted_entries
sorted-NoRepeat [] h = tt
sorted-NoRepeat (e ∷ es) h =
    insert-NoRepeat e (sorted_entries es) (sorted-listed e.document_id es ∙ h.0)
      (sorted-NoRepeat es h.1)

insert-mem : (x e : TreeEntry) (es : List TreeEntry) → Memᴰ x (e ∷ es) → Memᴰ x (insert_entry e es)
unfolding insert_entry
insert-mem x e [] m = m
insert-mem x e (f ∷ fs) m = elim (Bool-cases (is_lt (compare f.document_id e.document_id))) [
  | inr first ↦ rw first m
  | inl later ↦ rw later (elim (Memᴰ.cases_cons m) [
    | inl same ↦ Memᴰ.tail (insert-mem x e fs (Memᴰ.head same))
    | inr rest ↦ elim (Memᴰ.cases_cons rest) [
      | inl same ↦ Memᴰ.head same
      | inr far ↦ Memᴰ.tail (insert-mem x e fs (Memᴰ.tail far))
    ]
  ])
]

pub sorted-mem : (x : TreeEntry) (es : List TreeEntry) → Memᴰ x es → Memᴰ x (sorted_entries es)
unfolding sorted_entries
sorted-mem x [] m = m
sorted-mem x (e ∷ es) m = insert-mem x e (sorted_entries es) (elim (Memᴰ.cases_cons m) [
  | inl same ↦ Memᴰ.head same
  | inr far ↦ Memᴰ.tail (sorted-mem x es far)
])

pub all_at {ℓ κ} : {A : Type ℓ} (P : A → Type κ) (xs : List A) (x : A) → All P xs → Memᴰ x xs → P x
all_at P [] x h m = absurd (Memᴰ.not-nil m)
all_at P (y ∷ ys) x h m = elim (Memᴰ.cases_cons m) [
  | inl same ↦ subst P (sym same) h.0
  | inr far ↦ all_at P ys x h.1 far
]

module _ {ℓ} (P : TreeEntry → Type ℓ) where
  insert-All : (e : TreeEntry) (es : List TreeEntry) → P e → All P es → All P (insert_entry e es)
  unfolding insert_entry
  insert-All e [] p h = (p, tt)
  insert-All e (f ∷ fs) p h = elim (Bool-cases (is_lt (compare f.document_id e.document_id))) [
    | inr first ↦ rw first (p, h)
    | inl later ↦ rw later (h.0, insert-All e fs p h.1)
  ]

  pub sorted-All : (es : List TreeEntry) → All P es → All P (sorted_entries es)
  unfolding sorted_entries
  sorted-All [] h = tt
  sorted-All (e ∷ es) h = insert-All e (sorted_entries es) h.0 (sorted-All es h.1)

itself {ℓ} : {A : Type ℓ} (xs : List A) → All (λ y. Memᴰ y xs) xs
itself {A = A} xs = go xs (λ y m. m)
  where
    go : (ys : List A) → ((y : A) → Memᴰ y ys → Memᴰ y xs) → All (λ y. Memᴰ y xs) ys
    go [] k = tt
    go (y ∷ ys) k = (k y (Memᴰ.head refl), go ys (λ z m. k z (Memᴰ.tail m)))

-- Sorting adds no entry.
pub mem-sorted : (x : TreeEntry) (es : List TreeEntry) → Memᴰ x (sorted_entries es) → Memᴰ x es
mem-sorted x es m =
    all_at (λ y. Memᴰ y es) (sorted_entries es) x (sorted-All (λ y. Memᴰ y es) es (itself es)) m

pub mem-listed :
    (x : TreeEntry) (es : List TreeEntry)
    → Memᴰ x es
    → listed x.document_id (document_ids es) ≡ true
mem-listed x [] m = absurd (Memᴰ.not-nil m)
mem-listed x (e ∷ es) m = elim (Memᴰ.cases_cons m) [
  | inl same ↦
      let t : (e.document_id == x.document_id) ≡ true =
        (eq_iff e.document_id x.document_id).1 (sym (ap (λ y. y.document_id) same)) in
      rw t refl
  | inr far ↦ elim (Bool-cases (e.document_id == x.document_id)) [
    | inl t ↦ rw t refl
    | inr f ↦ rw f (mem-listed x es far)
  ]
]

-- An entry is found under its id.
pub entry_of-mem :
    (x : TreeEntry) (es : List TreeEntry)
    → NoRepeat (document_ids es)
    → Memᴰ x es
    → entry_of x.document_id es ≡ some x
unfolding entry_of
entry_of-mem x [] h m = absurd (Memᴰ.not-nil m)
entry_of-mem x (e ∷ es) h m = elim (Memᴰ.cases_cons m) [
  | inl same ↦
      let t : (e.document_id == x.document_id) ≡ true =
        (eq_iff e.document_id x.document_id).1 (sym (ap (λ y. y.document_id) same)) in
      rw t (ap some (sym same))
  | inr far ↦ elim (Bool-cases (e.document_id == x.document_id)) [
    | inl t ↦
        let same_id = (eq_iff e.document_id x.document_id).0 t in
        absurd (
          not_both (mem-listed x es far)
            (ap (λ id. listed id (document_ids es)) (sym same_id) ∙ h.0))
    | inr f ↦ rw f (entry_of-mem x es h.1 far)
  ]
]

pub NoRepeat-repeats : (ids : List String) → NoRepeat ids → repeats ids ≡ false
unfolding repeats
NoRepeat-repeats [] h = refl
NoRepeat-repeats (id ∷ ids) h = rw (h.0, NoRepeat-repeats ids h.1) refl

unlisted_first :
    (x : String) (xs acc : List String)
    → All (λ y. listed y (x ∷ acc) ≡ false) xs
    → listed x xs ≡ false
unlisted_first x [] acc h = refl
unlisted_first x (y ∷ ys) acc h =
    let apart : (x == y) ≡ false = ground (arith, h.0) in
    rw (other_text x y apart, unlisted_first x ys acc h.1) refl

weaker :
    (x : String) (acc xs : List String)
    → All (λ y. listed y (x ∷ acc) ≡ false) xs
    → All (λ y. listed y acc ≡ false) xs
weaker x acc [] h = tt
weaker x acc (y ∷ ys) h =
    let out : listed y acc ≡ false = ground (arith, h.0) in (out, weaker x acc ys h.1)

-- Ids that are put one after another onto others without a repetition repeat none themselves.
pub onto-NoRepeat :
    (xs acc : List String)
    → NoRepeat (onto xs acc)
    → NoRepeat acc × NoRepeat xs × All (λ y. listed y acc ≡ false) xs
onto-NoRepeat [] acc h = (h, tt, tt)
onto-NoRepeat (x ∷ xs) acc h =
    let (top, rest, apart) = onto-NoRepeat xs (x ∷ acc) h in
    (top.1, (unlisted_first x xs acc apart, rest), (top.0, weaker x acc xs apart))

pub onto_one-NoRepeat :
    (x : String) (xs : List String) → NoRepeat (onto xs (x ∷ [])) → NoRepeat (x ∷ xs)
onto_one-NoRepeat x xs h =
    let (_, rest, apart) = onto-NoRepeat xs (x ∷ []) h in (unlisted_first x xs [] apart, rest)
