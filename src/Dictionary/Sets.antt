-- ===== src/Dictionary/Sets.antt =====
-- Sets of texts as lists: `sorted(set(…))`, inclusion and difference.
use mathlib.Core.List.Memᴰ
use mathlib.Core.List.{Memᴰ}
use Prim.Native.String.{compare}
use text.Mathlib.Text.{is_lt}
use sdlc.Base.{
  String, ◌≡◌, refl, sym, ap, ◌∙◌, inl, inr, Bool, true, false, ◌&&◌, ◌||◌, List, [], ◌∷◌, ◌++◌,
  if◌then◌else◌, arith, Bool-cases, or_swap, eq_iff, ◌==◌,
}
use sdlc.NormativeTree.{listed}
use sdlc.NormativeTree.Scan.{NoRepeat}
use sdlc.NormativeTree.Manifest.Observed.Order.{other_text}

unfoldable pub distinct : List String → List String
distinct [] = []
distinct (x ∷ xs) = let rest = distinct xs in if listed x xs then rest else x ∷ rest

unfoldable pub insert_text : String → List String → List String
insert_text x [] = x ∷ []
insert_text x (y ∷ ys) =
    let rest = insert_text x ys in if is_lt (compare y x) then y ∷ rest else x ∷ y ∷ ys

unfoldable pub sort_texts : List String → List String
unfolding insert_text
sort_texts [] = []
sort_texts (x ∷ xs) = insert_text x (sort_texts xs)

-- `sorted(set(texts))`
unfoldable pub sorted_set : List String → List String
unfolding sort_texts distinct
sorted_set xs = sort_texts (distinct xs)

-- `xs <= ys`
abbrev pub all_listed : List String → List String → Bool
all_listed [] ys = true
all_listed (x ∷ xs) ys = listed x ys && all_listed xs ys

-- `xs == ys`
abbrev pub same_set : List String → List String → Bool
same_set xs ys = all_listed xs ys && all_listed ys xs

-- `xs - ys`
unfoldable pub minus : List String → List String → List String
minus [] ys = []
minus (x ∷ xs) ys = let rest = minus xs ys in if listed x ys then rest else x ∷ rest

-- `sorted(xs ^ ys)`
unfoldable pub either_only : List String → List String → List String
unfolding minus sorted_set
either_only xs ys = sorted_set (minus xs ys ++ minus ys xs)

distinct-listed : (z : String) (xs : List String) → listed z (distinct xs) ≡ listed z xs
unfolding distinct
distinct-listed z [] = refl
distinct-listed z (x ∷ xs) = elim (Bool-cases (listed x xs)) [
  | inr new ↦ rw new (ap (λ b. x == z || b) (distinct-listed z xs))
  | inl twice ↦ elim (Bool-cases (x == z)) [
    | inr other ↦ rw (twice, other) (distinct-listed z xs)
    | inl same ↦
        let is = ap (λ y. listed y xs) (sym ((eq_iff x z).0 same)) ∙ twice in
        rw (twice, same) (distinct-listed z xs ∙ is)
  ]
]

distinct-NoRepeat : (xs : List String) → NoRepeat (distinct xs)
unfolding distinct
distinct-NoRepeat [] = tt
distinct-NoRepeat (x ∷ xs) = elim (Bool-cases (listed x xs)) [
  | inr new ↦ rw new (distinct-listed x xs ∙ new, distinct-NoRepeat xs)
  | inl twice ↦ rw twice (distinct-NoRepeat xs)
]

insert-listed : (z x : String) (ys : List String) → listed z (insert_text x ys) ≡ listed z (x ∷ ys)
unfolding insert_text
insert-listed z x [] = refl
insert-listed z x (y ∷ ys) = elim (Bool-cases (is_lt (compare y x))) [
  | inr first ↦ rw first refl
  | inl later ↦
      let rest = insert-listed z x ys in rw (later, rest) (or_swap (y == z) (x == z) (listed z ys))
]

insert-NoRepeat :
    (x : String) (ys : List String)
    → listed x ys ≡ false
    → NoRepeat ys
    → NoRepeat (insert_text x ys)
unfolding insert_text
insert-NoRepeat x [] new h = (refl, tt)
insert-NoRepeat x (y ∷ ys) new h = elim (Bool-cases (is_lt (compare y x))) [
  | inr first ↦ rw first (new, h)
  | inl later ↦
      let apart : (y == x) ≡ false = ground arith in
      let away : listed x ys ≡ false = ground arith in
      let still : listed y (insert_text x ys) ≡ false =
        insert-listed y x ys ∙ rw (other_text y x apart, h.0) refl in
      rw later (still, insert-NoRepeat x ys away h.1)
]

sort-listed : (z : String) (xs : List String) → listed z (sort_texts xs) ≡ listed z xs
unfolding sort_texts
sort-listed z [] = refl
sort-listed z (x ∷ xs) =
    insert-listed z x (sort_texts xs) ∙ ap (λ b. x == z || b) (sort-listed z xs)

sort-NoRepeat : (xs : List String) → NoRepeat xs → NoRepeat (sort_texts xs)
unfolding sort_texts
sort-NoRepeat [] h = tt
sort-NoRepeat (x ∷ xs) h =
    insert-NoRepeat x (sort_texts xs) (sort-listed x xs ∙ h.0) (sort-NoRepeat xs h.1)

pub sorted_set-listed : (z : String) (xs : List String) → listed z (sorted_set xs) ≡ listed z xs
unfolding sorted_set
sorted_set-listed z xs = sort-listed z (distinct xs) ∙ distinct-listed z xs

pub sorted_set-NoRepeat : (xs : List String) → NoRepeat (sorted_set xs)
unfolding sorted_set
sorted_set-NoRepeat xs = sort-NoRepeat (distinct xs) (distinct-NoRepeat xs)

pub mem-listed : (x : String) (xs : List String) → Memᴰ x xs → listed x xs ≡ true
mem-listed x [] m = absurd (Memᴰ.not-nil m)
mem-listed x (y ∷ ys) m = elim (Memᴰ.cases_cons m) [
  | inl same ↦ rw ((eq_iff y x).1 (sym same)) refl
  | inr far ↦ elim (Bool-cases (y == x)) [ inl t ↦ rw t refl | inr f ↦ rw f (mem-listed x ys far) ]
]

pub listed-mem : (x : String) (xs : List String) → listed x xs ≡ true → Memᴰ x xs
listed-mem x [] h = cc
listed-mem x (y ∷ ys) h = elim (Bool-cases (y == x)) [
  | inl t ↦ Memᴰ.head (sym ((eq_iff y x).0 t))
  | inr f ↦ Memᴰ.tail (listed-mem x ys (rw f at h))
]
