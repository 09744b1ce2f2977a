-- ===== src/ProjectCode/Derived.antt =====
-- `derive_project_code` and `candidate_project_codes` of project_code.py: what they generate.
use mathlib.Core.Path.{subst}
use sdlc.Base.{
  ℕ, zero, suc, ◌+◌, ◌-◌, ◌≤◌, ◌<◌, ◌≡◌, refl, ap, ◌⊎◌, inl, inr, true, List, [], ◌∷◌, ◌++◌, map,
  All, All-append, length, length-append, ltb, leb, arith, Bool-cases,
}
use sdlc.ProjectCode.{
  Text, generated_min_length, generated_max_length, is_code_char, upper_char, validate_project_code,
  take, add_word, split_runs, find_words, starts_alpha, keep_alpha, initials, base_of,
  UnusableProjectName, derive_from, derive_project_code, marker, yield_or_return, variants,
  suffix_start, suffix_limit, yielded, candidate_project_codes,
}
use sdlc.ProjectCode.Format.{IsCodeChar, IsCode, normalize-code, validate_project_code-exact}

-- A code, of at most the length that is generated.
abbrev pub IsGenerated : Text → Type 0
IsGenerated s = IsCode s × (length s ≤ generated_max_length)

take-All : (n : ℕ) (s : Text) → All IsCodeChar s → All IsCodeChar (take n s)
take-All zero s h = tt
take-All (suc n) [] h = tt
take-All (suc n) (c ∷ s) h = (h.0, take-All n s h.1)

take-length : (n : ℕ) (s : Text) → length (take n s) ≤ n
take-length zero s = omega arith
take-length (suc n) [] = omega arith
take-length (suc n) (c ∷ s) = omega (arith, take-length n s)

take-IsCode : (n : ℕ) (s : Text) → IsCode s → IsCode (take (suc n) s)
take-IsCode n [] h = absurd h
take-IsCode n (c ∷ s) h = (h.0, take-All n s h.1)

add_word-All :
    (run : Text) (words : List Text)
    → All IsCodeChar run
    → All (All IsCodeChar) words
    → All (All IsCodeChar) (add_word run words)
add_word-All [] words r ws = ws
add_word-All (c ∷ s) words r ws = (r, ws)

split_runs-All :
    (s : Text) → let (run, words) = split_runs s in All IsCodeChar run × All (All IsCodeChar) words
unfolding split_runs
split_runs-All [] = (tt, tt)
split_runs-All (c ∷ s) =
    let (run, words) = split_runs s in
    let (r, ws) = split_runs-All s in
    elim (Bool-cases (is_code_char c)) [
      | inl e ↦ rw e ((e, r), ws)
      | inr e ↦ rw e (tt, add_word-All run words r ws)
    ]

find_words-All : (s : Text) → All (All IsCodeChar) (find_words s)
unfolding find_words
find_words-All s =
    let (run, words) = split_runs s in let (r, ws) = split_runs-All s in add_word-All run words r ws

word-IsCode : (w : Text) → starts_alpha w ≡ true → All IsCodeChar w → IsCode w
word-IsCode [] e h = cc
word-IsCode (c ∷ s) e h = (e, h.1)

keep_alpha-IsCode : (words : List Text) → All (All IsCodeChar) words → All IsCode (keep_alpha words)
keep_alpha-IsCode [] h = tt
keep_alpha-IsCode (w ∷ words) h = elim (Bool-cases (starts_alpha w)) [
  | inl e ↦ rw e (word-IsCode w e h.0, keep_alpha-IsCode words h.1)
  | inr e ↦ rw e (keep_alpha-IsCode words h.1)
]

initials-All : (words : List Text) → All IsCode words → All IsCodeChar (initials words)
initials-All [] h = tt
initials-All ([] ∷ words) h = absurd h.0
initials-All ((c ∷ w) ∷ words) h = (ground (arith, h.0.0), initials-All words h.1)

initials-IsCode :
    (w : Text) (words : List Text) → All IsCode (w ∷ words) → IsCode (initials (w ∷ words))
initials-IsCode [] words h = absurd h.0
initials-IsCode (c ∷ w) words h = (h.0.0, initials-All words h.1)

base_of-IsCode :
    (first letters : Text) → IsCode first → IsCode letters → IsCode (base_of first letters)
base_of-IsCode first letters f l = elim (Bool-cases (leb generated_min_length (length letters))) [
  | inl e ↦ rw e l
  | inr e ↦ rw e (take-IsCode 2 first f)
]

derive_from-IsGenerated :
    (name : Text) (words : List Text) (code : Text)
    → All IsCode words
    → derive_from name words ≡ inl code
    → IsGenerated code
unfolding derive_from
derive_from-IsGenerated name [] code h e = cc
derive_from-IsGenerated name (word ∷ []) code h e =
    let same : take generated_max_length word ≡ code = ground arith in
    subst IsGenerated same (take-IsCode 5 word h.0, take-length generated_max_length word)
derive_from-IsGenerated name (first ∷ second ∷ words) code h e =
    let base = base_of first (initials (first ∷ second ∷ words)) in
    let same : take generated_max_length base ≡ code = ground arith in
    let is : IsCode base = base_of-IsCode first _ h.0 (initials-IsCode first (second ∷ words) h) in
    subst IsGenerated same (take-IsCode 5 base is, take-length generated_max_length base)

-- A derived code begins with a letter A to Z, goes on with letters and digits, and has at most six
-- characters.
pub derive_project_code-IsGenerated :
    (name code : Text) → derive_project_code name ≡ inl code → IsGenerated code
unfolding derive_project_code
derive_project_code-IsGenerated name code e =
    let words = find_words (map upper_char name) in
    derive_from-IsGenerated name (keep_alpha words) code
      (keep_alpha-IsCode words (find_words-All (map upper_char name))) e

IsCode-append : (s t : Text) → IsCode s → All IsCodeChar t → IsCode (s ++ t)
IsCode-append [] t h ht = absurd h
IsCode-append (c ∷ s) t h ht = (h.0, All-append IsCodeChar s t h.1 ht)

-- The marker of a suffix of at most two digits.
record IsMarker (mark : Text) : Type 0 where
  digits : All IsCodeChar mark
  short : length mark ≤ 2

marker-IsMarker : (n : ℕ) → n < 100 → IsMarker (marker n)
marker-IsMarker n small = elim (Bool-cases (ltb n 10)) [
  | inl e ↦ rw e (record { digits = (ground arith, tt); short = omega arith })
  | inr e ↦ rw e (record { digits = (ground arith, (ground arith, tt)); short = omega arith })
]

yielded_one :
    (stem mark : Text) (rest : List Text) (n : ℕ)
    → IsCode stem
    → IsMarker mark
    → length stem ≤ generated_max_length - length mark
    → All IsGenerated rest × (length rest ≡ n)
    → All IsGenerated (yield_or_return stem mark rest)
      × (length (yield_or_return stem mark rest) ≡ suc n)
yielded_one [] mark rest n h m bound all = absurd h
yielded_one (c ∷ s) mark rest n h m bound all = (
  (
    (
      IsCode-append (c ∷ s) mark h m.digits,
      omega (arith, length-append (c ∷ s) mark, m.short, bound),
    ),
    all.0,
  ),
  ap suc all.1,
)

variants-All :
    (base : Text) (suffix n : ℕ)
    → IsCode base
    → suffix + n ≤ suffix_limit
    → All IsGenerated (variants base suffix n) × (length (variants base suffix n) ≡ n)
unfolding variants
variants-All base suffix zero h bound = (tt, refl)
variants-All base suffix (suc n) h bound =
    let mark = marker-IsMarker suffix (omega arith) in
    let room = generated_max_length - length (marker suffix) in
    let full : suc (room - 1) ≡ room = omega (arith, mark.short) in
    yielded_one (take room base) (marker suffix) (variants base (suffix + 1) n) n
      (subst (λ k. IsCode (take k base)) full (take-IsCode (room - 1) base h)) mark
      (take-length room base) (variants-All base (suffix + 1) n h (omega arith))

accepted : (s : Text) → IsGenerated s → validate_project_code s ≡ inl s
accepted s h = (validate_project_code-exact s s).1 (normalize-code s h.0, h.0, omega (arith, h.1))

each_accepted :
    (codes : List Text)
    → All IsGenerated codes
    → All (λ s. IsGenerated s × (validate_project_code s ≡ inl s)) codes
each_accepted [] h = tt
each_accepted (s ∷ codes) h = ((h.0, accepted s h.0), each_accepted codes h.1)

listed : (a b : List Text) → ◌≡◌ {A = List Text ⊎ UnusableProjectName} (inl a) (inl b) → a ≡ b
listed a b e = ground arith

yielded-All :
    (derived : Text ⊎ UnusableProjectName) (codes : List Text)
    → ((code : Text) → derived ≡ inl code → IsGenerated code)
    → yielded derived ≡ inl codes
    → All IsGenerated codes × (length codes ≡ 99)
unfolding yielded
yielded-All (inr reason) codes is e = cc
yielded-All (inl base) codes is e =
    let first = is base refl in
    let (all, count) =
      variants-All base suffix_start (suffix_limit - suffix_start) first.0 (omega arith) in
    let same = listed (base ∷ variants base suffix_start (suffix_limit - suffix_start)) codes e in
    subst (λ l. All IsGenerated l × (length l ≡ 99)) same ((first, all), ap suc count)

-- A name that yields candidates yields 99 of them, each of at most six characters and accepted by
-- `validate_project_code` as it stands.
pub candidate_project_codes-accepted :
    (name : Text) (codes : List Text)
    → candidate_project_codes name ≡ inl codes
    → All (λ s. IsGenerated s × (validate_project_code s ≡ inl s)) codes × (length codes ≡ 99)
unfolding candidate_project_codes
candidate_project_codes-accepted name codes e =
    let (all, count) =
      yielded-All (derive_project_code name) codes
        (λ code derived. derive_project_code-IsGenerated name code derived) e in
    (each_accepted codes all, count)
