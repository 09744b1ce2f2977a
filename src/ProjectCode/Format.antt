-- ===== src/ProjectCode/Format.antt =====
-- `validate_project_code` of project_code.py: which texts it accepts and what it returns.
use mathlib.Core.Path.{subst}
use sdlc.Base.{
  ℕ, ◌≤◌, ◌≡◌, refl, ap, ◌∙◌, ◌↔◌, inl, inr, true, false, [], ◌∷◌, map, All, length, ltb, arith,
  Bool-cases,
}
use sdlc.ProjectCode.{
  Text, same_codes, max_length, is_space, is_letter, is_code_char, upper_char, lstrip, keep, rstrip,
  normalize_project_code, matches_rest, matches_pattern, validate_normalized, validate_project_code,
}

pub same_codes-path : (s t : Text) → same_codes s t ≡ true → s ≡ t
same_codes-path [] [] e = refl
same_codes-path [] (d ∷ t) e = cc
same_codes-path (c ∷ s) [] e = cc
same_codes-path (c ∷ s) (d ∷ t) e =
    let head : c ≡ d = ground arith in
    let tail = same_codes-path s t (ground arith) in (λ i. head i ∷ tail i)

abbrev pub IsCodeChar : ℕ → Type 0
IsCodeChar c = is_code_char c ≡ true

-- Uppercase alphanumeric, and begins with a letter.
abbrev pub IsCode : Text → Type 0
IsCode [] = ⊥
IsCode (c ∷ s) = (is_letter c ≡ true) × All IsCodeChar s

-- The last character is no whitespace.
abbrev EndsClean : Text → Type 0
EndsClean [] = Unit
EndsClean (c ∷ []) = is_space c ≡ false
EndsClean (c ∷ d ∷ s) = EndsClean (d ∷ s)

keep-EndsClean : (c : ℕ) (s : Text) → EndsClean s → EndsClean (keep c s)
keep-EndsClean c [] h = elim (Bool-cases (is_space c)) [ inl e ↦ rw e tt | inr e ↦ rw e e ]
keep-EndsClean c (d ∷ s) h = h

rstrip-EndsClean : (s : Text) → EndsClean (rstrip s)
unfolding rstrip
rstrip-EndsClean [] = tt
rstrip-EndsClean (c ∷ s) = keep-EndsClean c (rstrip s) (rstrip-EndsClean s)

upper-EndsClean : (s : Text) → EndsClean s → EndsClean (map upper_char s)
upper-EndsClean [] h = tt
upper-EndsClean (c ∷ []) h = ground arith
upper-EndsClean (c ∷ d ∷ s) h = upper-EndsClean (d ∷ s) h

normalize-EndsClean : (raw : Text) → EndsClean (normalize_project_code raw)
unfolding normalize_project_code
normalize-EndsClean raw = upper-EndsClean (rstrip (lstrip raw)) (rstrip-EndsClean (lstrip raw))

rest_clean : (s : Text) → matches_rest s ≡ true → EndsClean s → All IsCodeChar s
unfolding matches_rest
rest_clean [] m h = tt
rest_clean (c ∷ []) m h = (ground arith, tt)
rest_clean (c ∷ d ∷ s) m h = (ground arith, rest_clean (d ∷ s) (ground arith) h)

rest_matches : (s : Text) → All IsCodeChar s → matches_rest s ≡ true
unfolding matches_rest
rest_matches [] h = refl
rest_matches (c ∷ []) h = rw h.0 refl
rest_matches (c ∷ d ∷ s) h = rw (h.0, rest_matches (d ∷ s) h.1) refl

tail-EndsClean : (c : ℕ) (s : Text) → EndsClean (c ∷ s) → EndsClean s
tail-EndsClean c [] h = tt
tail-EndsClean c (d ∷ s) h = h

pattern-IsCode : (s : Text) → matches_pattern s ≡ true → EndsClean s → IsCode s
unfolding matches_pattern
pattern-IsCode [] m h = cc
pattern-IsCode (c ∷ s) m h = (ground arith, rest_clean s (ground arith) (tail-EndsClean c s h))

IsCode-pattern : (s : Text) → IsCode s → matches_pattern s ≡ true
unfolding matches_pattern
IsCode-pattern [] h = absurd h
IsCode-pattern (c ∷ s) h = rw (h.0, rest_matches s h.1) refl

keep-visible : (c : ℕ) (s : Text) → IsCodeChar c → keep c s ≡ c ∷ s
keep-visible c [] h = ground arith
keep-visible c (d ∷ s) h = refl

rstrip-code : (s : Text) → All IsCodeChar s → rstrip s ≡ s
unfolding rstrip
rstrip-code [] h = refl
rstrip-code (c ∷ s) h = rw (rstrip-code s h.1) (keep-visible c s h.0)

upper-code : (s : Text) → All IsCodeChar s → map upper_char s ≡ s
upper-code [] h = refl
upper-code (c ∷ s) h =
    let same : upper_char c ≡ c = ground arith in rw (same, upper-code s h.1) refl

pub IsCode-chars : (s : Text) → IsCode s → All IsCodeChar s
IsCode-chars [] h = absurd h
IsCode-chars (c ∷ s) h = (ground arith, h.1)

lstrip-code : (s : Text) → IsCode s → lstrip s ≡ s
unfolding lstrip
lstrip-code [] h = absurd h
lstrip-code (c ∷ s) h = let shown : is_space c ≡ false = ground arith in rw shown refl

pub normalize-code : (s : Text) → IsCode s → normalize_project_code s ≡ s
unfolding normalize_project_code
normalize-code s h =
    let all = IsCode-chars s h in rw (lstrip-code s h, rstrip-code s all) (upper-code s all)

validate_normalized-inl :
    (s code : Text)
    → EndsClean s
    → validate_normalized s ≡ inl code
    → (s ≡ code) × IsCode s × (length s ≤ max_length)
unfolding validate_normalized
validate_normalized-inl [] code clean e = cc
validate_normalized-inl (c ∷ s) code clean e = elim (Bool-cases (ltb max_length (length (c ∷ s)))) [
  | inl long ↦ cc
  | inr short ↦ elim (Bool-cases (matches_pattern (c ∷ s))) [
    | inl m ↦ (ground arith, pattern-IsCode (c ∷ s) m clean, ground arith)
    | inr other ↦ cc
  ]
]

IsCode-validated : (s : Text) → IsCode s → length s ≤ max_length → validate_normalized s ≡ inl s
unfolding validate_normalized
IsCode-validated [] h bound = absurd h
IsCode-validated (c ∷ s) h bound =
    let short : ltb max_length (length (c ∷ s)) ≡ false = ground arith in
    rw (short, IsCode-pattern (c ∷ s) h) refl

-- A text is accepted exactly when, trimmed and uppercased, it is a letter A to Z followed by letters
-- and digits, at most 12 characters in all, and then that normalized text is returned. In
-- particular the final newline before which the pattern's `$` also matches is never in a code.
pub validate_project_code-exact :
    (raw code : Text)
    → (validate_project_code raw ≡ inl code)
      ↔ ((normalize_project_code raw ≡ code) × IsCode code × (length code ≤ max_length))
unfolding validate_project_code
validate_project_code-exact raw code = (
  λ e.
      let (same, is, bound) =
        validate_normalized-inl (normalize_project_code raw) code (normalize-EndsClean raw) e in
      (same, subst IsCode same is, subst (λ s. length s ≤ max_length) same bound),
  λ (same, is, bound). ap validate_normalized same ∙ IsCode-validated code is bound,
)

-- A returned code validates to itself.
pub validate_project_code-stable :
    (raw code : Text) → validate_project_code raw ≡ inl code → validate_project_code code ≡ inl code
validate_project_code-stable raw code e =
    let (same, is, bound) = (validate_project_code-exact raw code).0 e in
    (validate_project_code-exact code code).1 (normalize-code code is, is, bound)
