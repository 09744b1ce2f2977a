-- ===== src/ProjectCode.antt =====
-- src/sdlc/project_code.py. A text is the list of its code points, and ASCII: `strip` removes the
-- ASCII whitespace of Python, and `upper` changes the letters a to z.
pub mod Format
pub mod Derived
use Prim.Native.Char.{code}
use Prim.Native.Nat.{◌/◌, ◌%◌}
use sdlc.Base.{
  ℕ, zero, suc, ◌+◌, ◌-◌, String, ◌⊎◌, inl, inr, Bool, true, false, not, ◌&&◌, ◌||◌, List, [], ◌∷◌,
  ◌++◌, map, length, ltb, leb, eqb, if◌then◌else◌,
}

abbrev pub Text : Type 0
Text = List ℕ

-- The code points of a native text.
unfoldable pub codes : String → Text
codes String.[] = []
codes (String.◌∷◌ c s) = code c ∷ codes s

-- `==` on texts.
abbrev pub same_codes : Text → Text → Bool
same_codes [] [] = true
same_codes [] (d ∷ t) = false
same_codes (c ∷ s) [] = false
same_codes (c ∷ s) (d ∷ t) = eqb c d && same_codes s t

abbrev pub max_length : ℕ
max_length = 12

abbrev pub generated_min_length : ℕ
generated_min_length = 3

abbrev pub generated_max_length : ℕ
generated_max_length = 6

abbrev pub is_space : ℕ → Bool
is_space c = leb 9 c && leb c 13 || leb 28 c && leb c 32

abbrev pub is_letter : ℕ → Bool
is_letter c = leb 65 c && leb c 90

abbrev pub is_digit : ℕ → Bool
is_digit c = leb 48 c && leb c 57

-- `[A-Z0-9]`
abbrev pub is_code_char : ℕ → Bool
is_code_char c = is_letter c || is_digit c

abbrev pub upper_char : ℕ → ℕ
upper_char c = if leb 97 c && leb c 122 then c - 32 else c

unfoldable pub lstrip : Text → Text
lstrip [] = []
lstrip (c ∷ s) = let rest = lstrip s in if is_space c then rest else c ∷ s

abbrev keep : ℕ → Text → Text
keep c [] = if is_space c then [] else c ∷ []
keep c (d ∷ s) = c ∷ d ∷ s

unfoldable pub rstrip : Text → Text
rstrip [] = []
rstrip (c ∷ s) = keep c (rstrip s)

-- `normalize_project_code`
unfoldable pub normalize_project_code : Text → Text
unfolding lstrip rstrip
normalize_project_code raw = map upper_char (rstrip (lstrip raw))

-- `[A-Z0-9]*$`, where `$` also matches before a final newline.
unfoldable pub matches_rest : Text → Bool
matches_rest [] = true
matches_rest (c ∷ []) = is_code_char c || eqb c 10
matches_rest (c ∷ d ∷ s) = is_code_char c && matches_rest (d ∷ s)

-- `PROJECT_CODE_PATTERN.match`
unfoldable pub matches_pattern : Text → Bool
unfolding matches_rest
matches_pattern [] = false
matches_pattern (c ∷ s) = is_letter c && matches_rest s

-- Why `InvalidProjectCode` is raised.
pub data InvalidProjectCode : Type 0 where
  empty : InvalidProjectCode
  too_long : Text → InvalidProjectCode
  wrong_format : Text → InvalidProjectCode

validate_normalized : Text → Text ⊎ InvalidProjectCode
unfolding matches_pattern
validate_normalized [] = inr empty
validate_normalized (c ∷ s) =
    if ltb max_length (length (c ∷ s))
    then inr (too_long (c ∷ s))
    else if not (matches_pattern (c ∷ s))
    then inr (wrong_format (c ∷ s))
    else inl (c ∷ s)

-- `validate_project_code`
unfoldable pub validate_project_code : Text → Text ⊎ InvalidProjectCode
unfolding validate_normalized normalize_project_code
validate_project_code raw = validate_normalized (normalize_project_code raw)

abbrev pub take : ℕ → Text → Text
take zero s = []
take (suc n) [] = []
take (suc n) (c ∷ s) = c ∷ take n s

abbrev add_word : Text → List Text → List Text
add_word [] words = words
add_word (c ∷ s) words = (c ∷ s) ∷ words

abbrev extend : ℕ → Text × List Text → Text × List Text
extend c (run, words) = if is_code_char c then (c ∷ run, words) else ([], add_word run words)

-- The run of `[A-Z0-9]` at the start of a text, perhaps empty, and the runs after it.
unfoldable pub split_runs : Text → Text × List Text
split_runs [] = ([], [])
split_runs (c ∷ s) = extend c (split_runs s)

-- `_WORD_PATTERN.findall`
unfoldable pub find_words : Text → List Text
unfolding split_runs
find_words s = let (run, words) = split_runs s in add_word run words

-- `word[0].isalpha()`; no word of `find_words` is empty.
abbrev pub starts_alpha : Text → Bool
starts_alpha [] = false
starts_alpha (c ∷ s) = is_letter c

abbrev keep_alpha : List Text → List Text
keep_alpha [] = []
keep_alpha (w ∷ words) = let rest = keep_alpha words in if starts_alpha w then w ∷ rest else rest

abbrev initials : List Text → Text
initials [] = []
initials ([] ∷ words) = initials words
initials ((c ∷ w) ∷ words) = c ∷ initials words

-- Why `UnusableProjectName` is raised.
pub data UnusableProjectName : Type 0 where
  unusable : Text → UnusableProjectName

abbrev base_of : Text → Text → Text
base_of first letters =
    if leb generated_min_length (length letters) then letters else take generated_min_length first

derive_from : Text → List Text → Text ⊎ UnusableProjectName
derive_from name [] = inr (unusable name)
derive_from name (word ∷ []) = inl (take generated_max_length word)
derive_from name (first ∷ second ∷ words) =
    inl (take generated_max_length (base_of first (initials (first ∷ second ∷ words))))

-- `derive_project_code`
unfoldable pub derive_project_code : Text → Text ⊎ UnusableProjectName
unfolding derive_from find_words
derive_project_code name = derive_from name (keep_alpha (find_words (map upper_char name)))

-- `str(suffix)`, for the suffixes 2 to 99.
abbrev pub marker : ℕ → Text
marker n = if ltb n 10 then (48 + n) ∷ [] else (48 + n / 10) ∷ (48 + n % 10) ∷ []

abbrev yield_or_return : Text → Text → List Text → List Text
yield_or_return [] mark rest = []
yield_or_return (c ∷ stem) mark rest = ((c ∷ stem) ++ mark) ∷ rest

-- The loop over the suffixes, for the next `n` of them.
unfoldable pub variants : Text → ℕ → ℕ → List Text
variants base suffix zero = []
variants base suffix (suc n) =
    let rest = variants base (suffix + 1) n in
    yield_or_return (take (generated_max_length - length (marker suffix)) base) (marker suffix) rest

abbrev pub suffix_start : ℕ
suffix_start = 2

abbrev pub suffix_limit : ℕ
suffix_limit = 100

yielded : Text ⊎ UnusableProjectName → List Text ⊎ UnusableProjectName
unfolding variants
yielded (inr reason) = inr reason
yielded (inl base) = inl (base ∷ variants base suffix_start (suffix_limit - suffix_start))

-- `candidate_project_codes`, exhausted: all that it yields.
unfoldable pub candidate_project_codes : Text → List Text ⊎ UnusableProjectName
unfolding derive_project_code yielded
candidate_project_codes name = yielded (derive_project_code name)
