-- ===== src/RequirementId.antt =====
-- src/sdlc/requirement_id.py. Texts are ASCII, as code points, and `int` is given fewer digits than
-- the limit above which Python refuses to convert.
pub mod Numbers
pub mod Rendered
use Prim.Native.Nat.{◌/◌, ◌%◌}
use sdlc.Base.{
  ℕ, zero, suc, ◌+◌, ◌-◌, ◌*◌, ◌⊎◌, inl, inr, Bool, true, false, ◌&&◌, [], ◌∷◌, ◌++◌, length, ltb,
  if◌then◌else◌,
}
use sdlc.ProjectCode.{Text, is_digit, lstrip, rstrip}

-- `RAW_INFIX`, the letters R, A, W.
abbrev pub raw_infix : Text
raw_infix = 82 ∷ 65 ∷ 87 ∷ []

abbrev pub minimum_digits : ℕ
minimum_digits = 4

pub data InvalidPublicId : Type 0 where
  not_numeric : Text → InvalidPublicId

abbrev every_digit : Text → Bool
every_digit [] = true
every_digit (c ∷ s) = is_digit c && every_digit s

-- `digits.isdigit()`
abbrev pub is_number : Text → Bool
is_number [] = false
is_number (c ∷ s) = every_digit (c ∷ s)

unfoldable pub read_from : ℕ → Text → ℕ
read_from n [] = n
read_from n (c ∷ s) = read_from (n * 10 + (c - 48)) s

-- `int(digits)`
unfoldable pub read_number : Text → ℕ
unfolding read_from
read_number s = read_from 0 s

-- The decimal digits of a number, for at most so many of them beyond the first.
unfoldable pub decimal : ℕ → ℕ → Text
decimal zero n = (48 + n % 10) ∷ []
decimal (suc fuel) n =
    let rest = decimal fuel (n / 10) in
    if ltb n 10 then (48 + n) ∷ [] else rest ++ (48 + n % 10) ∷ []

abbrev pub zeros : ℕ → Text
zeros zero = []
zeros (suc n) = 48 ∷ zeros n

-- `f"{n:0{MINIMUM_DIGITS}d}"`
unfoldable pub padded : ℕ → Text
unfolding decimal
padded n = zeros (minimum_digits - length (decimal n n)) ++ decimal n n

abbrev dash : Text → Text → Text
dash s t = s ++ 45 ∷ t

render : Text → Text → Text → Text ⊎ InvalidPublicId
unfolding padded read_number
render code infix_name digits =
    if is_number digits
    then inl (dash code (dash infix_name (padded (read_number digits))))
    else inr (not_numeric digits)

unfoldable pub namespaced_requirement_id : Text → Text → Text → Text ⊎ InvalidPublicId
unfolding render lstrip rstrip
namespaced_requirement_id code infix_name public_id =
    render code infix_name (rstrip (lstrip public_id))

unfoldable pub raw_requirement_id : Text → Text → Text ⊎ InvalidPublicId
unfolding namespaced_requirement_id
raw_requirement_id code public_id = namespaced_requirement_id code raw_infix public_id
