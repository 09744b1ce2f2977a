-- ===== src/RequirementId/Numbers.antt =====
-- The number of a Requirement ID, read back and measured.
use Prim.Native.Nat.{◌/◌, ◌%◌}
use sdlc.Base.{
  ℕ, zero, suc, ◌+◌, ◌-◌, ◌*◌, ◌≤◌, ◌≡◌, refl, ap, ◌∙◌, [], ◌∷◌, ◌++◌, length, length-append, ltb,
  arith, Bool-cases, inl, inr,
}
use sdlc.ProjectCode.{Text}
use sdlc.RequirementId.{minimum_digits, read_from, read_number, decimal, zeros, padded}

read_from-append : (n : ℕ) (s t : Text) → read_from n (s ++ t) ≡ read_from (read_from n s) t
unfolding read_from
read_from-append n [] t = refl
read_from-append n (c ∷ s) t = read_from-append (n * 10 + (c - 48)) s t

quotient_less : (n fuel : ℕ) → 10 ≤ n → n ≤ suc fuel → n / 10 ≤ fuel
quotient_less n fuel big bound = omega arith

read_decimal : (fuel n : ℕ) → n ≤ fuel → read_from 0 (decimal fuel n) ≡ n
unfolding read_from decimal
read_decimal zero n bound = omega arith
read_decimal (suc fuel) n bound = elim (Bool-cases (ltb n 10)) [
  | inl small ↦ rw small (omega arith)
  | inr big ↦
      let ten : 10 ≤ n = ground arith in
      let rest = read_decimal fuel (n / 10) (quotient_less n fuel ten bound) in
      rw big (read_from-append 0 (decimal fuel (n / 10)) ((48 + n % 10) ∷ []) ∙ omega (arith, rest))
]

read_zeros : (k : ℕ) (s : Text) → read_from 0 (zeros k ++ s) ≡ read_from 0 s
unfolding read_from
read_zeros zero s = refl
read_zeros (suc k) s = read_zeros k s

zeros-length : (k : ℕ) → length (zeros k) ≡ k
zeros-length zero = refl
zeros-length (suc k) = ap suc (zeros-length k)

-- A padded number reads back as it was.
pub read_number-padded : (n : ℕ) → read_number (padded n) ≡ n
unfolding read_number padded
read_number-padded n =
    read_zeros (minimum_digits - length (decimal n n)) (decimal n n)
    ∙ read_decimal n n (omega arith)

-- A padded number has at least four digits.
pub padded-length : (n : ℕ) → minimum_digits ≤ length (padded n)
unfolding padded
padded-length n =
    let k = minimum_digits - length (decimal n n) in
    omega (arith, length-append (zeros k) (decimal n n), zeros-length k)
