-- ===== src/Attempts.antt =====
-- Code that may raise: an action on a state that returns a value or raises an error, and keeps what
-- the state was then.
use sdlc.Base.{◌≡◌, refl, ◌⊎◌, inl, inr, Option, none, some, Bool, true, false, arith}

abbrev pub Attempt : Type 0 → Type 0 → Type 0 → Type 0
Attempt S E A = S → (A ⊎ E) × S

module _ {S E A : Type 0} where
  abbrev pub return : A → Attempt S E A
  return a s = (inl a, s)

  abbrev pub raise : E → Attempt S E A
  raise e s = (inr e, s)

  -- `raise` without a value.
  abbrev pub given : E → Option A → Attempt S E A
  given e none = raise e
  given e (some a) = return a

abbrev pub require : {S E : Type 0} → Bool → E → Attempt S E (Unit {0})
require true e = return tt
require false e = raise e

module _ {S E A B : Type 0} where
  abbrev pub after : (A ⊎ E) × S → (A → Attempt S E B) → (B ⊎ E) × S
  after (inl a, s) f = f a s
  after (inr e, s) f = (inr e, s)

  infixl 5 ◌>>=◌
  abbrev pub ◌>>=◌ : Attempt S E A → (A → Attempt S E B) → Attempt S E B
  m >>= f = λ s. after (m s) f

  -- A sequence that returns went through its first part.
  pub after-inl :
      (r : (A ⊎ E) × S) (f : A → Attempt S E B) (b : B)
      → (after r f).0 ≡ inl b
      → (a : A) × (s : S) × (r ≡ (inl a, s)) × ((f a s).0 ≡ inl b)
  after-inl (inl a, s) f b e = (a, s, refl, e)
  after-inl (inr error, s) f b e = cc

module _ {A E : Type 0} where
  pub returned : (a b : A) → ◌≡◌ {A = A ⊎ E} (inl a) (inl b) → a ≡ b
  returned a b e = ground arith

  pub refused : (e : E) (b : A) → ◌≡◌ {A = A ⊎ E} (inr e) (inl b) → ⊥
  refused e b h = cc

pub require-inl :
    {S E : Type 0} (b : Bool) (e : E) (s : S) (a : Unit {0}) → (require b e s).0 ≡ inl a → b ≡ true
require-inl true e s a h = refl
require-inl false e s a h = absurd (refused e a h)

-- What holds of the value and the state of a step that returns, and of the state after an error.
abbrev pub Post : {S E A : Type 0} → (A → S → Type 0) → (S → Type 0) → (A ⊎ E) × S → Type 0
Post P Q (inl a, s) = P a s
Post P Q (inr e, s) = Q s

-- Preserved by a sequence, when the second part starts from what the first one leaves.
pub after-Post :
    {S E A B : Type 0} (P : A → S → Type 0) (R : B → S → Type 0) (Q : S → Type 0)
    → (r : (A ⊎ E) × S) (f : A → Attempt S E B) → Post P Q r
    → ((a : A) (s : S) → P a s → Post R Q (f a s))
    → Post R Q (after r f)
after-Post P R Q (inl a, s) f h next = next a s h
after-Post P R Q (inr e, s) f h next = h
