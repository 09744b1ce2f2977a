-- ===== src/Dictionary/Lookup.antt =====
-- What a dictionary holds after a value is put into it.
use mathlib.Core.List.{Memᴰ}
use sdlc.Base.{
  String, ◌≡◌, refl, ap, ◌∙◌, inl, inr, true, false, some, [], ◌∷◌, arith, Bool-cases, eq_iff,
  eq_refl, ◌==◌, ◌++◌, if◌then◌else◌,
}
use sdlc.NormativeTree.{listed}
use sdlc.Dictionary.{Dictionary, keys, get, put}

module _ {A : Type 0} where
  pub get-put_self :
      (key : String) (a : A) (dict : Dictionary A) → get key (put key a dict) ≡ some a
  unfolding get put
  get-put_self key a [] = rw (eq_refl key) refl
  get-put_self key a ((k, b) ∷ dict) = elim (Bool-cases (k == key)) [
    | inl t ↦ rw t (rw t refl)
    | inr f ↦ rw f (rw f (get-put_self key a dict))
  ]

  pub get-put_other :
      (key other : String) (a : A) (dict : Dictionary A)
      → (key == other) ≡ false
      → get other (put key a dict) ≡ get other dict
  unfolding get put
  get-put_other key other a [] f = rw f refl
  get-put_other key other a ((k, b) ∷ dict) f = elim (Bool-cases (k == key)) [
    | inl t ↦
        let no : (k == other) ≡ false = ap (λ y. y == other) ((eq_iff k key).0 t) ∙ f in
        rw t (rw no refl)
    | inr g ↦ rw g (ap (λ o. if k == other then some b else o) (get-put_other key other a dict f))
  ]

  pub put-new :
      (key : String) (a : A) (dict : Dictionary A)
      → listed key (keys dict) ≡ false
      → put key a dict ≡ dict ++ (key, a) ∷ []
  unfolding put
  put-new key a [] f = refl
  put-new key a ((k, b) ∷ dict) f =
      let no : (k == key) ≡ false = ground arith in
      let away : listed key (keys dict) ≡ false = ground arith in
      rw no (ap (λ d. (k, b) ∷ d) (put-new key a dict away))

  pub get-listed :
      (key : String) (a : A) (dict : Dictionary A)
      → get key dict ≡ some a
      → (listed key (keys dict) ≡ true) × Memᴰ (key, a) dict
  unfolding get
  get-listed key a [] h = cc
  get-listed key a ((k, b) ∷ dict) h = elim (Bool-cases (k == key)) [
    | inl t ↦
        let same : some b ≡ some a = rw t at h in
        let is : (key, a) ≡ (k, b) = ground (arith, (eq_iff k key).0 t) in (rw t refl, Memᴰ.head is)
    | inr f ↦ let (there, m) = get-listed key a dict (rw f at h) in (rw f there, Memᴰ.tail m)
  ]

  pub listed-get :
      (key : String) (dict : Dictionary A)
      → listed key (keys dict) ≡ true
      → (a : A) × (get key dict ≡ some a)
  unfolding get
  listed-get key [] h = cc
  listed-get key ((k, b) ∷ dict) h = elim (Bool-cases (k == key)) [
    | inl t ↦ (b, rw t refl)
    | inr f ↦ let (a, e) = listed-get key dict (rw f at h) in (a, rw f e)
  ]
