-- ===== src/ArtifactNames/Form.antt =====
-- `classify_artifact_name` of normative_tree.py: the form of a name that is classified.
use mathlib.Core.Path.{subst}
use mathlib.Core.Option.{some-injective}
use sdlc.Base.{
  ℕ, ◌≤◌, String, ◌≡◌, ◌≢◌, refl, ap, ◌∙◌, inl, inr, true, false, Option, none, some, [], ◌∷◌, ◌++◌,
  All, length, eqb, arith, Bool-cases, Option-cases,
}
use sdlc.ProjectCode.{Text, codes, lstrip, rstrip}
use sdlc.ArtifactNames.{
  ArtifactKind, process_result, review_result, processing_result, after_prefix, all_digits,
  numbered_tail, raw_tail, owner_then, classify_artifact_name, longer, ends_numbered, ends_here,
}

-- What stands between the owner and the number.
abbrev pub words : ArtifactKind → String
words process_result = " — Process Result "
words review_result = " — Review Result "
words processing_result = " — Processing Result"

abbrev pub IsNumbered : ArtifactKind → Text → Type 0
IsNumbered processing_result number = number ≡ []
IsNumbered _ number = (4 ≤ length number) × (all_digits number ≡ true)

-- A text of one line that is not empty.
abbrev pub IsOwner : Text → Type 0
IsOwner owner = (owner ≢ []) × All (λ c. eqb c 10 ≡ false) owner

after_prefix-some : (p s rest : Text) → after_prefix p s ≡ some rest → s ≡ p ++ rest
unfolding after_prefix
after_prefix-some [] s rest e = ground arith
after_prefix-some (x ∷ p) [] rest e = cc
after_prefix-some (x ∷ p) (c ∷ s) rest e = elim (Bool-cases (eqb x c)) [
  | inl same ↦
      let head : c ≡ x = ground arith in
      let tail = after_prefix-some p s rest (rw same at e) in (λ i. head i ∷ tail i)
  | inr other ↦ absurd (nothing (rw other at e))
]
  where
    nothing : ◌≡◌ {A = Option Text} none (some rest) → ⊥
    nothing h = cc

numbered_by :
    (o : Option Text)
    → ends_numbered o ≡ true
    → (number : Text) × (o ≡ some number) × (4 ≤ length number) × (all_digits number ≡ true)
numbered_by none e = cc
numbered_by (some number) e = (number, refl, ground arith, ground arith)

here_by : (o : Option Text) → ends_here o ≡ true → o ≡ some []
here_by none e = cc
here_by (some []) e = refl
here_by (some (c ∷ s)) e = cc

-- The words of a kind, and its number.
abbrev HasTail : Text → ArtifactKind → Type 0
HasTail s kind = (number : Text) × (s ≡ codes (words kind) ++ number) × IsNumbered kind number

numbered_tail-HasTail :
    (s : Text) (kind : ArtifactKind) → numbered_tail s ≡ some kind → HasTail s kind
unfolding numbered_tail
numbered_tail-HasTail s kind e =
    elim (Bool-cases (ends_numbered (after_prefix (codes (words process_result)) s))) [
      | inl is ↦
          let (number, got, long, digits) =
            numbered_by (after_prefix (codes (words process_result)) s) is in
          let same : process_result ≡ kind = kind_is process_result kind (rw is at e) in
          subst (HasTail s) same
            (number, after_prefix-some (codes (words process_result)) s number got, (long, digits))
      | inr isnt ↦
          elim (Bool-cases (ends_numbered (after_prefix (codes (words review_result)) s))) [
            | inl is ↦
                let (number, got, long, digits) =
                  numbered_by (after_prefix (codes (words review_result)) s) is in
                let same : review_result ≡ kind = kind_is review_result kind (rw (isnt, is) at e) in
                subst (HasTail s) same (
                  number,
                  after_prefix-some (codes (words review_result)) s number got,
                  (long, digits),
                )
            | inr neither ↦ absurd (nothing (rw (isnt, neither) at e))
          ]
    ]
  where
    kind_is : (a b : ArtifactKind) → some a ≡ some b → a ≡ b
    kind_is a b h = ground arith

    nothing : ◌≡◌ {A = Option ArtifactKind} none (some kind) → ⊥
    nothing h = cc

raw_tail-HasTail : (s : Text) (kind : ArtifactKind) → raw_tail s ≡ some kind → HasTail s kind
unfolding raw_tail
raw_tail-HasTail s kind e =
    elim (Bool-cases (ends_here (after_prefix (codes (words processing_result)) s))) [
      | inl is ↦
          let got = here_by (after_prefix (codes (words processing_result)) s) is in
          let same : processing_result ≡ kind = kind_is processing_result kind (rw is at e) in
          subst (HasTail s) same
            ([], after_prefix-some (codes (words processing_result)) s [] got, refl)
      | inr isnt ↦ absurd (nothing (rw isnt at e))
    ]
  where
    kind_is : (a b : ArtifactKind) → some a ≡ some b → a ≡ b
    kind_is a b h = ground arith

    nothing : ◌≡◌ {A = Option ArtifactKind} none (some kind) → ⊥
    nothing h = cc

some_text : (c : ℕ) (s : Text) → c ∷ s ≢ []
some_text c s h = cc

module _ (tail : Text → Option ArtifactKind) where
  -- A text is an owner and a text that the tail matches.
  record IsSplit (s owner : Text) (kind : ArtifactKind) : Type 0 where
    rest : Text
    parts : s ≡ owner ++ rest
    matched : tail rest ≡ some kind
    is_owner : IsOwner owner

  longer-IsSplit :
      (c : ℕ) (s owner : Text) (kind : ArtifactKind) (found : Option (Text × ArtifactKind))
      (shorter : Option ArtifactKind)
      → eqb c 10 ≡ false
      → ((o : Text) (k : ArtifactKind) → found ≡ some (o, k) → IsSplit s o k)
      → tail s ≡ shorter
      → longer c found shorter ≡ some (owner, kind)
      → IsSplit (c ∷ s) owner kind
  longer-IsSplit c s owner kind (some (o, k)) shorter line split t e =
      let before = split o k refl in
      let same : (c ∷ o, k) ≡ (owner, kind) = some-injective _ _ e in
      subst (λ p. IsSplit (c ∷ s) p.0 p.1) same
        (record {
          rest = before.rest;
          parts = ap (λ l. c ∷ l) before.parts;
          matched = before.matched;
          is_owner = (some_text c o, (line, before.is_owner.1));
        })
  longer-IsSplit c s owner kind none (some k) line split t e =
      let same : (c ∷ [], k) ≡ (owner, kind) = some-injective _ _ e in
      subst (λ p. IsSplit (c ∷ s) p.0 p.1) same
        (record { rest = s; parts = refl; matched = t; is_owner = (some_text c [], (line, tt)) })
  longer-IsSplit c s owner kind none none line split t e = cc

  owner_then-IsSplit :
      (s owner : Text) (kind : ArtifactKind)
      → owner_then tail s ≡ some (owner, kind)
      → IsSplit s owner kind
  unfolding owner_then
  owner_then-IsSplit [] owner kind e = cc
  owner_then-IsSplit (c ∷ s) owner kind e = elim (Bool-cases (eqb c 10)) [
    | inl newline ↦ absurd (nothing (rw newline at e))
    | inr line ↦
        longer-IsSplit c s owner kind (owner_then tail s) (tail s) line
          (λ o k h. owner_then-IsSplit s o k h) refl (rw line at e)
  ]
    where
      nothing : ◌≡◌ {A = Option (Text × ArtifactKind)} none (some (owner, kind)) → ⊥
      nothing h = cc

-- The owner, the words of the kind and the number are the stripped name.
abbrev pub IsNameOf : Text → Text → ArtifactKind → Type 0
IsNameOf s owner kind =
    (number : Text) × (s ≡ owner ++ (codes (words kind) ++ number))
    × IsNumbered kind number
    × IsOwner owner

split-IsNameOf :
    (tail : Text → Option ArtifactKind) (s owner : Text) (kind : ArtifactKind)
    → ((rest : Text) (k : ArtifactKind) → tail rest ≡ some k → HasTail rest k)
    → owner_then tail s ≡ some (owner, kind)
    → IsNameOf s owner kind
split-IsNameOf tail s owner kind tails e =
    let split = owner_then-IsSplit tail s owner kind e in
    let (number, same, numbered) = tails split.rest kind split.matched in
    (number, split.parts ∙ ap (λ l. owner ++ l) same, numbered, split.is_owner)

-- A classified name, stripped, is the owner, which is one line and not empty, then the words of its
-- kind between a dash and, for a Process or Review Result, a number of at least four digits.
pub classify_artifact_name-IsNameOf :
    (name : String) (owner : Text) (kind : ArtifactKind)
    → classify_artifact_name name ≡ some (owner, kind)
    → IsNameOf (rstrip (lstrip (codes name))) owner kind
unfolding classify_artifact_name
classify_artifact_name-IsNameOf name owner kind e =
    let s = rstrip (lstrip (codes name)) in
    elim (Option-cases (owner_then numbered_tail s)) [
      | inl unnumbered ↦ split-IsNameOf raw_tail s owner kind raw_tail-HasTail (rw unnumbered at e)
      | inr (found, got) ↦
          split-IsNameOf numbered_tail s owner kind numbered_tail-HasTail (got ∙ (rw got at e))
    ]
