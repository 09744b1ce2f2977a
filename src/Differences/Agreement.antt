-- ===== src/Differences/Agreement.antt =====
-- No difference is reported exactly where the compared fields agree.
use mathlib.Core.Path.{subst}
use mathlib.Core.Option.{some-injective}
use sdlc.Base.{
  sym, ◌≡◌, refl, ◌↔◌, Option, none, some, List, [], ◌∷◌, same_text, same_text_iff, All, Bool-cases,
  inl, inr,
}
use sdlc.Fibery.{Requirement}
use sdlc.Differences.{Field, get_field, changes, differences}

-- The two records hold the same in each of these fields.
abbrev pub Agree : List Field → Requirement → Requirement → Type 0
Agree fields a b = All (λ f. get_field f a ≡ get_field f b) fields

pub changes-Agree :
    (fields : List Field) (a b : Requirement) → changes fields a b ≡ [] → Agree fields a b
unfolding changes
changes-Agree [] a b e = tt
changes-Agree (f ∷ fields) a b e = elim (Bool-cases (same_text (get_field f a) (get_field f b))) [
  | inl same ↦ ((same_text_iff _ _).0 same, changes-Agree fields a b (rw same at e))
  | inr other ↦ cc
]

pub changes-nil :
    (fields : List Field) (a b : Requirement) → Agree fields a b → changes fields a b ≡ []
unfolding changes
changes-nil [] a b h = refl
changes-nil (f ∷ fields) a b h = rw ((same_text_iff _ _).1 h.0) (changes-nil fields a b h.1)

-- `_differences` reports nothing exactly when the entity was read back and agrees with the
-- expected record in all the compared fields.
pub differences-exact :
    (expected : Requirement) (current : Option Requirement) (fields : List Field)
    → (differences expected current fields ≡ [])
      ↔ ((r : Requirement) × (current ≡ some r) × Agree fields expected r)
unfolding differences
differences-exact expected none fields = (λ e. cc, λ (r, got, same). cc)
differences-exact expected (some r) fields = (
  λ e. (r, refl, changes-Agree fields expected r e),
  λ (r', got, same).
      changes-nil fields expected r
        (subst (Agree fields expected) (sym (some-injective _ _ got)) same),
)
