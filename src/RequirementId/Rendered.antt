-- ===== src/RequirementId/Rendered.antt =====
-- `namespaced_requirement_id` of requirement_id.py: an ID determines what it was made from.
use sdlc.Base.{ℕ, ◌≡◌, refl, sym, ap, ◌∙◌, ◌⊎◌, inl, inr, true, [], ◌∷◌, All, arith, Bool-cases}
use sdlc.ProjectCode.{Text, lstrip, rstrip}
use sdlc.ProjectCode.Format.{IsCodeChar, IsCode, IsCode-chars}
use sdlc.RequirementId.{
  InvalidPublicId, not_numeric, is_number, read_number, padded, dash, render,
  namespaced_requirement_id,
}
use sdlc.RequirementId.Numbers.{read_number-padded}

refused_id :
    (e : InvalidPublicId) (id : Text) → ◌≡◌ {A = Text ⊎ InvalidPublicId} (inr e) (inl id) → ⊥
refused_id e id h = cc

made : (a b : Text) → ◌≡◌ {A = Text ⊎ InvalidPublicId} (inl a) (inl b) → a ≡ b
made a b h = ground arith

render-inl :
    (code infix_name digits id : Text)
    → render code infix_name digits ≡ inl id
    → (is_number digits ≡ true) × (dash code (dash infix_name (padded (read_number digits))) ≡ id)
unfolding render
render-inl code infix_name digits id e = elim (Bool-cases (is_number digits)) [
  | inl numeric ↦ (numeric, made _ id (rw numeric at e))
  | inr other ↦ absurd (refused_id (not_numeric digits) id (rw other at e))
]

heads : (c d : ℕ) (s t : Text) → c ∷ s ≡ d ∷ t → c ≡ d
heads c d s t e = ground arith

tails : (c d : ℕ) (s t : Text) → c ∷ s ≡ d ∷ t → s ≡ t
tails c d s t e = ground arith

dash_apart : (c : ℕ) → IsCodeChar c → 45 ≡ c → ⊥
dash_apart c h e = ground arith

-- The first dash is found again.
split_at_dash :
    (s t x y : Text) → All IsCodeChar s → All IsCodeChar t → dash s x ≡ dash t y → (s ≡ t) × (x ≡ y)
split_at_dash [] [] x y hs ht e = (refl, tails 45 45 x y e)
split_at_dash [] (d ∷ t) x y hs ht e = absurd (dash_apart d ht.0 (heads 45 d x (dash t y) e))
split_at_dash (c ∷ s) [] x y hs ht e = absurd (dash_apart c hs.0 (sym (heads c 45 (dash s x) y e)))
split_at_dash (c ∷ s) (d ∷ t) x y hs ht e =
    let (same, rest) = split_at_dash s t x y hs.1 ht.1 (tails c d (dash s x) (dash t y) e) in
    let head = heads c d (dash s x) (dash t y) e in ((λ i. head i ∷ same i), rest)

-- Where both codes and both infixes have the form of a Project Code, two Requirement IDs that are equal
-- were made from the same code, the same infix and the same number, as which the stripped public ids
-- are read.
pub namespaced_requirement_id-injective :
    (code code' infix_name infix_name' public_id public_id' id : Text)
    → IsCode code
    → IsCode code'
    → IsCode infix_name
    → IsCode infix_name'
    → namespaced_requirement_id code infix_name public_id ≡ inl id
    → namespaced_requirement_id code' infix_name' public_id' ≡ inl id
    → (code ≡ code')
      × (infix_name ≡ infix_name')
      × (read_number (rstrip (lstrip public_id)) ≡ read_number (rstrip (lstrip public_id')))
unfolding namespaced_requirement_id
namespaced_requirement_id-injective code code' infix_name infix_name' public_id public_id' id c c' i
      i' e e' =
    let digits = rstrip (lstrip public_id) in
    let digits' = rstrip (lstrip public_id') in
    let (_, first) = render-inl code infix_name digits id e in
    let (_, second) = render-inl code' infix_name' digits' id e' in
    let (same_code, rest) =
      split_at_dash code code' (dash infix_name (padded (read_number digits)))
        (dash infix_name' (padded (read_number digits'))) (IsCode-chars code c)
        (IsCode-chars code' c') (first ∙ sym second) in
    let (same_infix, number) =
      split_at_dash infix_name infix_name' (padded (read_number digits))
        (padded (read_number digits')) (IsCode-chars infix_name i) (IsCode-chars infix_name' i')
        rest in
    (
      same_code,
      same_infix,
      sym (read_number-padded (read_number digits))
          ∙ ap read_number number
          ∙ read_number-padded (read_number digits'),
    )
