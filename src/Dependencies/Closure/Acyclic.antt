-- ===== src/Dependencies/Closure/Acyclic.antt =====
-- `resolve_interpretation_set` of dependency_evidence.py: a resolved set has no cycle.
use mathlib.Core.List.Memᴰ
use mathlib.Core.List.{Memᴰ}
use mathlib.Core.WellFounded.{Acc}
use mathlib.Core.Path.{subst}
use sdlc.Base.{
  ℕ, String, ◌≡◌, sym, ◌∙◌, inl, inr, true, none, some, List, [], ◌∷◌, All, arith, Option-cases,
}
use sdlc.Fibery.{Requirement}
use sdlc.NormativeTree.{listed}
use sdlc.Dictionary.{keys, get}
use sdlc.Dictionary.Lookup.{get-listed}
use sdlc.Evidence.{Reader}
use sdlc.Dependencies.{DependencyWorkspace, DependencyMember, direct_ids}
use sdlc.Dependencies.Closure.{Members, resolve_interpretation_set}
use sdlc.Dependencies.Closure.Search.{key_of, IsOrdered}
use sdlc.Dependencies.Closure.Whole.{resolve_interpretation_set-IsInterpretationSet}

-- A direct dependency of a member.
abbrev pub IsBehind : Members → String → String → Type 0
IsBehind members dependency id =
    (member : DependencyMember) × (get id members ≡ some member)
    × Memᴰ dependency (direct_ids member)

IsBehind-Acc :
    (members order : Members)
    → All (λ e. get e.0 members ≡ some e.1) order
    → IsOrdered order
    → All (λ e. Acc (IsBehind members) e.0) order
IsBehind-Acc members [] h ordered = tt
IsBehind-Acc members ((id, member) ∷ rest) h ordered =
    let ends = IsBehind-Acc members rest h.1 ordered.1 in
    (
      Acc.intro id (λ d (other, got, m).
          let same : other ≡ member = some_is other member (sym got ∙ h.0) in
          let there =
            all_at (direct_ids member) ordered.0 d (subst (λ x. Memᴰ d (direct_ids x)) same m) in
          key_of (Acc (IsBehind members)) rest d ends there),
      ends,
    )
  where
    some_is : (a b : DependencyMember) → some a ≡ some b → a ≡ b
    some_is a b e = ground arith

    all_at :
        (ids : List String)
        → All (λ d. listed d (keys rest) ≡ true) ids
        → (d : String) → Memᴰ d ids
        → listed d (keys rest) ≡ true
    all_at [] all d m = absurd (Memᴰ.not-nil m)
    all_at (x ∷ ids) all d m = elim (Memᴰ.cases_cons m) [
      | inl same ↦ subst (λ y. listed y (keys rest) ≡ true) (sym same) all.0
      | inr far ↦ all_at ids all.1 d far
    ]

-- In a resolved set, every chain of direct dependencies ends: there is no cycle.
pub resolve_interpretation_set-Acc :
    (reader : Reader) (workspace : DependencyWorkspace) (requirement : Requirement)
    (direct : List String) (t : ℕ) (members : Members)
    → (resolve_interpretation_set reader workspace requirement direct t).0 ≡ inl members
    → (id : String) → Acc (IsBehind members) id
resolve_interpretation_set-Acc reader workspace requirement direct t members e id =
    let s =
      resolve_interpretation_set-IsInterpretationSet reader workspace requirement direct t members
        e in
    let ends = IsBehind-Acc members s.order s.finished s.ordered in
    elim (Option-cases (get id members)) [
      | inl missing ↦
          Acc.intro id (λ d (member, got, m). absurd (nothing member (sym missing ∙ got)))
      | inr (member, got) ↦
          let (here_is, m) = get-listed id member members got in
          key_of (Acc (IsBehind members)) s.order id ends
            (key_of (λ x. listed x (keys s.order) ≡ true) members id s.complete here_is)
    ]
  where
    nothing : (m : DependencyMember) → none ≡ some m → ⊥
    nothing m e = cc
