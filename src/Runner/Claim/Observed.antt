-- ===== src/Runner/Claim/Observed.antt =====
-- What a read that `_observe` of requirement_runner.py reports without conflict has shown.
use mathlib.Core.Path.{subst}
use mathlib.Core.Option.{some-injective}
use sdlc.Base.{◌≡◌, refl, ap, Option, none, some, List, [], arith, String}
use sdlc.Fibery.{Requirement, Fallible, ok}
use sdlc.Routes.{ProcessingStatus}
use sdlc.Differences.{Field, differences}
use sdlc.Differences.Agreement.{Agree, changes-Agree}
use sdlc.Service.{History, Workspace}
use sdlc.Service.Effects.{effects}
use sdlc.Runner.Claim.{expected, observed, observe}

-- The read at this history returned `current`, which agrees with `wanted` in these fields.
abbrev pub ReadAs : Workspace → History → List Field → Requirement → Requirement → Type 0
ReadAs workspace asked fields wanted current =
    (workspace.on_read asked wanted.id ≡ ok (some current)) × Agree fields wanted current

observed-Agree :
    (wanted : Requirement) (fields : List Field) (a : Fallible (Option Requirement))
    (c : Requirement)
    → observed wanted fields a ≡ (some c, [])
    → (a ≡ ok (some c)) × Agree fields wanted c
unfolding differences
observed-Agree wanted fields (Fallible.failed e) c eq = ground arith
observed-Agree wanted fields (ok none) c eq = ground arith
observed-Agree wanted fields (ok (some r)) c eq =
    let same : some r ≡ some c = ap (λ o. o.0) eq in
    (
      ap ok same,
      subst (Agree fields wanted) (some-injective r c same)
          (changes-Agree fields wanted r (ap (λ o. o.1) eq)),
    )

module _ (workspace : Workspace) (cycle : Requirement) (state : Option String)
    (status : ProcessingStatus) (fields : List Field) (h : History) where
  pub observe-ReadAs :
      (c : Requirement)
      → (observe workspace cycle state status fields h).0 ≡ (some c, [])
      → ReadAs workspace h fields (expected cycle state status) c
  unfolding observe
  observe-ReadAs c eq =
      observed-Agree (expected cycle state status) fields (workspace.on_read h cycle.id) c eq

  pub effects-observe : effects (observe workspace cycle state status fields h).1 ≡ effects h
  unfolding observe
  effects-observe = refl
