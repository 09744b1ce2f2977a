-- ===== src/Runner/Claim/Confirmed.antt =====
-- `_claim` of requirement_runner.py: one status write, and what a confirmed claim has shown.
use mathlib.Core.Path.{subst}
use sdlc.Base.{◌≡◌, refl, inl, Option, none, some, List, [], ◌∷◌, ◌++◌, arith, append-nil_parts}
use sdlc.Fibery.{Requirement, Fallible, ok}
use sdlc.Routes.{processing, value}
use sdlc.Differences.{Detail, cycle_fields}
use sdlc.Service.Growth.{Grows, here, later}
use sdlc.Service.{wrote_status, History, Workspace, set_processing_status}
use sdlc.Service.Effects.{status_write, effects}
use sdlc.Runner.Scope.{ProjectScope, outside_scope}
use sdlc.Runner.Scope.Bound.{InScope, outside_scope-nil}
use sdlc.Runner.Claim.{Observation, expected, observe, confirm, claim_written, claim}
use sdlc.Runner.Claim.Observed.{ReadAs, observe-ReadAs}

module _ (workspace : Workspace) (requirement : Requirement) (scope : Option ProjectScope) where
  confirm-inl :
      (claimed : Option Requirement) (conflicts : List Detail) (c : Requirement)
      → confirm workspace requirement claimed conflicts ≡ inl c
      → (claimed ≡ some c) × (conflicts ≡ [])
  unfolding confirm
  confirm-inl (some x) [] c e = ground arith
  confirm-inl (some x) (d ∷ ds) c e = cc
  confirm-inl none ds c e = cc

  -- The claim read back as this Requirement at Processing, in the bound Project.
  abbrev pub IsClaimed : History → Requirement → Type 0
  IsClaimed asked c =
      ReadAs workspace asked cycle_fields (expected requirement requirement.state processing) c
      × InScope scope c

  observed-IsClaimed :
      (h : History) (o : Observation) (c : Requirement)
      → ((x : Requirement)
          → o ≡ (some x, [])
          → ReadAs workspace h cycle_fields (expected requirement requirement.state processing) x)
      → confirm workspace requirement o.0 (o.1 ++ outside_scope o.0 scope) ≡ inl c
      → IsClaimed h c
  observed-IsClaimed h (claimed, conflicts) c read e =
      let (same, clean) = confirm-inl claimed _ c e in
      let (no_conflict, inside) = append-nil_parts conflicts (outside_scope claimed scope) clean in
      (
        read c (λ i. (same i, no_conflict i)),
        outside_scope-nil c scope (subst (λ o. outside_scope o scope ≡ []) same inside),
      )

  claim_written-IsClaimed :
      (a : Fallible (Unit {0})) (h : History) (c : Requirement)
      → (claim_written workspace requirement scope a h).0 ≡ inl c
      → IsClaimed h c
  unfolding claim_written
  claim_written-IsClaimed (Fallible.failed e) h c eq = cc
  claim_written-IsClaimed (ok _) h c eq =
      let (o, h') = observe workspace requirement requirement.state processing cycle_fields h in
      observed-IsClaimed h o c
        (observe-ReadAs workspace requirement requirement.state processing cycle_fields h) eq

  claim_written-effects :
      (a : Fallible (Unit {0})) (h : History)
      → effects (claim_written workspace requirement scope a h).1 ≡ effects h
  unfolding claim_written
  claim_written-effects (Fallible.failed e) h = refl
  claim_written-effects (ok _) h = refl

  claim_written-Grows :
      (a : Fallible (Unit {0})) (h : History)
      → Grows h (claim_written workspace requirement scope a h).1
  unfolding claim_written
  claim_written-Grows (Fallible.failed e) h = here
  claim_written-Grows (ok _) h = later _ here

  -- The history behind the write of the claim.
  abbrev pub behind_write : History → History
  behind_write h =
      wrote_status requirement.id (value processing)
        (workspace.on_set_status h requirement.id (value processing))
      ∷ h

  pub claim-Grows : (h : History) → Grows (behind_write h) (claim workspace requirement scope h).1
  unfolding claim
  claim-Grows h =
      let (a, h₁) = set_processing_status workspace requirement.id (value processing) h in
      claim_written-Grows a h₁

  -- A claim that is handed on was read back after its write: the same binding, still in its State
  -- and in scope, at Processing.
  pub claim-IsClaimed :
      (h : History) (c : Requirement)
      → (claim workspace requirement scope h).0 ≡ inl c
      → IsClaimed (behind_write h) c
  unfolding claim
  claim-IsClaimed h c eq =
      let (a, h₁) = set_processing_status workspace requirement.id (value processing) h in
      claim_written-IsClaimed a h₁ c eq

  pub claim-effects :
      (h : History)
      → effects (claim workspace requirement scope h).1
        ≡ status_write requirement.id (value processing) ∷ effects h
  unfolding claim
  claim-effects h =
      let (a, h') = set_processing_status workspace requirement.id (value processing) h in
      claim_written-effects a h'
