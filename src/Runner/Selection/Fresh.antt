-- ===== src/Runner/Selection/Fresh.antt =====
-- `_fresh_selection` of requirement_runner.py: what the re-read of the polled row has shown.
use mathlib.Core.Path.{subst}
use mathlib.Core.Option.{some-injective}
use sdlc.Base.{
  ◌≡◌, refl, ap, ◌⊎◌, inl, inr, true, false, Option, none, some, List, [], ◌∷◌, ◌++◌, arith,
  Option-cases, ◌∙◌, append-nil_parts, if◌then◌else◌,
}
use sdlc.Fibery.{Requirement, Fallible, ok}
use sdlc.Routes.{
  ProcessingStatus, not_processed, Route, RouteSelection, RouteDecision, route_selected,
  select_route,
}
use sdlc.Routes.Selection.{
  IsMachine, select_route-exact, select_route-subject, decision_matches_route,
}
use sdlc.Differences.{Detail, cycle_fields, differences}
use sdlc.Differences.Agreement.{Agree, changes-Agree}
use sdlc.Service.{History, Workspace}
use sdlc.Service.Effects.{effects}
use sdlc.Runner.Scope.{ProjectScope, outside_scope}
use sdlc.Runner.Scope.Bound.{InScope, outside_scope-nil}
use sdlc.Runner.Selection.{
  selected, select_at, parse_status, select_fresh, select_unchanged, select_reread, fresh_selection,
  is_selected,
}

-- The selection is of this record, and carries the machine route of its Type and State.
pub record IsSelected (fresh : Requirement) (selection : RouteSelection) : Type 0 where
  pub of_fresh : selection.requirement ≡ fresh
  pub route : Route
  pub routed : selection.route ≡ some route
  pub machine : IsMachine fresh.type_name fresh.state route
  pub unprocessed : selection.status ≡ not_processed

is_selected-cases :
    (d : RouteDecision) → (is_selected d ≡ true) × (d ≡ route_selected) ⊎ (is_selected d ≡ false)
is_selected-cases route_selected = inl (refl, refl)
is_selected-cases _ = inr refl

picked :
    (x s : RouteSelection)
    → ◌≡◌ {A = Option RouteSelection} (if is_selected x.decision then some x else none) (some s)
    → (x.decision ≡ route_selected) × (x ≡ s)
picked x s e = elim (is_selected-cases x.decision) [
  | inl (t, is) ↦ (is, some-injective x s (rw t at e))
  | inr f ↦ absurd (nothing (rw f at e))
]
  where
    nothing : ◌≡◌ {A = Option RouteSelection} none (some s) → ⊥
    nothing e = cc

select_at-IsSelected :
    (fresh : Requirement) (status : Option ProcessingStatus) (s : RouteSelection)
    → select_at fresh status ≡ some s
    → IsSelected fresh s
unfolding select_at
select_at-IsSelected fresh none s e = cc
select_at-IsSelected fresh (some status) s e =
    let (decided, same) = picked (select_route fresh status) s e in
    let (of_fresh, of_status) = select_route-subject fresh status in
    subst (IsSelected fresh) same (elim (Option-cases (select_route fresh status).route) [
      | inl unrouted ↦ absurd ((decision_matches_route fresh status).0 decided unrouted)
      | inr (route, routed) ↦
          let (ready, machine) = (select_route-exact fresh status route).0 routed in
          record {
            of_fresh = of_fresh;
            route = route;
            routed = routed;
            machine = machine;
            unprocessed = of_status ∙ ready;
          }
    ])

selected-IsSelected :
    (fresh : Requirement) (s : RouteSelection) → selected fresh ≡ some s → IsSelected fresh s
unfolding selected
selected-IsSelected fresh s e =
    select_at-IsSelected fresh (parse_status fresh.processing_status) s e

-- What a selection that is handed on was made from, by the read at this history.
pub record IsFresh (workspace : Workspace) (candidate : Requirement) (scope : Option ProjectScope)
    (selection : RouteSelection) (asked : History) : Type 0 where
  pub fresh : Requirement
  pub read : workspace.on_read asked candidate.id ≡ ok (some fresh)
  pub unchanged : Agree cycle_fields candidate fresh
  pub in_scope : InScope scope fresh
  pub selected : IsSelected fresh selection

module _ (workspace : Workspace) (candidate : Requirement) (scope : Option ProjectScope) where
  select_fresh-inl :
      (fresh : Requirement) (o : Option RouteSelection) (s : RouteSelection)
      → select_fresh candidate scope fresh o ≡ inl s
      → o ≡ some s
  unfolding select_fresh
  select_fresh-inl fresh none s e = cc
  select_fresh-inl fresh (some x) s e = ground arith

  unchanged-selected :
      (found : Option Requirement) (changes : List Detail) (s : RouteSelection)
      → select_unchanged candidate scope found changes ≡ inl s
      → (fresh : Requirement) × (found ≡ some fresh) × (changes ≡ []) × (selected fresh ≡ some s)
  unfolding select_unchanged
  unchanged-selected none changes s e = cc
  unchanged-selected (some fresh) (d ∷ ds) s e = cc
  unchanged-selected (some fresh) [] s e =
      (fresh, refl, refl, select_fresh-inl fresh (selected fresh) s e)

  reread-IsFresh :
      (h : History) (s : RouteSelection) (a : Fallible (Option Requirement))
      → workspace.on_read h candidate.id ≡ a
      → select_reread candidate scope a ≡ inl s
      → IsFresh workspace candidate scope s h
  unfolding select_reread
  reread-IsFresh h s (Fallible.failed e) read eq = cc
  reread-IsFresh h s (ok found) read eq =
      let (fresh, got, clean, is) =
        unchanged-selected found
          (differences candidate found cycle_fields ++ outside_scope found scope) s eq in
      let (same, inside) = append-nil_parts (differences candidate found cycle_fields) _ clean in
      record {
        fresh = fresh;
        read = read ∙ ap ok got;
        unchanged =
            changes-Agree cycle_fields candidate fresh
              (subst (λ o. differences candidate o cycle_fields ≡ []) got same);
        in_scope =
            outside_scope-nil fresh scope (subst (λ o. outside_scope o scope ≡ []) got inside);
        selected = selected-IsSelected fresh s is;
      }

  -- A selection that is handed on was made from a fresh read that agrees with the polled row in
  -- every cycle field and is in scope; it carries the machine route of that read.
  pub fresh_selection-IsFresh :
      (h : History) (s : RouteSelection)
      → (fresh_selection candidate scope workspace h).0 ≡ inl s
      → IsFresh workspace candidate scope s h
  unfolding fresh_selection
  fresh_selection-IsFresh h s e = reread-IsFresh h s (workspace.on_read h candidate.id) refl e

  pub fresh_selection-effects :
      (h : History) → effects (fresh_selection candidate scope workspace h).1 ≡ effects h
  unfolding fresh_selection
  fresh_selection-effects h = refl
