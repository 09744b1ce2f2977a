-- ===== src/Routes/Selection.antt =====
-- What `select_route` of requirement_dispatcher.py authorizes, against the table of the contract.
use sdlc.Base.{
  String, ◌≡◌, refl, ◌≢◌, ◌↔◌, ◌⊎◌, inl, inr, Option, none, some, ◌∷◌, arith, is_text_iff,
  Bool-cases, is_text, ◌&&◌, [],
}
use sdlc.Fibery.{Requirement}
use sdlc.Routes.{
  ProcessingStatus, not_processed, raw_process, standard_process, standard_review, standard_apply,
  Route, route, Table, routes, get, select_from, select_route, route_selected, human_boundary,
}

-- The contract's four machine routes: the Type and the State that a Requirement must have, the
-- worker that runs, and the State that its success leaves.
pub data IsMachine (type_name state : Option String) (r : Route) : Type 0 where
  raw :
      type_name ≡ some "Raw"
      → state ≡ some "Process"
      → r ≡ route "Raw" "Process" raw_process "Review"
      → IsMachine type_name state r
  process :
      type_name ≡ some "Standard"
      → state ≡ some "Process"
      → r ≡ route "Standard" "Process" standard_process "Review"
      → IsMachine type_name state r
  review :
      type_name ≡ some "Standard"
      → state ≡ some "Review"
      → r ≡ route "Standard" "Review" standard_review "Ready"
      → IsMachine type_name state r
  application :
      type_name ≡ some "Standard"
      → state ≡ some "Apply"
      → r ≡ route "Standard" "Apply" standard_apply "Applied"
      → IsMachine type_name state r

module _ {V : Type 0} where
  -- Some item of the table has this key and this value.
  abbrev pub Holds : Table V → Option String → Option String → V → Type 0
  Holds [] type_name state w = ⊥
  Holds (((t, s), v) ∷ table) type_name state w =
      (type_name ≡ some t) × (state ≡ some s) × (w ≡ v) ⊎ Holds table type_name state w

  pub get-Holds :
      (table : Table V) (type_name state : Option String) (w : V)
      → get table type_name state ≡ some w
      → Holds table type_name state w
  unfolding get
  get-Holds [] type_name state w e = cc
  get-Holds (((t, s), v) ∷ table) type_name state w e =
      elim (Bool-cases (is_text type_name t && is_text state s)) [
        | inl here ↦ inl (ground (arith, is_text_iff type_name t, is_text_iff state s))
        | inr there ↦ inr (get-Holds table type_name state w (rw there at e))
      ]

module _ (type_name state : Option String) (r : Route) where
  pub IsMachine_of_get : get routes type_name state ≡ some r → IsMachine type_name state r
  IsMachine_of_get e = elim (get-Holds routes type_name state r e) [
    | inl (a, b, c) ↦ raw a b c
    | inr (inl (a, b, c)) ↦ process a b c
    | inr (inr (inl (a, b, c))) ↦ review a b c
    | inr (inr (inr (inl (a, b, c)))) ↦ application a b c
    | inr (inr (inr (inr none_left))) ↦ absurd none_left
  ]

  pub get_of_IsMachine : IsMachine type_name state r → get routes type_name state ≡ some r
  unfolding get
  get_of_IsMachine (raw a b c) = rw (a, b, c)
  get_of_IsMachine (process a b c) = rw (a, b, c)
  get_of_IsMachine (review a b c) = rw (a, b, c)
  get_of_IsMachine (application a b c) = rw (a, b, c)

module _ (requirement : Requirement) (status : ProcessingStatus) where
  selected_cases :
      (found : Option Route) (r : Route)
      → (select_from found requirement status).route ≡ some r
      → (status ≡ not_processed) × (found ≡ some r)
  unfolding select_from
  selected_cases none r e = cc
  selected_cases (some x) r e = ground arith

  -- A route is handed out exactly when the status is Not Processed and the Requirement's Type and
  -- State are those of one of the four machine routes, which is then the route handed out.
  pub select_route-exact :
      (r : Route)
      → ((select_route requirement status).route ≡ some r)
        ↔ ((status ≡ not_processed) × IsMachine requirement.type_name requirement.state r)
  unfolding select_route
  select_route-exact r = (
    λ e.
        let (ready, got) =
          selected_cases (get routes requirement.type_name requirement.state) r e in
        (ready, IsMachine_of_get requirement.type_name requirement.state r got),
    λ (ready, machine).
        rw (get_of_IsMachine requirement.type_name requirement.state r machine, ready),
  )

  decision_cases :
      (found : Option Route)
      → ((select_from found requirement status).decision ≡ route_selected)
        ↔ ((select_from found requirement status).route ≢ none)
  unfolding select_from get
  decision_cases none = ground arith
  decision_cases (some x) = ground arith

  -- The decision is ROUTE_SELECTED exactly when the selection carries a route.
  pub decision_matches_route :
      ((select_route requirement status).decision ≡ route_selected)
      ↔ ((select_route requirement status).route ≢ none)
  unfolding select_route
  decision_matches_route = decision_cases (get routes requirement.type_name requirement.state)

module _ (requirement : Requirement) (status : ProcessingStatus) where
  select_from-subject :
      (found : Option Route)
      → ((select_from found requirement status).requirement ≡ requirement)
        × ((select_from found requirement status).status ≡ status)
  unfolding select_from
  select_from-subject none = (refl, refl)
  select_from-subject (some x) = ground arith

  pub select_route-subject :
      ((select_route requirement status).requirement ≡ requirement)
      × ((select_route requirement status).status ≡ status)
  unfolding select_route
  select_route-subject = select_from-subject (get routes requirement.type_name requirement.state)

module _ (requirement : Requirement) (status : ProcessingStatus) where
  boundary_cases :
      (found : Option Route)
      → (select_from found requirement status).decision ≡ human_boundary
      → (found ≡ none)
        × ((requirement.type_name ≡ some "Raw") × (requirement.state ≡ some "Draft")
            ⊎ (requirement.type_name ≡ some "Standard") × (requirement.state ≡ some "Ready"))
  unfolding select_from get
  boundary_cases none e = (
    refl,
    ground (
      arith,
      is_text_iff requirement.type_name "Raw",
      is_text_iff requirement.type_name "Standard",
      is_text_iff requirement.state "Draft",
      is_text_iff requirement.state "Ready",
    ),
  )
  boundary_cases (some x) e = ground arith

  -- The decision is HUMAN_BOUNDARY exactly at Raw + Draft and at Standard + Ready, whatever the
  -- Processing Status is.
  pub human_boundary-exact : ((select_route requirement status).decision ≡ human_boundary) ↔ (
      (requirement.type_name ≡ some "Raw") × (requirement.state ≡ some "Draft")
      ⊎ (requirement.type_name ≡ some "Standard") × (requirement.state ≡ some "Ready"))
  unfolding select_route select_from get
  human_boundary-exact = (
    λ e. (boundary_cases (get routes requirement.type_name requirement.state) e).1,
    λ where_it_is. elim where_it_is [ inl (a, b) ↦ rw (a, b) | inr (a, b) ↦ rw (a, b) ],
  )
