-- ===== src/Runner/Selection/Order.antt =====
-- `_lowest_eligible` of requirement_runner.py: which of the polled rows is taken.
use mathlib.Core.Path.{subst}
use mathlib.Core.Option.{some-injective}
use mathlib.Core.List.Memᴰ
use mathlib.Core.List.{Memᴰ}
use sdlc.Base.{
  ◌≤◌, ◌≡◌, refl, ap, ◌∙◌, ◌↔◌, ◌⊎◌, inl, inr, true, false, none, some, List, [], ◌∷◌, arith, All,
  Bool-cases,
}
use sdlc.Fibery.{Requirement}
use sdlc.Runner.Selection.{
  OrderKey, public_id_order, key_lt, min_from, some_selection, eligible, selected, min_or_none,
  lowest_eligible,
}

-- `a` stands no later than `b`: a numeric id before every other, numeric ids by their value.
pub record IsNoLater (a b : OrderKey) : Type 0 where
  pub numeric_first : b.not_numeric ≡ false → a.not_numeric ≡ false
  pub by_number : b.not_numeric ≡ false → a.number ≤ b.number

not_lt-IsNoLater : (a b : OrderKey) → key_lt b a ≡ false → IsNoLater a b
unfolding key_lt
not_lt-IsNoLater a b e = record { numeric_first = λ h. ground arith; by_number = λ h. ground arith }

lt-IsNoLater : (a b : OrderKey) → key_lt a b ≡ true → IsNoLater a b
unfolding key_lt
lt-IsNoLater a b e = record { numeric_first = λ h. ground arith; by_number = λ h. ground arith }

IsNoLater-trans : {a b c : OrderKey} → IsNoLater a b → IsNoLater b c → IsNoLater a c
IsNoLater-trans p q = record {
  numeric_first = λ h. p.numeric_first (q.numeric_first h);
  by_number = λ h. omega (arith, p.by_number (q.numeric_first h), q.by_number h);
}

-- The row's own Type, State and Processing Status select a route.
abbrev pub IsEligible : Requirement → Type 0
IsEligible r = some_selection (selected r) ≡ true

abbrev pub IsFirst : Requirement → Requirement → Type 0
IsFirst r x = IsNoLater (public_id_order r) (public_id_order x)

IsFirst-refl : (r : Requirement) → IsFirst r r
IsFirst-refl r = record { numeric_first = λ h. h; by_number = λ h. omega arith }

record IsLeast (best : Requirement) (rs : List Requirement) (m : Requirement) : Type 0 where
  before_best : IsFirst m best
  before_all : All (IsFirst m) rs
  member : (m ≡ best) ⊎ Memᴰ m rs

min_from-IsLeast : (best : Requirement) (rs : List Requirement) → IsLeast best rs (min_from best rs)
unfolding min_from
min_from-IsLeast best [] = record {
  before_best = IsFirst-refl best;
  before_all = tt;
  member = inl refl;
}
min_from-IsLeast best (r ∷ rs) =
    elim (Bool-cases (key_lt (public_id_order r) (public_id_order best))) [
      | inl lower ↦
          let m = min_from-IsLeast r rs in
          rw lower (record {
            before_best = IsNoLater-trans m.before_best (lt-IsNoLater _ _ lower);
            before_all = (m.before_best, m.before_all);
            member = inr (elim m.member [ inl e ↦ Memᴰ.head e | inr t ↦ Memᴰ.tail t ]);
          })
      | inr higher ↦
          let m = min_from-IsLeast best rs in
          rw higher (record {
            before_best = m.before_best;
            before_all =
                (IsNoLater-trans m.before_best (not_lt-IsNoLater _ _ higher), m.before_all);
            member = elim m.member [ inl e ↦ inl e | inr t ↦ inr (Memᴰ.tail t) ];
          })
    ]

module _ (P : Requirement → Type 0) where
  All-eligible : (l : List Requirement) → All P (eligible l) → All (λ x. IsEligible x → P x) l
  unfolding eligible
  All-eligible [] h = tt
  All-eligible (r ∷ rs) h = elim (Bool-cases (some_selection (selected r))) [
    | inl is ↦ let h' : All P (r ∷ eligible rs) = rw is at h in ((λ _. h'.0), All-eligible rs h'.1)
    | inr isnt ↦ ((λ is. cc), All-eligible rs (rw isnt at h))
  ]

eligible-mem :
    (l : List Requirement) (x : Requirement) → Memᴰ x (eligible l) → IsEligible x × Memᴰ x l
unfolding eligible
eligible-mem [] x m = absurd (Memᴰ.not-nil m)
eligible-mem (r ∷ rs) x m = elim (Bool-cases (some_selection (selected r))) [
  | inl is ↦
      let m' : Memᴰ x (r ∷ eligible rs) = rw is at m in
      elim (Memᴰ.cases_cons m') [
        | inl e ↦ (ap (λ y. some_selection (selected y)) e ∙ is, Memᴰ.head e)
        | inr t ↦ let (e, t') = eligible-mem rs x t in (e, Memᴰ.tail t')
      ]
  | inr isnt ↦ let (e, t) = eligible-mem rs x (rw isnt at m) in (e, Memᴰ.tail t)
]

min_or_none-least :
    (l : List Requirement) (r : Requirement) → min_or_none l ≡ some r → Memᴰ r l × All (IsFirst r) l
min_or_none-least [] r e = cc
min_or_none-least (x ∷ xs) r e =
    let m = min_from-IsLeast x xs in
    let same = some-injective (min_from x xs) r e in
    subst (λ y. Memᴰ y (x ∷ xs) × All (IsFirst y) (x ∷ xs)) same
      (
        elim m.member [ inl first ↦ Memᴰ.head first | inr later ↦ Memᴰ.tail later ],
        (m.before_best, m.before_all),
      )

-- The candidate of a cycle is one of the polled rows, its own values select a machine route, and
-- no eligible row comes before it: rows with a numeric public id come first, by that number.
pub lowest_eligible-least :
    (polled : List Requirement) (r : Requirement)
    → lowest_eligible polled ≡ some r
    → IsEligible r × Memᴰ r polled × All (λ x. IsEligible x → IsFirst r x) polled
unfolding lowest_eligible
lowest_eligible-least polled r e =
    let (listed, least) = min_or_none-least (eligible polled) r e in
    let (is, from_poll) = eligible-mem polled r listed in
    (is, from_poll, All-eligible (IsFirst r) polled least)

min_or_none-nil : (l : List Requirement) → min_or_none l ≡ none → l ≡ []
min_or_none-nil [] e = refl
min_or_none-nil (x ∷ xs) e = cc

eligible-nil : (l : List Requirement) → eligible l ≡ [] → All (λ x. ¬ IsEligible x) l
unfolding eligible
eligible-nil [] e = tt
eligible-nil (r ∷ rs) e = elim (Bool-cases (some_selection (selected r))) [
  | inl is ↦ let e' : r ∷ eligible rs ≡ [] = rw is at e in cc
  | inr isnt ↦ ((λ is. cc), eligible-nil rs (rw isnt at e))
]

nil-eligible : (l : List Requirement) → All (λ x. ¬ IsEligible x) l → eligible l ≡ []
unfolding eligible
nil-eligible [] h = refl
nil-eligible (r ∷ rs) h = elim (Bool-cases (some_selection (selected r))) [
  | inl is ↦ absurd (h.0 is)
  | inr isnt ↦ rw isnt (nil-eligible rs h.1)
]

-- A cycle finds no candidate exactly when no polled row selects a machine route.
pub lowest_eligible-none :
    (polled : List Requirement) → (lowest_eligible polled ≡ none) ↔ All (λ x. ¬ IsEligible x) polled
unfolding lowest_eligible
lowest_eligible-none polled = (
  λ e. eligible-nil polled (min_or_none-nil (eligible polled) e),
  λ h. ap min_or_none (nil-eligible polled h),
)
