-- ===== src/Evidence/Names/Newest.antt =====
-- The newest artifact of a Requirement: what the choice promises.
use mathlib.Core.List.Memᴰ
use mathlib.Core.List.{Memᴰ, append-nil, append_assoc}
use mathlib.Core.Path.{subst}
use sdlc.Base.{
  ℕ, String, ◌≤◌, ◌≡◌, refl, sym, ap, ◌∙◌, ◌⊎◌, inl, inr, true, false, Option, none, some, List, [],
  ◌∷◌, ◌++◌, All, All-append, ltb, eqb, arith, Bool-cases, Option-cases,
}
use sdlc.NormativeTree.{DocumentNode}
use sdlc.Evidence.Names.{
  ResultKind, iteration_of, Numbered, has_number, collect_one, collect, newest_from, newest,
  newest_of, latest_artifact,
}

-- No later iteration than this one.
abbrev pub IsUpTo : ℕ → Option ℕ → Type 0
IsUpTo i none = Unit
IsUpTo i (some j) = j ≤ i

module _ (kind : ResultKind) (owner : Option String) where
  abbrev IsNamed : ℕ × DocumentNode → Type 0
  IsNamed (i, node) = iteration_of kind owner node ≡ some i

  -- A chosen artifact is one of these, its name has its number, and no name has a later number.
  pub record IsLatest (nodes : List DocumentNode) (i : ℕ) (node : DocumentNode) : Type 0 where
    pub here_is : Memᴰ node nodes
    pub named : iteration_of kind owner node ≡ some i
    pub latest : All (λ n. IsUpTo i (iteration_of kind owner n)) nodes

  abbrev Holds : Option ℕ → Numbered → Type 0
  Holds none found = Unit
  Holds (some i) found = has_number i found ≡ true

  record Collected (seen : List DocumentNode) (found : Numbered) : Type 0 where
    entries : All (λ e. IsNamed e × Memᴰ e.1 seen) found
    complete : All (λ n. Holds (iteration_of kind owner n) found) seen

  -- Two artifacts, one behind the other, carry this iteration.
  pub record IsTwice (nodes : List DocumentNode) (i : ℕ) : Type 0 where
    pub earlier : List DocumentNode
    pub later : List DocumentNode
    pub parts : earlier ++ later ≡ nodes
    pub first : DocumentNode
    pub second : DocumentNode
    pub first_in : Memᴰ first earlier
    pub second_in : Memᴰ second later
    pub first_named : iteration_of kind owner first ≡ some i
    pub second_named : iteration_of kind owner second ≡ some i

  abbrev Collects : List DocumentNode → Numbered ⊎ ℕ → Type 0
  Collects all (inl found) = Collected all found
  Collects all (inr i) = IsTwice all i

  has_number-append :
      (i : ℕ) (xs : Numbered) (y : ℕ × DocumentNode)
      → has_number i xs ≡ true
      → has_number i (xs ++ y ∷ []) ≡ true
  has_number-append i [] y h = cc
  has_number-append i ((j, n) ∷ xs) y h = elim (Bool-cases (eqb j i)) [
    | inl t ↦ rw t refl
    | inr f ↦ rw f (has_number-append i xs y (rw f at h))
  ]

  has_number-last :
      (i : ℕ) (n : DocumentNode) (xs : Numbered) → has_number i (xs ++ (i, n) ∷ []) ≡ true
  has_number-last i n [] = ground arith
  has_number-last i n ((j, m) ∷ xs) = elim (Bool-cases (eqb j i)) [
    | inl t ↦ rw t refl
    | inr f ↦ rw f (has_number-last i n xs)
  ]

  Holds-append :
      (o : Option ℕ) (xs : Numbered) (y : ℕ × DocumentNode) → Holds o xs → Holds o (xs ++ y ∷ [])
  Holds-append none xs y h = tt
  Holds-append (some i) xs y h = has_number-append i xs y h

  widen :
      (seen : List DocumentNode) (node : DocumentNode) (found : Numbered)
      → All (λ e. IsNamed e × Memᴰ e.1 seen) found
      → All (λ e. IsNamed e × Memᴰ e.1 (seen ++ node ∷ [])) found
  widen seen node [] h = tt
  widen seen node (e ∷ found) ((named, m), h) =
      ((named, Memᴰ.append_left (node ∷ []) m), widen seen node found h)

  deepen :
      (nodes : List DocumentNode) (found : Numbered) (y : ℕ × DocumentNode)
      → All (λ n. Holds (iteration_of kind owner n) found) nodes
      → All (λ n. Holds (iteration_of kind owner n) (found ++ y ∷ [])) nodes
  deepen [] found y h = tt
  deepen (n ∷ nodes) found y h =
      (Holds-append (iteration_of kind owner n) found y h.0, deepen nodes found y h.1)

  -- An entry under a number that was found is an artifact of that number.
  find_number :
      (i : ℕ) (seen : List DocumentNode) (found : Numbered)
      → has_number i found ≡ true
      → All (λ e. IsNamed e × Memᴰ e.1 seen) found
      → (n : DocumentNode) × Memᴰ n seen × (iteration_of kind owner n ≡ some i)
  find_number i seen [] h all = cc
  find_number i seen ((j, n) ∷ found) h ((named, m), all) = elim (Bool-cases (eqb j i)) [
    | inl t ↦ (n, m, named ∙ ap some (ground arith))
    | inr f ↦ find_number i seen found (rw f at h) all
  ]

  collect-Collects :
      (seen rest : List DocumentNode) (found : Numbered)
      → Collected seen found
      → Collects (seen ++ rest) (collect kind owner rest found)
  unfolding collect collect_one
  collect-Collects seen [] found c = subst (λ l. Collected l found) (sym (append-nil seen)) c
  collect-Collects seen (node ∷ rest) found c =
      let all_is = append_assoc seen (node ∷ []) rest in
      elim (Option-cases (iteration_of kind owner node)) [
        | inl unnamed ↦
            let next = collect-Collects (seen ++ node ∷ []) rest found (record {
              entries = widen seen node found c.entries;
              complete = All-append _ seen (node ∷ []) c.complete (rw unnamed tt, tt);
            }) in
            rw unnamed (subst (λ l. Collects l (collect kind owner rest found)) all_is next)
        | inr (i, named) ↦ elim (Bool-cases (has_number i found)) [
          | inl twice ↦
              let (first, m, is) = find_number i seen found twice c.entries in
              rw (named, twice)
                (record {
                  earlier = seen;
                  later = node ∷ rest;
                  parts = refl;
                  first = first;
                  second = node;
                  first_in = m;
                  second_in = Memᴰ.head refl;
                  first_named = is;
                  second_named = named;
                })
          | inr new ↦
              let more = found ++ (i, node) ∷ [] in
              let next = collect-Collects (seen ++ node ∷ []) rest more (record {
                entries =
                    All-append _ found ((i, node) ∷ []) (widen seen node found c.entries)
                      ((named, Memᴰ.append_right seen (Memᴰ.head refl)), tt);
                complete =
                    All-append _ seen (node ∷ []) (deepen seen found (i, node) c.complete)
                      (rw named (has_number-last i node found), tt);
              }) in
              rw (named, new) (subst (λ l. Collects l (collect kind owner rest more)) all_is next)
        ]
      ]

  -- An entry with a property, up to which the first one and the others are.
  abbrev IsTop :
      (ℕ × DocumentNode → Type 0) → ℕ × DocumentNode → Numbered → ℕ × DocumentNode → Type 0
  IsTop P first nodes e = P e × (first.0 ≤ e.0) × All (λ x. x.0 ≤ e.0) nodes

  newest_from-IsTop :
      (P : ℕ × DocumentNode → Type 0) (best : ℕ × DocumentNode) (nodes : Numbered)
      → P best
      → All P nodes
      → IsTop P best nodes (newest_from best nodes)
  unfolding newest_from
  newest_from-IsTop P best [] p h = (p, omega arith, tt)
  newest_from-IsTop P (i, node) ((j, other) ∷ nodes) p h =
      let goal : ℕ × DocumentNode → Type 0 =
        λ b. IsTop P (i, node) ((j, other) ∷ nodes) (newest_from b nodes) in
      elim (Bool-cases (ltb i j)) [
        | inl later ↦
            let (is, above, all) = newest_from-IsTop P (j, other) nodes h.0 h.1 in
            subst goal (rw later refl) (is, omega (arith, ltb→lt i j later, above), (above, all))
        | inr kept ↦
            let (is, above, all) = newest_from-IsTop P (i, node) nodes p h.1 in
            subst goal (rw kept refl) (is, above, (omega (arith, not_ltb i j kept, above), all))
      ]
    where
      ltb→lt : (a b : ℕ) → ltb a b ≡ true → a ≤ b
      ltb→lt a b h = ground arith

      not_ltb : (a b : ℕ) → ltb a b ≡ false → b ≤ a
      not_ltb a b h = ground arith

  number_below :
      (i k : ℕ) (found : Numbered) → has_number i found ≡ true → All (λ e. e.0 ≤ k) found → i ≤ k
  number_below i k [] h all = cc
  number_below i k ((j, n) ∷ found) h all = elim (Bool-cases (eqb j i)) [
    | inl t ↦ ground (arith, all.0)
    | inr f ↦ number_below i k found (rw f at h) all.1
  ]

  up_to :
      (k : ℕ) (found : Numbered) (nodes : List DocumentNode)
      → All (λ e. e.0 ≤ k) found
      → All (λ n. Holds (iteration_of kind owner n) found) nodes
      → All (λ n. IsUpTo k (iteration_of kind owner n)) nodes
  up_to k found [] below h = tt
  up_to k found (n ∷ nodes) below h =
      (one (iteration_of kind owner n) h.0, up_to k found nodes below h.1)
    where
      one : (o : Option ℕ) → Holds o found → IsUpTo k o
      one none held = tt
      one (some i) held = number_below i k found held below

  none_found :
      (nodes : List DocumentNode)
      → All (λ n. Holds (iteration_of kind owner n) []) nodes
      → All (λ n. iteration_of kind owner n ≡ none) nodes
  none_found [] h = tt
  none_found (n ∷ nodes) h = (one (iteration_of kind owner n) h.0, none_found nodes h.1)
    where
      one : (o : Option ℕ) → Holds o [] → o ≡ none
      one none held = refl
      one (some i) held = cc

  -- What the choice among these artifacts promises.
  abbrev pub Chooses : List DocumentNode → Option (ℕ × DocumentNode) ⊎ ℕ → Type 0
  Chooses nodes (inl none) = All (λ n. iteration_of kind owner n ≡ none) nodes
  Chooses nodes (inl (some (i, node))) = IsLatest nodes i node
  Chooses nodes (inr i) = IsTwice nodes i

  newest_of-Chooses :
      (nodes : List DocumentNode) (r : Numbered ⊎ ℕ)
      → Collects nodes r
      → Chooses nodes (newest_of r)
  unfolding newest_of newest
  newest_of-Chooses nodes (inr i) twice = twice
  newest_of-Chooses nodes (inl []) c = none_found nodes c.complete
  newest_of-Chooses nodes (inl (first ∷ more)) c =
      let ((named, m), above, all) =
        newest_from-IsTop (λ e. IsNamed e × Memᴰ e.1 nodes) first more c.entries.0 c.entries.1 in
      record {
        here_is = m;
        named = named;
        latest = up_to (newest_from first more).0 (first ∷ more) nodes (above, all) c.complete;
      }

  -- No artifact is chosen exactly when no name is of this Requirement and this kind; a chosen one is
  -- such an artifact with the greatest iteration; a refusal names an iteration that two carry.
  pub latest_artifact-Chooses :
      (nodes : List DocumentNode) → Chooses nodes (latest_artifact kind owner nodes)
  unfolding latest_artifact
  latest_artifact-Chooses nodes =
      newest_of-Chooses nodes (collect kind owner nodes [])
        (collect-Collects [] nodes [] (record { entries = tt; complete = tt }))
