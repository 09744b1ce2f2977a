-- ===== src/Dependencies/Closure/Rounds.antt =====
-- `_visit` of dependency_evidence.py: the search is at most one member deeper than the limit.
use mathlib.Core.List.{Memᴰ}
use mathlib.Core.Path.{subst}
use sdlc.Base.{
  ℕ, zero, suc, ◌+◌, ◌≤◌, ◌<◌, String, ◌⊎◌, ◌≡◌, ◌≢◌, refl, sym, ap, ◌∙◌, inl, inr, false, ◌||◌,
  Option, none, some, List, [], ◌∷◌, ◌++◌, All, All-map, length, length-append, leb, is_text, arith,
  Bool-cases,
}
use sdlc.Fibery.{Requirement}
use sdlc.Attempts.{after}
use sdlc.NormativeTree.{listed}
use sdlc.Dictionary.{keys, get, put}
use sdlc.Dictionary.Sets.{sorted_set, mem-listed, listed-mem, sorted_set-listed}
use sdlc.Dictionary.Lookup.{get-put_self, put-new}
use sdlc.Evidence.{Reader}
use sdlc.Dependencies.{DependencyEvidenceError, DependencyWorkspace, DependencyMember, direct_ids}
use sdlc.Dependencies.Read.{read_member}
use sdlc.Dependencies.Closure.{
  Members, set_limit, Search, searched, each, reading, visit, visit_all,
}
use sdlc.Dependencies.Closure.Search.{Reached, at_once, Reached-append, State-empty, State-enter}
use sdlc.Dependencies.Closure.Visited.{
  searched-inl, Kept, Visits, dependencies, visit-Visits, off_the_path, below_limit,
}

-- The rounds did not run out.
abbrev Ends : {A : Type 0} → (A ⊎ Option DependencyEvidenceError) × ℕ → Type 0
Ends r = r.0 ≢ inr none

error-Ends : {A : Type 0} (e : DependencyEvidenceError) (t : ℕ) → Ends {A = A} (inr (some e), t)
error-Ends e t h = cc

value-Ends : {A : Type 0} (a : A) (t : ℕ) → Ends (inl a, t)
value-Ends a t h = cc

after-Ends :
    {A B : Type 0} (r : (A ⊎ Option DependencyEvidenceError) × ℕ) (f : A → Search B)
    → Ends r
    → ((a : A) (t : ℕ) → r ≡ (inl a, t) → Ends (f a t))
    → Ends (after r f)
after-Ends (inl a, t) f h k = k a t refl
after-Ends (inr none, t) f h k = absurd (h refl)
after-Ends (inr (some e), t) f h k = error-Ends e t

searched-Ends : {A : Type 0} (r : (A ⊎ DependencyEvidenceError) × ℕ) → Ends (searched r)
searched-Ends (inl a, t) = value-Ends a t
searched-Ends (inr e, t) = error-Ends e t

module _ (reader : Reader) (workspace : DependencyWorkspace) (requirement : Requirement)
    (direct : List String) where
  abbrev Keeps : List String → Members → Members → Type 0
  Keeps = Kept reader workspace requirement direct

  -- Visits with this many members before them do not run out of rounds.
  abbrev AreEnough : List String → ℕ → (String → Members → Search Members) → Type 0
  AreEnough path least next =
      (id : String) (members order : Members) (t : ℕ)
      → Keeps path members order
      → Reached direct members id
      → least ≤ length members
      → Ends (next id members t)

  each-Ends :
      (path : List String) (least : ℕ) (next : String → Members → Search Members)
      → Visits reader workspace requirement direct path next
      → AreEnough path least next
      → (ids : List String) (members order : Members) (t : ℕ) → Keeps path members order
      → All (Reached direct members) ids
      → least ≤ length members
      → Ends (each next ids members t)
  unfolding each
  each-Ends path least next visits enough [] members order t s reach many = value-Ends members t
  each-Ends path least next visits enough (id ∷ ids) members order t s reach many =
      after-Ends (next id members t) (each next ids) (enough id members order t s reach.0 many)
        (λ middle t' got.
          let v = visits id members order t middle s reach.0 (ap (λ r. r.0) got) in
          let still =
            All-map (λ x r. subst (λ l. Reached direct l x) (sym v.grown) (Reached-append v.more r))
              ids reach.1 in
          each-Ends path least next visits enough ids middle (v.newer ++ order) t' v.state still
            (omega (arith, many, ap length v.grown, length-append members v.more)))

  enter-Ends :
      (fuel : ℕ) (id : String) (path : List String) (members order : Members) (t t' : ℕ)
      (member : DependencyMember)
      → AreEnough
          (path ++ id ∷ [])
          (suc (length members))
          (λ d. visit reader workspace requirement fuel d (path ++ id ∷ []))
      → Keeps path members order
      → Reached direct members id
      → listed id (keys members) ≡ false
      → is_text requirement.requirement_id id ≡ false
      → length members < set_limit
      → read_member reader workspace requirement id t ≡ (inl member, t')
      → Ends (
          each
            (λ d. visit reader workspace requirement fuel d (path ++ id ∷ []))
            (direct_ids member)
            (put id member members)
            t')
  enter-Ends fuel id path members order t t' member enough s reach new other room read =
      let last = (id, member) ∷ [] in
      let put_is = put-new id member members new in
      let s' =
        State-enter reader workspace requirement direct path members order id member s new other
          room reach (t, t', read) in
      let got : get id (members ++ last) ≡ some member =
        ap (get id) (sym put_is) ∙ get-put_self id member members in
      let run = λ (l : Members).
        each (λ d. visit reader workspace requirement fuel d (path ++ id ∷ [])) (direct_ids member)
          l t' in
      subst (λ l. Ends (run l)) (sym put_is)
        (each-Ends (path ++ id ∷ []) (suc (length members)) _
          (visit-Visits reader workspace requirement direct fuel (path ++ id ∷ [])) enough
          (direct_ids member) (members ++ last) order t' s'
          (dependencies reader workspace requirement direct (members ++ last) id member
            (direct_ids member) got (Reached-append last reach) (λ d m. m))
          (omega (arith, length-append members last)))

  visit-Ends :
      (fuel : ℕ) (path : List String) (id : String) (members order : Members) (t : ℕ)
      → Keeps path members order
      → Reached direct members id
      → set_limit < fuel + length members
      → Ends (visit reader workspace requirement fuel id path members t)
  unfolding visit
  visit-Ends zero path id members order t s reach many = absurd (omega (arith, s.few, many))
  visit-Ends (suc fuel) path id members order t s reach many =
      elim (Bool-cases (is_text requirement.requirement_id id || listed id path)) [
        | inl cycle ↦ rw cycle (error-Ends _ t)
        | inr off ↦ elim (Bool-cases (listed id (keys members))) [
          | inl known ↦ rw (off, known) (value-Ends members t)
          | inr new ↦ elim (Bool-cases (leb set_limit (length members))) [
            | inl full ↦ rw (off, new, full) (error-Ends _ t)
            | inr room ↦
                rw (off, new, room)
                  (after-Ends (reading reader workspace requirement id t) _
                    (searched-Ends (read_member reader workspace requirement id t))
                    (λ member t' got.
                      enter-Ends fuel id path members order t t' member
                        (λ d ms o t'' s'' r'' more.
                          visit-Ends fuel (path ++ id ∷ []) d ms o t'' s'' r''
                            (omega (arith, more, many)))
                        s reach new
                        (off_the_path (is_text requirement.requirement_id id) (listed id path) off)
                        (below_limit (length members) set_limit room)
                        (searched-inl (read_member reader workspace requirement id t) member t'
                          got)))
          ]
        ]
      ]

pub Reached-at_once :
    (direct : List String) (members : Members) (ids : List String)
    → ((id : String) → Memᴰ id ids → Memᴰ id direct)
    → All (Reached direct members) ids
Reached-at_once direct members [] m = tt
Reached-at_once direct members (id ∷ ids) m =
    (at_once (m id (Memᴰ.head refl)), Reached-at_once direct members ids (λ x n. m x (Memᴰ.tail n)))

pub in_direct : (direct : List String) (id : String) → Memᴰ id (sorted_set direct) → Memᴰ id direct
in_direct direct id m =
    listed-mem id direct (sym (sorted_set-listed id direct) ∙ mem-listed id (sorted_set direct) m)

module _ (reader : Reader) (workspace : DependencyWorkspace) (requirement : Requirement) where
  -- The search never runs out of its rounds, whatever the workspace answers.
  pub visit_all-ends :
      (direct : List String) (t : ℕ)
      → (visit_all reader workspace requirement direct t).0 ≢ inr none
  unfolding visit_all
  visit_all-ends direct t =
      each-Ends reader workspace requirement direct [] 0 _
        (visit-Visits reader workspace requirement direct (suc set_limit) [])
        (λ id ms o t' s reach many.
          visit-Ends reader workspace requirement direct (suc set_limit) [] id ms o t' s reach
            (omega arith))
        (sorted_set direct) [] [] t (State-empty reader workspace requirement direct)
        (Reached-at_once direct [] (sorted_set direct) (in_direct direct)) (omega arith)
