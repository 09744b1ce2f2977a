-- ===== src/Dependencies/Closure/Visited.antt =====
-- `_visit` of dependency_evidence.py: a visit that returns leaves its Requirement and all that it
-- depends on finished, and keeps what was read before.
use mathlib.Core.List.{Memᴰ, append-nil, append_assoc}
use mathlib.Core.Path.{subst}
use sdlc.Base.{
  ℕ, zero, suc, ◌<◌, String, ◌⊎◌, ◌≡◌, refl, sym, ap, ◌∙◌, inl, inr, Bool, true, false, ◌||◌, none,
  some, List, [], ◌∷◌, ◌++◌, All, All-map, length, leb, is_text, arith, Bool-cases, eq_refl,
}
use sdlc.Fibery.{Requirement}
use sdlc.Attempts.{after-inl, returned, refused}
use sdlc.NormativeTree.{listed}
use sdlc.Dictionary.{keys, get, put}
use sdlc.Dictionary.Lookup.{get-put_self, put-new}
use sdlc.Evidence.{Reader}
use sdlc.Dependencies.{DependencyEvidenceError, DependencyWorkspace, DependencyMember, direct_ids}
use sdlc.Dependencies.Read.{read_member}
use sdlc.Dependencies.Closure.{Members, set_limit, Search, searched, each, reading, visit}
use sdlc.Dependencies.Closure.Search.{
  listed-append, keys-append, get-append, key_of, Reached, through, Reached-append, State,
  State-enter, State-leave,
}

pub searched-inl :
    {A : Type 0} (r : (A ⊎ DependencyEvidenceError) × ℕ) (a : A) (t : ℕ)
    → searched r ≡ (inl a, t)
    → r ≡ (inl a, t)
searched-inl (inl b, s) a t h = ground arith
searched-inl (inr e, s) a t h = cc

pub off_the_path : (a b : Bool) → (a || b) ≡ false → a ≡ false
off_the_path true b f = f
off_the_path false b f = refl

pub below_limit : (n k : ℕ) → leb k n ≡ false → n < k
below_limit n k h = ground arith

module _ (reader : Reader) (workspace : DependencyWorkspace) (requirement : Requirement)
    (direct : List String) where
  abbrev pub Kept : List String → Members → Members → Type 0
  Kept = State reader workspace requirement direct

  pub record Visited (path : List String) (members order : Members) (ids : List String)
      (after : Members) : Type 0 where
    pub more : Members
    pub grown : after ≡ members ++ more
    pub newer : Members
    pub state : Kept path after (newer ++ order)
    pub there : All (λ id. listed id (keys (newer ++ order)) ≡ true) ids

  -- What every returning visit of one Requirement at this path does.
  abbrev pub Visits : List String → (String → Members → Search Members) → Type 0
  Visits path next =
      (id : String) (members order : Members) (t : ℕ) (after : Members)
      → Kept path members order
      → Reached direct members id
      → (next id members t).0 ≡ inl after
      → Visited path members order (id ∷ []) after

  nothing_more :
      (path : List String) (members order : Members) (ids : List String)
      → Kept path members order
      → All (λ id. listed id (keys order) ≡ true) ids
      → Visited path members order ids members
  nothing_more path members order ids s there = record {
    more = [];
    grown = sym (append-nil members);
    newer = [];
    state = s;
    there = there;
  }

  still_there :
      (id : String) (newer order : Members)
      → listed id (keys order) ≡ true
      → listed id (keys (newer ++ order)) ≡ true
  still_there id newer order h =
      ap (listed id) (keys-append newer order)
      ∙ listed-append id (keys newer) (keys order)
      ∙ last (listed id (keys newer)) (listed id (keys order)) h
    where
      last : (a b : Bool) → b ≡ true → (a || b) ≡ true
      last true b e = refl
      last false b e = e

  -- Two visits, one after the other.
  joined :
      (path : List String) (members order : Members) (id : String) (ids : List String)
      (middle after : Members)
      → (v : Visited path members order (id ∷ []) middle)
      → Visited path middle (v.newer ++ order) ids after
      → Visited path members order (id ∷ ids) after
  joined path members order id ids middle after v w =
      let both = append_assoc w.newer v.newer order in
      record {
        more = v.more ++ w.more;
        grown = w.grown ∙ ap (λ l. l ++ w.more) v.grown ∙ append_assoc members v.more w.more;
        newer = w.newer ++ v.newer;
        state = subst (Kept path after) (sym both) w.state;
        there =
            subst (λ l. All (λ x. listed x (keys l) ≡ true) (id ∷ ids)) (sym both)
              (still_there id w.newer (v.newer ++ order) v.there.0, w.there);
      }

  pub each-Visited :
      (path : List String) (next : String → Members → Search Members)
      → Visits path next
      → (ids : List String) (members order : Members) (t : ℕ) (after : Members)
      → Kept path members order
      → All (Reached direct members) ids
      → (each next ids members t).0 ≡ inl after
      → Visited path members order ids after
  unfolding each
  each-Visited path next visits [] members order t after s reach e =
      subst (Visited path members order []) (returned members after e)
        (nothing_more path members order [] s tt)
  each-Visited path next visits (id ∷ ids) members order t after s reach e =
      let (middle, t', first, rest) = after-inl (next id members t) (each next ids) after e in
      let v = visits id members order t middle s reach.0 (ap (λ r. r.0) first) in
      let still =
        All-map (λ x r. subst (λ l. Reached direct l x) (sym v.grown) (Reached-append v.more r)) ids
          reach.1 in
      joined path members order id ids middle after v
        (each-Visited path next visits ids middle (v.newer ++ order) t' after v.state still rest)

  -- The dependencies of a member that was just put.
  pub dependencies :
      (members : Members) (id : String) (member : DependencyMember) (ids : List String)
      → get id members ≡ some member
      → Reached direct members id
      → ((d : String) → Memᴰ d ids → Memᴰ d (direct_ids member))
      → All (Reached direct members) ids
  dependencies members id member [] got reach in_it = tt
  dependencies members id member (d ∷ ids) got reach in_it = (
    through member reach got (in_it d (Memᴰ.head refl)),
    dependencies members id member ids got reach (λ x m. in_it x (Memᴰ.tail m)),
  )

  enter-Visited :
      (fuel : ℕ) (id : String) (path : List String) (members order : Members) (t t' : ℕ)
      (member : DependencyMember) (after : Members)
      → Visits (path ++ id ∷ []) (λ d. visit reader workspace requirement fuel d (path ++ id ∷ []))
      → Kept path members order
      → Reached direct members id
      → listed id (keys members) ≡ false
      → is_text requirement.requirement_id id ≡ false
      → length members < set_limit
      → read_member reader workspace requirement id t ≡ (inl member, t')
      → (each
          (λ d. visit reader workspace requirement fuel d (path ++ id ∷ []))
          (direct_ids member)
          (put id member members)
          t').0
        ≡ inl after
      → Visited path members order (id ∷ []) after
  enter-Visited fuel id path members order t t' member after visits s reach new other room read e =
      let last = (id, member) ∷ [] in
      let put_is = put-new id member members new in
      let s' =
        State-enter reader workspace requirement direct path members order id member s new other
          room reach (t, t', read) in
      let got : get id (members ++ last) ≡ some member =
        ap (get id) (sym put_is) ∙ get-put_self id member members in
      let reach' = Reached-append last reach in
      let v =
        each-Visited (path ++ id ∷ []) _ visits (direct_ids member) (members ++ last) order t' after
          s' (dependencies (members ++ last) id member (direct_ids member) got reach' (λ d m. m))
          (ap
              (λ l.
                (each (λ d. visit reader workspace requirement fuel d (path ++ id ∷ []))
                  (direct_ids member) l t').0)
              (sym put_is)
            ∙ e) in
      let got' = ap (get id) v.grown ∙ get-append id member (members ++ last) v.more got in
      record {
        more = last ++ v.more;
        grown = v.grown ∙ append_assoc members last v.more;
        newer = (id, member) ∷ v.newer;
        state =
            State-leave reader workspace requirement direct path after (v.newer ++ order) id member
              v.state got' v.there;
        there = (rw (eq_refl id) refl, tt);
      }

  pub visit-Visits :
      (fuel : ℕ) (path : List String)
      → Visits path (λ id. visit reader workspace requirement fuel id path)
  unfolding visit
  visit-Visits zero path id members order t after s reach e = absurd (refused none after e)
  visit-Visits (suc fuel) path id members order t after s reach e =
      elim (Bool-cases (is_text requirement.requirement_id id || listed id path)) [
        | inl cycle ↦ absurd (refused _ after (rw cycle at e))
        | inr off ↦ elim (Bool-cases (listed id (keys members))) [
          | inl known ↦
              let same = returned members after (rw (off, known) at e) in
              let placed =
                key_of (λ x. (listed x path ≡ true) ⊎ (listed x (keys order) ≡ true)) members id
                  s.complete known in
              subst (Visited path members order (id ∷ [])) same (
                nothing_more path members order (id ∷ []) s (
                  elim placed [
                    | inl on ↦
                        absurd
                          (clash (is_text requirement.requirement_id id) (listed id path) on off)
                    | inr done ↦ done
                  ],
                  tt,
                ))
          | inr new ↦ elim (Bool-cases (leb set_limit (length members))) [
            | inl full ↦ absurd (refused _ after (rw (off, new, full) at e))
            | inr room ↦
                let (member, t', got, rest) =
                  after-inl (reading reader workspace requirement id t) _ after
                    (rw (off, new, room) at e) in
                enter-Visited fuel id path members order t t' member after
                  (visit-Visits fuel (path ++ id ∷ [])) s reach new
                  (off_the_path (is_text requirement.requirement_id id) (listed id path) off)
                  (below_limit (length members) set_limit room)
                  (searched-inl (read_member reader workspace requirement id t) member t' got) rest
          ]
        ]
      ]
    where
      clash : (a b : Bool) → b ≡ true → (a || b) ≡ false → ⊥
      clash true b h f = cc
      clash false b h f = cc
