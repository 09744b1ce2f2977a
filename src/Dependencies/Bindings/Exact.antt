-- ===== src/Dependencies/Bindings/Exact.antt =====
-- `bind` of dependency_evidence.py on a resolved interpretation set: one binding for each member.
use mathlib.Core.List.{Memᴰ, reverse}
use mathlib.Core.Path.{subst}
use sdlc.Base.{
  String, ◌≡◌, refl, sym, ◌∙◌, ◌⊎◌, inl, Bool, true, false, ◌||◌, some, List, [], ◌∷◌, All, All-map,
  arith,
}
use sdlc.Fibery.{Requirement}
use sdlc.NormativeTree.{listed}
use sdlc.NormativeTree.Scan.{NoRepeat}
use sdlc.Dictionary.{Dictionary, keys, get}
use sdlc.Dictionary.Lookup.{get-listed}
use sdlc.Dictionary.Sets.{listed-mem, sorted_set, sorted_set-listed, sorted_set-NoRepeat}
use sdlc.NormativeTree.Manifest.Observed.Order.{all_at}
use sdlc.Evidence.{DependencyOrigin, DependencyBinding, Reader}
use sdlc.Dependencies.{DependencyWorkspace, DependencyMember, direct_ids, binding}
use sdlc.Dependencies.Closure.{Members}
use sdlc.Dependencies.Closure.Search.{key_of, Reached, at_once, through, IsOrdered}
use sdlc.Dependencies.Closure.Whole.{IsInterpretationSet}
use sdlc.Dependencies.Bindings.{
  BindError, origin_or_transitive, pushes, bind_one, bind_each, bind_gathered, bind,
}
use sdlc.Dependencies.Bindings.Gathered.{
  listed-reverse, length-reverse, All-reverse, each_listed, HasMember, AreCovered, IsExpanded,
  weight, Gathers, gather-Gathers,
}

-- One after another, the bindings of the members with these ids.
abbrev pub Binds :
    Members → Dictionary DependencyOrigin → List String → List DependencyBinding → Type 0
Binds members direct [] [] = Unit
Binds members direct [] (b ∷ bs) = ⊥
Binds members direct (id ∷ ids) [] = ⊥
Binds members direct (id ∷ ids) (b ∷ bs) =
    ((member : DependencyMember) × (get id members ≡ some member)
      × (b ≡ binding member (origin_or_transitive (get id direct))))
    × Binds members direct ids bs

pub record IsBound (members : Members) (direct : Dictionary DependencyOrigin)
    (r : List DependencyBinding ⊎ BindError) : Type 0 where
  pub bindings : List DependencyBinding
  pub returns : r ≡ inl bindings
  pub ids : List String
  pub fresh : NoRepeat ids
  pub every : All (λ e. listed e.0 ids ≡ true) members
  pub only : All (λ id. listed id (keys members) ≡ true) ids
  pub binds : Binds members direct ids bindings

weight-nil : (members ms : Members) → weight members ms [] ≡ pushes members ms
weight-nil members [] = refl
weight-nil members ((id, m) ∷ ms) = omega (arith, weight-nil members ms)

bind_each-Binds :
    (members : Members) (direct : Dictionary DependencyOrigin) (ids : List String)
    → All (HasMember members) ids
    → (bindings : List DependencyBinding) × (bind_each members direct ids ≡ inl bindings)
      × Binds members direct ids bindings
unfolding bind_each bind_one
bind_each-Binds members direct [] h = ([], refl, tt)
bind_each-Binds members direct (id ∷ ids) ((member, got), h) =
    let (rest, is, all) = bind_each-Binds members direct ids h in
    let b = binding member (origin_or_transitive (get id direct)) in
    (b ∷ rest, rw (got, is) refl, ((member, got, refl), all))

drop_false : (b : Bool) → (b || false) ≡ true → b ≡ true
drop_false true h = refl
drop_false false h = h

same_member : (a b : DependencyMember) → some a ≡ some b → a ≡ b
same_member a b e = ground arith

module _ (reader : Reader) (workspace : DependencyWorkspace) (requirement : Requirement)
    (direct : Dictionary DependencyOrigin) (members : Members)
    (s : IsInterpretationSet reader workspace requirement (keys direct) members) where
  in_order-HasMember :
      (order : Members)
      → All (λ e. get e.0 members ≡ some e.1) order
      → (id : String) → listed id (keys order) ≡ true
      → HasMember members id
  in_order-HasMember order h id there =
      key_of (HasMember members) order id (All-map (λ e got. (e.1, got)) order h) there

  ordered_dependencies :
      (order : Members)
      → All (λ e. get e.0 members ≡ some e.1) order
      → IsOrdered order
      → All
          (λ e.
            (m : DependencyMember) × (get e.0 members ≡ some m)
            × All (HasMember members) (direct_ids m))
          order
  ordered_dependencies [] h o = tt
  ordered_dependencies ((id, m) ∷ rest) h o = (
    (
      m,
      h.0,
      All-map {P = λ d. listed d (keys rest) ≡ true}
          (λ d there. in_order-HasMember rest h.1 d there) (direct_ids m) o.0,
    ),
    ordered_dependencies rest h.1 o.1,
  )

  -- The direct dependencies of a member are members.
  dependencies_of :
      (id : String) (m : DependencyMember)
      → get id members ≡ some m
      → All (HasMember members) (direct_ids m)
  dependencies_of id m got =
      let there =
        key_of (λ x. listed x (keys s.order) ≡ true) members id s.complete
          (get-listed id m members got).0 in
      let (n, got', all) =
        key_of
          (λ x.
            (n : DependencyMember) × (get x members ≡ some n)
            × All (HasMember members) (direct_ids n))
          s.order id (ordered_dependencies s.order s.finished s.ordered) there in
      subst (λ x. All (HasMember members) (direct_ids x)) (same_member n m (sym got' ∙ got)) all

  direct_members :
      (ids : List String)
      → All (λ id. listed id (keys direct) ≡ true) ids
      → All (HasMember members) ids
  direct_members ids h =
      All-map {P = λ id. listed id (keys direct) ≡ true}
        (λ id there. in_order-HasMember s.order s.finished id (
          all_at (λ x. listed x (keys s.order) ≡ true) (sorted_set (keys direct)) id s.has_direct
            (listed-mem id (sorted_set (keys direct))
              (sorted_set-listed id (keys direct) ∙ there))))
        ids h

  all_members :
      (ids : List String)
      → All (IsExpanded members ids []) ids
      → (id : String) → listed id ids ≡ true
      → IsExpanded members ids [] id
  all_members ids h id there = all_at (IsExpanded members ids []) ids id h (listed-mem id ids there)

  -- A closed list of ids that covers the direct ones has all that is reached.
  Reached-listed :
      (out : List String) (id : String)
      → AreCovered members out [] (keys direct)
      → All (IsExpanded members out []) out
      → Reached (keys direct) members id
      → listed id out ≡ true
  Reached-listed out id covers closed (at_once m) =
      drop_false (listed id out)
        (all_at (λ d. (listed d out || listed d []) ≡ true) (keys direct) id covers m)
  Reached-listed out id covers closed (through {id = source} member r got m) =
      let there = Reached-listed out source covers closed r in
      let (found, got', all) = all_members out closed source there in
      let same = same_member found member (sym got' ∙ got) in
      drop_false (listed id out) (
        all_at (λ d. (listed d out || listed d []) ≡ true) (direct_ids found) id all
          (subst (λ x. Memᴰ id (direct_ids x)) (sym same) m))

  IsBound-by :
      (r : List String ⊎ BindError)
      → Gathers members (keys direct) r
      → IsBound members direct (bind_gathered members direct r)
  unfolding bind_gathered
  IsBound-by r g =
      let ids = sorted_set g.reachable in
      let inside = λ (id : String) (there : listed id ids ≡ true).
        let e =
          all_members g.reachable g.closed id (sym (sorted_set-listed id g.reachable) ∙ there) in
        let h : HasMember members id = (e.0, e.1) in h in
      let each = each_listed ids ids (λ x c. c) in
      let (bindings, is, all) =
        bind_each-Binds members direct ids
          (All-map {P = λ id. listed id ids ≡ true} inside ids each) in
      subst (λ x. IsBound members direct (bind_gathered members direct x)) (sym g.returns)
        (record {
          bindings = bindings;
          returns = is;
          ids = ids;
          fresh = sorted_set-NoRepeat g.reachable;
          every =
              All-map {P = λ e. Reached (keys direct) members e.0}
                (λ e reach.
                  sorted_set-listed e.0 g.reachable
                  ∙ Reached-listed g.reachable e.0 g.covers g.closed reach)
                members s.reached;
          only =
              All-map {P = λ id. listed id ids ≡ true}
                (λ id there. let (m, got) = inside id there in (get-listed id m members got).0) ids
                each;
          binds = all;
        })

  -- The loop of `bind` ends without a KeyError, and the bindings are those of the members: of each
  -- one once, under its own id, with its origin among the direct dependencies or as TRANSITIVE.
  pub bind-IsBound : IsBound members direct (bind members direct)
  unfolding bind
  bind-IsBound =
      let ids = reverse (keys direct) in
      IsBound-by _ (
        gather-Gathers members dependencies_of (keys direct) _ ids []
          (All-reverse (HasMember members) (keys direct)
            (direct_members (keys direct) (each_listed (keys direct) (keys direct) (λ x c. c))))
          (All-map {P = λ d. listed d (keys direct) ≡ true}
            (λ d there. listed-reverse d (keys direct) ∙ there) (keys direct)
            (each_listed (keys direct) (keys direct) (λ x c. c)))
          tt (omega (arith, length-reverse (keys direct), weight-nil members members)))
