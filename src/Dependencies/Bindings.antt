-- ===== src/Dependencies/Bindings.antt =====
-- `bind` of dependency_evidence.py: the bindings of the direct dependencies and of all they reach. A
-- KeyError of `members[…]` is an error here too; the loop is given a round for each id that it can
-- push.
pub mod Gathered
pub mod Exact
use mathlib.Core.List.{reverse}
use sdlc.Base.{
  ℕ, zero, suc, ◌+◌, String, ◌⊎◌, inl, inr, Option, none, some, List, [], ◌∷◌, ◌++◌, length,
  if◌then◌else◌,
}
use sdlc.NormativeTree.{listed}
use sdlc.Dictionary.{Dictionary, keys, get}
use sdlc.Dictionary.Sets.{sorted_set}
use sdlc.Evidence.{DependencyOrigin, transitive, DependencyBinding}
use sdlc.Dependencies.{DependencyMember, direct_ids, binding}
use sdlc.Dependencies.Closure.{Members}

pub data BindError : Type 0 where
  no_member : String → BindError
  out_of_rounds : BindError

-- `direct.get(id, TRANSITIVE)`
abbrev pub origin_or_transitive : Option DependencyOrigin → DependencyOrigin
origin_or_transitive none = transitive
origin_or_transitive (some origin) = origin

module _ (members : Members) where
  expand :
      (List String → List String → List String ⊎ BindError)
      → String
      → List String
      → List String
      → Option DependencyMember
      → List String ⊎ BindError
  expand next id pending reachable none = inr (no_member id)
  expand next id pending reachable (some member) =
      next (reverse (direct_ids member) ++ pending) (id ∷ reachable)

  -- The loop: the last id that was pushed is popped.
  unfoldable pub gather : ℕ → List String → List String → List String ⊎ BindError
  unfolding expand get
  gather fuel [] reachable = inl reachable
  gather zero (id ∷ pending) reachable = inr out_of_rounds
  gather (suc fuel) (id ∷ pending) reachable =
      let skip = gather fuel pending reachable in
      let more = expand (gather fuel) id pending reachable (get id members) in
      if listed id reachable then skip else more

  abbrev pub pushes : Members → ℕ
  pushes [] = 0
  pushes ((id, member) ∷ rest) = length (direct_ids member) + pushes rest

  bind_one :
      DependencyOrigin
      → String
      → Option DependencyMember
      → List DependencyBinding ⊎ BindError
      → List DependencyBinding ⊎ BindError
  bind_one origin id none rest = inr (no_member id)
  bind_one origin id (some member) (inl bindings) = inl (binding member origin ∷ bindings)
  bind_one origin id (some member) (inr error) = inr error

  unfoldable pub bind_each :
      Dictionary DependencyOrigin → List String → List DependencyBinding ⊎ BindError
  unfolding bind_one get
  bind_each direct [] = inl []
  bind_each direct (id ∷ ids) =
      bind_one (origin_or_transitive (get id direct)) id (get id members) (bind_each direct ids)

  bind_gathered :
      Dictionary DependencyOrigin → List String ⊎ BindError → List DependencyBinding ⊎ BindError
  unfolding sorted_set bind_each
  bind_gathered direct (inl reachable) = bind_each direct (sorted_set reachable)
  bind_gathered direct (inr error) = inr error

  unfoldable pub bind : Dictionary DependencyOrigin → List DependencyBinding ⊎ BindError
  unfolding gather bind_gathered
  bind direct =
      bind_gathered direct
        (gather (length (keys direct) + pushes members) (reverse (keys direct)) [])
