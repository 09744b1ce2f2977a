-- ===== src/Dependencies.antt =====
-- src/sdlc/dependency_evidence.py: the errors, the workspace and one member of an interpretation set,
-- and what its parts are checked for. Each read is answered by what the workspace holds at
-- that moment, as in NormativeTree. A message is kept as its `Problem`.
pub mod Read
pub mod Member
pub mod Closure
pub mod Bindings
pub mod Current
use sdlc.Base.{
  ℕ, suc, String, ◌⊎◌, inl, inr, Bool, true, false, Option, none, some, List, [], ◌∷◌, map, length,
  if◌then◌else◌,
}
use sdlc.Fibery.{Fallible, ok, failed, Requirement}
use sdlc.Attempts.{Attempt, ◌>>=◌}
use sdlc.NormativeTree.{
  DocumentNode, NormativeTreeError, unreadable, unlisted, TreeWorkspace, NormativeTree,
}
use sdlc.Evidence.{
  ReviewResult, DependencyOrigin, DependencyBinding, is_direct_origin, WhatStatus, clear, Clearance,
  incoherent, unknown, established,
}
use sdlc.Evidence.Names.{review}

pub data DependencyFailure : Type 0 where
  invalid cycle stale not_applied read_failed : DependencyFailure

-- What a message says.
pub data Problem : Type 0 where
  on_the_path too_many_members unbound_review not_the_bindings own_edges_differ : Problem
  unapplied_dependencies stale_member out_of_rounds : Problem
  unread : String → Problem
  no_requirement several_requirements another_type another_project : Problem
  not_one_root : ℕ → Problem
  invalid_tree : NormativeTreeError → Problem
  same_iteration : ℕ → Problem
  untrusted_process no_evidence untrusted_review old_review other_evidence not_clear : Problem
  edges_disagree : Problem

pub record DependencyEvidenceError : Type 0 where
  pub failure : DependencyFailure
  pub problem : Problem
  pub details : List String

pub record RequirementRelations : Type 0 where
  pub depends_on : List String
  pub affects : List String

-- What the workspace answers at each moment.
pub record DependencyWorkspace : Type 0 where
  pub tree : TreeWorkspace
  pub find_requirements_by_requirement_id : ℕ → String → Fallible (List Requirement)
  pub documents_attached_to_requirement : ℕ → String → Fallible (List DocumentNode)
  pub requirement_relations : ℕ → String → Fallible RequirementRelations

abbrev pub Reading : Type 0 → Type 0
Reading A = Attempt ℕ DependencyEvidenceError A

-- `text or ""`
abbrev pub or_empty : Option String → String
or_empty none = ""
or_empty (some text) = text

abbrev pub invalid_member : String → Problem → DependencyEvidenceError
invalid_member id problem = record { failure = invalid; problem = problem; details = id ∷ [] }

abbrev pub not_read : String → DependencyEvidenceError
not_read error = record { failure = read_failed; problem = unread error; details = error ∷ [] }

-- One read, at this moment.
abbrev pub ask : {A : Type 0} → (ℕ → Fallible A) → Reading A
ask read t = (answer (read t), suc t)
  where
    answer : {A : Type 0} → Fallible A → A ⊎ DependencyEvidenceError
    answer (ok a) = inl a
    answer (failed error) = inr (not_read error)

pub record DependencyMember : Type 0 where
  pub found : Requirement
  pub tree_fingerprint : String
  pub review : ReviewResult
  pub review_digest : String

abbrev pub direct_only : List DependencyBinding → List DependencyBinding
direct_only [] = []
direct_only (b ∷ bs) =
    let rest = direct_only bs in if is_direct_origin b.origin then b ∷ rest else rest

-- `direct_ids`
abbrev pub direct_ids : DependencyMember → List String
direct_ids member = map (λ b. b.requirement_id) (direct_only member.review.dependency_bindings)

-- `binding`
abbrev pub binding : DependencyMember → DependencyOrigin → DependencyBinding
binding member origin = record {
  requirement_id = or_empty member.found.requirement_id;
  entity_id = member.found.id;
  origin = origin;
  tree_fingerprint = member.tree_fingerprint;
  review_iteration = member.review.iteration;
  review_digest = member.review_digest;
}

pub the_only : String → List Requirement → Requirement ⊎ DependencyEvidenceError
the_only id [] = inr (invalid_member id no_requirement)
the_only id (found ∷ []) = inl found
the_only id (found ∷ other ∷ more) = inr (invalid_member id several_requirements)

-- The Root is the one attached Document.
pub one_root : String → List DocumentNode → DocumentNode ⊎ DependencyEvidenceError
one_root id (root ∷ []) = inl root
one_root id attached = inr (invalid_member id (not_one_root (length attached)))

abbrev pub decided : {A : Type 0} → A ⊎ DependencyEvidenceError → Reading A
decided answer t = (answer, t)

-- How an error of the traversal is passed on.
pub tree_error : String → NormativeTreeError → DependencyEvidenceError
tree_error id (unreadable document) = record {
  failure = read_failed;
  problem = invalid_tree (unreadable document);
  details = document ∷ [];
}
tree_error id (unlisted document) = record {
  failure = read_failed;
  problem = invalid_tree (unlisted document);
  details = document ∷ [];
}
tree_error id error = invalid_member id (invalid_tree error)

pub unless_read :
    String
    → (NormativeTree ⊎ NormativeTreeError) × ℕ
    → (NormativeTree ⊎ DependencyEvidenceError) × ℕ
unless_read id (inl tree, t) = (inl tree, t)
unless_read id (inr error, t) = (inr (tree_error id error), t)

-- `_latest_node`
pub newest_or_twice :
    String → Option (ℕ × DocumentNode) ⊎ ℕ → Option (ℕ × DocumentNode) ⊎ DependencyEvidenceError
newest_or_twice id (inl newest) = inl newest
newest_or_twice id (inr i) = inr (invalid_member id (same_iteration i))

-- The status, where the review is compared at all.
pub clearance_if : Bool → Clearance → Option WhatStatus ⊎ Unit {0}
clearance_if false clearance = inl none
clearance_if true incoherent = inr tt
clearance_if true unknown = inl none
clearance_if true (established status) = inl (some status)

pub coherent : String → Option WhatStatus ⊎ Unit {0} → Option WhatStatus ⊎ DependencyEvidenceError
coherent id (inl status) = inl status
coherent id (inr _) = inr (invalid_member id untrusted_review)

abbrev pub is_clear : Option WhatStatus → Bool
is_clear (some clear) = true
is_clear _ = false
