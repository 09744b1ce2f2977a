-- ===== src/Apply.antt =====
-- src/sdlc/requirement_apply.py: the state that one application changes, its errors, and the steps
-- before the evidence is read. Everything that the workspace answers depends on the writes so far
-- and on the moment, so other writers are covered. A message, which the code and the values in the
-- report determine, is left out.
pub mod Checks
pub mod Plan
pub mod Writes
pub mod Run
pub mod Reads
use sdlc.Base.{ℕ, suc, String, ◌⊎◌, inl, inr, Option, none, some, List, [], ◌∷◌, is_text}
use sdlc.Fibery.{Fallible, ok, failed, Project, Requirement}
use sdlc.Routes.{standard_type, apply_state}
use sdlc.Attempts.{Attempt, return, raise, require, after}
use sdlc.Results.{ApplyResultCode}
use sdlc.NormativeTree.{DocumentNode}
use sdlc.Evidence.{RelationKind, ProcessResult, ReviewResult}
use sdlc.Dependencies.{DependencyWorkspace, or_empty}

abbrev pub Edge : Type 0
Edge = RelationKind × String

-- A write that was attempted, with its answer: an edge from one entity to another, or a State.
pub data Write : Type 0 where
  added_edge : RelationKind → String → String → Fallible (Unit {0}) → Write
  wrote_state : String → String → Fallible (Unit {0}) → Write

-- What the journal names.
pub data Created : Type 0 where
  relation : Edge → Created
  state_applied : Created

-- The moment, the writes from the last one back, and `_Journal` from its first entry on.
pub record World : Type 0 where
  pub moment : ℕ
  pub writes : List Write
  pub created : List Created

pub data ResolutionFailure : Type 0 where
  invalid stale read_failed : ResolutionFailure

-- `require_current_resolutions` with the policies of the caller, after these writes.
abbrev pub Resolutions : Type 0
Resolutions =
    List Write
    → ProcessResult
    → ReviewResult
    → String
    → ℕ
    → (Unit {0} ⊎ (ResolutionFailure × List String)) × ℕ

pub record ApplyWorkspace : Type 0 where
  pub reads : List Write → DependencyWorkspace
  pub read_requirement : List Write → ℕ → String → Fallible (Option Requirement)
  pub read_project : List Write → ℕ → String → Fallible (Option Project)
  pub add_edge : List Write → ℕ → RelationKind → String → String → Fallible (Unit {0})
  pub set_requirement_state : List Write → ℕ → String → String → Fallible (Unit {0})

-- `_StageFailed`, or an AttributeError, which nothing catches.
pub data Failure : Type 0 where
  stage_failed : ApplyResultCode → List String → Failure
  attribute_error : Failure

abbrev pub Stage : Type 0 → Type 0
Stage A = Attempt World Failure A

abbrev pub unreadable : String → Failure
unreadable error = stage_failed ApplyResultCode.fibery_read_failed (error ∷ [])

abbrev pub fetched : {A : Type 0} → Fallible A → Stage A
fetched (ok a) = return a
fetched (failed error) = raise (unreadable error)

infixl 5 ◌>>=◌
unfoldable pub ◌>>=◌ : {A B : Type 0} → Stage A → (A → Stage B) → Stage B
m >>= f = λ w. after (m w) f

-- One read of Fibery, at this moment.
abbrev pub fetch : {A : Type 0} → (List Write → ℕ → Fallible A) → Stage A
fetch get w = fetched (get w.writes w.moment) (record w { moment = suc w.moment })

abbrev pub moved : {A E : Type 0} → (E → Failure) → World → (A ⊎ E) × ℕ → (A ⊎ Failure) × World
moved rename w (inl a, t) = (inl a, record w { moment = t })
moved rename w (inr e, t) = (inr (rename e), record w { moment = t })

-- A sequence of reads after the writes so far, with its errors put as those of this module.
abbrev pub reading : {A E : Type 0} → (E → Failure) → (List Write → Attempt ℕ E A) → Stage A
reading rename run w = moved rename w (run w.writes w.moment)

abbrev standard_or : Option Requirement → Stage Requirement
standard_or none = raise (stage_failed ApplyResultCode.requirement_not_found [])
standard_or (some requirement) = do
  _ ←
      require (is_text requirement.type_name standard_type)
        (stage_failed ApplyResultCode.not_a_standard_requirement [])
  return requirement

pub record Structure : Type 0 where
  pub project : Project
  pub root : DocumentNode

abbrev one_of : Option Project → List DocumentNode → Stage Structure
one_of (some project) (root ∷ []) = return (record { project = project; root = root })
one_of _ _ = raise (stage_failed ApplyResultCode.project_structure_invalid [])

module _ (workspace : ApplyWorkspace) where
  -- `_load_requirement`
  unfoldable pub load_requirement : String → Stage Requirement
  load_requirement id = do
    answer ← fetch (λ ws t. workspace.read_requirement ws t id)
    standard_or answer

  -- `_require_apply`
  unfoldable pub require_apply : Requirement → Stage (Unit {0})
  require_apply requirement =
      require (is_text requirement.state apply_state)
        (stage_failed ApplyResultCode.requirement_not_in_apply [])

  -- `_resolve_structure`
  unfoldable pub resolve_structure : Requirement → Stage Structure
  resolve_structure requirement = do
    project ← fetch (λ ws t. workspace.read_project ws t (or_empty requirement.project_id))
    attached ←
        fetch
          (λ ws t. (workspace.reads ws).documents_attached_to_requirement t requirement.public_id)
    one_of project attached
