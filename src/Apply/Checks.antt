-- ===== src/Apply/Checks.antt =====
-- The evidence of one application and its checks, in requirement_apply.py: `_confirmed_edges`,
-- `_check_bindings` and the parts of `_read_evidence` that decide. Two artifacts of one iteration are
-- refused without their ids. Checks/Read has the reads.
pub mod Read
pub mod Accepted
pub mod Unchanged
pub mod Current
use sdlc.Base.{
  ℕ, String, ◌⊎◌, inl, inr, Bool, true, false, not, ◌&&◌, ◌||◌, Option, none, some, List, [], ◌∷◌,
  eqb, if◌then◌else◌, ◌==◌,
}
use sdlc.Attempts.{return, raise, require}
use sdlc.Results.{ApplyResultCode}
use sdlc.NormativeTree.{DocumentNode, NormativeDocument, NormativeTreeError}
use sdlc.NormativeTree.Manifest.{TreeManifest}
use sdlc.NormativeTree.Manifest.Drift.{fingerprint}
use sdlc.Evidence.What.{what_clearance}
use sdlc.Evidence.{
  RelationKind, depends_on, affects, VerificationOutcome, confirmed, RelationVerification,
  ProcessResult, ReviewResult, clear, blocked_on_what, Clearance, incoherent, unknown, established,
  Reader, has_fingerprint,
}
use sdlc.Dependencies.{DependencyFailure}
use sdlc.Apply.{◌>>=◌, Edge, ResolutionFailure, Failure, Stage, stage_failed, attribute_error}

pub record Evidence : Type 0 where
  pub root_content : String
  pub tree : TreeManifest
  pub latest_review : ReviewResult
  pub latest_process : ProcessResult
  pub confirmed : List Edge

abbrev pub same_kind : RelationKind → RelationKind → Bool
same_kind depends_on depends_on = true
same_kind affects affects = true
same_kind _ _ = false

abbrev pub same_edge : Edge → Edge → Bool
same_edge (k, a) (l, b) = same_kind k l && a == b

abbrev pub has_edge : Edge → List Edge → Bool
has_edge e [] = false
has_edge e (f ∷ fs) = same_edge f e || has_edge e fs

abbrev twice : List Edge → Bool
twice [] = false
twice (e ∷ es) = has_edge e es || twice es

abbrev all_edges : List Edge → List Edge → Bool
all_edges [] fs = true
all_edges (e ∷ es) fs = has_edge e fs && all_edges es fs

abbrev is_confirmed : VerificationOutcome → Bool
is_confirmed confirmed = true
is_confirmed _ = false

-- `derived`: the edges of the CONFIRMED verifications.
unfoldable pub derived_edges : List RelationVerification → List Edge
derived_edges [] = []
derived_edges (v ∷ vs) =
    let rest = derived_edges vs in
    if is_confirmed v.outcome then (v.kind, v.requirement_id) ∷ rest else rest

abbrev invalid_review : Failure
invalid_review = stage_failed ApplyResultCode.invalid_review_result []

-- `_confirmed_edges`
unfoldable pub confirmed_edges : ReviewResult → List Edge → Stage (List Edge)
unfolding derived_edges
confirmed_edges result mirror = do
  let derived = derived_edges result.relation_verifications
  _ ← require (not (twice derived)) invalid_review
  _ ← require (not (twice mirror)) invalid_review
  _ ← require (all_edges derived mirror && all_edges mirror derived) invalid_review
  return derived

-- `error.details`
abbrev details_of : NormativeTreeError → List String
details_of (NormativeTreeError.too_much_text _) = []
details_of (NormativeTreeError.too_many _) = []
details_of NormativeTreeError.unfinished = []
details_of (NormativeTreeError.nested_under_artifact ids) = ids
details_of (NormativeTreeError.listed_twice id) = id ∷ []
details_of (NormativeTreeError.too_deep id) = id ∷ []
details_of (NormativeTreeError.no_secret id) = id ∷ []
details_of (NormativeTreeError.unreadable id) = id ∷ []
details_of (NormativeTreeError.unlisted id) = id ∷ []
details_of (NormativeTreeError.foreign_artifact id) = id ∷ []
details_of (NormativeTreeError.misplaced_artifact id) = id ∷ []

abbrev tree_code : NormativeTreeError → ApplyResultCode
tree_code (NormativeTreeError.unreadable _) = ApplyResultCode.fibery_read_failed
tree_code (NormativeTreeError.unlisted _) = ApplyResultCode.fibery_read_failed
tree_code _ = ApplyResultCode.normative_tree_invalid

abbrev pub tree_failed : NormativeTreeError → Failure
tree_failed error = stage_failed (tree_code error) (details_of error)

-- `tree.root.body`; a tree that was read has a Root.
abbrev pub root_body : List NormativeDocument → String
root_body [] = ""
root_body (d ∷ ds) = d.body

abbrev chosen : ApplyResultCode → Failure → Option (ℕ × DocumentNode) ⊎ ℕ → Stage (ℕ × DocumentNode)
chosen conflict missing (inr i) = raise (stage_failed conflict [])
chosen conflict missing (inl none) = raise missing
chosen conflict missing (inl (some newest)) = return newest

abbrev pub same_trees : Reader → Option TreeManifest → Option TreeManifest → Bool
unfolding fingerprint has_fingerprint
same_trees reader none b = false
same_trees reader (some a) b = has_fingerprint reader b (fingerprint reader.digest a)

-- A Process Result of version 0.1 has no trees, and a re-read one may be of that version.
unfoldable pub check_trees : Reader → Option TreeManifest → Option TreeManifest → Stage (Unit {0})
unfolding same_trees
check_trees reader (some a) (some b) =
    require (same_trees reader (some a) (some b))
      (stage_failed ApplyResultCode.normative_tree_evidence_required [])
check_trees reader none b = raise attribute_error
check_trees reader (some a) none = raise attribute_error

-- `evidence.current == evidence.reviewed`
unfoldable pub is_as_reviewed : Reader → Evidence → Bool
unfolding fingerprint has_fingerprint
is_as_reviewed reader e =
    reader.document_fingerprint e.root_content == e.latest_review.reviewed_document_fingerprint
    && (eqb e.latest_process.iteration e.latest_review.reviewed_process_iteration
        && (e.latest_process.output_fingerprint
              == e.latest_review.reviewed_process_output_fingerprint
            && has_fingerprint reader e.latest_review.reviewed_tree
                (fingerprint reader.digest e.tree)))

-- `_check_what`
unfoldable pub check_what : Clearance → Stage (Unit {0})
check_what incoherent = raise invalid_review
check_what unknown = raise (stage_failed ApplyResultCode.product_question_evidence_required [])
check_what (established blocked_on_what) =
    raise (stage_failed ApplyResultCode.material_what_unresolved [])
check_what (established clear) = return tt

-- `_check_bindings`
unfoldable pub check_bindings : Reader → Evidence → Stage (Unit {0})
unfolding is_as_reviewed check_trees check_what
check_bindings reader e = do
  _ ← require (is_as_reviewed reader e) (stage_failed ApplyResultCode.review_result_stale [])
  _ ← check_trees reader e.latest_review.reviewed_tree e.latest_process.output_tree
  check_what (what_clearance e.latest_review e.latest_process)

abbrev dependency_code : Bool → DependencyFailure → ApplyResultCode
dependency_code false failure = ApplyResultCode.dependency_evidence_required
dependency_code true DependencyFailure.cycle = ApplyResultCode.dependency_cycle
dependency_code true DependencyFailure.not_applied = ApplyResultCode.dependency_not_applied
dependency_code true DependencyFailure.read_failed = ApplyResultCode.fibery_read_failed
dependency_code true _ = ApplyResultCode.dependency_evidence_stale

abbrev resolution_code : ResolutionFailure → ApplyResultCode
resolution_code ResolutionFailure.read_failed = ApplyResultCode.fibery_read_failed
resolution_code ResolutionFailure.invalid = ApplyResultCode.invalid_review_result
resolution_code ResolutionFailure.stale = ApplyResultCode.resolution_evidence_stale
