-- ===== src/Evidence.antt =====
-- src/sdlc/process_result.py and src/sdlc/review_result.py: the parts of a Process Result and a
-- Review Result that other components read. Evidence/Names has the names of their Documents,
-- Evidence/What the WHAT status. The parsers and the digests are a parameter, `Reader`.
pub mod Names
pub mod What
use sdlc.Base.{ℕ, String, Bool, true, false, ◌&&◌, ◌||◌, Option, none, some, List, eqb, ◌==◌}
use sdlc.NormativeTree.Manifest.{TreeManifest}
use sdlc.NormativeTree.Manifest.Drift.{fingerprint}

abbrev pub normative_tree_version : ℕ
normative_tree_version = 2

-- `is_current` of a manifest that may be missing.
abbrev pub is_current_tree : Option TreeManifest → Bool
is_current_tree none = false
is_current_tree (some tree) = eqb tree.version normative_tree_version

-- The other fields of a response as one text.
pub record ReworkResponse : Type 0 where
  pub item : String
  pub answer : String

-- `ReworkBrief`: its identity and the refs of its items that block WHAT.
pub record ReworkBrief : Type 0 where
  pub identity : String
  pub what_refs : List String

pub record ReviewedReworkResponse : Type 0 where
  pub response : ReworkResponse
  pub blocks_what : Bool

-- A product question, a resolution and a policy binding are only compared, so each is kept as one text
-- of its fields.
pub record ProcessResult : Type 0 where
  pub requirement_id : String
  pub iteration : ℕ
  pub output_fingerprint : String
  pub version : String
  pub input_tree : Option TreeManifest
  pub output_tree : Option TreeManifest
  pub product_questions : Option (List String)
  pub rework_brief : Option ReworkBrief
  pub rework_responses : List ReworkResponse
  pub resolutions : List String
  pub autonomy_policy : Option String

-- `CURRENT_TREE_PROCESS_RESULT_VERSIONS`
abbrev current_process_version : String → Bool
current_process_version v = v == "0.6" || (v == "0.5" || (v == "0.4" || v == "0.3"))

unfoldable pub is_current_process : ProcessResult → Bool
is_current_process process =
    current_process_version process.version
    && (is_current_tree process.input_tree && is_current_tree process.output_tree)

pub data DependencyOrigin : Type 0 where
  existing proposed transitive : DependencyOrigin

pub record DependencyBinding : Type 0 where
  pub requirement_id : String
  pub entity_id : String
  pub origin : DependencyOrigin
  pub tree_fingerprint : String
  pub review_iteration : ℕ
  pub review_digest : String

-- `origin is not DependencyOrigin.TRANSITIVE`
abbrev pub is_direct_origin : DependencyOrigin → Bool
is_direct_origin transitive = false
is_direct_origin _ = true

abbrev pub is_existing_origin : DependencyOrigin → Bool
is_existing_origin existing = true
is_existing_origin _ = false

pub data RelationKind : Type 0 where
  depends_on affects : RelationKind

pub data VerificationOutcome : Type 0 where
  confirmed rejected unresolved : VerificationOutcome

pub record RelationVerification : Type 0 where
  pub kind : RelationKind
  pub requirement_id : String
  pub outcome : VerificationOutcome
  pub reason : String

pub data WhatStatus : Type 0 where
  clear blocked_on_what : WhatStatus

pub record ReviewResult : Type 0 where
  pub requirement_id : String
  pub iteration : ℕ
  pub reviewed_document_fingerprint : String
  pub reviewed_process_iteration : ℕ
  pub reviewed_process_output_fingerprint : String
  pub version : String
  pub reviewed_tree : Option TreeManifest
  pub relation_verifications : List RelationVerification
  pub dependency_bindings : List DependencyBinding
  pub reviewed_product_questions : Option (List String)
  pub what_status : Option WhatStatus
  pub reviewed_brief_identity : Option String
  pub reviewed_rework_responses : List ReviewedReworkResponse
  pub reviewed_resolutions : List String
  pub reviewed_autonomy_policy : Option String

-- `is_dependency_bound`
unfoldable pub is_dependency_bound : ReviewResult → Bool
is_dependency_bound review = review.version == "0.7" || review.version == "0.6"

-- `CURRENT_TREE_REVIEW_RESULT_VERSIONS`
abbrev current_review_version : String → Bool
current_review_version v = v == "0.7" || (v == "0.6" || (v == "0.5" || (v == "0.4" || v == "0.3")))

unfoldable pub is_current_review : ReviewResult → Bool
is_current_review review =
    current_review_version review.version && is_current_tree review.reviewed_tree

-- What `what_clearance` answers: it may raise InvalidReviewResult, or find no status.
pub data Clearance : Type 0 where
  incoherent unknown : Clearance
  established : WhatStatus → Clearance

pub record Reader : Type 0 where
  pub digest : TreeManifest → String
  pub document_fingerprint : String → String
  pub parse_process_result : String → Option ProcessResult
  pub parse_review_result : String → Option ReviewResult
  pub read_confirmed_relation_mirror : String → Option (List (RelationKind × String))

-- The fingerprint of a manifest that may be missing, compared with a text.
unfoldable pub has_fingerprint : Reader → Option TreeManifest → String → Bool
unfolding fingerprint
has_fingerprint reader none text = false
has_fingerprint reader (some tree) text = fingerprint reader.digest tree == text

-- `reviews_tree`
unfoldable pub reviews_tree : Reader → ReviewResult → String → Bool
unfolding has_fingerprint
reviews_tree reader review text = has_fingerprint reader review.reviewed_tree text
