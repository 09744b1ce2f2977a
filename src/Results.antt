-- ===== src/Results.antt =====
-- src/sdlc/results.py: the result codes of the four Requirement workers, their result records, and
-- which codes are normal outcomes. `WorkerResult` is the union of requirement_dispatcher.py.
use sdlc.Base.{String, ℕ, Bool, true, false, Option, List, ◌∷◌}

pub data ProcessResultCode : Type 0 where
  raw_requirement_processed requirement_not_found not_a_raw_requirement : ProcessResultCode
  requirement_not_in_process project_structure_invalid processing_state_conflict : ProcessResultCode
  raw_processing_in_progress raw_processing_guard_unavailable invalid_processing_result :
      ProcessResultCode
  model_runtime_failed invalid_model_output comparison_context_incomplete : ProcessResultCode
  normative_tree_invalid normative_tree_evidence_required processing_result_write_failed :
      ProcessResultCode
  fibery_read_failed fibery_write_failed document_create_failed content_write_failed :
      ProcessResultCode
  validation_failed partial_processing : ProcessResultCode

pub record ProcessResult : Type 0 where
  pub code : ProcessResultCode
  pub message : String
  pub raw_requirement_id : Option String
  pub candidates : List String
  pub findings : List String
  pub no_candidate_reason : Option String
  pub model_invoked : Bool
  pub created : List String
  pub details : List String

pub data StandardProcessResultCode : Type 0 where
  requirement_processed no_changes_to_process requirement_not_found : StandardProcessResultCode
  not_a_standard_requirement requirement_not_in_process project_structure_invalid :
      StandardProcessResultCode
  processing_state_conflict invalid_processing_result model_runtime_failed :
      StandardProcessResultCode
  invalid_model_output comparison_context_incomplete normative_tree_invalid :
      StandardProcessResultCode
  normative_tree_evidence_required review_lineage_invalid resolution_evidence_stale :
      StandardProcessResultCode
  autonomy_policy_invalid process_result_write_failed content_write_failed :
      StandardProcessResultCode
  fibery_read_failed fibery_write_failed validation_failed partial_processing :
      StandardProcessResultCode

pub record StandardProcessResult : Type 0 where
  pub code : StandardProcessResultCode
  pub message : String
  pub requirement_id : Option String
  pub iteration : Option ℕ
  pub findings : List String
  pub proposed_relations : List String
  pub model_invoked : Bool
  pub created : List String
  pub details : List String

pub data StandardReviewResultCode : Type 0 where
  requirement_reviewed no_changes_to_review requirement_not_found : StandardReviewResultCode
  not_a_standard_requirement requirement_not_in_review project_structure_invalid :
      StandardReviewResultCode
  no_process_result invalid_process_result review_state_conflict invalid_review_result :
      StandardReviewResultCode
  review_result_stale model_runtime_failed invalid_model_output : StandardReviewResultCode
  comparison_context_incomplete normative_tree_invalid normative_tree_evidence_required :
      StandardReviewResultCode
  product_question_evidence_required dependency_evidence_invalid dependency_cycle :
      StandardReviewResultCode
  resolution_evidence_stale resolution_evidence_invalid autonomy_policy_invalid :
      StandardReviewResultCode
  review_result_write_failed fibery_read_failed fibery_write_failed validation_failed :
      StandardReviewResultCode
  partial_review : StandardReviewResultCode

pub record StandardReviewResult : Type 0 where
  pub code : StandardReviewResultCode
  pub message : String
  pub requirement_id : Option String
  pub iteration : Option ℕ
  pub verdict : Option String
  pub blocking : List String
  pub warnings : List String
  pub verifications : List String
  pub relations : List String
  pub model_invoked : Bool
  pub created : List String
  pub details : List String

pub data ApplyResultCode : Type 0 where
  requirement_applied requirement_already_applied requirement_not_found : ApplyResultCode
  not_a_standard_requirement requirement_not_in_apply project_structure_invalid : ApplyResultCode
  no_process_result invalid_process_result no_review_result invalid_review_result : ApplyResultCode
  review_state_conflict review_result_stale normative_tree_invalid : ApplyResultCode
  normative_tree_evidence_required material_what_unresolved : ApplyResultCode
  product_question_evidence_required dependency_evidence_required : ApplyResultCode
  dependency_evidence_stale dependency_cycle dependency_not_applied : ApplyResultCode
  resolution_evidence_stale autonomy_policy_invalid relation_target_not_found : ApplyResultCode
  invalid_relation_target partial_apply fibery_read_failed fibery_write_failed : ApplyResultCode
  validation_failed : ApplyResultCode

pub record ApplyResult : Type 0 where
  pub code : ApplyResultCode
  pub message : String
  pub requirement_id : Option String
  pub state : Option String
  pub relations_added : List String
  pub relations_present : List String
  pub created : List String
  pub details : List String

unfoldable pub normal_process : ProcessResultCode → Bool
normal_process ProcessResultCode.raw_requirement_processed = true
normal_process _ = false

unfoldable pub normal_standard : StandardProcessResultCode → Bool
normal_standard StandardProcessResultCode.requirement_processed = true
normal_standard StandardProcessResultCode.no_changes_to_process = true
normal_standard _ = false

unfoldable pub normal_review : StandardReviewResultCode → Bool
normal_review StandardReviewResultCode.requirement_reviewed = true
normal_review StandardReviewResultCode.no_changes_to_review = true
normal_review _ = false

unfoldable pub normal_apply : ApplyResultCode → Bool
normal_apply ApplyResultCode.requirement_applied = true
normal_apply ApplyResultCode.requirement_already_applied = true
normal_apply _ = false

pub data WorkerResult : Type 0 where
  raw_processed : ProcessResult → WorkerResult
  standard_processed : StandardProcessResult → WorkerResult
  standard_reviewed : StandardReviewResult → WorkerResult
  standard_applied : ApplyResult → WorkerResult

unfoldable pub is_normal : WorkerResult → Bool
is_normal (raw_processed r) = normal_process r.code
is_normal (standard_processed r) = normal_standard r.code
is_normal (standard_reviewed r) = normal_review r.code
is_normal (standard_applied r) = normal_apply r.code

-- `(message, *details)`, the texts that the dispatcher passes on from a worker.
unfoldable pub report_lines : WorkerResult → List String
report_lines (raw_processed r) = r.message ∷ r.details
report_lines (standard_processed r) = r.message ∷ r.details
report_lines (standard_reviewed r) = r.message ∷ r.details
report_lines (standard_applied r) = r.message ∷ r.details
