-- ===== src/Apply/Checks/Read.antt =====
-- `_read_evidence` of requirement_apply.py and what it calls, `_recheck_bindings`, `_check_dependencies` and
-- `_check_resolutions`.
use sdlc.Base.{ℕ, String, Bool, ◌&&◌, List, [], eqb, is_text}
use sdlc.Fibery.{Requirement}
use sdlc.Attempts.{return, given, require}
use sdlc.Results.{ApplyResultCode}
use sdlc.NormativeTree.{DocumentNode, NormativeTree, read_normative_tree}
use sdlc.NormativeTree.Manifest.{TreeManifest}
use sdlc.NormativeTree.Manifest.Observed.{manifest_of_tree}
use sdlc.Evidence.{
  ProcessResult, ReviewResult, is_current_process, is_current_review, is_dependency_bound, Reader,
}
use sdlc.Evidence.Names.{ResultKind, process, review, latest_artifact}
use sdlc.Dependencies.{DependencyEvidenceError, or_empty}
use sdlc.Dependencies.Closure.{Members}
use sdlc.Dependencies.Current.{Phase, require_current_dependencies}
use sdlc.Apply.{
  ◌>>=◌, Edge, ResolutionFailure, Resolutions, ApplyWorkspace, Failure, Stage, stage_failed, fetch,
  reading,
}
use sdlc.Apply.Checks.{
  Evidence, invalid_review, confirmed_edges, tree_failed, root_body, chosen, check_bindings,
  dependency_code, resolution_code,
}

module _ (reader : Reader) (resolutions : Resolutions) (workspace : ApplyWorkspace)
    (requirement : Requirement) where
  -- `_read_tree`
  unfoldable pub read_tree : DocumentNode → Stage NormativeTree
  unfolding read_normative_tree
  read_tree root = reading tree_failed (λ ws.
      read_normative_tree (workspace.reads ws).tree (or_empty requirement.requirement_id) root)

  unfoldable pub manifest_of : DocumentNode → NormativeTree → TreeManifest
  unfolding manifest_of_tree
  manifest_of root tree =
      manifest_of_tree reader.document_fingerprint (or_empty requirement.requirement_id) root tree

  abbrev pub children : DocumentNode → Stage (List DocumentNode)
  children root = fetch (λ ws t. (workspace.reads ws).tree.child_documents t root.id)

  abbrev content_of : DocumentNode → Stage String
  content_of node =
      fetch (λ ws t. (workspace.reads ws).tree.read_document_content t (or_empty node.secret))

  -- The artifact describes the Requirement and the iteration of its name.
  abbrev pub describes : ℕ → String → ℕ → Bool
  describes i id iteration = eqb iteration i && is_text requirement.requirement_id id

  -- `_read_review_result`
  unfoldable pub read_review_result : ℕ × DocumentNode → Stage (ReviewResult × List Edge)
  unfolding confirmed_edges
  read_review_result (i, node) = do
    content ← content_of node
    result ← given invalid_review (reader.parse_review_result content)
    mirror ← given invalid_review (reader.read_confirmed_relation_mirror content)
    _ ← require (describes i result.requirement_id result.iteration) invalid_review
    edges ← confirmed_edges result mirror
    return (result, edges)

  -- `_read_process_result`
  unfoldable pub read_process_result : ℕ × DocumentNode → Stage ProcessResult
  read_process_result (i, node) = do
    content ← content_of node
    result ←
        given (stage_failed ApplyResultCode.invalid_process_result [])
          (reader.parse_process_result content)
    _ ←
        require (describes i result.requirement_id result.iteration)
          (stage_failed ApplyResultCode.invalid_process_result [])
    return result

  -- `_latest_artifact`
  unfoldable pub newest_of :
      ResultKind → ApplyResultCode → Failure → List DocumentNode → Stage (ℕ × DocumentNode)
  unfolding latest_artifact
  newest_of kind conflict missing nodes =
      chosen conflict missing (latest_artifact kind requirement.requirement_id nodes)

  -- `_require_tree_evidence`
  unfoldable pub require_tree_evidence : Evidence → Stage (Unit {0})
  unfolding is_current_process is_current_review
  require_tree_evidence e =
      require (is_current_process e.latest_process && is_current_review e.latest_review)
        (stage_failed ApplyResultCode.normative_tree_evidence_required [])

  -- `_read_evidence`
  unfoldable pub read_evidence : DocumentNode → Stage Evidence
  unfolding read_tree newest_of read_review_result read_process_result require_tree_evidence
      manifest_of
  read_evidence root = do
    listed ← children root
    tree ← read_tree root
    review_node ←
        newest_of review ApplyResultCode.review_state_conflict
          (stage_failed ApplyResultCode.no_review_result []) listed
    process_node ←
        newest_of process ApplyResultCode.invalid_process_result
          (stage_failed ApplyResultCode.no_process_result []) listed
    reviewed ← read_review_result review_node
    processed ← read_process_result process_node
    let evidence : Evidence = record {
      root_content = root_body tree.documents;
      tree = manifest_of root tree;
      latest_review = reviewed.0;
      latest_process = processed;
      confirmed = reviewed.1;
    }
    _ ← require_tree_evidence evidence
    return evidence

  -- `_recheck_bindings`
  unfoldable pub recheck_bindings : DocumentNode → Evidence → Stage (Unit {0})
  unfolding read_tree newest_of read_process_result check_bindings manifest_of
  recheck_bindings root evidence = do
    listed ← children root
    tree ← read_tree root
    process_node ←
        newest_of process ApplyResultCode.invalid_process_result
          (stage_failed ApplyResultCode.review_result_stale []) listed
    processed ← read_process_result process_node
    check_bindings reader (record evidence {
      root_content = root_body tree.documents;
      tree = manifest_of root tree;
      latest_process = processed;
    })

  -- `_check_dependencies`
  unfoldable pub check_dependencies : ReviewResult → Phase → Stage Members
  unfolding require_current_dependencies is_dependency_bound
  check_dependencies reviewed phase =
      reading
        (λ (error : DependencyEvidenceError).
          stage_failed (dependency_code (is_dependency_bound reviewed) error.failure) error.details)
        (λ ws. require_current_dependencies reader (workspace.reads ws) requirement reviewed phase)

  -- `_check_resolutions`
  unfoldable pub check_resolutions : Evidence → Stage (Unit {0})
  check_resolutions e =
      reading
        (λ (error : ResolutionFailure × List String).
          stage_failed (resolution_code error.0) error.1)
        (λ ws. resolutions ws e.latest_process e.latest_review requirement.id)
