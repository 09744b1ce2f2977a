-- ===== src/Dependencies/Read.antt =====
-- `_read_member` of dependency_evidence.py and the checks that it calls.
use sdlc.Base.{
  ℕ, String, Bool, not, ◌&&◌, ◌||◌, Option, none, some, List, eqb, is_text, same_text, ◌==◌,
}
use sdlc.Fibery.{Requirement}
use sdlc.Routes.{standard_type, applied_state}
use sdlc.Attempts.{return, raise, given, require, ◌>>=◌}
use sdlc.NormativeTree.{DocumentNode, NormativeTree, read_normative_tree}
use sdlc.NormativeTree.Manifest.Observed.{manifest_of_tree}
use sdlc.NormativeTree.Manifest.Drift.{fingerprint}
use sdlc.Dictionary.Sets.{all_listed, same_set}
use sdlc.Evidence.{ProcessResult, ReviewResult, is_dependency_bound, reviews_tree, Reader}
use sdlc.Evidence.What.{what_clearance}
use sdlc.Evidence.Names.{ResultKind, process, review, latest_artifact}
use sdlc.Dependencies.{
  invalid_member, the_only, one_root, decided, tree_error, unless_read, newest_or_twice,
  clearance_if, coherent, is_clear, ask, or_empty, Reading, DependencyMember, direct_ids,
  another_type, another_project, old_review, other_evidence, not_clear, untrusted_review,
  untrusted_process, no_evidence, edges_disagree, DependencyWorkspace,
}

module _ (reader : Reader) (workspace : DependencyWorkspace) where
  -- `_single_root`
  unfoldable pub single_root : Requirement → Reading DocumentNode
  unfolding one_root
  single_root found = do
    attached ← ask (λ t. workspace.documents_attached_to_requirement t found.public_id)
    decided (one_root (or_empty found.requirement_id) attached)

  -- `read_normative_tree`, as `_read_member` calls it.
  unfoldable pub read_tree : String → Requirement → DocumentNode → Reading NormativeTree
  unfolding unless_read tree_error read_normative_tree
  read_tree id found root t =
      unless_read id (read_normative_tree workspace.tree (or_empty found.requirement_id) root t)

  unfoldable pub latest_node :
      ResultKind → Requirement → List DocumentNode → Reading (Option (ℕ × DocumentNode))
  unfolding newest_or_twice latest_artifact
  latest_node kind found artifacts = decided (
      newest_or_twice (or_empty found.requirement_id)
        (latest_artifact kind found.requirement_id artifacts))

  -- `_read`
  abbrev read_node : DocumentNode → Reading String
  read_node node = ask (λ t. workspace.tree.read_document_content t (or_empty node.secret))

  unfoldable pub read_process :
      Requirement → Option (ℕ × DocumentNode) → Reading (Option ProcessResult)
  read_process found none = return none
  read_process found (some (i, node)) = do
    content ← read_node node
    result ←
        given (invalid_member (or_empty found.requirement_id) untrusted_process)
          (reader.parse_process_result content)
    return (some result)

  -- `_latest`
  unfoldable pub latest : Requirement → List DocumentNode → Reading (Option ProcessResult)
  unfolding latest_node read_process
  latest found artifacts = do node ← latest_node process found artifacts; read_process found node

  -- `_depends_on`
  unfoldable pub depends_on_of : Requirement → Reading (List String)
  depends_on_of found = do
    relations ← ask (λ t. workspace.requirement_relations t found.id)
    return relations.depends_on

  -- The review is of the current tree and the latest Process Result.
  unfoldable pub reviews_latest : Requirement → String → ProcessResult → ReviewResult → Bool
  unfolding reviews_tree
  reviews_latest found tree_fingerprint result reviewed =
      reviewed.requirement_id == or_empty found.requirement_id
      && (result.requirement_id == or_empty found.requirement_id
          && (eqb reviewed.reviewed_process_iteration result.iteration
              && (reviewed.reviewed_process_output_fingerprint == result.output_fingerprint
                  && reviews_tree reader reviewed tree_fingerprint)))

  -- `_require_admissible_review`
  unfoldable pub require_admissible_review :
      Requirement → String → ProcessResult → ReviewResult → Reading (Unit {0})
  unfolding reviews_latest is_dependency_bound
  require_admissible_review found tree_fingerprint result reviewed = do
    _ ←
        require (is_dependency_bound reviewed)
          (invalid_member (or_empty found.requirement_id) old_review)
    require (reviews_latest found tree_fingerprint result reviewed)
        (invalid_member (or_empty found.requirement_id) other_evidence)

  -- The edges of a member are bound ones; all of them, once it is Applied.
  unfoldable pub edges_agree : DependencyMember → List String → Bool
  edges_agree member actual =
      all_listed actual (direct_ids member)
      && (not (is_text member.found.state applied_state) || same_set actual (direct_ids member))

  -- `_require_edges_agree`
  unfoldable pub require_edges_agree : DependencyMember → Reading (Unit {0})
  unfolding depends_on_of edges_agree
  require_edges_agree member = do
    actual ← depends_on_of member.found
    require (edges_agree member actual)
        (invalid_member (or_empty member.found.requirement_id) edges_disagree)

  unfoldable pub both :
      String
      → Option ProcessResult
      → Option (ℕ × DocumentNode)
      → Reading (ProcessResult × DocumentNode)
  both id (some result) (some (i, node)) = return (result, node)
  both id none _ = raise (invalid_member id no_evidence)
  both id (some result) none = raise (invalid_member id no_evidence)

  -- The member that the evidence makes, once the review is read.
  unfoldable pub member_of :
      String
      → Requirement
      → NormativeTree
      → DocumentNode
      → ProcessResult
      → String
      → Reading DependencyMember
  unfolding require_admissible_review require_edges_agree manifest_of_tree fingerprint
      is_dependency_bound clearance_if coherent
  member_of id found tree root result content = do
    reviewed ← given (invalid_member id untrusted_review) (reader.parse_review_result content)
    status ←
        decided (
          coherent id
            (clearance_if (is_dependency_bound reviewed) (what_clearance reviewed result)))
    let manifest =
        manifest_of_tree reader.document_fingerprint (or_empty found.requirement_id) root tree
    let current = fingerprint reader.digest manifest
    _ ← require_admissible_review found current result reviewed
    _ ← require (is_clear status) (invalid_member id not_clear)
    let member : DependencyMember = record {
      found = found;
      tree_fingerprint = current;
      review = reviewed;
      review_digest = reader.document_fingerprint content;
    }
    _ ← require_edges_agree member
    return member

  -- `_read_member`, once the tree is read.
  unfoldable pub from_tree :
      String → Requirement → DocumentNode → NormativeTree → Reading DependencyMember
  unfolding latest latest_node both member_of
  from_tree id found root tree = do
    result ← latest found tree.artifacts
    newest ← latest_node review found tree.artifacts
    evidence ← both id result newest
    content ← read_node evidence.1
    member_of id found tree root evidence.0 content

  -- The same, once the Requirement is found.
  unfoldable pub from_found : Requirement → String → Requirement → Reading DependencyMember
  unfolding single_root read_tree from_tree
  from_found requirement id found = do
    _ ← require (is_text found.type_name standard_type) (invalid_member id another_type)
    _ ←
        require (same_text found.project_id requirement.project_id)
          (invalid_member id another_project)
    root ← single_root found
    tree ← read_tree id found root
    from_tree id found root tree

  -- `_read_member`
  unfoldable pub read_member : Requirement → String → Reading DependencyMember
  unfolding the_only from_found
  read_member requirement id = do
    matches ← ask (λ t. workspace.find_requirements_by_requirement_id t id)
    found ← decided (the_only id matches)
    from_found requirement id found
