-- ===== src/Apply/Checks/Unchanged.antt =====
-- `_read_evidence` and `_recheck_bindings` of requirement_apply.py: from which reads the evidence is.
use mathlib.Core.Path.{subst}
use sdlc.Base.{ℕ, suc, String, ◌≡◌, refl, inl, Bool, true, false, ◌&&◌, some, List, [], is_text}
use sdlc.Fibery.{ok, Requirement}
use sdlc.NormativeTree.{DocumentNode, NormativeTree, read_normative_tree}
use sdlc.Evidence.{ProcessResult, ReviewResult, is_current_process, is_current_review, Reader}
use sdlc.Evidence.Names.{ResultKind, process, review, latest_artifact}
use sdlc.Dependencies.{or_empty}
use sdlc.Results.{ApplyResultCode}
use sdlc.Apply.{Edge, Write, World, Resolutions, ApplyWorkspace, Failure, stage_failed}
use sdlc.Apply.Reads.{
  Keeps, Reads, return-Reads, reading-Reads, given-Reads, require-Reads, then-Reads, fetch-Answers,
  then-Ends, Reads-Ends, weaken-Ends, Ends-Reads, fetch-Ends, reading-Ends,
}
use sdlc.Apply.Checks.{Evidence, derived_edges, root_body}
use sdlc.Apply.Checks.Read.{
  read_tree, manifest_of, read_review_result, read_process_result, newest_of, require_tree_evidence,
  read_evidence, recheck_bindings,
}
use sdlc.Apply.Checks.Accepted.{
  IsAsReviewed, check_bindings-IsAsReviewed, confirmed_edges-derived, chosen-Ends,
}

module _ (reader : Reader) (resolutions : Resolutions) (workspace : ApplyWorkspace)
    (requirement : Requirement) where
  -- What the Document of an artifact holds after these writes, at this moment, is a Process Result.
  pub record IsParsed (writes : List Write) (t : ℕ) (node : DocumentNode) (p : ProcessResult)
      : Type 0 where
    pub content : String
    pub is_content :
        (workspace.reads writes).tree.read_document_content t (or_empty node.secret) ≡ ok content
    pub is_result : reader.parse_process_result content ≡ some p

  -- What it holds is a Review Result that confirms these edges.
  pub record IsReviewed (writes : List Write) (t : ℕ) (node : DocumentNode) (r : ReviewResult)
      (edges : List Edge) : Type 0 where
    pub content : String
    pub is_content :
        (workspace.reads writes).tree.read_document_content t (or_empty node.secret) ≡ ok content
    pub is_result : reader.parse_review_result content ≡ some r
    pub own : is_text requirement.requirement_id r.requirement_id ≡ true
    pub confirmed : edges ≡ derived_edges r.relation_verifications

  -- The evidence was read after these writes: the tree below the Root, and the newest Review Result
  -- and the newest Process Result of the Documents that were listed there. Both are the
  -- Requirement's own and of this version, and the edges are those that the review confirms.
  pub record IsEvidence (writes : List Write) (root : DocumentNode) (e : Evidence) : Type 0 where
    pub listed_at : ℕ
    pub listed : List DocumentNode
    pub are_listed : (workspace.reads writes).tree.child_documents listed_at root.id ≡ ok listed
    pub tree_at : ℕ
    pub tree : NormativeTree
    pub is_tree :
        (read_normative_tree
          (workspace.reads writes).tree
          (or_empty requirement.requirement_id)
          root
          tree_at).0
        ≡ inl tree
    pub is_body : e.root_content ≡ root_body tree.documents
    pub is_manifest : e.tree ≡ manifest_of reader resolutions workspace requirement root tree
    pub review_node : ℕ × DocumentNode
    pub is_newest_review :
        latest_artifact review requirement.requirement_id listed ≡ inl (some review_node)
    pub review_at : ℕ
    pub is_review : IsReviewed writes review_at review_node.1 e.latest_review e.confirmed
    pub process_node : ℕ × DocumentNode
    pub is_newest_process :
        latest_artifact process requirement.requirement_id listed ≡ inl (some process_node)
    pub process_at : ℕ
    pub is_process : IsParsed writes process_at process_node.1 e.latest_process
    pub own_process : is_text requirement.requirement_id e.latest_process.requirement_id ≡ true
    pub current : (is_current_process e.latest_process && is_current_review e.latest_review) ≡ true

  -- After these writes, from this moment on: the Documents below the Root were listed, the tree was
  -- read, and then the newest Process Result of the list; with the new tree and the new Process
  -- Result the evidence passes the check.
  pub record IsRechecked (writes : List Write) (t : ℕ) (root : DocumentNode) (e : Evidence)
      : Type 0 where
    pub listed : List DocumentNode
    pub are_listed : (workspace.reads writes).tree.child_documents t root.id ≡ ok listed
    pub tree : NormativeTree
    pub content_at : ℕ
    pub is_tree :
        read_normative_tree
          (workspace.reads writes).tree
          (or_empty requirement.requirement_id)
          root
          (suc t)
        ≡ (inl tree, content_at)
    pub node : ℕ × DocumentNode
    pub is_newest : latest_artifact process requirement.requirement_id listed ≡ inl (some node)
    pub processed : ProcessResult
    pub is_processed : IsParsed writes content_at node.1 processed
    pub as_reviewed : IsAsReviewed reader (record e {
      root_content = root_body tree.documents;
      tree = manifest_of reader resolutions workspace requirement root tree;
      latest_process = processed;
    })

  newest_of-Reads :
      (kind : ResultKind) (conflict : ApplyResultCode) (missing : Failure)
      → (nodes : List DocumentNode) (before now : World) → Keeps before now
      → Reads before
          (λ node. latest_artifact kind requirement.requirement_id nodes ≡ inl (some node))
          (newest_of reader resolutions workspace requirement kind conflict missing nodes)
          now
  unfolding newest_of
  newest_of-Reads kind conflict missing nodes before now kept =
      Ends-Reads
        (weaken-Ends (chosen-Ends conflict missing _ before now kept) (λ node w k. (k.0, k.2)))

  and_right : (a b : Bool) → (a && b) ≡ true → b ≡ true
  and_right true b h = h
  and_right false b h = cc

  read_process_result-IsParsed :
      (node : ℕ × DocumentNode) (before now : World)
      → Keeps before now
      → Reads before
          (λ p.
            IsParsed before.writes now.moment node.1 p
            × (is_text requirement.requirement_id p.requirement_id ≡ true))
          (read_process_result reader resolutions workspace requirement node)
          now
  unfolding read_process_result
  read_process_result-IsParsed (i, node) before now kept =
      then-Reads (fetch-Answers before now kept _) (λ content w k got.
        then-Reads (given-Reads before w k _ _) (λ result w k parsed.
          then-Reads (require-Reads before w k _ _) (λ _ w k described.
            return-Reads before w k _ _ (
              record { content = content; is_content = got; is_result = parsed },
              and_right _ _ described,
            ))))

  read_review_result-IsReviewed :
      (node : ℕ × DocumentNode) (before now : World)
      → Keeps before now
      → Reads before
          (λ r. IsReviewed before.writes now.moment node.1 r.0 r.1)
          (read_review_result reader resolutions workspace requirement node)
          now
  unfolding read_review_result
  read_review_result-IsReviewed (i, node) before now kept =
      then-Reads (fetch-Answers before now kept _) (λ content w k got.
        then-Reads (given-Reads before w k _ _) (λ result w k parsed.
          then-Reads (given-Reads before w k _ _) (λ mirror w k _.
            then-Reads (require-Reads before w k _ _) (λ _ w k described.
              then-Reads (confirmed_edges-derived result mirror before w k) (λ edges w k derived.
                return-Reads before w k _ _ (record {
                  content = content;
                  is_content = got;
                  is_result = parsed;
                  own = and_right _ _ described;
                  confirmed = derived;
                }))))))

  pub read_evidence-IsEvidence :
      (root : DocumentNode) (before now : World)
      → Keeps before now
      → Reads before
          (IsEvidence before.writes root)
          (read_evidence reader resolutions workspace requirement root)
          now
  unfolding read_evidence require_tree_evidence read_tree
  read_evidence-IsEvidence root before now kept =
      then-Reads (fetch-Answers before now kept _) (λ listed w₁ k are_listed.
        then-Reads (reading-Reads before w₁ k _ _) (λ tree w k is_tree.
          then-Reads
            (newest_of-Reads review ApplyResultCode.review_state_conflict
              (stage_failed ApplyResultCode.no_review_result []) listed before w k)
            (λ review_node w k newest_review.
              then-Reads
                (newest_of-Reads process ApplyResultCode.invalid_process_result
                  (stage_failed ApplyResultCode.no_process_result []) listed before w k)
                (λ process_node w₂ k newest_process.
                  then-Reads (read_review_result-IsReviewed review_node before w₂ k)
                    (λ reviewed w₃ k of_review.
                      then-Reads (read_process_result-IsParsed process_node before w₃ k)
                        (λ processed w k of_process.
                          then-Reads (require-Reads before w k _ _) (λ _ w k current.
                            return-Reads before w k _ _ (record {
                              listed_at = now.moment;
                              listed = listed;
                              are_listed = are_listed;
                              tree_at = w₁.moment;
                              tree = tree;
                              is_tree = is_tree;
                              is_body = refl;
                              is_manifest = refl;
                              review_node = review_node;
                              is_newest_review = newest_review;
                              review_at = w₂.moment;
                              is_review = of_review;
                              process_node = process_node;
                              is_newest_process = newest_process;
                              process_at = w₃.moment;
                              is_process = of_process.0;
                              own_process = of_process.1;
                              current = current;
                            }))))))))

  pub recheck_bindings-IsRechecked :
      (root : DocumentNode) (e : Evidence) (before now : World)
      → Keeps before now
      → Reads before
          (λ _. IsRechecked before.writes now.moment root e)
          (recheck_bindings reader resolutions workspace requirement root e)
          now
  unfolding recheck_bindings read_tree newest_of
  recheck_bindings-IsRechecked root e before now kept = Ends-Reads (
      then-Ends (fetch-Ends before now kept _) (λ listed w₁ k₁.
        then-Ends (reading-Ends before w₁ k₁.0 _ _) (λ tree w₂ k₂.
          then-Ends (chosen-Ends _ _ _ before w₂ k₂.0) (λ node w₃ k₃.
            then-Ends (Reads-Ends (λ w k. k) (read_process_result-IsParsed node before w₃ k₃.0))
              (λ processed w₄ k₄.
                weaken-Ends
                  (Reads-Ends (λ w k. k) (check_bindings-IsAsReviewed reader _ before w₄ k₄.0))
                  (λ _ w k. (
                    k.0,
                    record {
                      listed = listed;
                      are_listed = k₁.2;
                      tree = tree;
                      content_at = w₂.moment;
                      is_tree =
                          subst
                            (λ t.
                              read_normative_tree (workspace.reads before.writes).tree
                                (or_empty requirement.requirement_id) root t
                              ≡ (inl tree, w₂.moment))
                            k₁.1 k₂.1;
                      node = node;
                      is_newest = k₃.2;
                      processed = processed;
                      is_processed =
                          subst (λ t. IsParsed before.writes t node.1 processed) k₃.1 k₄.1.0;
                      as_reviewed = k.1;
                    },
                  )))))))
