-- ===== src/Dependencies/Member/Admitted.antt =====
-- `_read_member` of dependency_evidence.py, from the first read to the last check.
use sdlc.Base.{
  ℕ, String, ◌⊎◌, ◌≡◌, ap, ◌∙◌, inl, true, Option, none, some, List, [], ◌∷◌, is_text, same_text,
}
use sdlc.Fibery.{Requirement, ok}
use sdlc.Routes.{standard_type}
use sdlc.Attempts.{after-inl, returned, refused, require, require-inl, given}
use sdlc.NormativeTree.{DocumentNode, NormativeTree, read_normative_tree}
use sdlc.Evidence.{ProcessResult, Reader}
use sdlc.Evidence.Names.{ResultKind, process, review, latest_artifact}
use sdlc.Dependencies.{
  DependencyEvidenceError, DependencyWorkspace, or_empty, ask, DependencyMember, the_only,
}
use sdlc.Dependencies.Read.{
  single_root, read_tree, latest_node, read_process, latest, both, from_tree, from_found,
  read_member,
}
use sdlc.Dependencies.Member.{
  ask-inl, given-inl, the_only-inl, one_root-inl, unless_read-inl, newest-inl, Newest, IsCertified,
  member_of-IsCertified,
}

module _ (reader : Reader) (workspace : DependencyWorkspace) where
  -- A member is the one Standard Requirement of the Project with this id; it has one Root, whose tree
  -- was read; its newest Process Result and Review Result were parsed, and the review certifies it.
  pub record IsAdmitted (requirement : Requirement) (id : String) (member : DependencyMember)
      : Type 0 where
    pub found : Requirement
    pub found_at : ℕ
    pub only : workspace.find_requirements_by_requirement_id found_at id ≡ ok (found ∷ [])
    pub standard : is_text found.type_name standard_type ≡ true
    pub same_project : same_text found.project_id requirement.project_id ≡ true
    pub root : DocumentNode
    pub attached_at : ℕ
    pub one_root :
        workspace.documents_attached_to_requirement attached_at found.public_id ≡ ok (root ∷ [])
    pub tree : NormativeTree
    pub walked_at : ℕ
    pub walked :
        (read_normative_tree workspace.tree (or_empty found.requirement_id) root walked_at).0
        ≡ inl tree
    pub process_text : String
    pub result : ProcessResult
    pub newest_process : Newest reader workspace process found tree process_text
    pub parsed : reader.parse_process_result process_text ≡ some result
    pub review_text : String
    pub newest_review : Newest reader workspace review found tree review_text
    pub certified : IsCertified reader workspace found root tree result review_text member

  root-inl :
      (found : Requirement) (t : ℕ) (root : DocumentNode)
      → (single_root reader workspace found t).0 ≡ inl root
      → workspace.documents_attached_to_requirement t found.public_id ≡ ok (root ∷ [])
  unfolding single_root
  root-inl found t root e =
      let read = λ (t : ℕ). workspace.documents_attached_to_requirement t found.public_id in
      let (attached, t₁, got, rest) = after-inl (ask read t) _ root e in
      ask-inl read t attached (ap (λ r. r.0) got)
      ∙ ap ok (one_root-inl (or_empty found.requirement_id) attached root rest)

  node-inl :
      (kind : ResultKind) (found : Requirement) (artifacts : List DocumentNode) (t : ℕ)
      (newest : Option (ℕ × DocumentNode))
      → (latest_node reader workspace kind found artifacts t).0 ≡ inl newest
      → latest_artifact kind found.requirement_id artifacts ≡ inl newest
  unfolding latest_node
  node-inl kind found artifacts t newest e = newest-inl _ _ newest e

  -- A Process Result that was read.
  record ReadProcess (found : Requirement) (tree : NormativeTree) (result : ProcessResult)
      : Type 0 where
    content : String
    newest : Newest reader workspace process found tree content
    is_parsed : reader.parse_process_result content ≡ some result

  read-ReadProcess :
      (found : Requirement) (tree : NormativeTree) (node : Option (ℕ × DocumentNode)) (t : ℕ)
      (result : ProcessResult)
      → latest_artifact process found.requirement_id tree.artifacts ≡ inl node
      → (read_process reader workspace found node t).0 ≡ inl (some result)
      → ReadProcess found tree result
  unfolding read_process
  read-ReadProcess found tree none t result chosen e = absurd (nothing result e)
    where
      nothing :
          (r : ProcessResult)
          → ◌≡◌ {A = Option ProcessResult ⊎ DependencyEvidenceError} (inl none) (inl (some r))
          → ⊥
      nothing r h = cc
  read-ReadProcess found tree (some (i, node)) t result chosen e =
      let read = λ (t : ℕ). workspace.tree.read_document_content t (or_empty node.secret) in
      let (content, t₁, got, e₁) = after-inl (ask read t) _ (some result) e in
      let (parsed, t₂, is, e₂) =
        after-inl (given _ (reader.parse_process_result content) t₁) _ (some result) e₁ in
      record {
        content = content;
        newest = record {
          number = i;
          node = node;
          chosen = chosen;
          asked = t;
          answer = ask-inl read t content (ap (λ r. r.0) got);
        };
        is_parsed =
            given-inl _ (reader.parse_process_result content) t₁ parsed (ap (λ r. r.0) is)
            ∙ returned (some parsed) (some result) e₂;
      }

  latest-ReadProcess :
      (found : Requirement) (tree : NormativeTree) (t : ℕ) (result : ProcessResult)
      → (latest reader workspace found tree.artifacts t).0 ≡ inl (some result)
      → ReadProcess found tree result
  unfolding latest
  latest-ReadProcess found tree t result e =
      let (node, t₁, got, rest) =
        after-inl (latest_node reader workspace process found tree.artifacts t) _ (some result) e in
      read-ReadProcess found tree node t₁ result
        (node-inl process found tree.artifacts t node (ap (λ r. r.0) got)) rest

  both-inl :
      (id : String) (result : Option ProcessResult) (newest : Option (ℕ × DocumentNode)) (t : ℕ)
      (evidence : ProcessResult × DocumentNode)
      → (both reader workspace id result newest t).0 ≡ inl evidence
      → (result ≡ some evidence.0) × ((i : ℕ) × (newest ≡ some (i, evidence.1)))
  unfolding both
  both-inl id none newest t evidence e = absurd (refused _ evidence e)
  both-inl id (some r) none t evidence e = absurd (refused _ evidence e)
  both-inl id (some r) (some (i, node)) t evidence e =
      let same = returned (r, node) evidence e in
      (ap (λ p. some p.0) same, (i, ap (λ p. some (i, p.1)) same))

  -- What is read once the tree is there.
  record ReadEvidence (id : String) (found : Requirement) (root : DocumentNode)
      (tree : NormativeTree) (member : DependencyMember) : Type 0 where
    result : ProcessResult
    processed : ReadProcess found tree result
    text : String
    reviewed : Newest reader workspace review found tree text
    certified : IsCertified reader workspace found root tree result text member

  from_tree-ReadEvidence :
      (id : String) (found : Requirement) (root : DocumentNode) (tree : NormativeTree) (t : ℕ)
      (member : DependencyMember)
      → (from_tree reader workspace id found root tree t).0 ≡ inl member
      → ReadEvidence id found root tree member
  unfolding from_tree
  from_tree-ReadEvidence id found root tree t member e =
      let (result, t₁, processed, e₁) =
        after-inl (latest reader workspace found tree.artifacts t) _ member e in
      let (newest, t₂, chosen, e₂) =
        after-inl (latest_node reader workspace review found tree.artifacts t₁) _ member e₁ in
      let (evidence, t₃, got, e₃) =
        after-inl (both reader workspace id result newest t₂) _ member e₂ in
      let (is_result, (i, is_newest)) = both-inl id result newest t₂ evidence (ap (λ r. r.0) got) in
      let read = λ (t : ℕ). workspace.tree.read_document_content t (or_empty (evidence.1).secret) in
      let (content, t₄, answered, e₄) = after-inl (ask read t₃) _ member e₃ in
      record {
        result = evidence.0;
        processed =
            latest-ReadProcess found tree t evidence.0 (ap (λ x. x.0) processed ∙ ap inl is_result);
        text = content;
        reviewed = record {
          number = i;
          node = evidence.1;
          chosen =
              node-inl review found tree.artifacts t₁ newest (ap (λ r. r.0) chosen)
              ∙ ap inl is_newest;
          asked = t₃;
          answer = ask-inl read t₃ content (ap (λ r. r.0) answered);
        };
        certified =
            member_of-IsCertified reader workspace id found tree root evidence.0 content t₄ member
              e₄;
      }

  -- What is read of a Requirement that was found.
  record Founded (requirement : Requirement) (id : String) (found : Requirement)
      (member : DependencyMember) : Type 0 where
    standard : is_text found.type_name standard_type ≡ true
    project : same_text found.project_id requirement.project_id ≡ true
    root : DocumentNode
    attached_at : ℕ
    rooted :
        workspace.documents_attached_to_requirement attached_at found.public_id ≡ ok (root ∷ [])
    tree : NormativeTree
    walked_at : ℕ
    walked :
        (read_normative_tree workspace.tree (or_empty found.requirement_id) root walked_at).0
        ≡ inl tree
    evidence : ReadEvidence id found root tree member

  from_found-Founded :
      (requirement : Requirement) (id : String) (found : Requirement) (t : ℕ)
      (member : DependencyMember)
      → (from_found reader workspace requirement id found t).0 ≡ inl member
      → Founded requirement id found member
  unfolding from_found read_tree
  from_found-Founded requirement id found t member e =
      let (a₁, t₁, standard, e₁) =
        after-inl (require (is_text found.type_name standard_type) _ t) _ member e in
      let (a₂, t₂, project, e₂) =
        after-inl (require (same_text found.project_id requirement.project_id) _ t₁) _ member e₁ in
      let (root, t₃, rooted, e₃) = after-inl (single_root reader workspace found t₂) _ member e₂ in
      let (tree, t₄, walked, e₄) =
        after-inl (read_tree reader workspace id found root t₃) _ member e₃ in
      record {
        standard =
            require-inl (is_text found.type_name standard_type) _ t a₁ (ap (λ r. r.0) standard);
        project =
            require-inl (same_text found.project_id requirement.project_id) _ t₁ a₂
              (ap (λ r. r.0) project);
        root = root;
        attached_at = t₂;
        rooted = root-inl found t₂ root (ap (λ r. r.0) rooted);
        tree = tree;
        walked_at = t₃;
        walked = unless_read-inl id _ tree (ap (λ r. r.0) walked);
        evidence = from_tree-ReadEvidence id found root tree t₄ member e₄;
      }

  -- Every member that is read was admitted.
  pub read_member-IsAdmitted :
      (requirement : Requirement) (id : String) (t : ℕ) (member : DependencyMember)
      → (read_member reader workspace requirement id t).0 ≡ inl member
      → IsAdmitted requirement id member
  unfolding read_member
  read_member-IsAdmitted requirement id t member e =
      let find = λ (t : ℕ). workspace.find_requirements_by_requirement_id t id in
      let (matches, t₁, asked, e₁) = after-inl (ask find t) _ member e in
      let (found, t₂, is_only, e₂) = after-inl (the_only id matches, t₁) _ member e₁ in
      let f = from_found-Founded requirement id found t₂ member e₂ in
      record {
        found = found;
        found_at = t;
        only =
            ask-inl find t matches (ap (λ r. r.0) asked)
            ∙ ap ok (the_only-inl id matches found (ap (λ r. r.0) is_only));
        standard = f.standard;
        same_project = f.project;
        root = f.root;
        attached_at = f.attached_at;
        one_root = f.rooted;
        tree = f.tree;
        walked_at = f.walked_at;
        walked = f.walked;
        process_text = f.evidence.processed.content;
        result = f.evidence.result;
        newest_process = f.evidence.processed.newest;
        parsed = f.evidence.processed.is_parsed;
        review_text = f.evidence.text;
        newest_review = f.evidence.reviewed;
        certified = f.evidence.certified;
      }
