-- ===== src/Tests/Dependent.antt =====
-- A Requirement P-FR-2 that depends on P-FR-3, their Documents, and a workspace that holds them.
use sdlc.Base.{String, inl, none, some, List, [], ◌∷◌, if◌then◌else◌, ◌==◌}
use sdlc.Fibery.{ok, failed, Requirement}
use sdlc.NormativeTree.{DocumentNode, TreeWorkspace}
use sdlc.NormativeTree.Manifest.{TreeManifest}
use sdlc.Evidence.{
  ProcessResult, DependencyBinding, proposed, depends_on, RelationVerification, confirmed,
  ReviewResult, clear, Reader,
}
use sdlc.Dependencies.{DependencyWorkspace, DependencyMember, RequirementRelations}
use sdlc.Dependencies.Closure.{Members}
use sdlc.Apply.{Write, added_edge, wrote_state, Resolutions, ApplyWorkspace}
use sdlc.Tests.Samples.{project}

abbrev standard : String → String → String → Requirement
standard entity id state = record {
  id = entity;
  public_id = entity;
  requirement_id = some id;
  title = none;
  type_name = some "Standard";
  state = some state;
  revision = some 1;
  project_id = some "p1";
  source_fingerprint = none;
  category = none;
  processing_status = none;
}

abbrev pub login : Requirement
login = standard "e2" "P-FR-0002" "Apply"

abbrev pub session : Requirement
session = standard "e3" "P-FR-0003" "Applied"

abbrev document : String → String → DocumentNode
document id name = record {
  id = id;
  name = name;
  folder_id = none;
  entity_public_id = none;
  secret = some id;
  parent_document_id = none;
}

abbrev pub login_root : DocumentNode
login_root = document "d2" "Login"

abbrev session_root : DocumentNode
session_root = document "d3" "Session"

abbrev pub login_artifacts : List DocumentNode
login_artifacts =
    document "p2" "P-FR-0002 — Process Result 0001"
    ∷ document "r2" "P-FR-0002 — Review Result 0001"
    ∷ []

abbrev session_artifacts : List DocumentNode
session_artifacts =
    document "p3" "P-FR-0003 — Process Result 0001"
    ∷ document "r3" "P-FR-0003 — Review Result 0001"
    ∷ []

abbrev wiki : TreeWorkspace
wiki = record {
  child_documents = λ t id.
      ok (if id == "d2" then login_artifacts else if id == "d3" then session_artifacts else []);
  read_document_content = λ t secret. ok secret;
}

abbrev tree_of : String → String → TreeManifest
tree_of id root = record { requirement_id = id; root_document_id = root; entries = []; version = 2 }

abbrev pub processed : String → String → ProcessResult
processed id root = record {
  requirement_id = id;
  iteration = 1;
  output_fingerprint = "output";
  version = "0.6";
  input_tree = some (tree_of id root);
  output_tree = some (tree_of id root);
  product_questions = some [];
  rework_brief = none;
  rework_responses = [];
  resolutions = [];
  autonomy_policy = none;
}

abbrev first_format : ProcessResult
first_format = record (processed "P-FR-0002" "d2") {
  version = "0.1";
  input_tree = none;
  output_tree = none;
}

abbrev pub bound : DependencyBinding
bound = record {
  requirement_id = "P-FR-0003";
  entity_id = "e3";
  origin = proposed;
  tree_fingerprint = "d3";
  review_iteration = 1;
  review_digest = "r3";
}

abbrev reviewed :
    String → String → List RelationVerification → List DependencyBinding → ReviewResult
reviewed id root verifications bindings = record {
  requirement_id = id;
  iteration = 1;
  reviewed_document_fingerprint = root;
  reviewed_process_iteration = 1;
  reviewed_process_output_fingerprint = "output";
  version = "0.7";
  reviewed_tree = some (tree_of id root);
  relation_verifications = verifications;
  dependency_bindings = bindings;
  reviewed_product_questions = some [];
  what_status = some clear;
  reviewed_brief_identity = none;
  reviewed_rework_responses = [];
  reviewed_resolutions = [];
  reviewed_autonomy_policy = none;
}

abbrev pub login_review : ReviewResult
login_review =
    reviewed "P-FR-0002" "d2"
      (record { kind = depends_on; requirement_id = "P-FR-0003"; outcome = confirmed; reason = "" }
        ∷ [])
      (bound ∷ [])

abbrev pub session_review : ReviewResult
session_review = reviewed "P-FR-0003" "d3" [] []

abbrev pub reader : Reader
reader = record {
  digest = λ manifest. manifest.root_document_id;
  document_fingerprint = λ text. text;
  parse_process_result = λ text.
      if text == "p2"
      then some (processed "P-FR-0002" "d2")
      else if text == "old"
      then some first_format
      else if text == "p3"
      then some (processed "P-FR-0003" "d3")
      else none;
  parse_review_result = λ text.
      if text == "r2"
      then some login_review
      else if text == "r3"
      then some session_review
      else none;
  read_confirmed_relation_mirror =
      λ text. if text == "r2" then some ((depends_on, "P-FR-0003") ∷ []) else some [];
}

abbrev related : List String → RequirementRelations
related ids = record { depends_on = ids; affects = [] }

abbrev pub workspace : List String → DependencyWorkspace
workspace login_edges = record {
  tree = wiki;
  find_requirements_by_requirement_id = λ t id.
      ok (if id == "P-FR-0002" then login ∷ [] else if id == "P-FR-0003" then session ∷ [] else []);
  documents_attached_to_requirement = λ t id.
      ok (if id == "e2" then login_root ∷ [] else if id == "e3" then session_root ∷ [] else []);
  requirement_relations = λ t id. ok (related (if id == "e2" then login_edges else []));
}

abbrev pub member : DependencyMember
member = record {
  found = session;
  tree_fingerprint = "d3";
  review = session_review;
  review_digest = "r3";
}

abbrev pub members : Members
members = ("P-FR-0003", member) ∷ []

-- The ids of the targets of the edges that were added.
abbrev edges_after : List Write → List String
edges_after [] = []
edges_after (added_edge kind id target (ok _) ∷ ws) = "P-FR-0003" ∷ edges_after ws
edges_after (added_edge kind id target (failed e) ∷ ws) = edges_after ws
edges_after (wrote_state id state answer ∷ ws) = edges_after ws

abbrev state_after : List Write → Requirement
state_after [] = login
state_after (wrote_state id state (ok _) ∷ ws) = record login { state = some state }
state_after (_ ∷ ws) = state_after ws

abbrev pub store : ApplyWorkspace
store = record {
  reads = λ ws. workspace (edges_after ws);
  read_requirement = λ ws t id. ok (if id == "e2" then some (state_after ws) else none);
  read_project = λ ws t id. ok (some project);
  add_edge = λ ws t kind id target. ok tt;
  set_requirement_state = λ ws t id state. ok tt;
}

-- After the first write the Process Result is one of version 0.1, which has no trees.
abbrev outdated : DependencyWorkspace → DependencyWorkspace
outdated reads = record reads {
  tree = record reads.tree {
    read_document_content = λ t secret. ok (if secret == "p2" then "old" else secret);
  };
}

abbrev later : List Write → DependencyWorkspace
later [] = workspace []
later (w ∷ ws) = outdated (workspace (edges_after (w ∷ ws)))

abbrev pub replaced : ApplyWorkspace
replaced = record store { reads = later }

abbrev pub resolutions : Resolutions
resolutions = λ ws processed reviewed id t. (inl tt, t)
