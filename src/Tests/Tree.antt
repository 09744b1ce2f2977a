-- ===== src/Tests/Tree.antt =====
-- The traversal of a small normative tree: a Root with one child Document and one artifact.
use sdlc.Base.{List, ◌↔◌, ◌≢◌, refl, String, inr, none, some, [], ◌∷◌, if◌then◌else◌, ◌==◌}
use sdlc.Fibery.{ok}
use sdlc.NormativeTree.{DocumentNode, TreeWorkspace, NormativeTree, unfinished, read_normative_tree}
use sdlc.Base.{◌≡◌, Option, All}
use sdlc.ProjectCode.{codes, lstrip, rstrip}
use sdlc.ArtifactNames.{review_result, classify_artifact_name}
use sdlc.ArtifactNames.Form.{IsNameOf, classify_artifact_name-IsNameOf}
use sdlc.NormativeTree.Scan.{NoRepeat}
use sdlc.NormativeTree.Manifest.{
  TreeEntry, TreeManifest, endless, document_ids, roots_of, validate_structure,
}
use sdlc.NormativeTree.Manifest.Structure.{ReachesRoot, validate_structure-none}
use sdlc.NormativeTree.Manifest.Chains.{validate_structure-ends}
use sdlc.NormativeTree.Walk.Whole.{IsTree, read_normative_tree-IsTree}
use sdlc.NormativeTree.Manifest.Observed.{manifest_of_tree}
use sdlc.NormativeTree.Manifest.Observed.Passes.{read_normative_tree-validates}
use sdlc.NormativeTree.Manifest.Drift.{added, removed, reparented, fingerprint, describe_drift}
use sdlc.NormativeTree.Manifest.Drift.Named.{IsDrift, describe_drift-IsDrift}
use sdlc.NormativeTree.Manifest.Drift.Printed.{ArePrinted, describe_drift-ArePrinted}
use sdlc.NormativeTree.Rounds.{read_normative_tree-ends}

abbrev node : String → String → DocumentNode
node id name = record {
  id = id;
  name = name;
  folder_id = none;
  entity_public_id = none;
  secret = some id;
  parent_document_id = none;
}

abbrev top : DocumentNode
top = node "d1" "Login"

abbrev part : DocumentNode
part = node "d3" "Errors"

abbrev artifact : DocumentNode
artifact = node "d2" "P-FR-0012 — Process Result 0001"

abbrev wiki : TreeWorkspace
wiki = record {
  child_documents = λ t id. ok (if id == "d1" then part ∷ artifact ∷ [] else []);
  read_document_content = λ t secret. ok secret;
}

abbrev tree : NormativeTree
tree = record {
  documents =
      record { node = top; parent = none; depth = 0; body = "d1" }
      ∷ record { node = part; parent = some "d1"; depth = 1; body = "d3" }
      ∷ [];
  artifacts = artifact ∷ [];
}

read_normative_tree-IsTree_example : IsTree wiki "P-FR-0012" top tree
unfolding read_normative_tree
read_normative_tree-IsTree_example = read_normative_tree-IsTree wiki "P-FR-0012" top 0 tree refl

read_normative_tree-ends_example : (read_normative_tree wiki "P-FR-0012" top 0).0 ≢ inr unfinished
read_normative_tree-ends_example = read_normative_tree-ends wiki "P-FR-0012" top 0

classify_artifact_name-IsNameOf_example :
    IsNameOf (rstrip (lstrip (codes "P-1 — Review Result 0042 "))) (codes "P-1") review_result
unfolding classify_artifact_name codes
classify_artifact_name-IsNameOf_example =
    classify_artifact_name-IsNameOf "P-1 — Review Result 0042 " (codes "P-1") review_result refl

abbrev entry : String → Option String → TreeEntry
entry id parent = record {
  document_id = id;
  parent_document_id = parent;
  name = id;
  content_fingerprint = "f";
}

abbrev manifest : TreeManifest
manifest = record {
  requirement_id = "P-1";
  root_document_id = "d1";
  entries = entry "d1" none ∷ entry "d2" (some "d3") ∷ entry "d3" (some "d1") ∷ [];
  version = 2;
}

validate_structure-none_example :
    NoRepeat (document_ids manifest.entries)
    × ((e : TreeEntry) × (roots_of manifest.entries ≡ e ∷ [])
        × (e.document_id ≡ manifest.root_document_id))
    × All (ReachesRoot manifest.entries) manifest.entries
unfolding validate_structure
validate_structure-none_example = validate_structure-none manifest refl

validate_structure-ends_example : validate_structure manifest ≢ some endless
validate_structure-ends_example = validate_structure-ends manifest

read_normative_tree-validates_example :
    validate_structure (manifest_of_tree (λ body. body) "P-FR-0012" top tree) ≡ none
unfolding read_normative_tree
read_normative_tree-validates_example =
    read_normative_tree-validates (λ body. body) wiki "P-FR-0012" top 0 tree refl

abbrev moved : TreeManifest
moved = record {
  requirement_id = "P-1";
  root_document_id = "d1";
  entries = entry "d1" none ∷ entry "d2" (some "d1") ∷ entry "d4" (some "d1") ∷ [];
  version = 2;
}

-- A digest that tells these two manifests apart.
abbrev last_id : TreeManifest → String
last_id m = last m.entries
  where
    last : List TreeEntry → String
    last [] = ""
    last (e ∷ []) = e.document_id
    last (e ∷ f ∷ es) = last (f ∷ es)

drift-moved :
    describe_drift last_id manifest moved
    ≡ added "d4" "d4" ∷ removed "d3" "d3" ∷ reparented "d2" "d2" ∷ []
unfolding describe_drift
drift-moved = refl

describe_drift-IsDrift_example :
    ((describe_drift last_id manifest moved ≡ [])
      ↔ (fingerprint last_id manifest ≡ fingerprint last_id moved))
    × All (IsDrift last_id manifest moved) (describe_drift last_id manifest moved)
describe_drift-IsDrift_example = describe_drift-IsDrift last_id manifest moved

describe_drift-ArePrinted_example : ArePrinted last_id manifest moved
unfolding fingerprint validate_structure
describe_drift-ArePrinted_example =
    describe_drift-ArePrinted last_id manifest moved (validate_structure-none manifest refl).0
      (validate_structure-none moved refl).0 refl
