-- ===== src/NormativeTree/Manifest/Observed.antt =====
-- src/sdlc/normative_tree.py: the manifest that `read_normative_tree` returns with its Documents. The
-- fingerprint of a body is a parameter.
pub mod Order
pub mod Valid
pub mod Passes
use Prim.Native.String.{compare}
use text.Mathlib.Text.{is_lt}
use sdlc.Base.{String, List, [], ◌∷◌, map, if◌then◌else◌}
use sdlc.NormativeTree.{DocumentNode, NormativeDocument, NormativeTree}
use sdlc.NormativeTree.Manifest.{TreeEntry, TreeManifest}

-- `sorted(entries, key=_entry_key)`
unfoldable pub insert_entry : TreeEntry → List TreeEntry → List TreeEntry
insert_entry e [] = e ∷ []
insert_entry e (f ∷ fs) =
    let rest = insert_entry e fs in
    if is_lt (compare f.document_id e.document_id) then f ∷ rest else e ∷ f ∷ fs

unfoldable pub sorted_entries : List TreeEntry → List TreeEntry
unfolding insert_entry
sorted_entries [] = []
sorted_entries (e ∷ es) = insert_entry e (sorted_entries es)

module _ (document_fingerprint : String → String) where
  abbrev pub entry_for : NormativeDocument → TreeEntry
  entry_for d = record {
    document_id = d.node.id;
    parent_document_id = d.parent;
    name = d.node.name;
    content_fingerprint = document_fingerprint d.body;
  }

  unfoldable pub manifest_of_tree : String → DocumentNode → NormativeTree → TreeManifest
  unfolding sorted_entries
  manifest_of_tree owner root tree = record {
    requirement_id = owner;
    root_document_id = root.id;
    entries = sorted_entries (map entry_for tree.documents);
    version = 2;
  }
