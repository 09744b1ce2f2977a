-- ===== src/NormativeTree/Manifest/Drift.antt =====
-- src/sdlc/normative_tree.py: the fingerprint of a manifest and `describe_drift`. The digest of the
-- canonical JSON text is a parameter.
pub mod Dictionary
pub mod Kept
pub mod Named
pub mod Printed
use sdlc.Base.{
  String, Bool, true, false, Option, none, some, List, [], ◌∷◌, ◌++◌, same_text, if◌then◌else◌,
  ◌==◌,
}
use sdlc.NormativeTree.{listed}
use sdlc.NormativeTree.Manifest.{TreeEntry, TreeManifest, document_ids, entry_of}
use sdlc.NormativeTree.Manifest.Observed.{sorted_entries}

-- What `describe_drift` prints, with the values that the texts show.
pub data Drift : Type 0 where
  root_changed added removed reparented : String → String → Drift
  renamed : String → String → String → Drift
  content_changed : String → String → Drift
  tree_changed : Drift

-- `{e.document_id: e for e in entries}`: a later entry replaces an earlier one of its id.
unfoldable pub put_entry : TreeEntry → List TreeEntry → List TreeEntry
put_entry e [] = e ∷ []
put_entry e (f ∷ fs) =
    let rest = put_entry e fs in if f.document_id == e.document_id then e ∷ fs else f ∷ rest

unfoldable pub put_entries : List TreeEntry → List TreeEntry → List TreeEntry
unfolding put_entry
put_entries dict [] = dict
put_entries dict (e ∷ es) = put_entries (put_entry e dict) es

-- Its entries in the order of their ids, in which they are compared.
unfoldable pub by_document_id : List TreeEntry → List TreeEntry
unfolding put_entries sorted_entries
by_document_id entries = sorted_entries (put_entries [] entries)

-- The entries of a dictionary whose keys another one does not have.
unfoldable pub only_in : (TreeEntry → Drift) → List TreeEntry → List TreeEntry → List Drift
only_in say others [] = []
only_in say others (e ∷ es) =
    let rest = only_in say others es in
    if listed e.document_id (document_ids others) then rest else say e ∷ rest

abbrev pub unless : Bool → Drift → List Drift
unless true drift = []
unless false drift = drift ∷ []

unfoldable pub entry_drift : TreeEntry → TreeEntry → List Drift
entry_drift old new =
    unless (same_text old.parent_document_id new.parent_document_id)
      (reparented new.name new.document_id)
    ++ (unless (old.name == new.name) (renamed new.document_id old.name new.name)
        ++ unless (old.content_fingerprint == new.content_fingerprint)
            (content_changed new.name new.document_id))

unfoldable pub changed_to : TreeEntry → Option TreeEntry → List Drift
unfolding entry_drift
changed_to old none = []
changed_to old (some new) = entry_drift old new

unfoldable pub common_drift : List TreeEntry → List TreeEntry → List Drift
unfolding entry_of changed_to
common_drift after [] = []
common_drift after (old ∷ before) =
    changed_to old (entry_of old.document_id after) ++ common_drift after before

abbrev pub or_changed : List Drift → List Drift
or_changed [] = tree_changed ∷ []
or_changed (d ∷ ds) = d ∷ ds

module _ (digest : TreeManifest → String) where
  -- The digest of the canonical text, whose entries are sorted.
  unfoldable pub fingerprint : TreeManifest → String
  unfolding sorted_entries
  fingerprint manifest = digest (record {
    requirement_id = manifest.requirement_id;
    root_document_id = manifest.root_document_id;
    entries = sorted_entries manifest.entries;
    version = manifest.version;
  })

  unfoldable pub describe_drift : TreeManifest → TreeManifest → List Drift
  unfolding fingerprint by_document_id only_in common_drift
  describe_drift expected observed =
      let before = by_document_id expected.entries in
      let after = by_document_id observed.entries in
      if fingerprint expected == fingerprint observed
      then []
      else or_changed (
          unless (expected.root_document_id == observed.root_document_id)
            (root_changed expected.root_document_id observed.root_document_id)
          ++ (only_in (λ e. added e.name e.document_id) before after
              ++ (only_in (λ e. removed e.name e.document_id) after before
                  ++ common_drift after before)))
