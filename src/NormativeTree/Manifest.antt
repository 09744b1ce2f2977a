-- ===== src/NormativeTree/Manifest.antt =====
-- src/sdlc/normative_tree.py: `TreeManifest` and `_validate_structure`. The fingerprint of a body is
-- a text that the manifest holds; how it is made is not modelled.
pub mod Structure
pub mod Chains
pub mod Observed
pub mod Drift
use sdlc.Base.{
  ℕ, zero, suc, String, Bool, true, false, not, ◌||◌, Option, none, some, List, [], ◌∷◌, map,
  length, if◌then◌else◌, ◌==◌,
}
use sdlc.NormativeTree.{listed}

pub record TreeEntry : Type 0 where
  pub document_id : String
  pub parent_document_id : Option String
  pub name : String
  pub content_fingerprint : String

pub record TreeManifest : Type 0 where
  pub requirement_id : String
  pub root_document_id : String
  pub entries : List TreeEntry
  pub version : ℕ

-- Why `InvalidTreeManifest` is raised by the structure.
pub data StructureProblem : Type 0 where
  repeated_id wrong_root : StructureProblem
  bad_chain : String → StructureProblem
  endless : StructureProblem

abbrev pub document_ids : List TreeEntry → List String
document_ids entries = map (λ e. e.document_id) entries

-- `len(set(ids)) != len(ids)`
unfoldable pub repeats : List String → Bool
repeats [] = false
repeats (id ∷ ids) = listed id ids || repeats ids

-- `by_id[id]`
unfoldable pub entry_of : String → List TreeEntry → Option TreeEntry
entry_of id [] = none
entry_of id (e ∷ entries) = if e.document_id == id then some e else entry_of id entries

abbrev is_root : Option String → Bool
is_root none = true
is_root (some parent) = false

unfoldable pub roots_of : List TreeEntry → List TreeEntry
roots_of [] = []
roots_of (e ∷ entries) =
    let rest = roots_of entries in if is_root e.parent_document_id then e ∷ rest else rest

module _ (entries : List TreeEntry) (origin : String) where
  jump :
      (TreeEntry → List String → Option StructureProblem)
      → TreeEntry
      → Option TreeEntry
      → List String
      → Option StructureProblem
  jump next current none seen = some (bad_chain origin)
  jump next current (some above) seen =
      if listed current.document_id seen
      then some (bad_chain origin)
      else next above (current.document_id ∷ seen)

  up :
      (TreeEntry → List String → Option StructureProblem)
      → TreeEntry
      → Option String
      → List String
      → Option StructureProblem
  unfolding jump entry_of
  up next current none seen = none
  up next current (some parent) seen = jump next current (entry_of parent entries) seen

  -- The `while` loop up the parents, for at most so many rounds.
  unfoldable pub climb : ℕ → TreeEntry → List String → Option StructureProblem
  unfolding up
  climb zero current seen = some endless
  climb (suc fuel) current seen = up (climb fuel) current current.parent_document_id seen

abbrev or_rest : Option StructureProblem → Option StructureProblem → Option StructureProblem
or_rest none rest = rest
or_rest (some problem) rest = some problem

-- The `for` loop: one round more than there are entries is enough for each chain.
unfoldable pub chains : List TreeEntry → List TreeEntry → Option StructureProblem
unfolding climb
chains entries [] = none
chains entries (e ∷ rest) =
    or_rest (climb entries e.document_id (suc (length entries)) e []) (chains entries rest)

wrong_roots : String → List TreeEntry → Bool
wrong_roots root [] = true
wrong_roots root (e ∷ []) = not (e.document_id == root)
wrong_roots root (e ∷ f ∷ more) = true

-- `_validate_structure`
unfoldable pub validate_structure : TreeManifest → Option StructureProblem
unfolding repeats roots_of wrong_roots chains
validate_structure manifest =
    if repeats (document_ids manifest.entries)
    then some repeated_id
    else if wrong_roots manifest.root_document_id (roots_of manifest.entries)
    then some wrong_root
    else chains manifest.entries manifest.entries
