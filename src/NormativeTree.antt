-- ===== src/NormativeTree.antt =====
-- src/sdlc/normative_tree.py: the traversal `read_normative_tree` with its limits. Each read is answered by what the workspace holds at that moment: the moments are
-- numbered, and a read takes one. A NormativeTreeError is kept as its case with the ids it names.
pub mod Manifest
pub mod Scan
pub mod Walk
pub mod Rounds
use Prim.Native.String.{compare, count}
use text.Mathlib.Text.{is_lt}
use sdlc.Base.{
  ℕ, zero, suc, ◌+◌, String, ◌⊎◌, inl, inr, Bool, false, not, ◌||◌, Option, none, some, List, [],
  ◌∷◌, ◌++◌, map, length, ltb, if◌then◌else◌, ◌==◌,
}
use sdlc.Fibery.{Fallible, ok, failed}
use sdlc.ArtifactNames.{ArtifactKind, classify_artifact_name}
use sdlc.ProjectCode.{Text, codes, same_codes}

pub record DocumentNode : Type 0 where
  pub id : String
  pub name : String
  pub folder_id : Option String
  pub entity_public_id : Option String
  pub secret : Option String
  pub parent_document_id : Option String

abbrev pub max_depth : ℕ
max_depth = 16

abbrev pub max_documents : ℕ
max_documents = 100

abbrev pub max_text_chars : ℕ
max_text_chars = 400000

pub data NormativeTreeError : Type 0 where
  too_much_text : ℕ → NormativeTreeError
  listed_twice too_deep no_secret unreadable unlisted foreign_artifact : String → NormativeTreeError
  misplaced_artifact : String → NormativeTreeError
  too_many : ℕ → NormativeTreeError
  nested_under_artifact : List String → NormativeTreeError
  unfinished : NormativeTreeError

-- What the workspace answers at each moment.
pub record TreeWorkspace : Type 0 where
  pub child_documents : ℕ → String → Fallible (List DocumentNode)
  pub read_document_content : ℕ → String → Fallible String

abbrev pub Reading {ℓ} : Type ℓ → Type ℓ
Reading A = ℕ → (A ⊎ NormativeTreeError) × ℕ

module _ {ℓ} {A : Type ℓ} where
  abbrev pub return : A → Reading A
  return a t = (inl a, t)

  abbrev pub refuse : NormativeTreeError → Reading A
  refuse e t = (inr e, t)

module _ {ℓ κ} {A : Type ℓ} {B : Type κ} where
  abbrev after : (A ⊎ NormativeTreeError) × ℕ → (A → Reading B) → (B ⊎ NormativeTreeError) × ℕ
  after (inl a, t) f = f a t
  after (inr e, t) f = (inr e, t)

  infixl 5 ◌>>=◌
  abbrev pub ◌>>=◌ : Reading A → (A → Reading B) → Reading B
  m >>= f = λ t. after (m t) f

-- `sorted(children, key=lambda child: child.id)`
unfoldable pub insert : DocumentNode → List DocumentNode → List DocumentNode
insert d [] = d ∷ []
insert d (e ∷ es) =
    let rest = insert d es in if is_lt (compare e.id d.id) then e ∷ rest else d ∷ e ∷ es

unfoldable pub sorted_by_id : List DocumentNode → List DocumentNode
unfolding insert
sorted_by_id [] = []
sorted_by_id (d ∷ ds) = insert d (sorted_by_id ds)

abbrev pub listed : String → List String → Bool
listed id [] = false
listed id (x ∷ xs) = x == id || listed id xs

pub record NormativeDocument : Type 0 where
  pub node : DocumentNode
  pub parent : Option String
  pub depth : ℕ
  pub body : String

-- An item of the queue.
pub record Queued : Type 0 where
  pub node : DocumentNode
  pub parent : Option String
  pub depth : ℕ

pub record NormativeTree : Type 0 where
  pub documents : List NormativeDocument
  pub artifacts : List DocumentNode

-- What the loop over the children of one Document adds.
pub record Scanned : Type 0 where
  pub artifacts : List DocumentNode
  pub added : List Queued
  pub visited : List String

abbrev pub secret_of : DocumentNode → String
secret_of node = elim node.secret [ none ↦ "" | some secret ↦ secret ]

module _ (workspace : TreeWorkspace) where
  abbrev answered : {A : Type 0} → NormativeTreeError → Fallible A → A ⊎ NormativeTreeError
  answered e (failed _) = inr e
  answered e (ok a) = inl a

  -- `_read_body`
  unfoldable pub read_body : DocumentNode → Reading String
  read_body node t = if secret_of node == "" then (inr (no_secret node.id), t) else (
    answered (unreadable node.id) (workspace.read_document_content t (secret_of node)),
    suc t,
  )

  abbrev sorted_answer : Fallible (List DocumentNode) → Fallible (List DocumentNode)
  unfolding sorted_by_id
  sorted_answer (failed e) = failed e
  sorted_answer (ok ds) = ok (sorted_by_id ds)

  -- `_children`
  unfoldable pub children_of : DocumentNode → Reading (List DocumentNode)
  unfolding sorted_by_id
  children_of node t =
      (answered (unlisted node.id) (sorted_answer (workspace.child_documents t node.id)), suc t)

  module _ (owner : String) (root : DocumentNode) where
    abbrev no_nested : List DocumentNode → Reading (Unit {0})
    no_nested [] = return tt
    no_nested (d ∷ ds) = refuse (nested_under_artifact (map (λ n. n.id) (d ∷ ds)))

    -- `_admit_artifact`
    unfoldable pub admit_artifact : DocumentNode → DocumentNode → Text → Reading (Unit {0})
    unfolding children_of codes
    admit_artifact parent child artifact_owner =
        if not (same_codes artifact_owner (codes owner))
        then refuse (foreign_artifact child.id)
        else if not (parent.id == root.id)
        then refuse (misplaced_artifact child.id)
        else (do nested ← children_of child; no_nested nested)

    abbrev with_artifact : DocumentNode → Scanned → Scanned
    with_artifact child s = record s { artifacts = child ∷ s.artifacts }

    abbrev with_added : Queued → Scanned → Scanned
    with_added item s = record s { added = item ∷ s.added }

    abbrev below : DocumentNode → ℕ → DocumentNode → Queued
    below node depth child = record { node = child; parent = some node.id; depth = suc depth }

    scan_child :
        DocumentNode
        → ℕ
        → DocumentNode
        → Option (Text × ArtifactKind)
        → List String
        → (List String → Reading Scanned)
        → Reading Scanned
    unfolding admit_artifact
    scan_child node depth child (some (artifact_owner, kind)) visited next = do
      _ ← admit_artifact node child artifact_owner
      rest ← next visited
      return (with_artifact child rest)
    scan_child node depth child none visited next =
        if listed child.id visited
        then refuse (listed_twice child.id)
        else if ltb max_depth (suc depth)
        then refuse (too_deep child.id)
        else if ltb max_documents (suc (length visited))
        then refuse (too_many (suc (length visited)))
        else (do
          rest ← next (child.id ∷ visited)
          return (with_added (below node depth child) rest))

    -- The loop over the children of a Document.
    unfoldable pub scan : DocumentNode → ℕ → List DocumentNode → List String → Reading Scanned
    unfolding scan_child classify_artifact_name
    scan node depth [] visited = return (record { artifacts = []; added = []; visited = visited })
    scan node depth (child ∷ children) visited =
        scan_child node depth child (classify_artifact_name child.name) visited
          (scan node depth children)

    abbrev document_of : Queued → String → NormativeDocument
    document_of item body = record {
      node = item.node;
      parent = item.parent;
      depth = item.depth;
      body = body;
    }

    abbrev add_document : NormativeDocument → List DocumentNode → NormativeTree → NormativeTree
    add_document document artifacts rest = record {
      documents = document ∷ rest.documents;
      artifacts = artifacts ++ rest.artifacts;
    }

    abbrev pub chars_of : DocumentNode → String → ℕ
    chars_of node body = count node.name + count body

    -- One round of the loop over the queue, once its body is read.
    visit :
        Queued
        → List Queued
        → List String
        → ℕ
        → String
        → (List Queued → List String → ℕ → Reading NormativeTree)
        → Reading NormativeTree
    unfolding scan children_of
    visit item queue visited chars body next =
        let text_chars = chars + chars_of item.node body in
        if ltb max_text_chars text_chars then refuse (too_much_text text_chars) else (do
          children ← children_of item.node
          scanned ← scan item.node item.depth children visited
          rest ← next (queue ++ scanned.added) scanned.visited text_chars
          return (add_document (document_of item body) scanned.artifacts rest))

    -- The loop over the queue, for at most so many rounds.
    unfoldable pub walk : ℕ → List Queued → List String → ℕ → Reading NormativeTree
    unfolding visit read_body
    walk fuel [] visited chars = return (record { documents = []; artifacts = [] })
    walk zero (item ∷ queue) visited chars = refuse unfinished
    walk (suc fuel) (item ∷ queue) visited chars = do
      body ← read_body item.node
      visit item queue visited chars body (walk fuel)

    -- As many rounds as Documents are allowed.
    unfoldable pub read_normative_tree : Reading NormativeTree
    unfolding walk
    read_normative_tree =
        walk max_documents (record { node = root; parent = none; depth = 0 } ∷ []) (root.id ∷ []) 0
