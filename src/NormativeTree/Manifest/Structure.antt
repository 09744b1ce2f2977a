-- ===== src/NormativeTree/Manifest/Structure.antt =====
-- `_validate_structure` of normative_tree.py: what a manifest that passes it is.
use sdlc.Base.{
  ℕ, zero, suc, String, ◌≡◌, refl, inl, inr, false, Option, none, some, List, [], ◌∷◌, All, length,
  arith, Bool-cases, Option-cases, eq_iff,
}
use sdlc.NormativeTree.{listed}
use sdlc.NormativeTree.Scan.{NoRepeat}
use sdlc.NormativeTree.Manifest.{
  TreeEntry, TreeManifest, StructureProblem, repeated_id, wrong_root, bad_chain, document_ids,
  repeats, entry_of, roots_of, jump, up, climb, chains, wrong_roots, validate_structure,
}

-- The parents of an entry lead, through entries, to one without a parent.
pub data ReachesRoot (entries : List TreeEntry) : TreeEntry → Type 0 where
  at_root : {e : TreeEntry} → e.parent_document_id ≡ none → ReachesRoot entries e
  under :
      {e above : TreeEntry} (parent : String)
      → e.parent_document_id ≡ some parent
      → entry_of parent entries ≡ some above
      → ReachesRoot entries above
      → ReachesRoot entries e

some_problem : (p : StructureProblem) → ◌≡◌ {A = Option StructureProblem} (some p) none → ⊥
some_problem p e = cc

repeats-NoRepeat : (ids : List String) → repeats ids ≡ false → NoRepeat ids
unfolding repeats
repeats-NoRepeat [] e = tt
repeats-NoRepeat (id ∷ ids) e = (ground arith, repeats-NoRepeat ids (ground arith))

module _ (entries : List TreeEntry) (origin : String) where
  jump-ReachesRoot :
      (next : TreeEntry → List String → Option StructureProblem) (current : TreeEntry)
      (parent : String) (found : Option TreeEntry) (seen : List String)
      → current.parent_document_id ≡ some parent
      → entry_of parent entries ≡ found
      → ((above : TreeEntry) (s : List String) → next above s ≡ none → ReachesRoot entries above)
      → jump entries origin next current found seen ≡ none
      → ReachesRoot entries current
  unfolding jump
  jump-ReachesRoot next current parent none seen p f h e =
      absurd (some_problem (bad_chain origin) e)
  jump-ReachesRoot next current parent (some above) seen p f h e =
      elim (Bool-cases (listed current.document_id seen)) [
        | inl cycle ↦ absurd (some_problem (bad_chain origin) (rw cycle at e))
        | inr new ↦ under parent p f (h above (current.document_id ∷ seen) (rw new at e))
      ]

  up-ReachesRoot :
      (next : TreeEntry → List String → Option StructureProblem) (current : TreeEntry)
      (parent : Option String) (seen : List String)
      → current.parent_document_id ≡ parent
      → ((above : TreeEntry) (s : List String) → next above s ≡ none → ReachesRoot entries above)
      → up entries origin next current parent seen ≡ none
      → ReachesRoot entries current
  unfolding up
  up-ReachesRoot next current none seen p h e = at_root p
  up-ReachesRoot next current (some parent) seen p h e =
      jump-ReachesRoot next current parent (entry_of parent entries) seen p refl h e

  climb-ReachesRoot :
      (fuel : ℕ) (current : TreeEntry) (seen : List String)
      → climb entries origin fuel current seen ≡ none
      → ReachesRoot entries current
  unfolding climb
  climb-ReachesRoot zero current seen e = absurd (some_problem StructureProblem.endless e)
  climb-ReachesRoot (suc fuel) current seen e =
      up-ReachesRoot (climb entries origin fuel) current current.parent_document_id seen refl
        (λ above s h. climb-ReachesRoot fuel above s h) e

chains-ReachesRoot :
    (entries rest : List TreeEntry) → chains entries rest ≡ none → All (ReachesRoot entries) rest
unfolding chains
chains-ReachesRoot entries [] h = tt
chains-ReachesRoot entries (e ∷ rest) h =
    elim (Option-cases (climb entries e.document_id (suc (length entries)) e [])) [
      | inl fine ↦ (
        climb-ReachesRoot entries e.document_id (suc (length entries)) e [] fine,
        chains-ReachesRoot entries rest (rw fine at h),
      )
      | inr (problem, found) ↦ absurd (some_problem problem (rw found at h))
    ]

one_root :
    (root : String) (roots : List TreeEntry)
    → wrong_roots root roots ≡ false
    → (e : TreeEntry) × (roots ≡ e ∷ []) × (e.document_id ≡ root)
unfolding wrong_roots
one_root root [] h = cc
one_root root (e ∷ []) h = (e, refl, ground (arith, eq_iff e.document_id root))
one_root root (e ∷ f ∷ more) h = cc

-- A manifest that passes lists no Document id twice, has exactly one entry without a parent, which
-- is the declared Root, and the parents of every entry lead to an entry without a parent.
pub validate_structure-none :
    (manifest : TreeManifest)
    → validate_structure manifest ≡ none
    → NoRepeat (document_ids manifest.entries)
      × ((e : TreeEntry) × (roots_of manifest.entries ≡ e ∷ [])
          × (e.document_id ≡ manifest.root_document_id))
      × All (ReachesRoot manifest.entries) manifest.entries
unfolding validate_structure
validate_structure-none manifest h = elim (Bool-cases (repeats (document_ids manifest.entries))) [
  | inl twice ↦ absurd (some_problem repeated_id (rw twice at h))
  | inr once ↦
      elim (Bool-cases (wrong_roots manifest.root_document_id (roots_of manifest.entries))) [
        | inl wrong ↦ absurd (some_problem wrong_root (rw (once, wrong) at h))
        | inr right ↦ (
          repeats-NoRepeat (document_ids manifest.entries) once,
          one_root manifest.root_document_id (roots_of manifest.entries) right,
          chains-ReachesRoot manifest.entries manifest.entries (rw (once, right) at h),
        )
      ]
]
