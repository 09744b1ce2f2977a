-- ===== src/NormativeTree/Manifest/Chains.antt =====
-- `_validate_structure` of normative_tree.py ends: the parents of an entry are climbed in at most one
-- round more than there are entries.
use mathlib.Core.Option.{some-injective}
use sdlc.Base.{
  ℕ, zero, suc, ◌+◌, ◌≤◌, String, ◌≡◌, ◌≢◌, refl, sym, ap, ◌∙◌, inl, inr, Bool, true, false, Option,
  none, some, List, [], ◌∷◌, All, length, arith, Bool-cases, eq_iff, eq_refl, if◌then◌else◌, ◌==◌,
}
use sdlc.NormativeTree.{listed}
use sdlc.NormativeTree.Scan.{NoRepeat}
use sdlc.NormativeTree.Manifest.{
  TreeEntry, TreeManifest, StructureProblem, endless, document_ids, repeats, entry_of, roots_of,
  jump, up, climb, or_rest, chains, wrong_roots, validate_structure,
}

-- The ids without the first occurrence of one of them.
abbrev without : String → List String → List String
without x [] = []
without x (y ∷ ys) = let rest = without x ys in if y == x then ys else y ∷ rest

without-length :
    (x : String) (ys : List String) → listed x ys ≡ true → length ys ≡ suc (length (without x ys))
without-length x [] e = cc
without-length x (y ∷ ys) e = elim (Bool-cases (y == x)) [
  | inl same ↦ rw same refl
  | inr other ↦
      let there : listed x ys ≡ true = ground arith in rw other (ap suc (without-length x ys there))
]

without-listed :
    (x z : String) (ys : List String) → listed z ys ≡ true → z ≢ x → listed z (without x ys) ≡ true
without-listed x z [] e ne = cc
without-listed x z (y ∷ ys) e ne = elim (Bool-cases (y == x)) [
  | inl same ↦
      let y_is : y ≡ x = (eq_iff y x).0 same in
      let other : (y == z) ≡ false = not_same y z (λ h. ne (sym h ∙ y_is)) in
      rw same (rw other at e)
  | inr other ↦ elim (Bool-cases (y == z)) [
    | inl found ↦ rw (other, found) refl
    | inr later ↦ rw (other, later) (without-listed x z ys (rw later at e) ne)
  ]
]
  where
    not_same : (a b : String) → a ≢ b → (a == b) ≡ false
    not_same a b ne' = elim (Bool-cases (a == b)) [
      | inl t ↦ absurd (ne' ((eq_iff a b).0 t))
      | inr f ↦ f
    ]

abbrev AllListed : List String → List String → Type 0
AllListed ids xs = All (λ z. listed z ids ≡ true) xs

all_without :
    (x : String) (xs ids : List String)
    → listed x xs ≡ false
    → AllListed ids xs
    → AllListed (without x ids) xs
all_without x [] ids e h = tt
all_without x (z ∷ xs) ids e h = elim (Bool-cases (z == x)) [
  | inl same ↦ absurd (never (rw same at e))
  | inr other ↦ (
    without-listed x z ids h.0 (λ same. unequal z x other same),
    all_without x xs ids (rw other at e) h.1,
  )
]
  where
    never : ◌≡◌ {A = Bool} true false → ⊥
    never h = cc

    unequal : (a b : String) → (a == b) ≡ false → a ≡ b → ⊥
    unequal a b f same = let t = (eq_iff a b).1 same in cc

-- Different ids out of a list are not more than the list has.
different_few : (xs ids : List String) → NoRepeat xs → AllListed ids xs → length xs ≤ length ids
different_few [] ids fresh all = omega arith
different_few (x ∷ xs) ids fresh all =
    let fewer = different_few xs (without x ids) fresh.1 (all_without x xs ids fresh.0 all.1) in
    omega (arith, without-length x ids all.0, fewer)

entry_of-listed :
    (parent : String) (entries : List TreeEntry) (above : TreeEntry)
    → entry_of parent entries ≡ some above
    → listed above.document_id (document_ids entries) ≡ true
unfolding entry_of
entry_of-listed parent [] above h = cc
entry_of-listed parent (e ∷ entries) above h = elim (Bool-cases (e.document_id == parent)) [
  | inl here_now ↦
      let same : e ≡ above = some-injective e above (rw here_now at h) in
      rw (ap (λ x. x.document_id) same, eq_refl above.document_id) refl
  | inr there ↦ elim (Bool-cases (e.document_id == above.document_id)) [
    | inl t ↦ rw t refl
    | inr f ↦ rw f (entry_of-listed parent entries above (rw there at h))
  ]
]

module _ (entries : List TreeEntry) (origin : String) where
  abbrev Climbs : ℕ → TreeEntry → List String → Type 0
  Climbs fuel current seen =
      NoRepeat seen
      × AllListed (document_ids entries) seen
      × (listed current.document_id (document_ids entries) ≡ true)
      × (suc (length (document_ids entries)) ≤ fuel + length seen)

  jump-ends :
      (fuel : ℕ) (next : TreeEntry → List String → Option StructureProblem) (current : TreeEntry)
      (parent : String) (found : Option TreeEntry) (seen : List String)
      → entry_of parent entries ≡ found
      → ((above : TreeEntry) (s : List String) → Climbs fuel above s → next above s ≢ some endless)
      → Climbs (suc fuel) current seen
      → jump entries origin next current found seen ≢ some endless
  unfolding jump
  jump-ends fuel next current parent none seen f h climbing = λ e. cc
  jump-ends fuel next current parent (some above) seen f h (fresh, all, is, enough) =
      elim (Bool-cases (listed current.document_id seen)) [
        | inl cycle ↦ rw cycle (λ e. cc)
        | inr new ↦ rw new (
            h above (current.document_id ∷ seen) (
              (new, fresh),
              (is, all),
              entry_of-listed parent entries above f,
              omega (arith, enough),
            ))
      ]

  up-ends :
      (fuel : ℕ) (next : TreeEntry → List String → Option StructureProblem) (current : TreeEntry)
      (parent : Option String) (seen : List String)
      → ((above : TreeEntry) (s : List String) → Climbs fuel above s → next above s ≢ some endless)
      → Climbs (suc fuel) current seen
      → up entries origin next current parent seen ≢ some endless
  unfolding up
  up-ends fuel next current none seen h climbing = λ e. cc
  up-ends fuel next current (some parent) seen h climbing =
      jump-ends fuel next current parent (entry_of parent entries) seen refl h climbing

  climb-ends :
      (fuel : ℕ) (current : TreeEntry) (seen : List String)
      → Climbs fuel current seen
      → climb entries origin fuel current seen ≢ some endless
  unfolding climb
  climb-ends zero current seen (fresh, all, is, enough) =
      absurd (too_many (different_few seen (document_ids entries) fresh all) enough)
    where
      too_many :
          length seen ≤ length (document_ids entries)
          → suc (length (document_ids entries)) ≤ 0 + length seen
          → ⊥
      too_many a b = omega arith
  climb-ends (suc fuel) current seen climbing =
      up-ends fuel (climb entries origin fuel) current current.parent_document_id seen
        (λ above s more. climb-ends fuel above s more) climbing

ids-length : (entries : List TreeEntry) → length (document_ids entries) ≡ length entries
ids-length [] = refl
ids-length (e ∷ entries) = ap suc (ids-length entries)

or_rest-ends :
    (first rest : Option StructureProblem)
    → first ≢ some endless
    → rest ≢ some endless
    → or_rest first rest ≢ some endless
or_rest-ends none rest a b = b
or_rest-ends (some problem) rest a b = a

chains-ends :
    (entries rest : List TreeEntry)
    → AllListed (document_ids entries) (document_ids rest)
    → chains entries rest ≢ some endless
unfolding chains
chains-ends entries [] all = λ e. cc
chains-ends entries (e ∷ rest) all =
    or_rest-ends (climb entries e.document_id (suc (length entries)) e []) (chains entries rest)
      (climb-ends entries e.document_id (suc (length entries)) e []
        (tt, tt, all.0, omega (arith, ids-length entries)))
      (chains-ends entries rest all.1)

listed_more : (y : String) (ids xs : List String) → AllListed ids xs → AllListed (y ∷ ids) xs
listed_more y ids [] h = tt
listed_more y ids (z ∷ xs) h =
    (elim (Bool-cases (y == z)) [ inl t ↦ rw t refl | inr f ↦ rw f h.0 ], listed_more y ids xs h.1)

listed_self : (ids : List String) → AllListed ids ids
listed_self [] = tt
listed_self (id ∷ ids) = (rw (eq_refl id) refl, listed_more id ids ids (listed_self ids))

-- The validation of a manifest's structure always ends: the loop up the parents of an entry never
-- needs more than one round more than there are entries.
pub validate_structure-ends : (manifest : TreeManifest) → validate_structure manifest ≢ some endless
unfolding validate_structure
validate_structure-ends manifest = elim (Bool-cases (repeats (document_ids manifest.entries))) [
  | inl twice ↦ rw twice (λ e. cc)
  | inr once ↦
      elim (Bool-cases (wrong_roots manifest.root_document_id (roots_of manifest.entries))) [
        | inl wrong ↦ rw (once, wrong) (λ e. cc)
        | inr right ↦
            rw (once, right)
              (chains-ends manifest.entries manifest.entries
                (listed_self (document_ids manifest.entries)))
      ]
]
