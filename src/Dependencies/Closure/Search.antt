-- ===== src/Dependencies/Closure/Search.antt =====
-- The depth-first search of dependency_evidence.py: what it keeps between two visits. The members that
-- are finished are kept in the reverse order of their end, so that each one's direct dependencies
-- come behind it.
use mathlib.Core.List.{Memᴰ}
use mathlib.Core.Path.{subst}
use sdlc.Base.{
  ℕ, ◌≤◌, ◌<◌, String, ◌≡◌, refl, sym, ap, ◌∙◌, ◌⊎◌, inl, inr, Bool, true, false, ◌||◌, some, List,
  [], ◌∷◌, ◌++◌, All, All-append, All-map, length, length-append, is_text, arith, Bool-cases,
  not_both, eq_iff, eq_refl, ◌==◌,
}
use sdlc.Fibery.{Requirement}
use sdlc.NormativeTree.{listed}
use sdlc.NormativeTree.Scan.{NoRepeat}
use sdlc.Dictionary.{keys, get}
use sdlc.Evidence.{Reader}
use sdlc.Dependencies.{DependencyWorkspace, DependencyMember, direct_ids}
use sdlc.Dependencies.Read.{read_member}
use sdlc.Dependencies.Closure.{Members, set_limit}

pub listed-append :
    (x : String) (xs ys : List String) → listed x (xs ++ ys) ≡ (listed x xs || listed x ys)
listed-append x [] ys = refl
listed-append x (y ∷ xs) ys =
    ap (λ b. y == x || b) (listed-append x xs ys) ∙ assoc (y == x) (listed x xs) (listed x ys)
  where
    assoc : (a b c : Bool) → (a || (b || c)) ≡ ((a || b) || c)
    assoc true b c = refl
    assoc false b c = refl

pub keys-append : (xs ys : Members) → keys (xs ++ ys) ≡ keys xs ++ keys ys
keys-append [] ys = refl
keys-append ((id, m) ∷ xs) ys = ap (λ l. id ∷ l) (keys-append xs ys)

pub get-append :
    (x : String) (m : DependencyMember) (xs ys : Members)
    → get x xs ≡ some m
    → get x (xs ++ ys) ≡ some m
unfolding get
get-append x m [] ys h = cc
get-append x m ((k, n) ∷ xs) ys h = elim (Bool-cases (k == x)) [
  | inl t ↦ rw t (rw t at h)
  | inr f ↦ rw f (get-append x m xs ys (rw f at h))
]

NoRepeat-last :
    (x : String) (xs : List String) → listed x xs ≡ false → NoRepeat xs → NoRepeat (xs ++ x ∷ [])
NoRepeat-last x [] new h = (refl, tt)
NoRepeat-last x (y ∷ xs) new h =
    let away : listed x xs ≡ false = ground arith in
    let apart : (x == y) ≡ false = other (ground arith) in
    let still : listed y (xs ++ x ∷ []) ≡ false =
      listed-append y xs (x ∷ []) ∙ rw (h.0, apart) refl in
    (still, NoRepeat-last x xs away h.1)
  where
    other : (y == x) ≡ false → (x == y) ≡ false
    other f = elim (Bool-cases (x == y)) [
      | inl t ↦ absurd (not_both ((eq_iff y x).1 (sym ((eq_iff x y).0 t))) f)
      | inr g ↦ g
    ]

pub key_of {ℓ} :
    (P : String → Type ℓ) (members : Members) (id : String)
    → All (λ e. P e.0) members
    → listed id (keys members) ≡ true
    → P id
key_of P [] id all h = cc
key_of P ((k, m) ∷ members) id all h = elim (Bool-cases (k == id)) [
  | inl t ↦ subst P ((eq_iff k id).0 t) all.0
  | inr f ↦ key_of P members id all.1 (rw f at h)
]

-- A dependency of the Requirement: a direct one, or a direct one of a dependency.
pub data Reached (direct : List String) (members : Members) : String → Type 0 where
  at_once : {id : String} → Memᴰ id direct → Reached direct members id
  through :
      {id dependency : String} (member : DependencyMember)
      → Reached direct members id
      → get id members ≡ some member
      → Memᴰ dependency (direct_ids member)
      → Reached direct members dependency

pub Reached-append :
    {direct : List String} {members : Members} (more : Members) {id : String}
    → Reached direct members id
    → Reached direct (members ++ more) id
Reached-append more (at_once m) = at_once m
Reached-append {members = members} more (through {id} member r got m) =
    through member (Reached-append more r) (get-append id member members more got) m

-- Each one's direct dependencies come behind it.
abbrev pub IsOrdered : Members → Type 0
IsOrdered [] = Unit
IsOrdered ((id, member) ∷ rest) =
    All (λ d. listed d (keys rest) ≡ true) (direct_ids member) × IsOrdered rest

module _ (reader : Reader) (workspace : DependencyWorkspace) (requirement : Requirement)
    (direct : List String) where
  -- A member is what was read under its id, at some moment.
  abbrev pub IsRead : String × DependencyMember → Type 0
  IsRead (id, member) =
      (t : ℕ) × (t' : ℕ) × (read_member reader workspace requirement id t ≡ (inl member, t'))

  pub record State (path : List String) (members order : Members) : Type 0 where
    pub finished : All (λ e. get e.0 members ≡ some e.1) order
    pub complete : All (λ e. (listed e.0 path ≡ true) ⊎ (listed e.0 (keys order) ≡ true)) members
    pub ordered : IsOrdered order
    pub without_own : All (λ e. is_text requirement.requirement_id e.0 ≡ false) members
    pub reached : All (λ e. Reached direct members e.0) members
    pub fresh : NoRepeat (keys members)
    pub few : length members ≤ set_limit
    pub read : All IsRead members

  pub State-empty : State [] [] []
  State-empty = record {
    finished = tt;
    complete = tt;
    ordered = tt;
    without_own = tt;
    reached = tt;
    fresh = tt;
    few = omega arith;
    read = tt;
  }

  -- A new member is put at the end, on the path.
  pub State-enter :
      (path : List String) (members order : Members) (id : String) (member : DependencyMember)
      → State path members order
      → listed id (keys members) ≡ false
      → is_text requirement.requirement_id id ≡ false
      → length members < set_limit
      → Reached direct members id
      → IsRead (id, member)
      → State (path ++ id ∷ []) (members ++ (id, member) ∷ []) order
  State-enter path members order id member s new other room reach read =
      let last = (id, member) ∷ [] in
      record {
        finished = All-map (λ e h. get-append e.0 e.1 members last h) order s.finished;
        complete =
            All-append _ members last (All-map (λ e h. on_path e.0 h) members s.complete)
              (inl (listed-append id path (id ∷ []) ∙ end (listed id path)), tt);
        ordered = s.ordered;
        without_own = All-append _ members last s.without_own (other, tt);
        reached =
            All-append _ members last (All-map (λ e r. Reached-append last r) members s.reached)
              (Reached-append last reach, tt);
        fresh =
            subst NoRepeat (sym (keys-append members last))
              (NoRepeat-last id (keys members) new s.fresh);
        few = omega (arith, length-append members last, room);
        read = All-append _ members last s.read (read, tt);
      }
    where
      on_path :
          (x : String)
          → (listed x path ≡ true) ⊎ (listed x (keys order) ≡ true)
          → (listed x (path ++ id ∷ []) ≡ true) ⊎ (listed x (keys order) ≡ true)
      on_path x (inl p) = inl (listed-append x path (id ∷ []) ∙ rw p refl)
      on_path x (inr o) = inr o

      end : (b : Bool) → (b || (id == id || false)) ≡ true
      end true = refl
      end false = rw (eq_refl id) refl

  -- A member whose dependencies are finished is finished too.
  pub State-leave :
      (path : List String) (members order : Members) (id : String) (member : DependencyMember)
      → State (path ++ id ∷ []) members order
      → get id members ≡ some member
      → All (λ d. listed d (keys order) ≡ true) (direct_ids member)
      → State path members ((id, member) ∷ order)
  State-leave path members order id member s got behind = record {
    finished = (got, s.finished);
    complete = All-map (λ e h. off_path e.0 h) members s.complete;
    ordered = (behind, s.ordered);
    without_own = s.without_own;
    reached = s.reached;
    fresh = s.fresh;
    few = s.few;
    read = s.read;
  }
    where
      either : (a b c : Bool) → (a || (b || false)) ≡ true → (a ≡ true) ⊎ ((b || c) ≡ true)
      either true b c h = inl refl
      either false true c h = inr refl
      either false false c h = cc

      later : (a b : Bool) → b ≡ true → (a || b) ≡ true
      later true b h = refl
      later false b h = h

      off_path :
          (x : String)
          → (listed x (path ++ id ∷ []) ≡ true) ⊎ (listed x (keys order) ≡ true)
          → (listed x path ≡ true) ⊎ (listed x (id ∷ keys order) ≡ true)
      off_path x (inl p) =
          either (listed x path) (id == x) (listed x (keys order))
            (sym (listed-append x path (id ∷ [])) ∙ p)
      off_path x (inr o) = inr (later (id == x) (listed x (keys order)) o)
