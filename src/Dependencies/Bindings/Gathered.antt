-- ===== src/Dependencies/Bindings/Gathered.antt =====
-- The loop of `bind` of dependency_evidence.py: it ends, and what it gathers is closed.
use mathlib.Core.List.{reverse, reverse-append}
use mathlib.Core.Path.{subst}
use sdlc.Base.{
  ℕ, zero, suc, ◌+◌, ◌≤◌, String, ◌≡◌, refl, sym, ap, ◌∙◌, ◌⊎◌, inl, inr, Bool, true, false, ◌||◌,
  some, List, [], ◌∷◌, ◌++◌, All, All-map, All-append, length, length-append, arith, Bool-cases,
  eq_iff, eq_refl, ◌==◌, if◌then◌else◌,
}
use sdlc.NormativeTree.{listed}
use sdlc.Dictionary.{get}
use sdlc.Dependencies.{DependencyMember, direct_ids}
use sdlc.Dependencies.Closure.{Members}
use sdlc.Dependencies.Closure.Search.{listed-append}
use sdlc.NormativeTree.Manifest.Observed.Order.{other_text}
use sdlc.Dependencies.Bindings.{BindError, gather, expand}

pub listed-reverse : (x : String) (xs : List String) → listed x (reverse xs) ≡ listed x xs
listed-reverse x [] = refl
listed-reverse x (y ∷ xs) =
    ap (listed x) (reverse-append (y ∷ []) xs)
    ∙ listed-append x (reverse xs) (y ∷ [])
    ∙ rw (listed-reverse x xs) (swap (listed x xs) (y == x))
  where
    swap : (a b : Bool) → (a || (b || false)) ≡ (b || a)
    swap true true = refl
    swap true false = refl
    swap false true = refl
    swap false false = refl

pub length-reverse : (xs : List String) → length (reverse xs) ≡ length xs
length-reverse [] = refl
length-reverse (y ∷ xs) =
    ap length (reverse-append (y ∷ []) xs)
    ∙ omega (arith, length-append (reverse xs) (y ∷ []), length-reverse xs)

pub All-reverse {ℓ} : (P : String → Type ℓ) (xs : List String) → All P xs → All P (reverse xs)
All-reverse P [] h = tt
All-reverse P (y ∷ xs) h =
    subst (All P) (sym (reverse-append (y ∷ []) xs))
      (All-append P (reverse xs) (y ∷ []) (All-reverse P xs h.1) (h.0, tt))

-- Each of these is listed.
pub each_listed :
    (xs all : List String)
    → ((x : String) → listed x xs ≡ true → listed x all ≡ true)
    → All (λ x. listed x all ≡ true) xs
each_listed [] all k = tt
each_listed (x ∷ xs) all k =
    (k x (rw (eq_refl x) refl), each_listed xs all (λ y h. k y (later (x == y) (listed y xs) h)))
  where
    later : (a b : Bool) → b ≡ true → (a || b) ≡ true
    later true b h = refl
    later false b h = h

module _ (members : Members) where
  abbrev pub HasMember : String → Type 0
  HasMember id = (member : DependencyMember) × (get id members ≡ some member)

  -- These ids were reached, or are going to be.
  abbrev pub AreCovered : List String → List String → List String → Type 0
  AreCovered reachable pending ids = All (λ d. (listed d reachable || listed d pending) ≡ true) ids

  -- The direct dependencies of this id are covered.
  abbrev pub IsExpanded : List String → List String → String → Type 0
  IsExpanded reachable pending id =
      (member : DependencyMember) × (get id members ≡ some member)
      × AreCovered reachable pending (direct_ids member)

  -- What the members that were not reached can still push.
  abbrev pub weight : Members → List String → ℕ
  weight [] reachable = 0
  weight ((id, member) ∷ rest) reachable =
      (if listed id reachable then 0 else length (direct_ids member)) + weight rest reachable

  weight-cons :
      (ms : Members) (id : String) (reachable : List String)
      → weight ms (id ∷ reachable) ≤ weight ms reachable
  weight-cons [] id reachable = omega arith
  weight-cons ((k, member) ∷ rest) id reachable = ground (arith, weight-cons rest id reachable)

  weight-reach :
      (ms : Members) (id : String) (member : DependencyMember) (reachable : List String)
      → get id ms ≡ some member
      → listed id reachable ≡ false
      → weight ms (id ∷ reachable) + length (direct_ids member) ≤ weight ms reachable
  unfolding get
  weight-reach [] id member reachable got new = cc
  weight-reach ((k, m) ∷ rest) id member reachable got new = elim (Bool-cases (k == id)) [
    | inl t ↦
        let k_is = (eq_iff k id).0 t in
        let m_is : m ≡ member = same_member m member (rw t at got) in
        let head : (id == k) ≡ true = (eq_iff id k).1 (sym k_is) in
        let out : listed k reachable ≡ false = ap (λ x. listed x reachable) k_is ∙ new in
        rw (head, out)
          (omega (arith, weight-cons rest id reachable, ap (λ x. length (direct_ids x)) m_is))
    | inr f ↦
        rw (other_text k id f)
          (omega (arith, weight-reach rest id member reachable (rw f at got) new))
  ]
    where
      same_member : (a b : DependencyMember) → some a ≡ some b → a ≡ b
      same_member a b e = ground arith

  covered_step :
      (ids reachable pending : List String) (id : String) (more : List String)
      → AreCovered reachable (id ∷ pending) ids
      → AreCovered (id ∷ reachable) (more ++ pending) ids
  covered_step ids reachable pending id more h =
      All-map {P = λ d. (listed d reachable || listed d (id ∷ pending)) ≡ true}
        (λ d c.
          ap (λ b. id == d || listed d reachable || b) (listed-append d more pending)
          ∙ shift (listed d reachable) (id == d) (listed d more) (listed d pending) c)
        ids h
    where
      shift : (r i q p : Bool) → (r || (i || p)) ≡ true → ((i || r) || (q || p)) ≡ true
      shift true true q p h = refl
      shift true false q p h = refl
      shift false true q p h = refl
      shift false false true p h = refl
      shift false false false p h = h

  covered_skip :
      (ids reachable pending : List String) (id : String)
      → listed id reachable ≡ true
      → AreCovered reachable (id ∷ pending) ids
      → AreCovered reachable pending ids
  covered_skip ids reachable pending id known h =
      All-map {P = λ d. (listed d reachable || listed d (id ∷ pending)) ≡ true}
        (λ d c. elim (Bool-cases (id == d)) [
          | inl t ↦
              let there = ap (λ x. listed x reachable) (sym ((eq_iff id d).0 t)) ∙ known in
              rw there refl
          | inr f ↦ ap (λ b. listed d reachable || (b || listed d pending)) (sym f) ∙ c
        ])
        ids h

  -- What is pushed is covered.
  all_pushed :
      (ids reachable pending : List String) → AreCovered reachable (reverse ids ++ pending) ids
  all_pushed ids reachable pending =
      All-map {P = λ d. listed d ids ≡ true}
        (λ d c.
          ap (λ b. listed d reachable || b)
            (listed-append d (reverse ids) pending ∙ rw (listed-reverse d ids, c) refl)
          ∙ or_true (listed d reachable))
        ids (each_listed ids ids (λ d c. c))
    where
      or_true : (b : Bool) → (b || true) ≡ true
      or_true true = refl
      or_true false = refl

  IsExpanded-map :
      (xs r p r' p' : List String)
      → ((ids : List String) → AreCovered r p ids → AreCovered r' p' ids)
      → All (IsExpanded r p) xs
      → All (IsExpanded r' p') xs
  IsExpanded-map xs r p r' p' f h =
      All-map {P = IsExpanded r p} (λ x (m, got, c). (m, got, f (direct_ids m) c)) xs h

  -- What the loop returns: ids of members, closed under direct dependencies, that cover `roots`.
  pub record Gathers (roots : List String) (r : List String ⊎ BindError) : Type 0 where
    pub reachable : List String
    pub returns : r ≡ inl reachable
    pub covers : AreCovered reachable [] roots
    pub closed : All (IsExpanded reachable []) reachable

  module _
      (direct_of : (id : String) (m : DependencyMember)
        → get id members ≡ some m
        → All HasMember (direct_ids m)) where
    expand-Gathers :
        (roots : List String) (fuel : ℕ) (id : String) (pending reachable : List String)
        → ((p r : List String)
            → All HasMember p
            → AreCovered r p roots
            → All (IsExpanded r p) r
            → length p + weight members r ≤ fuel
            → Gathers roots (gather members fuel p r))
        → HasMember id
        → All HasMember pending
        → listed id reachable ≡ false
        → AreCovered reachable (id ∷ pending) roots
        → All (IsExpanded reachable (id ∷ pending)) reachable
        → suc (length pending) + weight members reachable ≤ suc fuel
        → Gathers roots (expand members (gather members fuel) id pending reachable (get id members))
    unfolding expand
    expand-Gathers roots fuel id pending reachable next (m, got) all new cover closed enough =
        let more = reverse (direct_ids m) in
        let cover' = λ (ids : List String) (c : AreCovered reachable (id ∷ pending) ids).
          covered_step ids reachable pending id more c in
        let own = all_pushed (direct_ids m) (id ∷ reachable) pending in
        rw got (
          next (more ++ pending) (id ∷ reachable)
            (All-append HasMember more pending
              (All-reverse HasMember (direct_ids m) (direct_of id m got)) all)
            (cover' roots cover)
            (
              (m, got, own),
              IsExpanded-map reachable reachable (id ∷ pending) (id ∷ reachable) (more ++ pending)
                  cover' closed,
            )
            (omega (
              arith,
              enough,
              length-append more pending,
              length-reverse (direct_ids m),
              weight-reach members id m reachable got new,
            )))

    pub gather-Gathers :
        (roots : List String) (fuel : ℕ) (pending reachable : List String)
        → All HasMember pending
        → AreCovered reachable pending roots
        → All (IsExpanded reachable pending) reachable
        → length pending + weight members reachable ≤ fuel
        → Gathers roots (gather members fuel pending reachable)
    unfolding gather
    gather-Gathers roots fuel [] reachable all cover closed enough = record {
      reachable = reachable;
      returns = refl;
      covers = cover;
      closed = closed;
    }
    gather-Gathers roots zero (id ∷ pending) reachable all cover closed enough =
        absurd (omega (arith, enough))
    gather-Gathers roots (suc fuel) (id ∷ pending) reachable all cover closed enough =
        elim (Bool-cases (listed id reachable)) [
          | inl known ↦ rw known (
              gather-Gathers roots fuel pending reachable all.1
                (covered_skip roots reachable pending id known cover)
                (IsExpanded-map reachable reachable (id ∷ pending) reachable pending
                  (λ ids c. covered_skip ids reachable pending id known c) closed)
                (omega (arith, enough)))
          | inr new ↦ rw new (
              expand-Gathers roots fuel id pending reachable
                (λ p r a c x e. gather-Gathers roots fuel p r a c x e) all.0 all.1 new cover closed
                (omega (arith, enough)))
        ]
