-- ===== src/Apply/Reads.antt =====
-- The steps of requirement_apply.py that only read: they neither write nor touch the journal.
use sdlc.Base.{
  ℕ, suc, ◌⊎◌, inl, inr, ◌≡◌, refl, sym, ap, Bool, true, false, Option, none, some, List,
}
use sdlc.Fibery.{Fallible, ok, failed}
use sdlc.Attempts.{Attempt, return, raise, given, require, Post, after-Post}
use sdlc.Apply.{◌>>=◌, Write, World, Failure, Stage, fetched, fetch, moved, reading}

-- The same writes and the same journal.
abbrev pub Keeps : World → World → Type 0
Keeps before now = (now.writes ≡ before.writes) × (now.created ≡ before.created)

-- The step m at the world `now`, from `before` on, writes nothing, and what it returns satisfies P.
pub record Reads {A : Type 0} (before : World) (P : A → Type 0) (m : Stage A) (now : World)
    : Type 0 where
  pub outcome : Post (λ a w. Keeps before w × P a) (Keeps before) (m now)

abbrev pub Any : {A : Type 0} → A → Type 0
Any a = Unit

module _ {A : Type 0} (before now : World) (kept : Keeps before now) where
  pub return-Reads : (P : A → Type 0) (a : A) → P a → Reads before P (return a) now
  return-Reads P a h = record { outcome = (kept, h) }

  pub raise-Reads : (P : A → Type 0) (error : Failure) → Reads before P (raise error) now
  raise-Reads P error = record { outcome = kept }

  pub fetch-Reads : (get : List Write → ℕ → Fallible A) → Reads before Any (fetch get) now
  fetch-Reads get = record { outcome = go (get now.writes now.moment) }
    where
      go :
          (answer : Fallible A)
          → Post
              (λ a w. Keeps before w × Unit {0})
              (Keeps before)
              (fetched answer (record now { moment = suc now.moment }))
      go (ok a) = (kept, tt)
      go (failed error) = kept

  -- With the answer of the read.
  pub fetch-Answers :
      (get : List Write → ℕ → Fallible A)
      → Reads before (λ a. get before.writes now.moment ≡ ok a) (fetch get) now
  fetch-Answers get = record {
    outcome = go (get now.writes now.moment) (ap (λ ws. get ws now.moment) kept.0);
  }
    where
      go :
          (answer : Fallible A)
          → answer ≡ get before.writes now.moment
          → Post
              (λ a w. Keeps before w × (get before.writes now.moment ≡ ok a))
              (Keeps before)
              (fetched answer (record now { moment = suc now.moment }))
      go (ok a) same = (kept, sym same)
      go (failed error) same = kept

  pub reading-Reads :
      {E : Type 0} (rename : E → Failure) (run : List Write → Attempt ℕ E A)
      → Reads before (λ a. (run before.writes now.moment).0 ≡ inl a) (reading rename run) now
  reading-Reads {E} rename run = record {
    outcome = go (run now.writes now.moment) (ap (λ ws. run ws now.moment) kept.0);
  }
    where
      go :
          (r : (A ⊎ E) × ℕ)
          → r ≡ run before.writes now.moment
          → Post
              (λ a w. Keeps before w × ((run before.writes now.moment).0 ≡ inl a))
              (Keeps before)
              (moved rename now r)
      go (inl a, t) same = (kept, ap (λ r. r.0) (sym same))
      go (inr e, t) same = kept

  pub given-Reads :
      (error : Failure) (o : Option A) → Reads before (λ a. o ≡ some a) (given error o) now
  given-Reads error none = record { outcome = kept }
  given-Reads error (some a) = record { outcome = (kept, refl) }

pub require-Reads :
    (before now : World) (kept : Keeps before now) (b : Bool) (error : Failure)
    → Reads before (λ _. b ≡ true) (require b error) now
require-Reads before now kept true error = record { outcome = (kept, refl) }
require-Reads before now kept false error = record { outcome = kept }

-- One step after another.
pub then-Reads :
    {A B : Type 0} {before : World} {P : A → Type 0} {R : B → Type 0} {m : Stage A}
    {f : A → Stage B}
    → {now : World} → Reads before P m now
    → ((a : A) (w : World) → Keeps before w → P a → Reads before R (f a) w)
    → Reads before R (m >>= f) now
unfolding ◌>>=◌
then-Reads {A} {B} {before} {P} {R} {m} {f} {now} h next = record {
  outcome =
      after-Post (λ a w. Keeps before w × P a) (λ b w. Keeps before w × R b) (Keeps before) (m now)
        f h.outcome (λ a w k. (next a w k.0 k.1).outcome);
}

-- A weaker statement of what is returned.
pub weaken-Reads :
    {A : Type 0} {before : World} {P R : A → Type 0} {m : Stage A} {now : World}
    → Reads before P m now
    → ((a : A) → P a → R a)
    → Reads before R m now
weaken-Reads {A} {before} {P} {R} {m} {now} h f = record { outcome = go (m now) h.outcome }
  where
    go :
        (r : (A ⊎ Failure) × World)
        → Post (λ a w. Keeps before w × P a) (Keeps before) r
        → Post (λ a w. Keeps before w × R a) (Keeps before) r
    go (inl a, w) k = (k.0, f a k.1)
    go (inr e, w) k = k

-- The step m at the world `now` leaves a value and a world that satisfy P, or an error and a world
-- that satisfies Q.
pub record Ends {A : Type 0} (P : A → World → Type 0) (Q : World → Type 0) (m : Stage A)
    (now : World) : Type 0 where
  pub outcome : Post P Q (m now)

pub then-Ends :
    {A B : Type 0} {P : A → World → Type 0} {R : B → World → Type 0} {Q : World → Type 0}
    → {m : Stage A} {f : A → Stage B} {now : World} → Ends P Q m now
    → ((a : A) (w : World) → P a w → Ends R Q (f a) w)
    → Ends R Q (m >>= f) now
unfolding ◌>>=◌
then-Ends {A} {B} {P} {R} {Q} {m} {f} {now} h next = record {
  outcome = after-Post P R Q (m now) f h.outcome (λ a w k. (next a w k).outcome);
}

-- A step that only reads ends in the state it started from.
pub Reads-Ends :
    {A : Type 0} {before now : World} {P : A → Type 0} {Q : World → Type 0} {m : Stage A}
    → ((w : World) → Keeps before w → Q w)
    → Reads before P m now
    → Ends (λ a w. Keeps before w × P a) Q m now
Reads-Ends {A} {before} {now} {P} {Q} {m} bad h = record { outcome = go (m now) h.outcome }
  where
    go :
        (r : (A ⊎ Failure) × World)
        → Post (λ a w. Keeps before w × P a) (Keeps before) r
        → Post (λ a w. Keeps before w × P a) Q r
    go (inl a, w) k = k
    go (inr e, w) k = bad w k

pub weaken-Ends :
    {A : Type 0} {P R : A → World → Type 0} {Q : World → Type 0} {m : Stage A} {now : World}
    → Ends P Q m now
    → ((a : A) (w : World) → P a w → R a w)
    → Ends R Q m now
weaken-Ends {A} {P} {R} {Q} {m} {now} h f = record { outcome = go (m now) h.outcome }
  where
    go : (r : (A ⊎ Failure) × World) → Post P Q r → Post R Q r
    go (inl a, w) k = f a w k
    go (inr e, w) k = k

-- A weaker statement of the world after an error.
pub rename-Ends :
    {A : Type 0} {P : A → World → Type 0} {Q S : World → Type 0} {m : Stage A} {now : World}
    → Ends P Q m now
    → ((w : World) → Q w → S w)
    → Ends P S m now
rename-Ends {A} {P} {Q} {S} {m} {now} h f = record { outcome = go (m now) h.outcome }
  where
    go : (r : (A ⊎ Failure) × World) → Post P Q r → Post P S r
    go (inl a, w) k = k
    go (inr e, w) k = f w k

pub Ends-Reads :
    {A : Type 0} {before now : World} {P : A → Type 0} {m : Stage A}
    → Ends (λ a w. Keeps before w × P a) (Keeps before) m now
    → Reads before P m now
Ends-Reads h = record { outcome = h.outcome }

module _ {A : Type 0} (before now : World) (kept : Keeps before now) where
  -- A read takes one moment.
  pub fetch-Ends :
      (get : List Write → ℕ → Fallible A)
      → Ends
          (λ a w.
            Keeps before w × (w.moment ≡ suc now.moment) × (get before.writes now.moment ≡ ok a))
          (Keeps before)
          (fetch get)
          now
  fetch-Ends get = record {
    outcome = go (get now.writes now.moment) (ap (λ ws. get ws now.moment) kept.0);
  }
    where
      go :
          (answer : Fallible A)
          → answer ≡ get before.writes now.moment
          → Post
              (λ a w.
                Keeps before w
                × (w.moment ≡ suc now.moment)
                × (get before.writes now.moment ≡ ok a))
              (Keeps before)
              (fetched answer (record now { moment = suc now.moment }))
      go (ok a) same = (kept, refl, sym same)
      go (failed error) same = kept

  -- A sequence of reads ends at its own last moment.
  pub reading-Ends :
      {E : Type 0} (rename : E → Failure) (run : List Write → Attempt ℕ E A)
      → Ends
          (λ a w. Keeps before w × (run before.writes now.moment ≡ (inl a, w.moment)))
          (Keeps before)
          (reading rename run)
          now
  reading-Ends {E} rename run = record {
    outcome = go (run now.writes now.moment) (ap (λ ws. run ws now.moment) kept.0);
  }
    where
      go :
          (r : (A ⊎ E) × ℕ)
          → r ≡ run before.writes now.moment
          → Post
              (λ a w. Keeps before w × (run before.writes now.moment ≡ (inl a, w.moment)))
              (Keeps before)
              (moved rename now r)
      go (inl a, t) same = (kept, sym same)
      go (inr e, t) same = kept
