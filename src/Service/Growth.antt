-- ===== src/Service/Growth.antt =====
-- Histories only grow: the order in which calls were made, and when an answer was given.
use sdlc.Base.{Bool, true, false, if◌then◌else◌, ◌∷◌}
use sdlc.Service.{Event, Action, History}

-- The second history is the first with further events.
pub data Grows (h : History) : History → Type 0 where
  here : Grows h h
  later : (e : Event) {h' : History} → Grows h h' → Grows h (e ∷ h')

pub Grows-trans : {a b : History} {c : History} → Grows a b → Grows b c → Grows a c
Grows-trans p here = p
Grows-trans p (later e q) = later e (Grows-trans p q)

-- `asked` is a history from the first to the second.
pub record During (first second asked : History) : Type 0 where
  pub since : Grows first asked
  pub until : Grows asked second

pub During-widen :
    {first a b second asked : History}
    → Grows first a
    → Grows b second
    → During a b asked
    → During first second asked
During-widen p q d = record { since = Grows-trans p d.since; until = Grows-trans d.until q }

pub Grows-if {ℓ} :
    {A : Type ℓ} (b : Bool) (m n : Action A) (h : History)
    → Grows h (m h).1
    → Grows h (n h).1
    → Grows h ((if b then m else n) h).1
Grows-if true m n h p q = p
Grows-if false m n h p q = q
