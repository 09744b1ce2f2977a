-- ===== src/ArtifactNames.antt =====
-- src/sdlc/normative_tree.py: `ARTIFACT_NAME_PATTERN` and `classify_artifact_name`, on ASCII digits and
-- whitespace.
pub mod Form
use sdlc.Base.{
  ℕ, String, Bool, true, false, ◌&&◌, Option, none, some, [], ◌∷◌, length, leb, eqb, if◌then◌else◌,
}
use sdlc.ProjectCode.{Text, codes, is_digit, lstrip, rstrip}

pub data ArtifactKind : Type 0 where
  process_result review_result processing_result : ArtifactKind

-- The text that remains behind a literal prefix.
unfoldable pub after_prefix : Text → Text → Option Text
after_prefix [] s = some s
after_prefix (p ∷ ps) [] = none
after_prefix (p ∷ ps) (c ∷ s) = let rest = after_prefix ps s in if eqb p c then rest else none

abbrev pub all_digits : Text → Bool
all_digits [] = true
all_digits (c ∷ s) = is_digit c && all_digits s

-- `\d{4,}$`; a stripped name has no final newline.
abbrev pub ends_numbered : Option Text → Bool
ends_numbered none = false
ends_numbered (some s) = leb 4 (length s) && all_digits s

abbrev ends_here : Option Text → Bool
ends_here (some []) = true
ends_here _ = false

-- ` — Process Result \d{4,}$` and ` — Review Result \d{4,}$`
unfoldable pub numbered_tail : Text → Option ArtifactKind
unfolding after_prefix codes
numbered_tail s =
    if ends_numbered (after_prefix (codes " — Process Result ") s)
    then some process_result
    else if ends_numbered (after_prefix (codes " — Review Result ") s)
    then some review_result
    else none

-- ` — Processing Result$`
unfoldable pub raw_tail : Text → Option ArtifactKind
unfolding after_prefix codes
raw_tail s =
    if ends_here (after_prefix (codes " — Processing Result") s)
    then some processing_result
    else none

abbrev longer : {K : Type 0} → ℕ → Option (Text × K) → Option K → Option (Text × K)
longer c (some (owner, kind)) tail = some (c ∷ owner, kind)
longer c none (some kind) = some (c ∷ [], kind)
longer c none none = none

-- `^(.+)tail`: `.` is no newline, and the owner is as long as it can be.
unfoldable pub owner_then : {K : Type 0} → (Text → Option K) → Text → Option (Text × K)
owner_then tail [] = none
owner_then tail (c ∷ s) =
    let found = longer c (owner_then tail s) (tail s) in if eqb c 10 then none else found

abbrev first_of :
    Option (Text × ArtifactKind) → Option (Text × ArtifactKind) → Option (Text × ArtifactKind)
first_of (some found) other = some found
first_of none other = other

unfoldable pub classify_artifact_name : String → Option (Text × ArtifactKind)
unfolding owner_then numbered_tail raw_tail codes lstrip rstrip
classify_artifact_name name =
    let stripped = rstrip (lstrip (codes name)) in
    first_of (owner_then numbered_tail stripped) (owner_then raw_tail stripped)
