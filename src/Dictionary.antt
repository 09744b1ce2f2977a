-- ===== src/Dictionary.antt =====
-- Python's `dict` with texts as keys, in the order of insertion, and sets of texts.
pub mod Lookup
pub mod Sets
use sdlc.Base.{String, Option, none, some, List, [], ◌∷◌, map, if◌then◌else◌, ◌==◌}

abbrev pub Dictionary : Type 0 → Type 0
Dictionary A = List (String × A)

module _ {A : Type 0} where
  abbrev pub keys : Dictionary A → List String
  keys dict = map (λ e. e.0) dict

  -- `dict.get(key)`
  unfoldable pub get : String → Dictionary A → Option A
  get key [] = none
  get key ((k, a) ∷ dict) = if k == key then some a else get key dict

  -- `dict[key] = value`
  unfoldable pub put : String → A → Dictionary A → Dictionary A
  put key a [] = (key, a) ∷ []
  put key a ((k, b) ∷ dict) =
      let rest = put key a dict in if k == key then (k, a) ∷ dict else (k, b) ∷ rest
