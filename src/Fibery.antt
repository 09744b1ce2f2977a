-- ===== src/Fibery.antt =====
-- src/sdlc/fibery_workspace.py: the records that Fibery operations return. A FiberyError is the
-- text of the exception; an operation that may raise it returns a `Fallible`.
use sdlc.Base.{String, ℕ, Option}

pub record Project : Type 0 where
  pub id : String
  pub name : String
  pub code : Option String
  pub state : Option String
  pub public_id : String

pub record Requirement : Type 0 where
  pub id : String
  pub public_id : String
  pub requirement_id : Option String
  pub title : Option String
  pub type_name : Option String
  pub state : Option String
  pub revision : Option ℕ
  pub project_id : Option String
  pub source_fingerprint : Option String
  pub category : Option String
  pub processing_status : Option String

pub data Fallible {ℓ} (A : Type ℓ) : Type ℓ where
  ok : A → Fallible A
  failed : String → Fallible A
