-- ===== src/Candidates/Admitted.antt =====
-- What an admitted candidate of requirement_dispatcher.py is, between two histories.
use sdlc.Base.{String, ◌≡◌, true, some, List, [], ◌∷◌}
use sdlc.Fibery.{Requirement, ok}
use sdlc.Routes.{standard_type, draft_state}
use sdlc.Service.{History, Workspace}
use sdlc.Service.Growth.{Grows, During, During-widen}
use sdlc.Candidates.{has_id}

-- A Standard Draft of the RAW's Project that Fibery said, between the two histories, derives from
-- the RAW.
pub record IsOwnDraft (workspace : Workspace) (raw candidate : Requirement) (h h' : History)
    : Type 0 where
  pub type_name : candidate.type_name ≡ some standard_type
  pub state : candidate.state ≡ some draft_state
  pub project : candidate.project_id ≡ raw.project_id
  pub asked : History
  pub answer : List Requirement
  pub derives : workspace.on_sources asked candidate.id ≡ ok answer
  pub source : has_id raw.id answer ≡ true
  pub during : During h h' asked

module _ (workspace : Workspace) (raw : Requirement) where
  -- What it takes for a candidate to be admitted under a name, between two histories.
  pub record IsAdmitted (h h' : History) (name : String) (c : Requirement) : Type 0 where
    pub asked : History
    pub unique : workspace.on_find asked name ≡ ok (c ∷ [])
    pub during : During h h' asked
    pub own : IsOwnDraft workspace raw c h h'

  abbrev pub AreAdmitted : History → History → List String → List Requirement → Type 0
  AreAdmitted h h' [] [] = Unit
  AreAdmitted h h' (name ∷ names) (c ∷ cs) = IsAdmitted h h' name c × AreAdmitted h h' names cs
  AreAdmitted h h' _ _ = ⊥

  pub IsOwnDraft-widen :
      {g h h' g' : History} (c : Requirement)
      → Grows g h
      → Grows h' g'
      → IsOwnDraft workspace raw c h h'
      → IsOwnDraft workspace raw c g g'
  IsOwnDraft-widen c p q own = record {
    type_name = own.type_name;
    state = own.state;
    project = own.project;
    asked = own.asked;
    answer = own.answer;
    derives = own.derives;
    source = own.source;
    during = During-widen p q own.during;
  }

  pub IsAdmitted-widen :
      {g h h' g' : History} (name : String) (c : Requirement)
      → Grows g h
      → Grows h' g'
      → IsAdmitted h h' name c
      → IsAdmitted g g' name c
  IsAdmitted-widen name c p q admitted = record {
    asked = admitted.asked;
    unique = admitted.unique;
    during = During-widen p q admitted.during;
    own = IsOwnDraft-widen c p q admitted.own;
  }

  pub AreAdmitted-widen :
      {g h h' g' : History} (names : List String) (cs : List Requirement)
      → Grows g h
      → Grows h' g'
      → AreAdmitted h h' names cs
      → AreAdmitted g g' names cs
  AreAdmitted-widen [] [] p q all = tt
  AreAdmitted-widen [] (c ∷ cs) p q all = all
  AreAdmitted-widen (name ∷ names) [] p q all = all
  AreAdmitted-widen (name ∷ names) (c ∷ cs) p q all =
      (IsAdmitted-widen name c p q all.0, AreAdmitted-widen names cs p q all.1)
