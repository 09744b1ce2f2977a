-- ===== src/Candidates.antt =====
-- src/sdlc/requirement_dispatcher.py, inherited candidate progression: the preflight of the
-- Standard candidates that a RAW result names, and their State writes `Draft -> Process`.
pub mod Admitted
pub mod Preflight
pub mod Failing
pub mod Conflicting
pub mod Effects
pub mod Moved
pub mod Progress
use sdlc.Base.{
  String, ◌⊎◌, inl, inr, Bool, true, false, not, ◌||◌, Option, none, some, List, [], ◌∷◌, ◌++◌,
  is_text, same_text, if◌then◌else◌, ◌==◌,
}
use sdlc.Fibery.{Requirement, Fallible, ok, failed}
use sdlc.Routes.{standard_type, draft_state, process_state}
use sdlc.Differences.{
  Detail, unresolved, wrong_type, wrong_project, wrong_state, not_derived, unconfirmed, read_back,
}
use sdlc.Service.{
  Action, Workspace, pure, ◌>>=◌, read_requirement, find_requirements_by_requirement_id,
  derived_from, set_requirement_state,
}

-- `requirement_id or id`: the id serves where the Requirement ID is missing or empty.
unfoldable pub identity : Requirement → String
identity r = elim r.requirement_id [ none ↦ r.id | some name ↦ if name == "" then r.id else name ]

unfoldable pub has_id : String → List Requirement → Bool
has_id id [] = false
has_id id (r ∷ rs) = r.id == id || has_id id rs

module _ (workspace : Workspace) (raw : Requirement) where
  judge_source : String → Fallible (List Requirement) → Fallible (Option Detail)
  unfolding has_id identity
  judge_source name (failed e) = failed e
  judge_source name (ok found) =
      if has_id raw.id found then ok none else ok (some (not_derived name (identity raw)))

  -- `_candidate_problem`: the source is read only for a Standard Draft of the RAW's Project.
  unfoldable pub candidate_problem : String → Requirement → Action (Fallible (Option Detail))
  unfolding judge_source derived_from
  candidate_problem name candidate =
      if not (is_text candidate.type_name standard_type)
      then pure (ok (some (wrong_type name candidate.type_name)))
      else if not (same_text candidate.project_id raw.project_id)
      then pure (ok (some (wrong_project name candidate.project_id raw.project_id)))
      else if not (is_text candidate.state draft_state)
      then pure (ok (some (wrong_state name candidate.state)))
      else do found ← derived_from workspace candidate.id; pure (judge_source name found)

  abbrev judged : Requirement → Fallible (Option Detail) → Fallible (Requirement ⊎ Detail)
  judged candidate (failed e) = failed e
  judged candidate (ok none) = ok (inl candidate)
  judged candidate (ok (some problem)) = ok (inr problem)

  pub judge_matches :
      String → Fallible (List Requirement) → Action (Fallible (Requirement ⊎ Detail))
  unfolding candidate_problem
  judge_matches name (failed e) = pure (failed e)
  judge_matches name (ok []) = pure (ok (inr (unresolved name false)))
  judge_matches name (ok (candidate ∷ [])) = do
    problem ← candidate_problem name candidate
    pure (judged candidate problem)
  judge_matches name (ok (_ ∷ _ ∷ _)) = pure (ok (inr (unresolved name true)))

  -- One round of the loop of `_preflight`.
  unfoldable pub preflight_one : String → Action (Fallible (Requirement ⊎ Detail))
  unfolding judge_matches find_requirements_by_requirement_id
  preflight_one name = do
    found ← find_requirements_by_requirement_id workspace name
    judge_matches name found

  abbrev pub Verdicts : Type 0
  Verdicts = List Requirement × List Detail

  abbrev add_verdict : Requirement ⊎ Detail → Fallible Verdicts → Fallible Verdicts
  add_verdict verdict (failed e) = failed e
  add_verdict (inl candidate) (ok (candidates, conflicts)) = ok (candidate ∷ candidates, conflicts)
  add_verdict (inr conflict) (ok (candidates, conflicts)) = ok (candidates, conflict ∷ conflicts)

  and_rest :
      Fallible (Requirement ⊎ Detail) → Action (Fallible Verdicts) → Action (Fallible Verdicts)
  and_rest (failed e) next = pure (failed e)
  and_rest (ok verdict) next = do rest ← next; pure (add_verdict verdict rest)

  -- `_preflight`: a read failure ends it, a conflict does not.
  unfoldable pub preflight : List String → Action (Fallible Verdicts)
  unfolding preflight_one and_rest
  preflight [] = pure (ok ([], []))
  preflight (name ∷ names) = do verdict ← preflight_one name; and_rest verdict (preflight names)

module _ (workspace : Workspace) where
  confirm_process : Requirement → Fallible (Option Requirement) → Option Detail
  unfolding identity
  confirm_process candidate (failed e) = some (unconfirmed (identity candidate) e)
  confirm_process candidate (ok none) = some (read_back (identity candidate) none)
  confirm_process candidate (ok (some back)) =
      if is_text back.state process_state
      then none
      else some (read_back (identity candidate) back.state)

  progress_written : Requirement → Fallible (Unit {0}) → Action (Option Detail)
  unfolding confirm_process identity read_requirement
  progress_written candidate (failed e) = pure (some (unconfirmed (identity candidate) e))
  progress_written candidate (ok _) = do
    back ← read_requirement workspace candidate.id
    pure (confirm_process candidate back)

  -- `_progress`: one State write, confirmed by reading it back; the failure, if any.
  unfoldable pub progress : Requirement → Action (Option Detail)
  unfolding progress_written set_requirement_state
  progress candidate = do
    written ← set_requirement_state workspace candidate.id process_state
    progress_written candidate written

  stop_or :
      Option Detail
      → List String
      → Action (List String × Option Detail)
      → Action (List String × Option Detail)
  stop_or (some failure) progressed next = pure (progressed, some failure)
  stop_or none progressed next = next

  -- The loop of `_progress_candidates`: what was progressed, and the failure that stopped it.
  unfoldable pub progress_all :
      List Requirement → List String → Action (List String × Option Detail)
  unfolding progress stop_or identity
  progress_all [] progressed = pure (progressed, none)
  progress_all (candidate ∷ candidates) progressed = do
    failure ← progress candidate
    stop_or failure progressed (progress_all candidates (progressed ++ identity candidate ∷ []))
