-- ===== src/Candidates/Preflight.antt =====
-- `_preflight` and `_candidate_problem` of requirement_dispatcher.py: what they admit.
use mathlib.Core.Path.{subst, subst₂}
use sdlc.Base.{
  String, ◌≡◌, refl, sym, ap, ◌⊎◌, inl, inr, true, Option, none, some, List, [], ◌∷◌, arith,
  is_text_iff, same_text_iff,
}
use sdlc.Fibery.{Requirement, Fallible, ok, failed}
use sdlc.Routes.{standard_type, draft_state}
use sdlc.Differences.{Detail}
use sdlc.Service.{History, Workspace, find_requirements_by_requirement_id}
use sdlc.Service.Growth.{Grows, here, later, Grows-trans, Grows-if}
use sdlc.Candidates.Admitted.{
  IsOwnDraft, IsOwnDraft-widen, IsAdmitted, IsAdmitted-widen, AreAdmitted, AreAdmitted-widen,
}
use sdlc.Candidates.{
  has_id, judge_source, candidate_problem, judged, judge_matches, preflight_one, add_verdict,
  and_rest, preflight,
}

module _ (workspace : Workspace) (raw : Requirement) where
  judge_source-none :
      (name : String) (a : Fallible (List Requirement))
      → judge_source workspace raw name a ≡ ok none
      → (l : List Requirement) × (a ≡ ok l) × (has_id raw.id l ≡ true)
  unfolding judge_source
  judge_source-none name (failed e) h = cc
  judge_source-none name (ok l) h = (l, refl, ground arith)

  problem_checks :
      (name : String) (c : Requirement) (h : History)
      → (candidate_problem workspace raw name c h).0 ≡ ok none
      → (c.type_name ≡ some standard_type)
        × (c.state ≡ some draft_state)
        × (c.project_id ≡ raw.project_id)
        × (judge_source workspace raw name (workspace.on_sources h c.id) ≡ ok none)
  unfolding candidate_problem
  problem_checks name c h e = ground (
    arith,
    is_text_iff c.type_name standard_type,
    is_text_iff c.state draft_state,
    same_text_iff c.project_id raw.project_id,
  )

  candidate_problem-Grows :
      (name : String) (c : Requirement) (h : History)
      → Grows h (candidate_problem workspace raw name c h).1
  unfolding candidate_problem
  candidate_problem-Grows name c h = search (Grows-if, here, later)

  candidate_problem-none :
      (name : String) (c : Requirement) (h : History)
      → (candidate_problem workspace raw name c h).0 ≡ ok none
      → IsOwnDraft workspace raw c h (candidate_problem workspace raw name c h).1
  candidate_problem-none name c h e =
      let (type_name, state, project, judged_well) = problem_checks name c h e in
      let (answer, derives, source) =
        judge_source-none name (workspace.on_sources h c.id) judged_well in
      record {
        type_name = type_name;
        state = state;
        project = project;
        asked = h;
        answer = answer;
        derives = derives;
        source = source;
        during = record { since = here; until = candidate_problem-Grows name c h };
      }

  judged-inl :
      (x c : Requirement) (p : Fallible (Option Detail))
      → judged workspace raw x p ≡ ok (inl c)
      → (p ≡ ok none) × (x ≡ c)
  judged-inl x c (failed e) eq = cc
  judged-inl x c (ok none) eq = ground arith
  judged-inl x c (ok (some d)) eq = cc

  judge_matches-inl :
      (name : String) (a : Fallible (List Requirement)) (h : History) (c : Requirement)
      → (judge_matches workspace raw name a h).0 ≡ ok (inl c)
      → (a ≡ ok (c ∷ [])) × IsOwnDraft workspace raw c h (judge_matches workspace raw name a h).1
  unfolding judge_matches
  judge_matches-inl name (failed e) h c eq = cc
  judge_matches-inl name (ok []) h c eq = cc
  judge_matches-inl name (ok (x ∷ [])) h c eq =
      let (no_problem, same) = judged-inl x c (candidate_problem workspace raw name x h).0 eq in
      subst
        (λ y.
          (ok (x ∷ []) ≡ ok (y ∷ []))
          × IsOwnDraft workspace raw y h (candidate_problem workspace raw name x h).1)
        same (refl, candidate_problem-none name x h no_problem)
  judge_matches-inl name (ok (x ∷ y ∷ l)) h c eq = cc

  pub judge_matches-Grows :
      (name : String) (a : Fallible (List Requirement)) (h : History)
      → Grows h (judge_matches workspace raw name a h).1
  unfolding judge_matches
  judge_matches-Grows name (failed e) h = here
  judge_matches-Grows name (ok []) h = here
  judge_matches-Grows name (ok (x ∷ [])) h = candidate_problem-Grows name x h
  judge_matches-Grows name (ok (x ∷ y ∷ l)) h = here

  pub preflight_one-Grows :
      (name : String) (h : History) → Grows h (preflight_one workspace raw name h).1
  unfolding preflight_one
  preflight_one-Grows name h =
      Grows-trans (later _ here) (judge_matches-Grows name (workspace.on_find h name) _)

  preflight_one-IsAdmitted :
      (name : String) (h : History) (c : Requirement)
      → (preflight_one workspace raw name h).0 ≡ ok (inl c)
      → IsAdmitted workspace raw h (preflight_one workspace raw name h).1 name c
  unfolding preflight_one
  preflight_one-IsAdmitted name h c eq =
      let (found, h₁) = find_requirements_by_requirement_id workspace name h in
      let (unique, own) = judge_matches-inl name found h₁ c eq in
      let grows = judge_matches-Grows name found h₁ in
      record {
        asked = h;
        unique = unique;
        during = record { since = here; until = Grows-trans (later _ here) grows };
        own = IsOwnDraft-widen workspace raw c (later _ here) here own;
      }

  add_verdict-clean :
      (v : Requirement ⊎ Detail) (r : Fallible (List Requirement × List Detail))
      (cs : List Requirement)
      → add_verdict workspace raw v r ≡ ok (cs, [])
      → (c : Requirement) × (rest : List Requirement) × (v ≡ inl c)
        × (r ≡ ok (rest, []))
        × (cs ≡ c ∷ rest)
  add_verdict-clean v (failed e) cs eq = cc
  add_verdict-clean (inl c) (ok (rest, [])) cs eq = (c, rest, refl, refl, ground arith)
  add_verdict-clean (inl c) (ok (rest, d ∷ ds)) cs eq = ground arith
  add_verdict-clean (inr d) (ok (rest, ds)) cs eq = ground arith

  and_rest-Grows :
      (v : Fallible (Requirement ⊎ Detail))
      (next : History → Fallible (List Requirement × List Detail) × History) (h : History)
      → Grows h (next h).1
      → Grows h (and_rest workspace raw v next h).1
  unfolding and_rest
  and_rest-Grows (failed e) next h grows = here
  and_rest-Grows (ok v) next h grows = grows

  pub preflight-Grows :
      (names : List String) (h : History) → Grows h (preflight workspace raw names h).1
  unfolding preflight
  preflight-Grows [] h = here
  preflight-Grows (name ∷ names) h =
      let (verdict, h') = preflight_one workspace raw name h in
      Grows-trans (preflight_one-Grows name h)
        (and_rest-Grows verdict (preflight workspace raw names) h' (preflight-Grows names h'))

  and_rest-clean :
      (v : Fallible (Requirement ⊎ Detail))
      (next : History → Fallible (List Requirement × List Detail) × History) (h : History)
      (cs : List Requirement)
      → (and_rest workspace raw v next h).0 ≡ ok (cs, [])
      → (c : Requirement) × (rest : List Requirement) × (v ≡ ok (inl c))
        × ((next h).0 ≡ ok (rest, []))
        × (cs ≡ c ∷ rest)
  unfolding and_rest
  and_rest-clean (failed e) next h cs eq = cc
  and_rest-clean (ok v) next h cs eq =
      let (c, rest, one, others, same) = add_verdict-clean v (next h).0 cs eq in
      (c, rest, ap ok one, others, same)

  and_rest-after :
      (v : Fallible (Requirement ⊎ Detail))
      (next : History → Fallible (List Requirement × List Detail) × History) (h : History)
      (c : Requirement)
      → v ≡ ok (inl c)
      → (next h).1 ≡ (and_rest workspace raw v next h).1
  unfolding and_rest
  and_rest-after (failed e) next h c eq = cc
  and_rest-after (ok v) next h c eq = refl

  -- A preflight without conflict admits one candidate for each name, in order: the only one that
  -- Fibery finds under that name, a Standard Draft of the RAW's Project that derives from the RAW.
  pub preflight-AreAdmitted :
      (names : List String) (h : History) (cs : List Requirement)
      → (preflight workspace raw names h).0 ≡ ok (cs, [])
      → AreAdmitted workspace raw h (preflight workspace raw names h).1 names cs
  unfolding preflight
  preflight-AreAdmitted [] h [] eq = tt
  preflight-AreAdmitted [] h (c ∷ cs) eq = ground arith
  preflight-AreAdmitted (name ∷ names) h cs eq =
      let (verdict, h') = preflight_one workspace raw name h in
      let next = preflight workspace raw names in
      let (c, rest, one, others, same) = and_rest-clean verdict next h' cs eq in
      let first : IsAdmitted workspace raw h h' name c = preflight_one-IsAdmitted name h c one in
      let all : AreAdmitted workspace raw h' (next h').1 names rest =
        preflight-AreAdmitted names h' rest others in
      subst₂ (λ end l. AreAdmitted workspace raw h end (name ∷ names) l)
        (and_rest-after verdict next h' c one) (sym same)
        (
          IsAdmitted-widen workspace raw name c here (preflight-Grows names h') first,
          AreAdmitted-widen workspace raw names rest (preflight_one-Grows name h) here all,
        )
