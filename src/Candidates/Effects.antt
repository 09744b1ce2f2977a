-- ===== src/Candidates/Effects.antt =====
-- `_preflight` of requirement_dispatcher.py makes no write while the candidates are judged.
use sdlc.Base.{String, ◌≡◌, refl, ◌∙◌, ◌⊎◌, List, [], ◌∷◌, arith}
use sdlc.Fibery.{Requirement, Fallible, ok, failed}
use sdlc.Differences.{Detail}
use sdlc.Service.{History, Workspace}
use sdlc.Service.Effects.{effects}
use sdlc.Candidates.{candidate_problem, judge_matches, preflight_one, and_rest, preflight}

module _ (workspace : Workspace) (raw : Requirement) where
  candidate_problem-effects :
      (name : String) (c : Requirement) (h : History)
      → effects (candidate_problem workspace raw name c h).1 ≡ effects h
  unfolding candidate_problem
  candidate_problem-effects name c h = ground arith

  judge_matches-effects :
      (name : String) (a : Fallible (List Requirement)) (h : History)
      → effects (judge_matches workspace raw name a h).1 ≡ effects h
  unfolding judge_matches
  judge_matches-effects name (failed e) h = refl
  judge_matches-effects name (ok []) h = refl
  judge_matches-effects name (ok (x ∷ [])) h = candidate_problem-effects name x h
  judge_matches-effects name (ok (x ∷ y ∷ l)) h = refl

  preflight_one-effects :
      (name : String) (h : History) → effects (preflight_one workspace raw name h).1 ≡ effects h
  unfolding preflight_one
  preflight_one-effects name h = judge_matches-effects name (workspace.on_find h name) _

  and_rest-effects :
      (v : Fallible (Requirement ⊎ Detail))
      (next : History → Fallible (List Requirement × List Detail) × History)
      → ((h : History) → effects (next h).1 ≡ effects h)
      → (h : History) → effects (and_rest workspace raw v next h).1 ≡ effects h
  unfolding and_rest
  and_rest-effects (failed e) next keep h = refl
  and_rest-effects (ok v) next keep h = keep h

  -- The preflight of the candidates writes nothing, whatever it finds.
  pub preflight-effects :
      (names : List String) (h : History) → effects (preflight workspace raw names h).1 ≡ effects h
  unfolding preflight
  preflight-effects [] h = refl
  preflight-effects (name ∷ names) h =
      let (verdict, h') = preflight_one workspace raw name h in
      and_rest-effects verdict (preflight workspace raw names) (preflight-effects names) h'
      ∙ preflight_one-effects name h
