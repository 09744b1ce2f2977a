-- ===== src/Candidates/Failing.antt =====
-- `_preflight` of requirement_dispatcher.py: a preflight that ends with a failed read made one.
use sdlc.Base.{String, ◌≡◌, refl, ◌⊎◌, inl, inr, Option, none, some, List, [], ◌∷◌, arith}
use sdlc.Fibery.{Requirement, Fallible, ok, failed}
use sdlc.Differences.{Detail}
use sdlc.Service.{History, Workspace, find_requirements_by_requirement_id}
use sdlc.Service.Growth.{Grows, here, later, Grows-trans, During, During-widen}
use sdlc.Candidates.{
  judge_source, candidate_problem, judged, judge_matches, preflight_one, add_verdict, and_rest,
  preflight,
}
use sdlc.Candidates.Preflight.{judge_matches-Grows, preflight_one-Grows}

-- Between the two histories, the search for a name or the read of the sources of a candidate failed.
pub record HasFailed (workspace : Workspace) (h h' : History) : Type 0 where
  pub error : String
  pub asked : History
  pub during : During h h' asked
  pub answer :
      ((name : String) × (workspace.on_find asked name ≡ failed error))
      ⊎ ((id : String) × (workspace.on_sources asked id ≡ failed error))

pub HasFailed-widen :
    (workspace : Workspace) {g h h' g' : History}
    → Grows g h
    → Grows h' g'
    → HasFailed workspace h h'
    → HasFailed workspace g g'
HasFailed-widen workspace p q f = record {
  error = f.error;
  asked = f.asked;
  during = During-widen p q f.during;
  answer = f.answer;
}

module _ (workspace : Workspace) (raw : Requirement) where
  judge_source-failed :
      (name error : String) (a : Fallible (List Requirement))
      → judge_source workspace raw name a ≡ failed error
      → a ≡ failed error
  unfolding judge_source
  judge_source-failed name error (failed e) h = ground arith
  judge_source-failed name error (ok l) h = ground arith

  candidate_problem-failed :
      (name error : String) (c : Requirement) (h : History)
      → (candidate_problem workspace raw name c h).0 ≡ failed error
      → judge_source workspace raw name (workspace.on_sources h c.id) ≡ failed error
  unfolding candidate_problem
  candidate_problem-failed name error c h e = ground arith

  judged-failed :
      (error : String) (x : Requirement) (p : Fallible (Option Detail))
      → judged workspace raw x p ≡ failed error
      → p ≡ failed error
  judged-failed error x (failed e) eq = ground arith
  judged-failed error x (ok none) eq = cc
  judged-failed error x (ok (some d)) eq = cc

  judge_matches-failed :
      (name error : String) (a : Fallible (List Requirement)) (h : History)
      → (judge_matches workspace raw name a h).0 ≡ failed error
      → (a ≡ failed error) ⊎ ((c : Requirement) × (workspace.on_sources h c.id ≡ failed error))
  unfolding judge_matches
  judge_matches-failed name error (failed e) h eq = inl (ground arith)
  judge_matches-failed name error (ok []) h eq = cc
  judge_matches-failed name error (ok (x ∷ [])) h eq =
      let problem = judged-failed error x (candidate_problem workspace raw name x h).0 eq in
      inr (
        x,
        judge_source-failed name error (workspace.on_sources h x.id)
            (candidate_problem-failed name error x h problem),
      )
  judge_matches-failed name error (ok (x ∷ y ∷ l)) h eq = cc

  preflight_one-HasFailed :
      (name error : String) (h : History)
      → (preflight_one workspace raw name h).0 ≡ failed error
      → HasFailed workspace h (preflight_one workspace raw name h).1
  unfolding preflight_one
  preflight_one-HasFailed name error h eq =
      let (found, h₁) = find_requirements_by_requirement_id workspace name h in
      let grows = judge_matches-Grows workspace raw name found h₁ in
      elim (judge_matches-failed name error found h₁ eq) [
        | inl lost ↦ record {
          error = error;
          asked = h;
          during = record { since = here; until = Grows-trans (later _ here) grows };
          answer = inl (name, lost);
        }
        | inr (c, lost) ↦ record {
          error = error;
          asked = h₁;
          during = record { since = later _ here; until = grows };
          answer = inr (c.id, lost);
        }
      ]

  add_verdict-failed :
      (error : String) (v : Requirement ⊎ Detail) (r : Fallible (List Requirement × List Detail))
      → add_verdict workspace raw v r ≡ failed error
      → r ≡ failed error
  add_verdict-failed error v (failed e) eq = ground arith
  add_verdict-failed error (inl c) (ok (cs, ds)) eq = cc
  add_verdict-failed error (inr d) (ok (cs, ds)) eq = cc

  and_rest-HasFailed :
      (error : String) (first h : History) (v : Fallible (Requirement ⊎ Detail))
      → (next : History → Fallible (List Requirement × List Detail) × History)
      → (and_rest workspace raw v next h).0 ≡ failed error
      → ((e : String) → v ≡ failed e → HasFailed workspace first h)
      → ((e : String) → (next h).0 ≡ failed e → HasFailed workspace first (next h).1)
      → HasFailed workspace first (and_rest workspace raw v next h).1
  unfolding and_rest
  and_rest-HasFailed error first h (failed e) next eq now later_on = now e refl
  and_rest-HasFailed error first h (ok v) next eq now later_on =
      later_on error (add_verdict-failed error v (next h).0 eq)

  pub preflight-HasFailed :
      (names : List String) (error : String) (h : History)
      → (preflight workspace raw names h).0 ≡ failed error
      → HasFailed workspace h (preflight workspace raw names h).1
  unfolding preflight
  preflight-HasFailed [] error h eq = cc
  preflight-HasFailed (name ∷ names) error h eq =
      let (verdict, h') = preflight_one workspace raw name h in
      and_rest-HasFailed error h h' verdict (preflight workspace raw names) eq
        (λ e one. preflight_one-HasFailed name e h one)
        (λ e rest.
          HasFailed-widen workspace (preflight_one-Grows workspace raw name h) here
            (preflight-HasFailed names e h' rest))
