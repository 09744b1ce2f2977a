-- ===== src/Dispatch/Progression.antt =====
-- `_progress_candidates` of requirement_dispatcher.py: what each of its outcomes means for the
-- candidates of a RAW result.
use mathlib.Core.Path.{subst}
use sdlc.Base.{String, ◌≡◌, refl, ap, ◌∙◌, Option, none, some, List, [], ◌∷◌, ◌++◌, map}
use sdlc.Fibery.{Requirement, Fallible, ok, failed}
use sdlc.Results.{WorkerResult}
use sdlc.Routes.{RouteSelection}
use sdlc.Differences.{Detail}
use sdlc.Service.{History, Workspace}
use sdlc.Service.Effects.{Effect, effects}
use sdlc.Candidates.{identity, preflight, progress_all}
use sdlc.Candidates.Admitted.{AreAdmitted, AreAdmitted-widen}
use sdlc.Candidates.Preflight.{preflight-Grows, preflight-AreAdmitted}
use sdlc.Candidates.Failing.{HasFailed, preflight-HasFailed}
use sdlc.Candidates.Effects.{preflight-effects}
use sdlc.Service.Growth.{Grows, here, Grows-trans}
use sdlc.Candidates.Moved.{All-IsMoved-widen, IsUnconfirmed-widen, writes}
use sdlc.Candidates.Progress.{
  Progresses, every_write_confirmed, confirmed_before_stop, progress_all-IsProgress,
}
use sdlc.Dispatch.{
  DispatchResult, candidates_of, progress_outcome, progress_preflighted, progress_candidates,
}
use sdlc.Candidates.Conflicting.{HasConflict, preflight-HasConflict}
use sdlc.Dispatch.Promised.{Promise}

module _ (workspace : Workspace) (raw : Requirement) (names : List String) (h h' : History)
    (old : List Effect) where
  abbrev Keeps : DispatchResult → Type 0
  Keeps d = Promise workspace raw names h h' old d.outcome d.progressed

nil_of_map : (cs : List Requirement) → [] ≡ map identity cs → cs ≡ []
nil_of_map [] e = refl
nil_of_map (c ∷ cs) e = cc

module _ (workspace : Workspace) (selection : RouteSelection) (result : WorkerResult)
    (state_after : Option String) where
  abbrev pub raw : Requirement
  raw = selection.requirement

  abbrev pub names : List String
  names = candidates_of result

  outcome-Keeps :
      (cs : List Requirement) (first h : History) (out : List String × Option Detail) (h' : History)
      → Grows first h
      → AreAdmitted workspace raw first h names cs
      → Progresses workspace cs [] h (out, h')
      → Keeps workspace raw names first h'
          (effects h)
          (progress_outcome workspace selection result state_after out)
  unfolding progress_outcome
  outcome-Keeps cs first h (progressed, none) h' grows admitted p =
      let (moved, named, written) = every_write_confirmed p refl in
      (
        cs,
        AreAdmitted-widen workspace raw names cs here p.grows admitted,
        All-IsMoved-widen workspace grows here cs moved,
        named,
        written,
      )
  outcome-Keeps cs first h ([], some failure) h' grows admitted p =
      let (c, split, stop, _, named, written) = confirmed_before_stop p (λ e. cc) in
      let all = AreAdmitted-widen workspace raw names cs here p.grows admitted in
      let none_before = nil_of_map p.confirmed named in
      (
        c,
        p.untouched,
        subst (AreAdmitted workspace raw first h' names)
            (split ∙ ap (λ l. l ++ c ∷ p.untouched) none_before) all,
        IsUnconfirmed-widen workspace grows here c stop,
        refl,
        subst (λ l. effects h' ≡ writes (l ++ c ∷ []) (effects h)) none_before written,
      )
  outcome-Keeps cs first h (name ∷ more, some failure) h' grows admitted p =
      let (c, split, stop, moved, named, written) = confirmed_before_stop p (λ e. cc) in
      let all = AreAdmitted-widen workspace raw names cs here p.grows admitted in
      (
        p.confirmed,
        c,
        p.untouched,
        subst (AreAdmitted workspace raw first h' names) split all,
        IsUnconfirmed-widen workspace grows here c stop,
        λ e. cc,
        All-IsMoved-widen workspace grows here p.confirmed moved,
        named,
        written,
      )

  preflighted-Keeps :
      (first h : History) (verdicts : Fallible (List Requirement × List Detail))
      → Grows first h
      → ((cs : List Requirement)
          → verdicts ≡ ok (cs, [])
          → AreAdmitted workspace raw first h names cs)
      → ((e : String) → verdicts ≡ failed e → HasFailed workspace first h)
      → ((cs : List Requirement) (d : Detail) (ds : List Detail)
          → verdicts ≡ ok (cs, d ∷ ds)
          → HasConflict workspace raw first h names)
      → let (d, h') = progress_preflighted workspace selection result state_after verdicts h in
        Keeps workspace raw names first h' (effects h) d
  unfolding progress_preflighted
  preflighted-Keeps first h (failed e) grows admitted lost conflict = ((refl, refl), lost e refl)
  preflighted-Keeps first h (ok (cs, d ∷ ds)) grows admitted lost conflict =
      ((refl, refl), conflict cs d ds refl)
  preflighted-Keeps first h (ok (cs, [])) grows admitted lost conflict =
      let (out, h') = progress_all workspace cs [] h in
      outcome-Keeps cs first h out h' grows (admitted cs refl)
        (progress_all-IsProgress workspace cs [] h)

  -- Each outcome of a candidate progression keeps its promise. ROUTE_COMPLETED means that every name
  -- of the RAW result resolved to one admitted candidate and that each was written and read back in
  -- Process, in order. A conflict means that no candidate was written, since the search for one of
  -- the names had none or several matches or an unfit one; a failed read, that none was written,
  -- since a read of the preflight failed. Otherwise every name resolved to one admitted candidate,
  -- the reported names are those of the first of them, which were read back in Process, and the next
  -- one was written, but its write was refused or the read right behind it did not show Process.
  pub progress_candidates-Keeps :
      (h : History)
      → let (d, h') = progress_candidates workspace selection result state_after h in
        Keeps workspace raw names h h' (effects h) d
  unfolding progress_candidates
  progress_candidates-Keeps h =
      let (verdicts, h₁) = preflight workspace raw names h in
      let (d, h') = progress_preflighted workspace selection result state_after verdicts h₁ in
      subst (λ old. Keeps workspace raw names h h' old d) (preflight-effects workspace raw names h)
        (preflighted-Keeps h h₁ verdicts (preflight-Grows workspace raw names h)
          (λ cs e. preflight-AreAdmitted workspace raw names h cs e)
          (λ error e. preflight-HasFailed workspace raw names error h e)
          (λ cs d ds e. preflight-HasConflict workspace raw names cs d ds h e))

  preflighted-Grows :
      (verdicts : Fallible (List Requirement × List Detail)) (h : History)
      → Grows h (progress_preflighted workspace selection result state_after verdicts h).1
  unfolding progress_preflighted
  preflighted-Grows (failed e) h = here
  preflighted-Grows (ok (cs, d ∷ ds)) h = here
  preflighted-Grows (ok (cs, [])) h = (progress_all-IsProgress workspace cs [] h).grows

  pub progress_candidates-Grows :
      (h : History) → Grows h (progress_candidates workspace selection result state_after h).1
  unfolding progress_candidates
  progress_candidates-Grows h =
      let (verdicts, h₁) = preflight workspace raw names h in
      Grows-trans (preflight-Grows workspace raw names h) (preflighted-Grows verdicts h₁)

  abbrev pub Carries : DispatchResult × History → Type 0
  Carries (d, h) =
      (d.worker_result ≡ some result) × (d.selection ≡ selection) × (d.state_after ≡ state_after)

  outcome-Carries :
      (out : List String × Option Detail) (h : History)
      → Carries (progress_outcome workspace selection result state_after out, h)
  unfolding progress_outcome
  outcome-Carries (progressed, none) h = (refl, refl, refl)
  outcome-Carries ([], some failure) h = (refl, refl, refl)
  outcome-Carries (name ∷ more, some failure) h = (refl, refl, refl)

  preflighted-Carries :
      (verdicts : Fallible (List Requirement × List Detail)) (h : History)
      → Carries (progress_preflighted workspace selection result state_after verdicts h)
  unfolding progress_preflighted
  preflighted-Carries (failed e) h = (refl, refl, refl)
  preflighted-Carries (ok (cs, d ∷ ds)) h = (refl, refl, refl)
  preflighted-Carries (ok (cs, [])) h =
      let (out, h') = progress_all workspace cs [] h in outcome-Carries out h'

  -- The result of a progression names the worker's result, the selection and the State read after it.
  pub progress_candidates-Carries :
      (h : History) → Carries (progress_candidates workspace selection result state_after h)
  unfolding progress_candidates
  progress_candidates-Carries h =
      let (verdicts, h') = preflight workspace raw names h in preflighted-Carries verdicts h'
