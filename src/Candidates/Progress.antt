-- ===== src/Candidates/Progress.antt =====
-- The loop of `_progress_candidates` of requirement_dispatcher.py: which State writes are made, in
-- which order, and what a progressed candidate is.
use mathlib.Core.Path.{subst}
use mathlib.Core.List.{append-nil, append_assoc}
use sdlc.Base.{
  String, ◌≡◌, refl, sym, ap, ◌∙◌, ◌≢◌, ◌⊎◌, inl, inr, Option, none, some, List, [], ◌∷◌, ◌++◌, map,
  All,
}
use sdlc.Fibery.{Requirement}
use sdlc.Differences.{Detail}
use sdlc.Service.{History, Workspace}
use sdlc.Service.Growth.{Grows, here, Grows-trans}
use sdlc.Service.Effects.{effects}
use sdlc.Candidates.{identity, progress, stop_or, progress_all}
use sdlc.Candidates.Moved.{
  All-IsMoved-widen, IsMoved-widen, writes, progress-IsMoved, progress-Grows, progress-effects,
  IsMoved, IsUnconfirmed, IsUnconfirmed-widen, progress-IsUnconfirmed,
}

-- What a run of the loop does, from a history `h`, with `before` already progressed: it ends with
-- the names, the failure and the history that follow.
pub record IsProgress (workspace : Workspace) (cs : List Requirement) (before : List String)
    (h : History) (progressed : List String) (failure : Option Detail) (h' : History) : Type 0 where
  pub confirmed : List Requirement
  pub stopped_at : List Requirement
  pub untouched : List Requirement
  pub split : cs ≡ confirmed ++ (stopped_at ++ untouched)
  pub named : progressed ≡ before ++ map identity confirmed
  pub moved : All (IsMoved workspace h h') confirmed
  pub grows : Grows h h'
  pub written : effects h' ≡ writes (confirmed ++ stopped_at) (effects h)
  pub ending :
      (failure ≡ none) × (stopped_at ≡ []) × (untouched ≡ [])
      ⊎ (failure ≢ none)
        × ((c : Requirement) × (stopped_at ≡ c ∷ []) × IsUnconfirmed workspace h h' c)

module _ {workspace : Workspace} {cs : List Requirement} {before progressed : List String}
    {h h' : History} {failure : Option Detail}
    (p : IsProgress workspace cs before h progressed failure h') where
  all_confirmed : failure ≡ none → (p.confirmed ≡ cs) × (p.stopped_at ≡ [])
  all_confirmed e = elim p.ending [
    | inl (_, s, u) ↦ (cc (p.split, s, u, append-nil p.confirmed), s)
    | inr (some_failure, _) ↦ absurd (some_failure e)
  ]

  -- Without a failure every candidate was moved.
  pub every_write_confirmed :
      failure ≡ none
      → All (IsMoved workspace h h') cs
        × (progressed ≡ before ++ map identity cs)
        × (effects h' ≡ writes cs (effects h))
  every_write_confirmed e =
      let (all, s) = all_confirmed e in
      let w : effects h' ≡ writes (p.confirmed ++ []) (effects h) =
        subst (λ l. effects h' ≡ writes (p.confirmed ++ l) (effects h)) s p.written in
      (
        subst (All (IsMoved workspace h h')) all p.moved,
        subst (λ l. progressed ≡ before ++ map identity l) all p.named,
        subst (λ l. effects h' ≡ writes l (effects h)) (append-nil p.confirmed ∙ all) w,
      )

  -- With one, the candidates before the one that it names were moved.
  pub confirmed_before_stop :
      failure ≢ none
      → (c : Requirement) × (cs ≡ p.confirmed ++ c ∷ p.untouched)
        × IsUnconfirmed workspace h h' c
        × All (IsMoved workspace h h') p.confirmed
        × (progressed ≡ before ++ map identity p.confirmed)
        × (effects h' ≡ writes (p.confirmed ++ c ∷ []) (effects h))
  confirmed_before_stop ne = elim p.ending [
    | inl (e, _, _) ↦ absurd (ne e)
    | inr (_, (c, s, stop)) ↦ (
      c,
      p.split ∙ ap (λ l. p.confirmed ++ (l ++ p.untouched)) s,
      stop,
      p.moved,
      p.named,
      subst (λ l. effects h' ≡ writes (p.confirmed ++ l) (effects h)) s p.written,
    )
  ]

abbrev pub Progresses :
    Workspace
    → List Requirement
    → List String
    → History
    → (List String × Option Detail) × History
    → Type 0
Progresses workspace cs before h ((progressed, failure), h') =
    IsProgress workspace cs before h progressed failure h'

module _ (workspace : Workspace) where
  stopped :
      (c : Requirement) (cs : List Requirement) (before : List String) (h : History) (d : Detail)
      → (progress workspace c h).0 ≡ some d
      → Progresses workspace (c ∷ cs) before h ((before, some d), (progress workspace c h).1)
  stopped c cs before h d e = record {
    confirmed = [];
    stopped_at = c ∷ [];
    untouched = cs;
    split = refl;
    named = sym (append-nil before);
    moved = tt;
    grows = progress-Grows workspace c h;
    written = progress-effects workspace c h;
    ending = inr (λ e. cc, (c, refl, progress-IsUnconfirmed workspace c h d e));
  }

  moved_on :
      (c : Requirement) (cs : List Requirement) (before : List String) (h : History)
      (out : (List String × Option Detail) × History)
      → (progress workspace c h).0 ≡ none
      → Progresses workspace cs (before ++ identity c ∷ []) (progress workspace c h).1 out
      → Progresses workspace (c ∷ cs) before h out
  moved_on c cs before h ((progressed, failure), h') one rest = record {
    confirmed = c ∷ rest.confirmed;
    stopped_at = rest.stopped_at;
    untouched = rest.untouched;
    split = ap (λ l. c ∷ l) rest.split;
    named = rest.named ∙ append_assoc before (identity c ∷ []) (map identity rest.confirmed);
    moved = (
      IsMoved-widen workspace here rest.grows c (progress-IsMoved workspace c h one),
      All-IsMoved-widen workspace (progress-Grows workspace c h) here rest.confirmed rest.moved,
    );
    grows = Grows-trans (progress-Grows workspace c h) rest.grows;
    written =
        rest.written
        ∙ ap (writes (rest.confirmed ++ rest.stopped_at)) (progress-effects workspace c h);
    ending = elim rest.ending [
      | inl done ↦ inl done
      | inr (some_failure, (stop, at, why)) ↦ inr (
        some_failure,
        (stop, at, IsUnconfirmed-widen workspace (progress-Grows workspace c h) here stop why),
      )
    ];
  }

  stop_or-Progresses :
      (c : Requirement) (cs : List Requirement) (before : List String) (h : History)
      (failure : Option Detail)
      → (progress workspace c h).0 ≡ failure
      → Progresses workspace cs
          (before ++ identity c ∷ [])
          (progress workspace c h).1
          (progress_all workspace cs (before ++ identity c ∷ []) (progress workspace c h).1)
      → Progresses workspace (c ∷ cs) before h (
          stop_or workspace failure before
            (progress_all workspace cs (before ++ identity c ∷ []))
            (progress workspace c h).1)
  unfolding stop_or
  stop_or-Progresses c cs before h (some d) e rest = stopped c cs before h d e
  stop_or-Progresses c cs before h none e rest = moved_on c cs before h _ e rest

  pub progress_all-IsProgress :
      (cs : List Requirement) (before : List String) (h : History)
      → Progresses workspace cs before h (progress_all workspace cs before h)
  unfolding progress_all
  progress_all-IsProgress [] before h = record {
    confirmed = [];
    stopped_at = [];
    untouched = [];
    split = refl;
    named = sym (append-nil before);
    moved = tt;
    grows = here;
    written = refl;
    ending = inl (refl, refl, refl);
  }
  progress_all-IsProgress (c ∷ cs) before h =
      stop_or-Progresses c cs before h (progress workspace c h).0 refl
        (progress_all-IsProgress cs (before ++ identity c ∷ []) (progress workspace c h).1)
