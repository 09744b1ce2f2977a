-- ===== src/Candidates/Conflicting.antt =====
-- `_preflight` of requirement_dispatcher.py: a preflight that ends with a conflict found one.
use mathlib.Core.List.{Memᴰ}
use sdlc.Base.{
  String, ◌≡◌, refl, ap, ◌⊎◌, inl, inr, false, Bool-cases, Option, none, some, List, [], ◌∷◌,
  is_text, same_text, arith,
}
use sdlc.Fibery.{Requirement, Fallible, ok, failed}
use sdlc.Routes.{standard_type, draft_state}
use sdlc.Differences.{Detail}
use sdlc.Service.{History, Workspace, find_requirements_by_requirement_id}
use sdlc.Service.Growth.{Grows, here, later, Grows-trans, During, During-widen}
use sdlc.Candidates.{
  has_id, judge_source, candidate_problem, judged, judge_matches, preflight_one, add_verdict,
  and_rest, preflight,
}
use sdlc.Candidates.Preflight.{judge_matches-Grows, preflight_one-Grows, preflight-Grows}

module _ (workspace : Workspace) (raw : Requirement) where
  -- Not a Standard Draft of the RAW's Project, or, as was read then, not derived from the RAW.
  abbrev pub IsUnfit : History → Requirement → Type 0
  IsUnfit asked c =
      (is_text c.type_name standard_type ≡ false)
      ⊎ (same_text c.project_id raw.project_id ≡ false)
      ⊎ (is_text c.state draft_state ≡ false)
      ⊎ ((sources : List Requirement) × (workspace.on_sources asked c.id ≡ ok sources)
          × (has_id raw.id sources ≡ false))

  -- None or several, or a single one that is unfit.
  abbrev pub AreRefused : History → List Requirement → Type 0
  AreRefused asked (c ∷ []) = IsUnfit asked c
  AreRefused asked _ = Unit

  -- Between the two histories, the search for one of the names had none or several matches, or an
  -- unfit one.
  pub record HasConflict (h h' : History) (names : List String) : Type 0 where
    pub name : String
    pub is_named : Memᴰ name names
    pub asked : History
    pub matches : List Requirement
    pub found : workspace.on_find asked name ≡ ok matches
    pub source_asked : History
    pub refused : AreRefused source_asked matches
    pub during : During h h' asked
    pub source_during : During h h' source_asked

  pub HasConflict-widen :
      {g h h' g' : History} (names : List String)
      → Grows g h
      → Grows h' g'
      → HasConflict h h' names
      → HasConflict g g' names
  HasConflict-widen names p q c = record {
    name = c.name;
    is_named = c.is_named;
    asked = c.asked;
    matches = c.matches;
    found = c.found;
    source_asked = c.source_asked;
    refused = c.refused;
    during = During-widen p q c.during;
    source_during = During-widen p q c.source_during;
  }

  judge_source-refused :
      (name : String) (d : Detail) (a : Fallible (List Requirement))
      → judge_source workspace raw name a ≡ ok (some d)
      → (sources : List Requirement) × (a ≡ ok sources) × (has_id raw.id sources ≡ false)
  unfolding judge_source
  judge_source-refused name d (failed e) h = cc
  judge_source-refused name d (ok sources) h = elim (Bool-cases (has_id raw.id sources)) [
    | inl derived ↦ ground arith
    | inr other ↦ (sources, refl, other)
  ]

  candidate_problem-IsUnfit :
      (name : String) (d : Detail) (c : Requirement) (h : History)
      → (candidate_problem workspace raw name c h).0 ≡ ok (some d)
      → IsUnfit h c
  unfolding candidate_problem
  candidate_problem-IsUnfit name d c h e = elim (Bool-cases (is_text c.type_name standard_type)) [
    | inr other ↦ inl other
    | inl standard ↦ elim (Bool-cases (same_text c.project_id raw.project_id)) [
      | inr other ↦ inr (inl other)
      | inl own ↦ elim (Bool-cases (is_text c.state draft_state)) [
        | inr other ↦ inr (inr (inl other))
        | inl draft ↦
            inr
              (inr (inr (judge_source-refused name d (workspace.on_sources h c.id) (ground arith))))
      ]
    ]
  ]

  judged-refused :
      (d : Detail) (c : Requirement) (p : Fallible (Option Detail))
      → judged workspace raw c p ≡ ok (inr d)
      → (x : Detail) × (p ≡ ok (some x))
  judged-refused d c (failed e) eq = cc
  judged-refused d c (ok none) eq = cc
  judged-refused d c (ok (some x)) eq = (x, refl)

  judge_matches-AreRefused :
      (name : String) (d : Detail) (a : Fallible (List Requirement)) (h : History)
      → (judge_matches workspace raw name a h).0 ≡ ok (inr d)
      → (matches : List Requirement) × (a ≡ ok matches) × AreRefused h matches
  unfolding judge_matches
  judge_matches-AreRefused name d (failed e) h eq = cc
  judge_matches-AreRefused name d (ok []) h eq = ([], refl, tt)
  judge_matches-AreRefused name d (ok (c ∷ [])) h eq =
      let (x, problem) = judged-refused d c (candidate_problem workspace raw name c h).0 eq in
      (c ∷ [], refl, candidate_problem-IsUnfit name x c h problem)
  judge_matches-AreRefused name d (ok (c ∷ b ∷ more)) h eq = (c ∷ b ∷ more, refl, tt)

  preflight_one-HasConflict :
      (name : String) (names : List String) (d : Detail) (h : History)
      → (preflight_one workspace raw name h).0 ≡ ok (inr d)
      → HasConflict h (preflight_one workspace raw name h).1 (name ∷ names)
  unfolding preflight_one
  preflight_one-HasConflict name names d h eq =
      let (found, h₁) = find_requirements_by_requirement_id workspace name h in
      let grows = judge_matches-Grows workspace raw name found h₁ in
      let (matches, got, refused) = judge_matches-AreRefused name d found h₁ eq in
      record {
        name = name;
        is_named = Memᴰ.head refl;
        asked = h;
        matches = matches;
        found = got;
        source_asked = h₁;
        refused = refused;
        during = record { since = here; until = Grows-trans (later _ here) grows };
        source_during = record { since = later _ here; until = grows };
      }

  conflicts_of :
      (bs cs : List Requirement) (es ds : List Detail)
      {verdicts : Fallible (List Requirement × List Detail)}
      → verdicts ≡ ok (bs, es)
      → verdicts ≡ ok (cs, ds)
      → es ≡ ds
  conflicts_of bs cs es ds p q = cc

  add_verdict-conflict :
      (v : Requirement ⊎ Detail) (r : Fallible (List Requirement × List Detail))
      → (cs : List Requirement) (d : Detail) (ds : List Detail)
      → add_verdict workspace raw v r ≡ ok (cs, d ∷ ds)
      → ((x : Detail) × (v ≡ inr x)) ⊎ ((bs : List Requirement) × (r ≡ ok (bs, d ∷ ds)))
  add_verdict-conflict v (failed e) cs d ds eq = cc
  add_verdict-conflict (inl c) (ok (bs, es)) cs d ds eq =
      inr (bs, ap (λ l. ok (bs, l)) (conflicts_of (c ∷ bs) cs es (d ∷ ds) refl eq))
  add_verdict-conflict (inr x) (ok (bs, es)) cs d ds eq = inl (x, refl)

  and_rest-HasConflict :
      (names : List String) (first h : History) (v : Fallible (Requirement ⊎ Detail))
      → (next : History → Fallible (List Requirement × List Detail) × History)
      → (cs : List Requirement) (d : Detail) (ds : List Detail)
      → (and_rest workspace raw v next h).0 ≡ ok (cs, d ∷ ds)
      → Grows h (next h).1
      → ((x : Detail) → v ≡ ok (inr x) → HasConflict first h names)
      → ((bs : List Requirement)
          → (next h).0 ≡ ok (bs, d ∷ ds)
          → HasConflict first (next h).1 names)
      → HasConflict first (and_rest workspace raw v next h).1 names
  unfolding and_rest
  and_rest-HasConflict names first h (failed e) next cs d ds eq grows now later_on = cc
  and_rest-HasConflict names first h (ok v) next cs d ds eq grows now later_on =
      elim (add_verdict-conflict v (next h).0 cs d ds eq) [
        | inl (x, here_now) ↦ HasConflict-widen names here grows (now x (ap ok here_now))
        | inr (bs, rest) ↦ later_on bs rest
      ]

  pub preflight-HasConflict :
      (names : List String) (cs : List Requirement) (d : Detail) (ds : List Detail) (h : History)
      → (preflight workspace raw names h).0 ≡ ok (cs, d ∷ ds)
      → HasConflict h (preflight workspace raw names h).1 names
  unfolding preflight
  preflight-HasConflict [] cs d ds h eq = cc
  preflight-HasConflict (name ∷ names) cs d ds h eq =
      let (verdict, h') = preflight_one workspace raw name h in
      and_rest-HasConflict (name ∷ names) h h' verdict (preflight workspace raw names) cs d ds eq
        (preflight-Grows workspace raw names h')
        (λ x one. preflight_one-HasConflict name names x h one)
        (λ bs rest.
          let c = preflight-HasConflict names bs d ds h' rest in
          HasConflict-widen (name ∷ names) (preflight_one-Grows workspace raw name h) here (record {
            name = c.name;
            is_named = Memᴰ.tail c.is_named;
            asked = c.asked;
            matches = c.matches;
            found = c.found;
            source_asked = c.source_asked;
            refused = c.refused;
            during = c.during;
            source_during = c.source_during;
          }))
