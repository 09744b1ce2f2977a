-- ===== src/Runner/Project/Resolved.antt =====
-- `resolve_project_scope` of requirement_runner.py: what a scope that is bound was read from.
use mathlib.Core.Path.{subst}
use sdlc.Base.{
  ℕ, String, ◌≡◌, refl, sym, ap, ◌⊎◌, inl, inr, true, not, ◌||◌, Option, none, some, ◌∷◌, is_text,
  is_text_iff, eqb, ◌==◌, eq_iff, length, ◌≤◌, arith, Bool-cases,
}
use sdlc.Fibery.{Project, Fallible, ok, failed}
use sdlc.ProjectCode.{
  Text, codes, same_codes, max_length, InvalidProjectCode, validate_project_code,
}
use sdlc.ProjectCode.Format.{same_codes-path, IsCode, validate_project_code-exact}
use sdlc.Service.{History, Workspace, counted_projects, found_project, read_project}
use sdlc.Service.Effects.{effects}
use sdlc.Service.Growth.{Grows, here, later, Grows-trans}
use sdlc.Runner.Scope.{ProjectScope}
use sdlc.Runner.Project.{
  ScopeProblem, bound, judge_read_back, read_back, find_the_one, resolve_code,
  resolve_project_scope,
}

module _ (workspace : Workspace) (selector : String) where
  -- The one Project that answers to the selector, at the histories of the three reads.
  pub record IsBound (h : History) (scope : ProjectScope) (h' : History) : Type 0 where
    pub exact : IsCode (codes selector) × (length (codes selector) ≤ max_length)
    pub code : scope.project_code ≡ selector
    pub only_one : workspace.on_count_projects h selector ≡ ok 1
    pub found_at : History
    pub project : Project
    pub found : workspace.on_find_project found_at selector ≡ ok (some project)
    pub same_entity : scope.project_id ≡ project.id
    pub read_at : History
    pub current : Project
    pub read : workspace.on_read_project read_at project.id ≡ ok (some current)
    pub current_id : current.id ≡ project.id
    pub current_code : current.code ≡ some selector
    pub identity : scope.workspace_identity ≡ workspace.lock_scope h'
    pub order : Grows h found_at × Grows found_at read_at

  record ReadsBack (project : Project) (a : Fallible (Option Project)) (scope : ProjectScope)
      (h' : History) : Type 0 where
    current : Project
    got : a ≡ ok (some current)
    id : current.id ≡ project.id
    carries : current.code ≡ some selector
    bound_id : scope.project_id ≡ project.id
    bound_code : scope.project_code ≡ selector
    bound_in : scope.workspace_identity ≡ workspace.lock_scope h'

  bound_once : (a b : ProjectScope) → ◌≡◌ {A = ProjectScope ⊎ ScopeProblem} (inl a) (inl b) → a ≡ b
  bound_once a b e = ground arith

  refused_never :
      (problem : ScopeProblem) (scope : ProjectScope)
      → ◌≡◌ {A = ProjectScope ⊎ ScopeProblem} (inr problem) (inl scope)
      → ⊥
  refused_never problem scope e = cc

  judge-same :
      (project : Project) (a : Fallible (Option Project)) (h : History)
      → (judge_read_back workspace selector project a h).1 ≡ h
  unfolding judge_read_back
  judge-same project (failed e) h = refl
  judge-same project (ok none) h = refl
  judge-same project (ok (some current)) h =
      elim (Bool-cases (not (current.id == project.id) || not (is_text current.code selector))) [
        | inl other ↦ rw other refl
        | inr same ↦ rw same refl
      ]

  judge-ReadsBack :
      (project : Project) (a : Fallible (Option Project)) (h : History) (scope : ProjectScope)
      → (judge_read_back workspace selector project a h).0 ≡ inl scope
      → ReadsBack project a scope h
  unfolding judge_read_back
  judge-ReadsBack project (failed e) h scope eq = cc
  judge-ReadsBack project (ok none) h scope eq = cc
  judge-ReadsBack project (ok (some current)) h scope eq =
      elim (Bool-cases (not (current.id == project.id) || not (is_text current.code selector))) [
        | inl other ↦ absurd (refused_never _ scope (rw other at eq))
        | inr same ↦
            let p = bound_once (bound workspace selector project h) scope (rw same at eq) in
            record {
              current = current;
              got = refl;
              id = ground (arith, eq_iff current.id project.id);
              carries = ground (arith, is_text_iff current.code selector);
              bound_id = ap (λ s. s.project_id) (sym p);
              bound_code = ap (λ s. s.project_code) (sym p);
              bound_in = ap (λ s. s.workspace_identity) (sym p);
            }
      ]

  -- What `find_project_by_code` must have answered at `h`, and what was read behind it.
  record Finds (a : Fallible (Option Project)) (h : History) (scope : ProjectScope) (h' : History)
      : Type 0 where
    project : Project
    got : a ≡ ok (some project)
    back : ReadsBack project (workspace.on_read_project h project.id) scope h'

  read_back-Finds :
      (a : Fallible (Option Project)) (h : History) (scope : ProjectScope)
      → (read_back workspace selector a h).0 ≡ inl scope
      → Finds a h scope (read_back workspace selector a h).1
  unfolding read_back
  read_back-Finds (failed e) h scope eq = cc
  read_back-Finds (ok none) h scope eq = cc
  read_back-Finds (ok (some project)) h scope eq =
      let answer = workspace.on_read_project h project.id in
      let h₁ = read_project project.id answer ∷ h in
      record {
        project = project;
        got = refl;
        back =
            subst (ReadsBack project answer scope) (sym (judge-same project answer h₁))
              (judge-ReadsBack project answer h₁ scope eq);
      }

  -- Behind these steps no write was made.
  abbrev Quiet : History → History → Type 0
  Quiet h h' = Grows h h' × (effects h' ≡ effects h)

  read_back-Quiet :
      (a : Fallible (Option Project)) (h : History) → Quiet h (read_back workspace selector a h).1
  unfolding read_back
  read_back-Quiet (failed e) h = (here, refl)
  read_back-Quiet (ok none) h = (here, refl)
  read_back-Quiet (ok (some project)) h =
      let answer = workspace.on_read_project h project.id in
      subst (Quiet h) (sym (judge-same project answer (read_project project.id answer ∷ h)))
        (later _ here, refl)

  count_is : (n k : ℕ) → eqb n k ≡ true → n ≡ k
  count_is n k e = ground arith

  find_the_one-Finds :
      (a : Fallible ℕ) (h : History) (scope : ProjectScope)
      → (find_the_one workspace selector a h).0 ≡ inl scope
      → (a ≡ ok 1)
        × Finds
            (workspace.on_find_project h selector)
            (found_project selector (workspace.on_find_project h selector) ∷ h)
            scope
            (find_the_one workspace selector a h).1
  unfolding find_the_one
  find_the_one-Finds (failed e) h scope eq = cc
  find_the_one-Finds (ok n) h scope eq = elim (Bool-cases (eqb n 0)) [
    | inl nobody ↦ absurd (refused_never _ scope (rw nobody at eq))
    | inr some_one ↦ elim (Bool-cases (eqb n 1)) [
      | inl one ↦
          rw (some_one, one)
            (
              ap ok (count_is n 1 one),
              read_back-Finds (workspace.on_find_project h selector)
                  (found_project selector (workspace.on_find_project h selector) ∷ h) scope
                  (rw (some_one, one) at eq),
            )
      | inr many ↦ absurd (refused_never _ scope (rw (some_one, many) at eq))
    ]
  ]

  find_the_one-Quiet :
      (a : Fallible ℕ) (h : History) → Quiet h (find_the_one workspace selector a h).1
  unfolding find_the_one
  find_the_one-Quiet (failed e) h = (here, refl)
  find_the_one-Quiet (ok n) h =
      let answer = workspace.on_find_project h selector in
      let (grows, same) = read_back-Quiet answer (found_project selector answer ∷ h) in
      elim (Bool-cases (eqb n 0)) [
        | inl nobody ↦ rw nobody (here, refl)
        | inr some_one ↦ elim (Bool-cases (eqb n 1)) [
          | inl one ↦ rw (some_one, one) (Grows-trans (later _ here) grows, same)
          | inr many ↦ rw (some_one, many) (here, refl)
        ]
      ]

  resolve_code-Quiet :
      (checked : Text ⊎ InvalidProjectCode) (h : History)
      → Quiet h (resolve_code workspace selector checked h).1
  unfolding resolve_code
  resolve_code-Quiet (inr problem) h = (here, refl)
  resolve_code-Quiet (inl code) h =
      let answer = workspace.on_count_projects h selector in
      let (grows, same) = find_the_one-Quiet answer (counted_projects selector answer ∷ h) in
      elim (Bool-cases (same_codes code (codes selector))) [
        | inl exact ↦ rw exact (Grows-trans (later _ here) grows, same)
        | inr another ↦ rw another (here, refl)
      ]

  resolve_code-IsBound :
      (checked : Text ⊎ InvalidProjectCode) (h : History) (scope : ProjectScope)
      → validate_project_code (codes selector) ≡ checked
      → (resolve_code workspace selector checked h).0 ≡ inl scope
      → IsBound h scope (resolve_code workspace selector checked h).1
  unfolding resolve_code
  resolve_code-IsBound (inr problem) h scope valid eq = cc
  resolve_code-IsBound (inl code) h scope valid eq =
      elim (Bool-cases (same_codes code (codes selector))) [
        | inl exact ↦
            let answer = workspace.on_count_projects h selector in
            let h₁ = counted_projects selector answer ∷ h in
            let found = workspace.on_find_project h₁ selector in
            let (one, finds) = find_the_one-Finds answer h₁ scope (rw exact at eq) in
            let (_, is, bound) = (validate_project_code-exact (codes selector) code).0 valid in
            let same = same_codes-path code (codes selector) exact in
            rw exact (record {
              exact = (subst IsCode same is, subst (λ s. length s ≤ max_length) same bound);
              code = finds.back.bound_code;
              only_one = one;
              found_at = h₁;
              project = finds.project;
              found = finds.got;
              same_entity = finds.back.bound_id;
              read_at = found_project selector found ∷ h₁;
              current = finds.back.current;
              read = finds.back.got;
              current_id = finds.back.id;
              current_code = finds.back.carries;
              identity = finds.back.bound_in;
              order = (later _ here, later _ here);
            })
        | inr another ↦ absurd (refused_never _ scope (rw another at eq))
      ]

  -- A scope that is bound has the selector itself as its Code, which is a valid Project Code as it
  -- stands. Exactly one Project was counted under it, that Project was found and then read again
  -- by its entity id, and the second read had the same entity id and that Code.
  pub resolve_project_scope-IsBound :
      (h : History) (scope : ProjectScope)
      → (resolve_project_scope workspace selector h).0 ≡ inl scope
      → IsBound h scope (resolve_project_scope workspace selector h).1
  unfolding resolve_project_scope
  resolve_project_scope-IsBound h scope eq =
      resolve_code-IsBound (validate_project_code (codes selector)) h scope refl eq

  -- The resolution of the scope writes nothing, whatever it answers.
  pub resolve_project_scope-effects :
      (h : History) → effects (resolve_project_scope workspace selector h).1 ≡ effects h
  unfolding resolve_project_scope
  resolve_project_scope-effects h =
      (resolve_code-Quiet (validate_project_code (codes selector)) h).1
