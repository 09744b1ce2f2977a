-- ===== src/Candidates/Moved.antt =====
-- `_progress` of requirement_dispatcher.py: one State write and the read that confirms it.
use sdlc.Base.{
  String, ◌≢◌, ◌⊎◌, inl, inr, Bool-cases, not_both, is_text, ◌≡◌, refl, Option, none, some, List,
  [], ◌∷◌, arith, is_text_iff, All,
}
use sdlc.Fibery.{Requirement, Fallible, ok, failed}
use sdlc.Routes.{process_state}
use sdlc.Differences.{Detail}
use sdlc.Service.{wrote_state, History, Workspace, set_requirement_state}
use sdlc.Service.Growth.{Grows, here, later, Grows-trans, During, During-widen}
use sdlc.Service.Effects.{Effect, state_write, effects}
use sdlc.Candidates.{confirm_process, progress_written, progress}

-- Some read between the two histories returned the candidate in Process.
pub record IsMoved (workspace : Workspace) (h h' : History) (c : Requirement) : Type 0 where
  pub asked : History
  pub back : Requirement
  pub read : workspace.on_read asked c.id ≡ ok (some back)
  pub in_process : back.state ≡ some process_state
  pub during : During h h' asked

module _ (workspace : Workspace) {g h h' g' : History} (p : Grows g h) (q : Grows h' g') where
  pub IsMoved-widen : (c : Requirement) → IsMoved workspace h h' c → IsMoved workspace g g' c
  IsMoved-widen c m = record {
    asked = m.asked;
    back = m.back;
    read = m.read;
    in_process = m.in_process;
    during = During-widen p q m.during;
  }

  pub All-IsMoved-widen :
      (cs : List Requirement) → All (IsMoved workspace h h') cs → All (IsMoved workspace g g') cs
  All-IsMoved-widen [] all = tt
  All-IsMoved-widen (c ∷ cs) all = (IsMoved-widen c all.0, All-IsMoved-widen cs all.1)

-- A read that failed, or showed no Requirement in Process.
abbrev pub IsNotInProcess : Fallible (Option Requirement) → Type 0
IsNotInProcess (failed e) = Unit
IsNotInProcess (ok none) = Unit
IsNotInProcess (ok (some back)) = back.state ≢ some process_state

-- Some State write for the candidate between the two histories was not confirmed: it was refused, or
-- the read right behind it failed or showed no Requirement in Process.
pub record IsUnconfirmed (workspace : Workspace) (h h' : History) (c : Requirement) : Type 0 where
  pub at : History
  pub during : During h h' at
  pub unconfirmed :
      ((error : String) × (workspace.on_set_state at c.id process_state ≡ failed error))
      ⊎ (workspace.on_set_state at c.id process_state ≡ ok tt)
        × IsNotInProcess (workspace.on_read (wrote_state c.id process_state (ok tt) ∷ at) c.id)

module _ (workspace : Workspace) {g h h' g' : History} (p : Grows g h) (q : Grows h' g') where
  pub IsUnconfirmed-widen :
      (c : Requirement) → IsUnconfirmed workspace h h' c → IsUnconfirmed workspace g g' c
  IsUnconfirmed-widen c m = record {
    at = m.at;
    during = During-widen p q m.during;
    unconfirmed = m.unconfirmed;
  }

-- The State writes for these candidates, made in order on top of earlier effects.
abbrev pub writes : List Requirement → List Effect → List Effect
writes [] es = es
writes (c ∷ cs) es = writes cs (state_write c.id process_state ∷ es)

module _ (workspace : Workspace) where
  confirm_process-none :
      (c : Requirement) (a : Fallible (Option Requirement))
      → confirm_process workspace c a ≡ none
      → (back : Requirement) × (a ≡ ok (some back)) × (back.state ≡ some process_state)
  unfolding confirm_process
  confirm_process-none c (failed e) h = cc
  confirm_process-none c (ok none) h = cc
  confirm_process-none c (ok (some back)) h =
      (back, refl, ground (arith, is_text_iff back.state process_state))

  progress_written-IsMoved :
      (c : Requirement) (a : Fallible (Unit {0})) (h : History)
      → (progress_written workspace c a h).0 ≡ none
      → IsMoved workspace h (progress_written workspace c a h).1 c
  unfolding progress_written
  progress_written-IsMoved c (failed e) h eq = cc
  progress_written-IsMoved c (ok _) h eq =
      let (back, read, state) = confirm_process-none c (workspace.on_read h c.id) eq in
      record {
        asked = h;
        back = back;
        read = read;
        in_process = state;
        during = record { since = here; until = later _ here };
      }

  pub progress-IsMoved :
      (c : Requirement) (h : History)
      → (progress workspace c h).0 ≡ none
      → IsMoved workspace h (progress workspace c h).1 c
  unfolding progress
  progress-IsMoved c h eq =
      let (written, h₁) = set_requirement_state workspace c.id process_state h in
      IsMoved-widen workspace (later _ here) here c (progress_written-IsMoved c written h₁ eq)

  confirm_process-some :
      (c : Requirement) (a : Fallible (Option Requirement)) (d : Detail)
      → confirm_process workspace c a ≡ some d
      → IsNotInProcess a
  unfolding confirm_process
  confirm_process-some c (failed e) d h = tt
  confirm_process-some c (ok none) d h = tt
  confirm_process-some c (ok (some back)) d h =
      let test = is_text_iff back.state process_state in
      elim (Bool-cases (is_text back.state process_state)) [
        | inl here_now ↦ absurd (none_some d (rw here_now at h))
        | inr elsewhere ↦ λ e. not_both (test.1 e) elsewhere
      ]
    where
      none_some : (x : Detail) → none ≡ some x → ⊥
      none_some x e = cc

  progress_written-Grows :
      (c : Requirement) (a : Fallible (Unit {0})) (h : History)
      → Grows h (progress_written workspace c a h).1
  unfolding progress_written
  progress_written-Grows c (failed e) h = here
  progress_written-Grows c (ok _) h = later _ here

  progress_written-IsUnconfirmed :
      (c : Requirement) (a : Fallible (Unit {0})) (at : History) (d : Detail)
      → workspace.on_set_state at c.id process_state ≡ a
      → (progress_written workspace c a (wrote_state c.id process_state a ∷ at)).0 ≡ some d
      → (g : History) → Grows (wrote_state c.id process_state a ∷ at) g
      → IsUnconfirmed workspace at g c
  unfolding progress_written
  progress_written-IsUnconfirmed c (failed e) at d got h g grows = record {
    at = at;
    during = record { since = here; until = Grows-trans (later _ here) grows };
    unconfirmed = inl (e, got);
  }
  progress_written-IsUnconfirmed c (ok tt) at d got h g grows = record {
    at = at;
    during = record { since = here; until = Grows-trans (later _ here) grows };
    unconfirmed = inr (got, confirm_process-some c _ d h);
  }

  pub progress-IsUnconfirmed :
      (c : Requirement) (h : History) (d : Detail)
      → (progress workspace c h).0 ≡ some d
      → IsUnconfirmed workspace h (progress workspace c h).1 c
  unfolding progress
  progress-IsUnconfirmed c h d eq =
      let answer = workspace.on_set_state h c.id process_state in
      progress_written-IsUnconfirmed c answer h d refl eq _
        (progress_written-Grows c answer (wrote_state c.id process_state answer ∷ h))

  pub progress-Grows : (c : Requirement) (h : History) → Grows h (progress workspace c h).1
  unfolding progress
  progress-Grows c h =
      Grows-trans (later _ here)
        (progress_written-Grows c (workspace.on_set_state h c.id process_state) _)

  progress_written-effects :
      (c : Requirement) (a : Fallible (Unit {0})) (h : History)
      → effects (progress_written workspace c a h).1 ≡ effects h
  unfolding progress_written
  progress_written-effects c (failed e) h = refl
  progress_written-effects c (ok _) h = refl

  pub progress-effects :
      (c : Requirement) (h : History)
      → effects (progress workspace c h).1 ≡ state_write c.id process_state ∷ effects h
  unfolding progress
  progress-effects c h = progress_written-effects c (workspace.on_set_state h c.id process_state) _
