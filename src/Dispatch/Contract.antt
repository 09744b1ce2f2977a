-- ===== src/Dispatch/Contract.antt =====
-- `dispatch` of requirement_dispatcher.py: what each of its outcomes means.
pub mod Whole
use sdlc.Base.{
  String, ◌∙◌, ◌≡◌, refl, ◌≢◌, ◌⊎◌, inl, inr, true, false, Option, none, some, ◌∷◌, is_text,
  is_text_iff, Bool-cases,
}
use sdlc.Fibery.{Requirement, Fallible, ok, failed}
use sdlc.Results.{WorkerResult, is_normal}
use sdlc.Routes.{Worker, raw_process, Route, RouteSelection}
use sdlc.Service.Growth.{Grows, here, later, Grows-trans, During}
use sdlc.Service.{read, History, Workspace}
use sdlc.Service.Effects.{effects}
use sdlc.Candidates.Failing.{HasFailed}
use sdlc.Dispatch.{
  state_of, DispatchOutcome, route_completed, worker_failed, postcondition_not_reached,
  candidate_progression_conflict, candidate_progression_failed, partial_candidate_progression,
  fibery_read_failed, DispatchResult, candidates_of, is_raw, check_after, check_postcondition,
  progress_candidates,
}
use sdlc.Dispatch.Promised.{Promise, Promise-widen}
use sdlc.Dispatch.Progression.{
  progress_candidates-Grows, progress_candidates-Keeps, progress_candidates-Carries,
}

module _ (workspace : Workspace) (selection : RouteSelection) (route : Route)
    (result : WorkerResult) (h h' : History) where
  -- A read of the selected Requirement, between the two histories, returned the completed State.
  pub record WasReached : Type 0 where
    pub asked : History
    pub back : Requirement
    pub read : workspace.on_read asked selection.requirement.id ≡ ok (some back)
    pub completed : back.state ≡ some route.completed_state
    pub during : During h h' asked

  abbrev pub Reached : DispatchResult → Type 0
  Reached d = (is_normal result ≡ true) × (d.state_after ≡ some route.completed_state) × WasReached

  abbrev pub Progressed : DispatchOutcome → DispatchResult → Type 0
  Progressed outcome d =
      (route.worker ≡ raw_process)
      × Promise workspace selection.requirement (candidates_of result) h h' (effects h) outcome
          d.progressed

  -- A read of the selected Requirement, between the two histories, had this answer.
  abbrev pub WasRead : Fallible (Option Requirement) → Type 0
  WasRead answer =
      (asked : History) × During h h' asked
      × (workspace.on_read asked selection.requirement.id ≡ answer)

  -- What an outcome means once the worker has returned `result` at the first history.
  abbrev pub Meaning : DispatchOutcome → DispatchResult → Type 0
  Meaning worker_failed d = (is_normal result ≡ false) × (effects h' ≡ effects h)
  Meaning postcondition_not_reached d =
      (is_normal result ≡ true)
      × (d.state_after ≢ some route.completed_state)
      × ((after : Option Requirement) × (d.state_after ≡ state_of after) × WasRead (ok after))
      × (effects h' ≡ effects h)
  Meaning fibery_read_failed d =
      ((is_normal result ≡ true) × (effects h' ≡ effects h))
      × (((error : String) × (d.state_after ≡ none) × WasRead (failed error))
          ⊎ Reached d × (route.worker ≡ raw_process) × HasFailed workspace h h')
  Meaning route_completed d =
      Reached d
      × ((route.worker ≢ raw_process) × (effects h' ≡ effects h) ⊎ Progressed route_completed d)
  Meaning candidate_progression_conflict d = Reached d × Progressed candidate_progression_conflict d
  Meaning candidate_progression_failed d = Reached d × Progressed candidate_progression_failed d
  Meaning partial_candidate_progression d = Reached d × Progressed partial_candidate_progression d
  Meaning _ d = ⊥

  abbrev pub MeansAt : DispatchResult → Type 0
  MeansAt d = ((d.worker_result ≡ some result) × (d.selection ≡ selection)) × Meaning d.outcome d

  promise_means :
      (outcome : DispatchOutcome) (d : DispatchResult)
      → Reached d
      → Progressed outcome d
      → Meaning outcome d
  promise_means route_completed d reached p = (reached, inr p)
  promise_means candidate_progression_conflict d reached p = (reached, p)
  promise_means candidate_progression_failed d reached p = (reached, p)
  promise_means partial_candidate_progression d reached p = (reached, p)
  promise_means fibery_read_failed d reached (raw, ((_, same), lost)) =
      ((reached.0, same), inr (reached, raw, lost))
  promise_means _ d reached (raw, never) = absurd never

is_raw-cases :
    (w : Worker) → (is_raw w ≡ true) × (w ≡ raw_process) ⊎ (is_raw w ≡ false) × (w ≢ raw_process)
is_raw-cases raw_process = inl (refl, refl)
is_raw-cases _ = inr (refl, λ e. cc)

module _ (workspace : Workspace) (selection : RouteSelection) (route : Route)
    (result : WorkerResult) where
  abbrev Means : History → DispatchResult × History → Type 0
  Means h (d, h') = MeansAt workspace selection route result h h' d

  was_read :
      (h : History) (answer : Fallible (Option Requirement))
      → workspace.on_read h selection.requirement.id ≡ answer
      → WasRead workspace selection route result h
          (read selection.requirement.id (workspace.on_read h selection.requirement.id) ∷ h)
          answer
  was_read h answer got = (h, record { since = here; until = later _ here }, got)

  -- After the re-read at `h` of a normal result, at the history `h₁` behind it.
  module _ (h : History) (back : Requirement) (normal : is_normal result ≡ true)
      (reread : workspace.on_read h selection.requirement.id ≡ ok (some back)) where
    abbrev h₁ : History
    h₁ = read selection.requirement.id (workspace.on_read h selection.requirement.id) ∷ h

    was_reached :
        (h' : History)
        → Grows h₁ h'
        → back.state ≡ some route.completed_state
        → WasReached workspace selection route result h h'
    was_reached h' grows state = record {
      asked = h;
      back = back;
      read = reread;
      completed = state;
      during = record { since = here; until = Grows-trans (later _ here) grows };
    }

    progressed-Means :
        back.state ≡ some route.completed_state
        → route.worker ≡ raw_process
        → Means h (progress_candidates workspace selection result back.state h₁)
    progressed-Means state raw =
        let (carried, same, after) =
          progress_candidates-Carries workspace selection result back.state h₁ in
        let (d, h') = progress_candidates workspace selection result back.state h₁ in
        let grows = progress_candidates-Grows workspace selection result back.state h₁ in
        (
          (carried, same),
          promise_means workspace selection route result h h' d.outcome d
              (normal, after ∙ state, was_reached h' grows state)
              (
                raw,
                Promise-widen workspace selection.requirement (candidates_of result) h' (effects h)
                    d.outcome d.progressed (later _ here)
                    (progress_candidates-Keeps workspace selection result back.state h₁),
              ),
        )

    reread-Means : Means h (check_after workspace selection route result (ok (some back)) h₁)
    unfolding check_after
    reread-Means =
        let test = is_text_iff back.state route.completed_state in
        elim (Bool-cases (is_text back.state route.completed_state)) [
          | inl here_now ↦
              let state = test.0 here_now in
              elim (is_raw-cases route.worker) [
                | inl (raw, is) ↦ rw (here_now, raw) (progressed-Means state is)
                | inr (other, isnt) ↦
                    rw (here_now, other)
                      ((refl, refl), ((normal, state, was_reached h₁ here state), inl (isnt, refl)))
              ]
          | inr elsewhere ↦ rw elsewhere (
            (refl, refl),
            (
              normal,
              (λ e. cc (elsewhere, test.1 e)),
              (some back, refl, was_read h (ok (some back)) reread),
              refl,
            ),
          )
        ]

  check_after-Means :
      (h : History) (after : Fallible (Option Requirement))
      → workspace.on_read h selection.requirement.id ≡ after
      → is_normal result ≡ true
      → Means h (
          check_after workspace selection route result after
            (read selection.requirement.id (workspace.on_read h selection.requirement.id) ∷ h))
  unfolding check_after
  check_after-Means h (failed e) reread normal =
      ((refl, refl), ((normal, refl), inl (e, refl, was_read h (failed e) reread)))
  check_after-Means h (ok none) reread normal =
      ((refl, refl), (normal, (λ e. cc), (none, refl, was_read h (ok none) reread), refl))
  check_after-Means h (ok (some back)) reread normal = reread-Means h back normal reread

  check_postcondition-Means :
      (h : History)
      → is_normal result ≡ true
      → Means h (check_postcondition workspace selection route result h)
  unfolding check_postcondition
  check_postcondition-Means h normal =
      check_after-Means h (workspace.on_read h selection.requirement.id) refl normal
