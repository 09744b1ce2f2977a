-- ===== src/Runner/Finalize/Settled/Truth.antt =====
-- `finalize_cycle` of requirement_runner.py: a reported final status was read back, it was written
-- only over this cycle's own Processing, and a hand-off writes nothing.
use mathlib.Core.Path.{subst}
use sdlc.Base.{
  String, ◌≡◌, refl, sym, ◌≢◌, ◌⊎◌, inl, inr, Option, none, some, [], ◌∷◌, is_text, is_text_iff,
  Bool-cases,
}
use sdlc.Fibery.{Requirement}
use sdlc.Routes.{ProcessingStatus, not_processed, value, Worker, standard_process, Route}
use sdlc.Differences.{binding_fields}
use sdlc.Service.{History, Workspace}
use sdlc.Service.Effects.{status_write, effects}
use sdlc.Dispatch.{
  DispatchOutcome, route_completed, worker_failed, postcondition_not_reached,
  candidate_progression_conflict, candidate_progression_failed, partial_candidate_progression,
  DispatchResult,
}
use sdlc.Runner.Report.{
  CycleOutcome, CycleReport, succeeded, failed, partial, handed_off, reset_not_observed,
}
use sdlc.Runner.Claim.{Observation, expected, observe}
use sdlc.Runner.Claim.Observed.{ReadAs, observe-ReadAs}
use sdlc.Runner.Finalize.{
  settled_outcome, settle, handoff_observed, observe_handoff, completed, finalize_route,
  finalize_selected, finalize_cycle,
}
use sdlc.Runner.Finalize.Settled.{OwnProcessing, Confirmed, settle-Settles}

-- In which State a failure is marked: the claimed one, or the RAW's Review after its progression.
abbrev pub FailsIn : Route → DispatchOutcome → String → Type 0
FailsIn route worker_failed state = state ≡ route.state
FailsIn route postcondition_not_reached state = state ≡ route.state
FailsIn route candidate_progression_conflict state = state ≡ route.completed_state
FailsIn route candidate_progression_failed state = state ≡ route.completed_state
FailsIn route partial_candidate_progression state = state ≡ route.completed_state
FailsIn route _ state = ⊥

-- The one final status that a route and an outcome allow, and the State that it belongs to: none after a
-- completed Standard Process.
abbrev pub Settling : Route → DispatchOutcome → String → ProcessingStatus → Type 0
Settling route outcome state final =
    (outcome ≡ route_completed)
      × (route.worker ≢ standard_process)
      × (state ≡ route.completed_state)
      × (final ≡ ProcessingStatus.succeeded)
    ⊎ FailsIn route outcome state × (final ≡ ProcessingStatus.failed)

module _ (workspace : Workspace) (claimed : Requirement) (result : DispatchResult) (route : Route)
    (h : History) where
  -- The Review that Standard Process left was read, its status is as `P` says, nothing was written.
  abbrev pub HandsOff : (Option String → Type 0) → CycleReport → History → Type 0
  HandsOff P r h' =
      (back : Requirement) × (result.outcome ≡ route_completed)
      × (route.worker ≡ standard_process)
      × ReadAs workspace h binding_fields
          (expected claimed (some route.completed_state) not_processed) back
      × (r.requirement ≡ some back)
      × P back.processing_status
      × (effects h' ≡ effects h)

  -- What each outcome of a finalized cycle means; no other outcome is possible.
  abbrev pub Final : CycleOutcome → CycleReport → History → Type 0
  Final succeeded r h' =
      (result.outcome ≡ route_completed)
      × (route.worker ≢ standard_process)
      × Confirmed workspace claimed h route.completed_state ProcessingStatus.succeeded r h'
  Final failed r h' =
      (state : String) × FailsIn route result.outcome state
      × Confirmed workspace claimed h state ProcessingStatus.failed r h'
  Final handed_off r h' = HandsOff (λ s. s ≡ some "Not Processed") r h'
  Final reset_not_observed r h' = HandsOff (λ s. s ≢ some "Not Processed") r h'
  Final partial r h' =
      (effects h' ≡ effects h)
      ⊎ ((state : String) × (final : ProcessingStatus) × Settling route result.outcome state final
          × OwnProcessing workspace claimed h state
          × (effects h' ≡ status_write claimed.id (value final) ∷ effects h))
  Final _ r h' = ⊥

  abbrev pub Finalizes : CycleReport × History → Type 0
  Finalizes (r, h') = Final r.outcome r h'

  settle-Finalizes :
      (state : String) (final : ProcessingStatus)
      → Settling route result.outcome state final
      → ((r : CycleReport) (h' : History)
          → Confirmed workspace claimed h state final r h'
          → Final (settled_outcome final) r h')
      → Finalizes (settle workspace claimed result state final h)
  settle-Finalizes state final allowed means =
      let (r, h') = settle workspace claimed result state final h in
      elim (settle-Settles workspace claimed result state final h) [
        | inl (e, confirmed) ↦ subst (λ o. Final o r h') (sym e) (means r h' confirmed)
        | inr (e, inl same) ↦ subst (λ o. Final o r h') (sym e) (inl same)
        | inr (e, inr (own, written)) ↦
            subst (λ o. Final o r h') (sym e) (inr (state, final, allowed, own, written))
      ]

  failing-Finalizes :
      (state : String)
      → FailsIn route result.outcome state
      → Finalizes (settle workspace claimed result state ProcessingStatus.failed h)
  failing-Finalizes state fails =
      settle-Finalizes state ProcessingStatus.failed (inr (fails, refl))
        (λ r h' c. (state, fails, c))

  handoff-Finalizes :
      (h₁ : History) (o : Observation)
      → effects h₁ ≡ effects h
      → result.outcome ≡ route_completed
      → route.worker ≡ standard_process
      → ((c : Requirement)
          → o ≡ (some c, [])
          → ReadAs workspace h binding_fields
              (expected claimed (some route.completed_state) not_processed)
              c)
      → Finalizes (handoff_observed workspace claimed result o, h₁)
  unfolding handoff_observed
  handoff-Finalizes h₁ (some c, []) same done worker read =
      let reset = is_text_iff c.processing_status (value not_processed) in
      elim (Bool-cases (is_text c.processing_status (value not_processed))) [
        | inl was_reset ↦ rw was_reset (c, done, worker, read c refl, refl, reset.0 was_reset, same)
        | inr not_reset ↦
            rw not_reset
              (c, done, worker, read c refl, refl, (λ e. cc (reset.1 e, not_reset)), same)
      ]
  handoff-Finalizes h₁ (some c, d ∷ ds) same done worker read = inl same
  handoff-Finalizes h₁ (none, ds) same done worker read = inl same

  completed-Finalizes :
      (w : Worker)
      → result.outcome ≡ route_completed
      → route.worker ≡ w
      → Finalizes (completed workspace claimed result w route.completed_state h)
  unfolding completed observe_handoff
  completed-Finalizes standard_process done worker =
      let (o, h₁) =
        observe workspace claimed (some route.completed_state) not_processed binding_fields h in
      handoff-Finalizes h₁ o refl done worker (
        observe-ReadAs workspace claimed (some route.completed_state) not_processed binding_fields
          h)
  completed-Finalizes _ done worker =
      settle-Finalizes route.completed_state ProcessingStatus.succeeded
        (inl (done, (λ e. cc), refl, refl)) (λ r h' c. (done, (λ e. cc), c))

  route-Finalizes :
      (outcome : DispatchOutcome)
      → result.outcome ≡ outcome
      → Finalizes (finalize_route workspace claimed result route outcome h)
  unfolding finalize_route
  route-Finalizes route_completed e = completed-Finalizes route.worker e refl
  route-Finalizes worker_failed e = failing-Finalizes route.state (rw e refl)
  route-Finalizes postcondition_not_reached e = failing-Finalizes route.state (rw e refl)
  route-Finalizes candidate_progression_conflict e =
      failing-Finalizes route.completed_state (rw e refl)
  route-Finalizes candidate_progression_failed e =
      failing-Finalizes route.completed_state (rw e refl)
  route-Finalizes partial_candidate_progression e =
      failing-Finalizes route.completed_state (rw e refl)
  route-Finalizes _ e = inl refl

  -- After the dispatch of a route, SUCCEEDED and FAILED were written over this cycle's own
  -- Processing, in the State that the outcome must have left, and then read back as written.
  -- SUCCEEDED only follows ROUTE_COMPLETED of a worker other than Standard Process, which is only
  -- observed: HANDED_OFF and RESET_NOT_OBSERVED write nothing and tell whether the new Review reads
  -- Not Processed. PARTIAL wrote at most one final status, the one that
  -- route and outcome allow, over this cycle's own Processing.
  pub finalize_cycle-Finalizes :
      result.selection.route ≡ some route → Finalizes (finalize_cycle workspace claimed result h)
  unfolding finalize_cycle
  finalize_cycle-Finalizes e = rw (e, finalize_selected) (route-Finalizes result.outcome refl)
