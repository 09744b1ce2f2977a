-- ===== src/Apply/Run/Outcome.antt =====
-- `apply_standard_requirement` of requirement_apply.py: how each application ends.
use mathlib.Core.Path.{subst}
use sdlc.Base.{
  ℕ, String, ◌≡◌, refl, sym, ◌⊎◌, inl, inr, true, Option, none, some, [], is_text, Bool-cases,
}
use sdlc.Fibery.{Requirement}
use sdlc.Routes.{applied_state}
use sdlc.Attempts.{Post}
use sdlc.Evidence.{Reader}
use sdlc.Apply.{World, Resolutions, ApplyWorkspace, Failure, Structure, load_requirement}
use sdlc.Apply.Reads.{Keeps, Ends, then-Ends, Reads-Ends, rename-Ends}
use sdlc.Apply.Checks.{Evidence}
use sdlc.Apply.Plan.{Plan}
use sdlc.Apply.Writes.Journal.{nothing, AddsAt, Stopped, StoppedAt, adds_kept}
use sdlc.Apply.Run.{
  ApplyReport, failed_report, already_applied, applied_report, apply_loaded, reported,
  apply_or_report, apply_standard_requirement,
}
use sdlc.Apply.Run.Prepared.{IsLoaded, IsPrepared, prepare-IsPrepared, load_requirement-IsLoaded}
use sdlc.Apply.Run.Completed.{Completes, complete-Completes}

module _ (reader : Reader) (resolutions : Resolutions) (workspace : ApplyWorkspace) where
  abbrev start : ℕ → World
  start t = record { moment = t; writes = []; created = [] }

  -- How an application ends: refused before any write; found applied; stopped after it was prepared;
  -- or completed.
  pub data Outcome (entity_id : String) : Option ApplyReport × World → Type 0 where
    not_loaded :
        (failure : Failure) (t : ℕ) → Outcome entity_id (failed_report none failure [], start t)
    was_applied :
        (requirement : Requirement) (t : ℕ)
        → IsLoaded reader resolutions workspace [] entity_id requirement
        → is_text requirement.state applied_state ≡ true
        → Outcome entity_id (some (already_applied requirement), start t)
    not_prepared :
        (requirement : Requirement) (failure : Failure) (t : ℕ)
        → IsLoaded reader resolutions workspace [] entity_id requirement
        → Outcome entity_id (failed_report (some requirement) failure [], start t)
    stopped :
        (requirement : Requirement) (failure : Failure) (w : World)
        → (prepared : Structure × Evidence × Plan)
        → IsLoaded reader resolutions workspace [] entity_id requirement
        → IsPrepared reader resolutions workspace [] requirement prepared
        → Stopped workspace requirement prepared.2 w.writes w.created
        → Outcome entity_id (failed_report (some requirement) failure w.created, w)
    completed :
        (requirement : Requirement) (w : World) (prepared : Structure × Evidence × Plan)
        → IsLoaded reader resolutions workspace [] entity_id requirement
        → IsPrepared reader resolutions workspace [] requirement prepared
        → Completes reader resolutions workspace requirement prepared w
        → Outcome entity_id (some (applied_report requirement prepared.2 w.created), w)

  abbrev Finished : Requirement → Plan → World → Type 0
  Finished requirement plan w =
      (prepared : Structure × Evidence × Plan) × IsPrepared reader resolutions workspace []
        requirement prepared
      × Completes reader resolutions workspace requirement prepared w
      × (prepared.2 ≡ plan)

  abbrev Failed : Requirement → World → World → Type 0
  Failed requirement before w =
      Keeps before w
      ⊎ ((prepared : Structure × Evidence × Plan) × IsPrepared reader resolutions workspace []
            requirement prepared
          × StoppedAt workspace requirement prepared.2 w)

  begins :
      (requirement : Requirement) (t : ℕ) (prepared : Structure × Evidence × Plan) (w : World)
      → Keeps (start t) w
      → AddsAt workspace requirement prepared.2 prepared.2.missing w
  begins requirement t prepared w k =
      adds_kept workspace requirement prepared.2 prepared.2.missing (start t) w nothing k

  apply_loaded-Ends :
      (requirement : Requirement) (t : ℕ) (now : World)
      → Keeps (start t) now
      → Ends
          (Finished requirement)
          (Failed requirement (start t))
          (apply_loaded reader resolutions workspace requirement)
          now
  unfolding apply_loaded
  apply_loaded-Ends requirement t now kept =
      then-Ends
        (Reads-Ends (λ v k. inl k)
          (prepare-IsPrepared reader resolutions workspace requirement (start t) now kept))
        (λ prepared w k.
          then-Ends
            (rename-Ends
              (complete-Completes reader resolutions workspace requirement prepared w
                (begins requirement t prepared w k.0))
              (λ v stops. inr (prepared, k.1, stops)))
            (λ _ v done. record { outcome = (prepared, k.1, done, refl) }))

  at_start :
      (entity_id : String) (report : Option ApplyReport) (t : ℕ) (w : World)
      → Keeps (start t) w
      → Outcome entity_id (report, start w.moment)
      → Outcome entity_id (report, w)
  at_start entity_id report t w k h =
      subst (λ v. Outcome entity_id (report, v))
        (λ i. record { moment = w.moment; writes = sym k.0 i; created = sym k.1 i }) h

  reported-Outcome :
      (entity_id : String) (requirement : Requirement) (t : ℕ)
      → IsLoaded reader resolutions workspace [] entity_id requirement
      → (r : (Plan ⊎ Failure) × World)
      → Post (Finished requirement) (Failed requirement (start t)) r
      → Outcome entity_id (reported reader resolutions workspace requirement r)
  unfolding reported
  reported-Outcome entity_id requirement t loaded (inl plan, w) (prepared, h, done, same) =
      subst (λ p. Outcome entity_id (some (applied_report requirement p w.created), w)) same
        (completed requirement w prepared loaded h done)
  reported-Outcome entity_id requirement t loaded (inr failure, w) (inl k) =
      at_start entity_id (failed_report (some requirement) failure w.created) t w k (
        subst
          (λ cs. Outcome entity_id (failed_report (some requirement) failure cs, start w.moment))
          (sym k.1) (not_prepared requirement failure w.moment loaded))
  reported-Outcome entity_id requirement t loaded (inr failure, w) (inr (prepared, h, stops)) =
      stopped requirement failure w prepared loaded h stops

  or_report-Outcome :
      (entity_id : String) (t : ℕ) (r : (Requirement ⊎ Failure) × World)
      → Post
          (λ requirement w.
            Keeps (start t) w × IsLoaded reader resolutions workspace [] entity_id requirement)
          (Keeps (start t))
          r
      → Outcome entity_id (apply_or_report reader resolutions workspace r)
  unfolding apply_or_report
  or_report-Outcome entity_id t (inr failure, w) k =
      at_start entity_id (failed_report none failure w.created) t w k (
        subst (λ cs. Outcome entity_id (failed_report none failure cs, start w.moment)) (sym k.1)
          (not_loaded failure w.moment))
  or_report-Outcome entity_id t (inl requirement, w) (k, loaded) =
      elim (Bool-cases (is_text requirement.state applied_state)) [
        | inl already ↦ rw already (
            at_start entity_id (some (already_applied requirement)) t w k
              (was_applied requirement w.moment loaded already))
        | inr pending ↦ rw pending (
            reported-Outcome entity_id requirement t loaded
              (apply_loaded reader resolutions workspace requirement w)
              (apply_loaded-Ends requirement t w k).outcome)
      ]

  -- Each application of a Requirement, whatever other writers do, ends in one of these ways. It
  -- fails before it wrote anything, and names nothing created. It finds the Standard Requirement
  -- applied and writes nothing. It stops after the checks of the preparation passed: it added the
  -- missing edges of the plan in order, up to one, each to the target that the plan holds, and the
  -- journal names exactly the added ones; or it added them all and the State was not confirmed. Or
  -- it completes: the evidence, the dependencies and the resolutions held in the preparation and
  -- again after the last edge, and then the State was written, once, and read back as Applied with
  -- the same revision.
  pub apply_standard_requirement-Outcome :
      (entity_id : String) (t : ℕ)
      → Outcome entity_id (apply_standard_requirement reader resolutions workspace entity_id t)
  unfolding apply_standard_requirement
  apply_standard_requirement-Outcome entity_id t =
      or_report-Outcome entity_id t (load_requirement workspace entity_id (start t))
        (load_requirement-IsLoaded reader resolutions workspace entity_id (start t) (start t)
          (refl, refl)).outcome
