-- ===== src/Apply/Writes.antt =====
-- The writes of one application, in requirement_apply.py: `_ensure_edges` and
-- `_transition_to_applied`.
pub mod Journal
pub mod Stored
use sdlc.Base.{
  ℕ, suc, String, ◌⊎◌, inl, inr, Bool, false, Option, none, some, List, [], ◌∷◌, ◌++◌, eqb, is_text,
}
use sdlc.Fibery.{Fallible, ok, failed, Requirement}
use sdlc.Routes.{applied_state}
use sdlc.Attempts.{return, given, require}
use sdlc.Results.{ApplyResultCode}
use sdlc.Apply.{
  ◌>>=◌, Edge, Write, added_edge, wrote_state, Created, relation, state_applied, World,
  ApplyWorkspace, Failure, Stage, stage_failed, attribute_error, fetch,
}
use sdlc.Apply.Checks.{has_edge}
use sdlc.Apply.Plan.{Targets, target_of, existing_edges}

abbrev write_failed : String → Failure
write_failed error = stage_failed ApplyResultCode.fibery_write_failed (error ∷ [])

abbrev invalid_now : Failure
invalid_now = stage_failed ApplyResultCode.validation_failed []

-- A write, which takes a moment and is recorded with its answer.
abbrev pub record_write : Write → Fallible (Unit {0}) → Stage (Unit {0})
record_write write (ok _) w =
    (inl tt, record w { moment = suc w.moment; writes = write ∷ w.writes })
record_write write (failed error) w =
    (inr (write_failed error), record w { moment = suc w.moment; writes = write ∷ w.writes })

-- `journal.created.append(…)`
abbrev pub note : Created → Stage (Unit {0})
note entry w = (inl tt, record w { created = w.created ++ entry ∷ [] })

-- An optional number against another.
abbrev pub same_revision : Option ℕ → Option ℕ → Bool
same_revision none none = Bool.true
same_revision (some a) (some b) = eqb a b
same_revision _ _ = false

-- A failed read after the State was written counts as a failed write.
abbrev pub as_write_failure : {A : Type 0} → (A ⊎ Failure) × World → (A ⊎ Failure) × World
as_write_failure (inl a, w) = (inl a, w)
as_write_failure (inr (stage_failed code causes), w) =
    (inr (stage_failed ApplyResultCode.fibery_write_failed causes), w)
as_write_failure (inr attribute_error, w) = (inr attribute_error, w)

module _ (workspace : ApplyWorkspace) (requirement : Requirement) where
  abbrev pub add_edge : Edge → Requirement → Stage (Unit {0})
  add_edge (kind, id) target w =
      let answer = workspace.add_edge w.writes w.moment kind requirement.id target.id in
      record_write (added_edge kind requirement.id target.id answer) answer w

  -- One round of `_ensure_edges`. Each missing edge has a target.
  unfoldable pub ensure_edge : Targets → Edge → Stage (Unit {0})
  unfolding existing_edges target_of
  ensure_edge targets edge = do
    target ← given invalid_now (target_of edge targets)
    _ ← add_edge edge target
    _ ← note (relation edge)
    existing ← existing_edges workspace requirement
    require (has_edge edge existing) invalid_now

  -- `_ensure_edges`
  unfoldable pub ensure_edges : Targets → List Edge → Stage (Unit {0})
  unfolding ensure_edge
  ensure_edges targets [] = return tt
  ensure_edges targets (e ∷ es) = do _ ← ensure_edge targets e; ensure_edges targets es

  abbrev pub write_state : Stage (Unit {0})
  write_state w =
      let answer = workspace.set_requirement_state w.writes w.moment requirement.id applied_state in
      record_write (wrote_state requirement.id applied_state answer) answer w

  abbrev pub stored : Stage (Option Requirement)
  stored w = as_write_failure (fetch (λ ws t. workspace.read_requirement ws t requirement.id) w)

  -- `_transition_to_applied`
  unfoldable pub transition_to_applied : Stage (Unit {0})
  transition_to_applied = do
    _ ← write_state
    answer ← stored
    back ← given invalid_now answer
    _ ← require (is_text back.state applied_state) invalid_now
    _ ← require (same_revision back.revision requirement.revision) invalid_now
    note state_applied
