-- ===== src/Dispatch/Promised.antt =====
-- `_progress_candidates` of requirement_dispatcher.py: what each of its outcomes promises.
use sdlc.Base.{String, ◌≡◌, ◌≢◌, List, [], ◌∷◌, ◌++◌, map, All}
use sdlc.Fibery.{Requirement}
use sdlc.Routes.{process_state}
use sdlc.Service.{History, Workspace}
use sdlc.Service.Effects.{Effect, state_write, effects}
use sdlc.Candidates.{identity}
use sdlc.Candidates.Admitted.{AreAdmitted, AreAdmitted-widen}
use sdlc.Candidates.Failing.{HasFailed, HasFailed-widen}
use sdlc.Service.Growth.{Grows, here}
use sdlc.Candidates.Moved.{All-IsMoved-widen, IsMoved, IsUnconfirmed, IsUnconfirmed-widen, writes}
use sdlc.Dispatch.{
  DispatchOutcome, route_completed, candidate_progression_conflict, candidate_progression_failed,
  partial_candidate_progression, fibery_read_failed,
}
use sdlc.Candidates.Conflicting.{HasConflict, HasConflict-widen}

module _ (workspace : Workspace) (raw : Requirement) (names : List String) (h h' : History)
    (old : List Effect) where
  -- What an outcome promises of the progressed names and of the effects: the answers it speaks of
  -- were given between the two histories, and the effects before were `old`.
  abbrev pub Promise : DispatchOutcome → List String → Type 0
  Promise route_completed progressed =
      (cs : List Requirement) × AreAdmitted workspace raw h h' names cs
      × All (IsMoved workspace h h') cs
      × (progressed ≡ map identity cs)
      × (effects h' ≡ writes cs old)
  Promise candidate_progression_conflict progressed =
      ((progressed ≡ []) × (effects h' ≡ old)) × HasConflict workspace raw h h' names
  Promise fibery_read_failed progressed =
      ((progressed ≡ []) × (effects h' ≡ old)) × HasFailed workspace h h'
  Promise candidate_progression_failed progressed =
      (c : Requirement) × (rest : List Requirement) × AreAdmitted workspace raw h h' names
        (c ∷ rest)
      × IsUnconfirmed workspace h h' c
      × (progressed ≡ [])
      × (effects h' ≡ state_write c.id process_state ∷ old)
  Promise partial_candidate_progression progressed =
      (cs : List Requirement) × (c : Requirement) × (rest : List Requirement) × AreAdmitted
        workspace raw h h' names (cs ++ c ∷ rest)
      × IsUnconfirmed workspace h h' c
      × (progressed ≢ [])
      × All (IsMoved workspace h h') cs
      × (progressed ≡ map identity cs)
      × (effects h' ≡ writes (cs ++ c ∷ []) old)
  Promise _ progressed = ⊥

-- An earlier start keeps the promise.
module _ (workspace : Workspace) (raw : Requirement) (names : List String) {g h : History}
    (h' : History) (old : List Effect) where
  pub Promise-widen :
      (outcome : DispatchOutcome) (progressed : List String)
      → Grows g h
      → Promise workspace raw names h h' old outcome progressed
      → Promise workspace raw names g h' old outcome progressed
  Promise-widen route_completed progressed p (cs, admitted, moved, named, written) = (
    cs,
    AreAdmitted-widen workspace raw names cs p here admitted,
    All-IsMoved-widen workspace p here cs moved,
    named,
    written,
  )
  Promise-widen partial_candidate_progression progressed p
        (cs, c, rest, admitted, stop, some_names, moved, named, written) =
      (
        cs,
        c,
        rest,
        AreAdmitted-widen workspace raw names (cs ++ c ∷ rest) p here admitted,
        IsUnconfirmed-widen workspace p here c stop,
        some_names,
        All-IsMoved-widen workspace p here cs moved,
        named,
        written,
      )
  Promise-widen candidate_progression_conflict progressed p (same, conflict) =
      (same, HasConflict-widen workspace raw names p here conflict)
  Promise-widen candidate_progression_failed progressed p
        (c, rest, admitted, stop, nothing, written) =
      (
        c,
        rest,
        AreAdmitted-widen workspace raw names (c ∷ rest) p here admitted,
        IsUnconfirmed-widen workspace p here c stop,
        nothing,
        written,
      )
  Promise-widen fibery_read_failed progressed p (same, lost) =
      (same, HasFailed-widen workspace p here lost)
  Promise-widen _ progressed p never = absurd never
