-- ===== src/Runner/Claim.antt =====
-- src/sdlc/requirement_runner.py: `_observe`, the read that confirms a status, and `_claim`.
pub mod Observed
pub mod Confirmed
use sdlc.Base.{String, ◌⊎◌, inl, inr, Option, none, some, List, [], ◌∷◌, ◌++◌}
use sdlc.Fibery.{Requirement, Fallible, ok, failed}
use sdlc.Routes.{ProcessingStatus, processing, value}
use sdlc.Differences.{Field, Detail, message, read_failed, cycle_fields, differences}
use sdlc.Service.{Action, Workspace, pure, ◌>>=◌, read_requirement, set_processing_status}
use sdlc.Runner.Report.{CycleReport, report, claim_failed, claim_not_confirmed}
use sdlc.Runner.Scope.{ProjectScope, outside_scope}

abbrev pub Observation : Type 0
Observation = Option Requirement × List Detail

-- `replace(cycle, state=state, processing_status=status.value)`
abbrev pub expected : Requirement → Option String → ProcessingStatus → Requirement
unfolding value
expected cycle state status = record cycle {
  state = state;
  processing_status = some (value status);
}

abbrev observed : Requirement → List Field → Fallible (Option Requirement) → Observation
observed wanted fields (failed e) = (none, read_failed e ∷ [])
observed wanted fields (ok current) = (current, differences wanted current fields)

module _ (workspace : Workspace) where
  unfoldable pub observe :
      Requirement → Option String → ProcessingStatus → List Field → Action Observation
  unfolding read_requirement value
  observe cycle state status fields = do
    current ← read_requirement workspace cycle.id
    pure (observed (expected cycle state status) fields current)

  abbrev refuse : Option Requirement → Requirement → List Detail → Requirement ⊎ CycleReport
  refuse none requirement conflicts =
      inr (report claim_not_confirmed (some requirement) none conflicts)
  refuse (some claimed) requirement conflicts =
      inr (report claim_not_confirmed (some claimed) none conflicts)

  confirm : Requirement → Option Requirement → List Detail → Requirement ⊎ CycleReport
  confirm requirement (some claimed) [] = inl claimed
  confirm requirement claimed conflicts = refuse claimed requirement conflicts

  claim_written :
      Requirement → Option ProjectScope → Fallible (Unit {0}) → Action (Requirement ⊎ CycleReport)
  unfolding observe confirm outside_scope
  claim_written requirement scope (failed e) =
      pure (inr (report claim_failed (some requirement) none (message e ∷ [])))
  claim_written requirement scope (ok _) = λ h.
      let ((claimed, conflicts), h') =
        observe requirement requirement.state processing cycle_fields h in
      (confirm requirement claimed (conflicts ++ outside_scope claimed scope), h')

  -- `_claim`: Processing Status = Processing, confirmed by reading it back.
  unfoldable pub claim : Requirement → Option ProjectScope → Action (Requirement ⊎ CycleReport)
  unfolding claim_written set_processing_status value
  claim requirement scope = do
    written ← set_processing_status workspace requirement.id (value processing)
    claim_written requirement scope written
