-- ===== src/Tests/Application.antt =====
-- Applications of P-FR-2 in the workspace of Dependent, and the properties of the application at them.
use sdlc.Base.{Option, none, some, ◌≡◌, refl, [], ◌∷◌}
use sdlc.Results.{ApplyResultCode}
use sdlc.Evidence.{depends_on}
use sdlc.Evidence.What.{what_clearance}
use sdlc.Fibery.{failed}
use sdlc.Dependencies.Read.{read_member}
use sdlc.Apply.{◌>>=◌, ApplyWorkspace, World, relation, state_applied}
use sdlc.Apply.Reads.{Reads}
use sdlc.Apply.Plan.{make_plan}
use sdlc.Apply.Plan.Targeted.{IsPlan, make_plan-IsPlan}
use sdlc.Apply.Run.{ApplyReport, apply_standard_requirement}
use sdlc.Apply.Run.Outcome.{Outcome, apply_standard_requirement-Outcome}
use sdlc.Apply.Run.Journaled.{Accounts, apply_standard_requirement-Accounts}
use sdlc.Tests.Dependent.{login, reader, resolutions, store, replaced}

abbrev code_of : Option ApplyReport → Option ApplyResultCode
code_of none = none
code_of (some report) = some report.code

applies :
    code_of (apply_standard_requirement reader resolutions store "e2" 0).0
    ≡ some ApplyResultCode.requirement_applied
unfolding apply_standard_requirement ◌>>=◌ read_member what_clearance
applies = refl

creates :
    (apply_standard_requirement reader resolutions store "e2" 0).1.created
    ≡ relation (depends_on, "P-FR-0003") ∷ state_applied ∷ []
unfolding apply_standard_requirement ◌>>=◌ read_member what_clearance
creates = refl

misses :
    code_of (apply_standard_requirement reader resolutions store "e9" 0).0
    ≡ some ApplyResultCode.requirement_not_found
unfolding apply_standard_requirement ◌>>=◌ read_member what_clearance
misses = refl

-- The State cannot be written.
abbrev read_only_state : ApplyWorkspace
read_only_state = record store { set_requirement_state = λ ws t id state. failed "denied" }

stops_partly :
    code_of (apply_standard_requirement reader resolutions read_only_state "e2" 0).0
    ≡ some ApplyResultCode.partial_apply
unfolding apply_standard_requirement ◌>>=◌ read_member what_clearance
stops_partly = refl

-- The edge is added, and an AttributeError leaves no report.
breaks_off : (apply_standard_requirement reader resolutions replaced "e2" 0).0 ≡ none
unfolding apply_standard_requirement ◌>>=◌ read_member what_clearance
breaks_off = refl

breaks_off_after :
    (apply_standard_requirement reader resolutions replaced "e2" 0).1.created
    ≡ relation (depends_on, "P-FR-0003") ∷ []
unfolding apply_standard_requirement ◌>>=◌ read_member what_clearance
breaks_off_after = refl

apply_standard_requirement-Outcome_example :
    Outcome reader resolutions store "e2"
      (apply_standard_requirement reader resolutions store "e2" 0)
apply_standard_requirement-Outcome_example =
    apply_standard_requirement-Outcome reader resolutions store "e2" 0

apply_standard_requirement-Accounts_example :
    Accounts reader resolutions store (apply_standard_requirement reader resolutions store "e2" 0)
apply_standard_requirement-Accounts_example =
    apply_standard_requirement-Accounts reader resolutions store "e2" 0

abbrev untouched : World
untouched = record { moment = 0; writes = []; created = [] }

make_plan-IsPlan_example :
    Reads untouched
      (IsPlan store [] login ((depends_on, "P-FR-0003") ∷ []))
      (make_plan store login ((depends_on, "P-FR-0003") ∷ []))
      untouched
make_plan-IsPlan_example =
    make_plan-IsPlan store login ((depends_on, "P-FR-0003") ∷ []) untouched untouched (refl, refl)
