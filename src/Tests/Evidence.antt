-- ===== src/Tests/Evidence.antt =====
-- The properties of the dependency evidence, each at the workspace of Dependent.
use mathlib.Core.WellFounded.{Acc}
use sdlc.Base.{◌≡◌, ◌≢◌, ◌↔◌, refl, inr, none, some, [], ◌∷◌}
use sdlc.Evidence.{proposed, established, clear}
use sdlc.Evidence.What.{what_clearance}
use sdlc.Evidence.What.Coheres.{Coheres, what_clearance-exact}
use sdlc.Evidence.Names.{process, latest_artifact}
use sdlc.Evidence.Names.Newest.{Chooses, latest_artifact-Chooses}
use sdlc.Dependencies.Read.{read_member}
use sdlc.Dependencies.Member.Admitted.{IsAdmitted, read_member-IsAdmitted}
use sdlc.Dependencies.Closure.{visit_all, resolve_interpretation_set}
use sdlc.Dependencies.Closure.Rounds.{visit_all-ends}
use sdlc.Dependencies.Closure.Whole.{
  IsInterpretationSet, resolve_interpretation_set-IsInterpretationSet,
}
use sdlc.Dependencies.Closure.Acyclic.{IsBehind, resolve_interpretation_set-Acc}
use sdlc.Dependencies.Bindings.{bind}
use sdlc.Dependencies.Bindings.Exact.{IsBound, bind-IsBound}
use sdlc.Dependencies.Current.{applying, require_current_dependencies}
use sdlc.Dependencies.Current.Holds.{HoldsNow, require_current_dependencies-HoldsNow}
use sdlc.Tests.Dependent.{
  login, login_artifacts, login_review, session_review, processed, reader, workspace, member,
  members,
}

latest_artifact-Chooses_example :
    Chooses process
      (some "P-FR-0002")
      login_artifacts
      (latest_artifact process (some "P-FR-0002") login_artifacts)
latest_artifact-Chooses_example = latest_artifact-Chooses process (some "P-FR-0002") login_artifacts

read_member-IsAdmitted_example : IsAdmitted reader (workspace []) login "P-FR-0003" member
unfolding read_member what_clearance
read_member-IsAdmitted_example =
    read_member-IsAdmitted reader (workspace []) login "P-FR-0003" 0 member refl

visit_all-ends_example : (visit_all reader (workspace []) login ("P-FR-0003" ∷ []) 0).0 ≢ inr none
visit_all-ends_example = visit_all-ends reader (workspace []) login ("P-FR-0003" ∷ []) 0

resolve_interpretation_set-IsInterpretationSet_example :
    IsInterpretationSet reader (workspace []) login ("P-FR-0003" ∷ []) members
unfolding resolve_interpretation_set read_member what_clearance
resolve_interpretation_set-IsInterpretationSet_example =
    resolve_interpretation_set-IsInterpretationSet reader (workspace []) login ("P-FR-0003" ∷ []) 0
      members refl

resolve_interpretation_set-Acc_example : Acc (IsBehind members) "P-FR-0003"
unfolding resolve_interpretation_set read_member what_clearance
resolve_interpretation_set-Acc_example =
    resolve_interpretation_set-Acc reader (workspace []) login ("P-FR-0003" ∷ []) 0 members refl
      "P-FR-0003"

bind-IsBound_example :
    IsBound members (("P-FR-0003", proposed) ∷ []) (bind members (("P-FR-0003", proposed) ∷ []))
unfolding resolve_interpretation_set read_member what_clearance
bind-IsBound_example =
    bind-IsBound reader (workspace []) login (("P-FR-0003", proposed) ∷ []) members (
      resolve_interpretation_set-IsInterpretationSet reader (workspace []) login ("P-FR-0003" ∷ [])
        0 members refl)

require_current_dependencies-HoldsNow_example :
    HoldsNow reader (workspace []) login login_review applying members
unfolding require_current_dependencies read_member what_clearance
require_current_dependencies-HoldsNow_example =
    require_current_dependencies-HoldsNow reader (workspace []) login login_review applying 0
      members refl

what_clearance-exact_example :
    (what_clearance session_review (processed "P-FR-0003" "d3") ≡ established clear)
    ↔ Coheres session_review (processed "P-FR-0003" "d3") clear
what_clearance-exact_example =
    what_clearance-exact session_review (processed "P-FR-0003" "d3") clear

session_is_clear : what_clearance session_review (processed "P-FR-0003" "d3") ≡ established clear
unfolding what_clearance
session_is_clear = refl
