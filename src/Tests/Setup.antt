-- ===== src/Tests/Setup.antt =====
-- The properties of the Project Code, of the scope's resolution and of the runner's loop, each at
-- one input.
use sdlc.Base.{◌≡◌, refl, ◌≤◌, ◌↔◌, inl, some, none, [], ◌∷◌, All, length, List}
use sdlc.Service.Effects.{effects}
use sdlc.ProjectCode.{
  codes, max_length, normalize_project_code, validate_project_code, candidate_project_codes,
  variants, Text,
}
use sdlc.ProjectCode.Format.{IsCode, validate_project_code-exact}
use sdlc.ProjectCode.Derived.{IsGenerated, candidate_project_codes-accepted}
use sdlc.Runner.Project.{resolve_project_scope}
use sdlc.Runner.Project.Resolved.{IsBound, resolve_project_scope-IsBound}
use sdlc.Runner.Loop.{int, pos, cycles, run_requirement_runner}
use sdlc.Runner.Loop.Runs.{Starts, run_requirement_runner-Starts}
use sdlc.Runner.Loop.Ended.{Ended, cycles-Ended}
use sdlc.Base.{◌+◌}
use sdlc.Runner.Workers.{runs, cycles-runs}
use sdlc.Tests.Samples.{scope, store, workers}

run_requirement_runner-Starts_example :
    Starts store workers none
      (some scope)
      (int (pos 5))
      2
      []
      (run_requirement_runner store workers none (some scope) (int (pos 5)) 2 [])
run_requirement_runner-Starts_example =
    run_requirement_runner-Starts store workers none (some scope) (int (pos 5)) 2 []

cycles-Ended_example :
    let ((reports, ending), h') = cycles store workers none (some scope) 5 2 [] in
    Ended store workers none (some scope) 2 reports ending
cycles-Ended_example = cycles-Ended store workers none (some scope) 5 2 []

resolve_project_scope-IsBound_example :
    IsBound store "P" [] scope (resolve_project_scope store "P" []).1
unfolding resolve_project_scope
resolve_project_scope-IsBound_example = resolve_project_scope-IsBound store "P" [] scope refl

validate_project_code-exact_example :
    (validate_project_code (codes " ab1\n") ≡ inl (codes "AB1")) ↔ (
      (normalize_project_code (codes " ab1\n") ≡ codes "AB1")
      × IsCode (codes "AB1")
      × (length (codes "AB1") ≤ max_length))
validate_project_code-exact_example = validate_project_code-exact (codes " ab1\n") (codes "AB1")

-- What the name "Pilot" yields.
abbrev listed : List Text
unfolding variants codes
listed = codes "PILOT" ∷ variants (codes "PILOT") 2 98

candidate_project_codes-accepted_example :
    All (λ s. IsGenerated s × (validate_project_code s ≡ inl s)) listed × (length listed ≡ 99)
unfolding candidate_project_codes codes listed
candidate_project_codes-accepted_example =
    candidate_project_codes-accepted (codes "Pilot") listed refl

cycles-runs_example :
    let ((reports, ending), h') = cycles store workers none (some scope) 5 2 [] in
    runs (effects h') ≤ length reports + runs (effects [])
cycles-runs_example = cycles-runs store workers none (some scope) [] 5 2
