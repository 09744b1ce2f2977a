-- ===== src/Tests/Runs.antt =====
-- Whole cycles over the sample workspace.
use sdlc.Base.{◌≡◌, refl, none, some, [], ◌∷◌}
use sdlc.Routes.{raw_process}
use sdlc.Service.Effects.{effects, state_write, status_write, worker_run}
use sdlc.Runner.Report.{succeeded}
use sdlc.Results.{normal_process}
use sdlc.Candidates.{preflight, progress_all}
use sdlc.Runner.Selection.{selected}
use sdlc.Runner.Cycle.{run_cycle}
use sdlc.Tests.Samples.{store, workers, scope}

run_succeeds : (run_cycle store workers none (some scope) []).0.outcome ≡ succeeded
unfolding run_cycle selected normal_process preflight progress_all
run_succeeds = refl

run_effects :
    effects (run_cycle store workers none (some scope) []).1
    ≡ status_write "e1" "Succeeded"
      ∷ state_write "e2" "Process"
      ∷ worker_run raw_process "e1"
      ∷ status_write "e1" "Processing"
      ∷ []
unfolding run_cycle selected normal_process preflight progress_all
run_effects = refl
