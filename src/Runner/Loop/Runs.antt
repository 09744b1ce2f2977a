-- ===== src/Runner/Loop/Runs.antt =====
-- `run_requirement_runner` of requirement_runner.py: the runs of the runner as a step relation.
use sdlc.Differences.{Detail}
use sdlc.Base.{
  ℕ, zero, suc, ◌≤◌, ◌≡◌, refl, ◌≢◌, ◌⊎◌, inl, inr, true, false, Option, List, [], ◌∷◌, arith,
  Bool-cases,
}
use sdlc.Fibery.{Fallible, ok, failed}
use sdlc.Service.{slept, validated_options, History, Workspace, RequirementWorkers}
use sdlc.Runner.Report.{CycleOutcome, scope_invalid, is_waiting, CycleReport}
use sdlc.Runner.Scope.{ProjectScope}
use sdlc.Runner.Cycle.{ReadyStep, run_cycle}
use sdlc.Runner.Cycle.Shape.Whole.{Cycles, run_cycle-Cycles}
use sdlc.Runner.Loop.{
  Given, boolean, int, other, pos, negsuc, minimum_poll_interval, IntervalError,
  require_poll_interval, processing_status_options, Ending, interval_refused, preflight_refused,
  stopped, scope_lost, is_scope_invalid, pause, after_cycle, cycles, preflighted, start_with,
  run_requirement_runner,
}

is_scope_invalid-cases :
    (o : CycleOutcome)
    → (is_scope_invalid o ≡ true) × (o ≡ scope_invalid)
      ⊎ (is_scope_invalid o ≡ false) × (o ≢ scope_invalid)
is_scope_invalid-cases scope_invalid = inl (refl, refl)
is_scope_invalid-cases _ = inr (refl, λ e. cc)

-- The history behind a cycle's report: one sleep more where the outcome asks to wait.
pub data Paused (interval : ℕ) (cycle : CycleReport) (h : History) : History → Type 0 where
  waits : is_waiting cycle.outcome ≡ true → Paused interval cycle h (slept interval ∷ h)
  goes_on : is_waiting cycle.outcome ≡ false → Paused interval cycle h h

pause-Paused :
    (interval : ℕ) (cycle : CycleReport) (h : History)
    → Paused interval cycle h (pause interval cycle h)
unfolding pause
pause-Paused interval cycle h = elim (Bool-cases (is_waiting cycle.outcome)) [
  | inl e ↦ rw e (waits e)
  | inr e ↦ rw e (goes_on e)
]

module _ (workspace : Workspace) (workers : RequirementWorkers) (scope : Option ProjectScope)
    (interval : ℕ) where
  -- Whole cycles one after another, until `should_continue` answers False or one loses the scope.
  pub data Steps : History → ℕ → List CycleReport → Ending → History → Type 0 where
    ends : {h : History} → Steps h zero [] stopped h
    loses :
        {h h₁ : History} {n : ℕ} (cycle : CycleReport)
        → Cycles workspace workers scope h (cycle, h₁)
        → cycle.outcome ≡ scope_invalid
        → Steps h (suc n) (cycle ∷ []) (scope_lost cycle.details) h₁
    steps :
        {h h₁ h₂ h' : History} {n : ℕ} {reports : List CycleReport} {ending : Ending}
        (cycle : CycleReport)
        → Cycles workspace workers scope h (cycle, h₁)
        → cycle.outcome ≢ scope_invalid
        → Paused interval cycle h₁ h₂
        → Steps h₂ n reports ending h'
        → Steps h (suc n) (cycle ∷ reports) ending h'

  abbrev pub StepsTo : History → ℕ → (List CycleReport × Ending) × History → Type 0
  StepsTo h n ((reports, ending), h') = Steps h n reports ending h'

module _ (workspace : Workspace) (workers : RequirementWorkers) (ready : Option ReadyStep)
    (scope : Option ProjectScope) where
  after_cycle-StepsTo :
      (interval n : ℕ) (h h₁ : History) (cycle : CycleReport)
      → Cycles workspace workers scope h (cycle, h₁)
      → ((h₂ : History)
          → StepsTo workspace workers scope interval h₂ n
              (cycles workspace workers ready scope interval n h₂))
      → StepsTo workspace workers scope interval h (suc n) (
          after_cycle workspace workers ready scope interval cycle
            (cycles workspace workers ready scope interval n)
            h₁)
  unfolding after_cycle
  after_cycle-StepsTo interval n h h₁ cycle is rest = elim (is_scope_invalid-cases cycle.outcome) [
    | inl (e, lost) ↦ rw e (loses cycle is lost)
    | inr (e, held) ↦
        rw e (steps cycle is held (pause-Paused interval cycle h₁) (rest (pause interval cycle h₁)))
  ]

  pub cycles-StepsTo :
      (interval n : ℕ) (h : History)
      → StepsTo workspace workers scope interval h n
          (cycles workspace workers ready scope interval n h)
  unfolding cycles
  cycles-StepsTo interval zero h = ends
  cycles-StepsTo interval (suc n) h =
      let (cycle, h₁) = run_cycle workspace workers ready scope h in
      after_cycle-StepsTo interval n h h₁ cycle (run_cycle-Cycles workspace workers ready scope h)
        (λ h₂. cycles-StepsTo interval n h₂)

  -- What a start came to: a refused interval left no trace, a refused preflight left its one read,
  -- and otherwise cycles followed one another with the given interval.
  abbrev pub Starts : Given → ℕ → History → (List CycleReport × Ending) × History → Type 0
  Starts given n h ((reports, interval_refused e), h') =
      (require_poll_interval given ≡ inr e) × (reports ≡ []) × (h' ≡ h)
  Starts given n h ((reports, preflight_refused e), h') =
      (workspace.on_validate h processing_status_options ≡ failed e)
      × (reports ≡ [])
      × (h' ≡ validated_options processing_status_options (failed e) ∷ h)
  Starts given n h ((reports, ending), h') =
      (interval : ℕ) × (given ≡ int (pos interval))
      × (minimum_poll_interval ≤ interval)
      × (workspace.on_validate h processing_status_options ≡ ok tt)
      × Steps workspace workers scope interval
          (validated_options processing_status_options (ok tt) ∷ h) n reports ending h'

  running :
      {interval n : ℕ} {h h' : History} {reports : List CycleReport} {ending : Ending}
      → Steps workspace workers scope interval h n reports ending h'
      → (ending ≡ stopped) ⊎ ((details : List Detail) × (ending ≡ scope_lost details))
  running ends = inl refl
  running (loses cycle is lost) = inr (cycle.details, refl)
  running (steps cycle is held paused rest) = running rest

  started :
      (given : Given) (n : ℕ) (h : History) (interval : ℕ) (reports : List CycleReport)
      (ending : Ending) (h' : History)
      → given ≡ int (pos interval)
      → minimum_poll_interval ≤ interval
      → workspace.on_validate h processing_status_options ≡ ok tt
      → Steps workspace workers scope interval
          (validated_options processing_status_options (ok tt) ∷ h)
          n
          reports
          ending
          h'
      → Starts given n h ((reports, ending), h')
  started given n h interval reports stopped h' g m valid run = (interval, g, m, valid, run)
  started given n h interval reports (scope_lost details) h' g m valid run =
      (interval, g, m, valid, run)
  started given n h interval reports (interval_refused e) h' g m valid run = elim (running run) [
    | inl never ↦ cc
    | inr (details, never) ↦ cc
  ]
  started given n h interval reports (preflight_refused e) h' g m valid run = elim (running run) [
    | inl never ↦ cc
    | inr (details, never) ↦ cc
  ]

  preflighted-Starts :
      (given : Given) (interval n : ℕ) (h : History) (a : Fallible (Unit {0}))
      → given ≡ int (pos interval)
      → minimum_poll_interval ≤ interval
      → workspace.on_validate h processing_status_options ≡ a
      → Starts given n h (
          preflighted workspace workers ready scope interval n a
            (validated_options processing_status_options a ∷ h))
  unfolding preflighted
  preflighted-Starts given interval n h (failed e) g m valid = (valid, refl, refl)
  preflighted-Starts given interval n h (ok _) g m valid =
      let h₁ = validated_options processing_status_options (ok tt) ∷ h in
      let ((reports, ending), h') = cycles workspace workers ready scope interval n h₁ in
      started given n h interval reports ending h' g m valid (cycles-StepsTo interval n h₁)

  interval_given :
      (given : Given) (n : ℕ)
      → require_poll_interval given ≡ inl n
      → (given ≡ int (pos n)) × (minimum_poll_interval ≤ n)
  unfolding require_poll_interval
  interval_given (boolean b) n e = cc
  interval_given other n e = cc
  interval_given (int (negsuc k)) n e = cc
  interval_given (int (pos k)) n e = ground arith

  start_with-Starts :
      (given : Given) (n : ℕ) (h : History) (checked : ℕ ⊎ IntervalError)
      → require_poll_interval given ≡ checked
      → Starts given n h (start_with workspace workers ready scope n checked h)
  unfolding start_with
  start_with-Starts given n h (inr refused) e = (e, refl, refl)
  start_with-Starts given n h (inl interval) e =
      let (g, m) = interval_given given interval e in
      preflighted-Starts given interval n h (workspace.on_validate h processing_status_options) g m
        refl

  -- A runner that is refused its interval did nothing at all; one that is refused by the preflight
  -- only read the field. Any other was given a whole number of at least one second, and ran whole
  -- cycles one after another from the history behind the preflight: each as `run_cycle-Cycles` says,
  -- with one sleep of that interval after exactly the outcomes that wait, until `should_continue`
  -- answered False or a cycle reported SCOPE_INVALID, after which no cycle follows.
  pub run_requirement_runner-Starts :
      (given : Given) (n : ℕ) (h : History)
      → Starts given n h (run_requirement_runner workspace workers ready scope given n h)
  unfolding run_requirement_runner
  run_requirement_runner-Starts given n h =
      start_with-Starts given n h (require_poll_interval given) refl
