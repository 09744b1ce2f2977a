-- ===== src/Runner/Finalize/Settled.antt =====
-- `_settle` of requirement_runner.py: one final status, over this cycle's own Processing only.
pub mod Truth
use sdlc.Base.{String, ◌≡◌, refl, ap, ◌∙◌, ◌⊎◌, inl, inr, none, some, [], ◌∷◌}
use sdlc.Fibery.{Requirement, Fallible, ok}
use sdlc.Routes.{ProcessingStatus, processing, value}
use sdlc.Differences.{cycle_fields}
use sdlc.Service.Growth.{Grows, here, later, During}
use sdlc.Service.{History, Workspace, set_processing_status}
use sdlc.Service.Effects.{status_write, effects}
use sdlc.Dispatch.{DispatchResult}
use sdlc.Runner.Report.{CycleReport, failed, partial}
use sdlc.Runner.Claim.{Observation, expected, observe}
use sdlc.Runner.Claim.Observed.{ReadAs, observe-ReadAs}
use sdlc.Runner.Finalize.{
  settled_outcome, settle_confirmed, settle_written, settle_observed, settle,
}

module _ (workspace : Workspace) (claimed : Requirement) (h : History) where
  -- The read at `h` showed this cycle's own claim: the same binding, in this State, at Processing.
  abbrev pub OwnProcessing : String → Type 0
  OwnProcessing state =
      (back : Requirement) × ReadAs workspace h cycle_fields
        (expected claimed (some state) processing) back

  -- The final status was written over this cycle's own Processing, and then read back as written.
  pub record Confirmed (state : String) (final : ProcessingStatus) (r : CycleReport) (h' : History)
      : Type 0 where
    pub own : OwnProcessing state
    pub written : effects h' ≡ status_write claimed.id (value final) ∷ effects h
    pub asked : History
    pub behind : effects asked ≡ status_write claimed.id (value final) ∷ effects h
    pub during : During h h' asked
    pub settled : Requirement
    pub read_back :
        ReadAs workspace asked cycle_fields (expected claimed (some state) final) settled
    pub reported : r.requirement ≡ some settled

  -- Nothing was written, or one final status over this cycle's own Processing.
  abbrev pub Cautious : String → ProcessingStatus → History → Type 0
  Cautious state final h' =
      (effects h' ≡ effects h)
      ⊎ OwnProcessing state × (effects h' ≡ status_write claimed.id (value final) ∷ effects h)

  abbrev pub Settles : String → ProcessingStatus → CycleReport × History → Type 0
  Settles state final (r, h') =
      (r.outcome ≡ settled_outcome final) × Confirmed state final r h'
      ⊎ (r.outcome ≡ partial) × Cautious state final h'

module _ (workspace : Workspace) (claimed : Requirement) (result : DispatchResult) (state : String)
    (final : ProcessingStatus) (h : History) where
  -- The status as it is to be read back, and the history behind its write.
  abbrev wanted : Requirement
  wanted = expected claimed (some state) final

  module _ (own : OwnProcessing workspace claimed h state) (asked : History) (since : Grows h asked)
      (behind : effects asked ≡ status_write claimed.id (value final) ∷ effects h) where
    confirmed-Settles :
        (current : Requirement) (h' : History) (o : Observation)
        → Grows asked h'
        → effects h' ≡ effects asked
        → ((c : Requirement) → o ≡ (some c, []) → ReadAs workspace asked cycle_fields wanted c)
        → Settles workspace claimed h state final
            (settle_confirmed workspace claimed result state final current o, h')
    unfolding settle_confirmed
    confirmed-Settles current h' (some settled, []) until same read = inl (
      refl,
      record {
        own = own;
        written = same ∙ behind;
        asked = asked;
        behind = behind;
        during = record { since = since; until = until };
        settled = settled;
        read_back = read settled refl;
        reported = refl;
      },
    )
    confirmed-Settles current h' (some settled, d ∷ ds) until same read =
        inr (refl, inr (own, same ∙ behind))
    confirmed-Settles current h' (none, ds) until same read = inr (refl, inr (own, same ∙ behind))

    written-Settles :
        (current : Requirement) (a : Fallible (Unit {0}))
        → Settles workspace claimed h state final
            (settle_written workspace claimed result state final current a asked)
    unfolding settle_written
    written-Settles current (Fallible.failed e) = inr (refl, inr (own, behind))
    written-Settles current (ok _) =
        let (o, h') = observe workspace claimed (some state) final cycle_fields asked in
        confirmed-Settles current h' o (later _ here) refl
          (observe-ReadAs workspace claimed (some state) final cycle_fields asked)

  observed-Settles :
      (h₁ : History) (o : Observation)
      → Grows h h₁
      → effects h₁ ≡ effects h
      → ((c : Requirement)
          → o ≡ (some c, [])
          → ReadAs workspace h cycle_fields (expected claimed (some state) processing) c)
      → Settles workspace claimed h state final
          (settle_observed workspace claimed result state final o h₁)
  unfolding settle_observed
  observed-Settles h₁ (some current, []) grows same read =
      let (a, h₂) = set_processing_status workspace claimed.id (value final) h₁ in
      written-Settles (current, read current refl) h₂ (later _ grows)
        (ap (λ es. status_write claimed.id (value final) ∷ es) same) current a
  observed-Settles h₁ (some current, d ∷ ds) grows same read = inr (refl, inl same)
  observed-Settles h₁ (none, ds) grows same read = inr (refl, inl same)

  settle-Settles :
      Settles workspace claimed h state final (settle workspace claimed result state final h)
  unfolding settle
  settle-Settles =
      let (o, h₁) = observe workspace claimed (some state) processing cycle_fields h in
      observed-Settles h₁ o (later _ here) refl
        (observe-ReadAs workspace claimed (some state) processing cycle_fields h)
