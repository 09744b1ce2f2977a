-- ===== src/Apply/Writes/Stored.antt =====
-- `_transition_to_applied` of requirement_apply.py: what was written when it ends.
use mathlib.Core.Path.{subst}
use sdlc.Base.{ℕ, suc, ◌≡◌, refl, sym, ap, ◌∙◌, true, Option, some, List, [], ◌∷◌, ◌++◌, is_text}
use sdlc.Fibery.{Fallible, ok, failed, Requirement}
use sdlc.Routes.{applied_state}
use sdlc.Attempts.{Post}
use sdlc.Apply.{Write, wrote_state, state_applied, World, ApplyWorkspace, fetched}
use sdlc.Apply.Reads.{Keeps, Ends, given-Reads, require-Reads, then-Ends, Reads-Ends}
use sdlc.Apply.Plan.{Plan}
use sdlc.Apply.Writes.{
  same_revision, record_write, write_state, stored, as_write_failure, transition_to_applied,
}
use sdlc.Apply.Writes.Journal.{AddsAt, Stopped, StoppedAt, state_unconfirmed, adds_kept}

module _ (workspace : ApplyWorkspace) (requirement : Requirement) (plan : Plan) where
  -- The Requirement that was read back after the write of the State.
  pub record ReadBack (writes : List Write) : Type 0 where
    pub asked : ℕ
    pub back : Requirement
    pub answer : workspace.read_requirement writes asked requirement.id ≡ ok (some back)
    pub is_applied : is_text back.state applied_state ≡ true
    pub unchanged : same_revision back.revision requirement.revision ≡ true

  -- The State was written last, after all edges, and is in the journal.
  pub record IsCompleted (before w : World) : Type 0 where
    pub all_added : AddsAt workspace requirement plan [] before
    pub state_written : w.writes ≡ wrote_state requirement.id applied_state (ok tt) ∷ before.writes
    pub noted : w.created ≡ before.created ++ state_applied ∷ []
    pub confirmed : ReadBack (wrote_state requirement.id applied_state (ok tt) ∷ before.writes)

  abbrev Written : World → World → Type 0
  Written before w =
      (w.writes ≡ wrote_state requirement.id applied_state (ok tt) ∷ before.writes)
      × (w.created ≡ before.created)

  Written-stops :
      (before w : World)
      → AddsAt workspace requirement plan [] before
      → Written before w
      → StoppedAt workspace requirement plan w
  Written-stops before w h k =
      subst (λ ws. Stopped workspace requirement plan ws w.created) (sym k.0)
        (subst (Stopped workspace requirement plan _) (sym k.1)
          (state_unconfirmed (ok tt) before.writes before.created h))

  write_state-Ends :
      (before now : World)
      → AddsAt workspace requirement plan [] before
      → Keeps before now
      → Ends
          (λ _ w. Written before w)
          (StoppedAt workspace requirement plan)
          (write_state workspace requirement)
          now
  write_state-Ends before now h kept = record {
    outcome =
        go (workspace.set_requirement_state now.writes now.moment requirement.id applied_state);
  }
    where
      go :
          (answer : Fallible (Unit {0}))
          → Post
              (λ _ w. Written before w)
              (StoppedAt workspace requirement plan)
              (record_write (wrote_state requirement.id applied_state answer) answer now)
      go (ok _) = (ap (λ ws. wrote_state requirement.id applied_state (ok tt) ∷ ws) kept.0, kept.1)
      go (failed error) =
          state_unconfirmed (failed error) now.writes now.created
            (adds_kept workspace requirement plan [] before now h kept)

  stored-Ends :
      (before now : World)
      → AddsAt workspace requirement plan [] before
      → Written before now
      → Ends
          (λ o w.
            Written before w
            × (workspace.read_requirement now.writes now.moment requirement.id ≡ ok o))
          (StoppedAt workspace requirement plan)
          (stored workspace requirement)
          now
  stored-Ends before now h k = record {
    outcome = go (workspace.read_requirement now.writes now.moment requirement.id) refl;
  }
    where
      go :
          (answer : Fallible (Option Requirement))
          → workspace.read_requirement now.writes now.moment requirement.id ≡ answer
          → Post
              (λ o w.
                Written before w
                × (workspace.read_requirement now.writes now.moment requirement.id ≡ ok o))
              (StoppedAt workspace requirement plan)
              (as_write_failure (fetched answer (record now { moment = suc now.moment })))
      go (ok o) e = (k, e)
      go (failed error) e = Written-stops before now h k

  -- After all edges, from a world that nothing was written in since.
  pub transition_to_applied-Ends :
      (before now : World)
      → AddsAt workspace requirement plan [] before
      → Keeps before now
      → Ends
          (λ _ w. IsCompleted before w)
          (StoppedAt workspace requirement plan)
          (transition_to_applied workspace requirement)
          now
  unfolding transition_to_applied
  transition_to_applied-Ends before now h kept =
      then-Ends (write_state-Ends before now h kept) (λ _ w k.
        then-Ends (stored-Ends before w h k) (λ o w₁ k₁.
          then-Ends (Reads-Ends (λ v kv. stops w₁ k₁.0 v kv) (given-Reads w₁ w₁ (refl, refl) _ _))
            (λ back w₂ k₂.
              then-Ends (Reads-Ends (λ v kv. stops w₁ k₁.0 v kv) (require-Reads w₁ w₂ k₂.0 _ _))
                (λ _ w₃ k₃.
                  then-Ends (Reads-Ends (λ v kv. stops w₁ k₁.0 v kv) (require-Reads w₁ w₃ k₃.0 _ _))
                    (λ _ w₄ k₄. record {
                      outcome = record {
                        all_added = h;
                        state_written = k₄.0.0 ∙ k₁.0.0;
                        noted = ap (λ cs. cs ++ state_applied ∷ []) (k₄.0.1 ∙ k₁.0.1);
                        confirmed = subst ReadBack k.0 (record {
                          asked = w.moment;
                          back = back;
                          answer = k₁.1 ∙ ap ok k₂.1;
                          is_applied = k₃.1;
                          unchanged = k₄.1;
                        });
                      };
                    })))))
    where
      stops :
          (w : World)
          → Written before w
          → (v : World) → Keeps w v
          → StoppedAt workspace requirement plan v
      stops w k v kv = Written-stops before v h (kv.0 ∙ k.0, kv.1 ∙ k.1)
