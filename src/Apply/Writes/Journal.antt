-- ===== src/Apply/Writes/Journal.antt =====
-- The writes of one application, in requirement_apply.py: what was written and what the journal
-- names, for every way in which the writes end.
use mathlib.Core.Path.{subst}
use sdlc.Base.{String, ◌≡◌, refl, sym, ap, some, List, [], ◌∷◌, ◌++◌}
use sdlc.Fibery.{Fallible, ok, failed, Requirement}
use sdlc.Routes.{applied_state}
use sdlc.Attempts.{Post}
use sdlc.Apply.{Edge, Write, added_edge, wrote_state, Created, relation, World, ApplyWorkspace}
use sdlc.Apply.Reads.{Keeps, Ends, given-Reads, require-Reads, then-Ends, Reads-Ends, weaken-Ends}
use sdlc.Apply.Plan.{Plan, target_of}
use sdlc.Apply.Plan.Targeted.{existing_edges-Reads}
use sdlc.Apply.Writes.{add_edge, record_write, note, ensure_edge, ensure_edges}

module _ (workspace : ApplyWorkspace) (requirement : Requirement) (plan : Plan) where
  -- The missing edges of the plan were added one after another, but for the last ones, each from
  -- the Requirement to the target in the plan; the journal names each of them.
  pub data Adds : List Edge → List Write → List Created → Type 0 where
    nothing : Adds plan.missing [] []
    added :
        (e : Edge) (es : List Edge) (ws : List Write) (cs : List Created) (target : Requirement)
        → Adds (e ∷ es) ws cs
        → target_of e plan.targets ≡ some target
        → Adds es (added_edge e.0 requirement.id target.id (ok tt) ∷ ws) (cs ++ relation e ∷ [])

  -- The writes ended early: between two edges, at an edge that was refused, or at the write of the
  -- State, after all edges, which may have landed and is not in the journal.
  pub data Stopped : List Write → List Created → Type 0 where
    between : (es : List Edge) (ws : List Write) (cs : List Created) → Adds es ws cs → Stopped ws cs
    edge_refused :
        (e : Edge) (es : List Edge) (ws : List Write) (cs : List Created) (target : Requirement)
        → (error : String) → Adds (e ∷ es) ws cs
        → target_of e plan.targets ≡ some target
        → Stopped (added_edge e.0 requirement.id target.id (failed error) ∷ ws) cs
    state_unconfirmed :
        (answer : Fallible (Unit {0})) (ws : List Write) (cs : List Created)
        → Adds [] ws cs
        → Stopped (wrote_state requirement.id applied_state answer ∷ ws) cs

  abbrev pub StoppedAt : World → Type 0
  StoppedAt w = Stopped w.writes w.created

  abbrev pub AddsAt : List Edge → World → Type 0
  AddsAt es w = Adds es w.writes w.created

  pub Adds-moved :
      (es : List Edge) {ws vs : List Write} {cs ds : List Created}
      → Adds es ws cs
      → ws ≡ vs
      → cs ≡ ds
      → Adds es vs ds
  Adds-moved es {ws} {vs} {cs} {ds} h p q = subst (λ xs. Adds es xs ds) p (subst (Adds es ws) q h)

  pub adds_kept :
      (es : List Edge) (before w : World) → AddsAt es before → Keeps before w → AddsAt es w
  adds_kept es before w h k = Adds-moved es h (sym k.0) (sym k.1)

  pub stopped_kept :
      (es : List Edge) (before w : World) → AddsAt es before → Keeps before w → StoppedAt w
  stopped_kept es before w h k = between es w.writes w.created (adds_kept es before w h k)

  add_edge-Ends :
      (e : Edge) (es : List Edge) (target : Requirement) (now : World)
      → AddsAt (e ∷ es) now
      → target_of e plan.targets ≡ some target
      → Ends
          (λ _ w.
            (w.writes ≡ added_edge e.0 requirement.id target.id (ok tt) ∷ now.writes)
            × (w.created ≡ now.created))
          StoppedAt
          (add_edge workspace requirement e target)
          now
  add_edge-Ends e es target now h got = record {
    outcome = go (workspace.add_edge now.writes now.moment e.0 requirement.id target.id);
  }
    where
      go :
          (answer : Fallible (Unit {0}))
          → Post
              (λ _ w.
                (w.writes ≡ added_edge e.0 requirement.id target.id (ok tt) ∷ now.writes)
                × (w.created ≡ now.created))
              StoppedAt
              (record_write (added_edge e.0 requirement.id target.id answer) answer now)
      go (ok _) = (refl, refl)
      go (failed error) = edge_refused e es now.writes now.created target error h got

  ensure_edge-Ends :
      (e : Edge) (es : List Edge) (now : World)
      → AddsAt (e ∷ es) now
      → Ends (λ _ w. AddsAt es w) StoppedAt (ensure_edge workspace requirement plan.targets e) now
  unfolding ensure_edge
  ensure_edge-Ends e es now h =
      then-Ends
        (Reads-Ends (λ w k. stopped_kept (e ∷ es) now w h k) (given-Reads now now (refl, refl) _ _))
        (λ target w k.
          then-Ends (add_edge-Ends e es target w (adds_kept (e ∷ es) now w h k.0) k.1)
            (λ _ w₁ wrote.
              then-Ends (note-Ends target w w₁ (adds_kept (e ∷ es) now w h k.0) k.1 wrote)
                (λ _ w₂ h₂.
                  then-Ends
                    (Reads-Ends (λ v k. stopped_kept es w₂ v h₂ k)
                      (existing_edges-Reads workspace requirement w₂ w₂ (refl, refl)))
                    (λ existing w₃ k.
                      weaken-Ends
                        (Reads-Ends (λ v k. stopped_kept es w₂ v h₂ k)
                          (require-Reads w₂ w₃ k.0 _ _))
                        (λ _ v k. adds_kept es w₂ v h₂ k.0)))))
    where
      note-Ends :
          (target : Requirement) (w w₁ : World)
          → AddsAt (e ∷ es) w
          → target_of e plan.targets ≡ some target
          → (w₁.writes ≡ added_edge e.0 requirement.id target.id (ok tt) ∷ w.writes)
            × (w₁.created ≡ w.created)
          → Ends (λ _ v. AddsAt es v) StoppedAt (note (relation e)) w₁
      note-Ends target w w₁ h₁ got wrote = record {
        outcome =
            Adds-moved es (added e es w.writes w.created target h₁ got) (sym wrote.0)
              (ap (λ cs. cs ++ relation e ∷ []) (sym wrote.1));
      }

  -- All missing edges are added, unless the writes end early.
  pub ensure_edges-Ends :
      (es : List Edge) (now : World)
      → AddsAt es now
      → Ends (λ _ w. AddsAt [] w) StoppedAt (ensure_edges workspace requirement plan.targets es) now
  unfolding ensure_edges
  ensure_edges-Ends [] now h = record { outcome = h }
  ensure_edges-Ends (e ∷ es) now h =
      then-Ends (ensure_edge-Ends e es now h) (λ _ w k. ensure_edges-Ends es w k)
