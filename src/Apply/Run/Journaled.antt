-- ===== src/Apply/Run/Journaled.antt =====
-- The report of `apply_standard_requirement` of requirement_apply.py against the writes that were answered.
use mathlib.Core.Path.{subst}
use sdlc.Base.{ℕ, String, ◌≡◌, refl, sym, ap, ◌∙◌, Option, none, some, List, [], ◌∷◌, ◌++◌, map}
use sdlc.Fibery.{ok, failed, Requirement}
use sdlc.Routes.{applied_state}
use sdlc.Results.{ApplyResultCode}
use sdlc.Evidence.{RelationKind, Reader}
use sdlc.Apply.{
  Edge, Write, added_edge, wrote_state, Created, relation, state_applied, World, Resolutions,
  ApplyWorkspace, Failure, stage_failed, attribute_error, Structure,
}
use sdlc.Apply.Checks.{Evidence}
use sdlc.Apply.Plan.{Targets, Plan, target_of}
use sdlc.Apply.Writes.Journal.{
  Adds, nothing, added, Stopped, between, edge_refused, state_unconfirmed,
}
use sdlc.Apply.Run.{
  ApplyReport, failed_report, already_applied, applied_report, apply_standard_requirement,
}
use sdlc.Apply.Run.Prepared.{IsPrepared}
use sdlc.Apply.Run.Outcome.{
  Outcome, not_loaded, was_applied, not_prepared, stopped, completed,
  apply_standard_requirement-Outcome,
}

-- A relation that Fibery said it added, from one entity to another.
abbrev pub Landed : Type 0
Landed = RelationKind × String × String

-- The additions that Fibery answered with success, from the first one on.
pub landed : List Write → List Landed
landed [] = []
landed (added_edge kind from to (ok _) ∷ ws) = landed ws ++ (kind, from, to) ∷ []
landed (added_edge kind from to (failed _) ∷ ws) = landed ws
landed (wrote_state _ _ _ ∷ ws) = landed ws

-- The additions are these edges in order, each from the Requirement to the target of the edge.
pub ArePlanned : Requirement → Targets → List Landed → List Edge → Type 0
ArePlanned requirement targets [] [] = Unit
ArePlanned requirement targets ((kind, from, to) ∷ ls) (e ∷ es) =
    (kind ≡ e.0)
    × (from ≡ requirement.id)
    × ((target : Requirement) × (target_of e targets ≡ some target) × (to ≡ target.id))
    × ArePlanned requirement targets ls es
ArePlanned requirement targets [] (e ∷ es) = ⊥
ArePlanned requirement targets (l ∷ ls) [] = ⊥

-- After an early end, a report names exactly these edges, and is PARTIAL_APPLY where there are any.
pub Tells : Option ApplyReport → List Edge → Type 0
Tells none es = Unit
Tells (some report) [] = (report.created ≡ []) × (report.stage_code ≡ none)
Tells (some report) (e ∷ es) =
    (report.created ≡ map relation (e ∷ es)) × (report.code ≡ ApplyResultCode.partial_apply)

snoc_assoc : {A : Type 0} (xs : List A) (x : A) (ys : List A) → (xs ++ x ∷ []) ++ ys ≡ xs ++ x ∷ ys
snoc_assoc [] x ys = refl
snoc_assoc (z ∷ xs) x ys = ap (λ zs. z ∷ zs) (snoc_assoc xs x ys)

snoc_nil : {A : Type 0} (xs : List A) → xs ++ [] ≡ xs
snoc_nil [] = refl
snoc_nil (x ∷ xs) = ap (λ ys. x ∷ ys) (snoc_nil xs)

map-snoc :
    (es : List Edge) (e : Edge) → map relation (es ++ e ∷ []) ≡ map relation es ++ relation e ∷ []
map-snoc [] e = refl
map-snoc (f ∷ es) e = ap (λ cs. relation f ∷ cs) (map-snoc es e)

ArePlanned-snoc :
    (requirement : Requirement) (targets : Targets) (ls : List Landed) (es : List Edge)
    → (e : Edge) (target : Requirement) → target_of e targets ≡ some target
    → ArePlanned requirement targets ls es
    → ArePlanned requirement targets (ls ++ (e.0, requirement.id, target.id) ∷ []) (es ++ e ∷ [])
unfolding ArePlanned
ArePlanned-snoc requirement targets [] [] e target got h = (refl, refl, (target, got, refl), tt)
ArePlanned-snoc requirement targets (l ∷ ls) (f ∷ es) e target got h =
    (h.0, h.1, h.2, ArePlanned-snoc requirement targets ls es e target got h.3)
ArePlanned-snoc requirement targets [] (f ∷ es) e target got h = elim h [ ]
ArePlanned-snoc requirement targets (l ∷ ls) [] e target got h = elim h [ ]

module _ (workspace : ApplyWorkspace) (requirement : Requirement) (plan : Plan) where
  -- The first missing edges of the plan were added, and are all that was created.
  record Added (ws : List Write) (cs : List Created) (rest : List Edge) : Type 0 where
    edges : List Edge
    divided : edges ++ rest ≡ plan.missing
    planned : ArePlanned requirement plan.targets (landed ws) edges
    named : cs ≡ map relation edges

  Adds-Added :
      (rest : List Edge) (ws : List Write) (cs : List Created)
      → Adds workspace requirement plan rest ws cs
      → Added ws cs rest
  unfolding landed ArePlanned
  Adds-Added _ _ _ nothing = record { edges = []; divided = refl; planned = tt; named = refl }
  Adds-Added _ _ _ (added e rest ws cs target h got) =
      let before = Adds-Added (e ∷ rest) ws cs h in
      record {
        edges = before.edges ++ e ∷ [];
        divided = snoc_assoc before.edges e rest ∙ before.divided;
        planned =
            ArePlanned-snoc requirement plan.targets (landed ws) before.edges e target got
              before.planned;
        named = ap (λ ds. ds ++ relation e ∷ []) before.named ∙ sym (map-snoc before.edges e);
      }

  Stopped-Added :
      (ws : List Write) (cs : List Created)
      → Stopped workspace requirement plan ws cs
      → (rest : List Edge) × Added ws cs rest
  unfolding landed
  Stopped-Added _ _ (between rest ws cs h) = (rest, Adds-Added rest ws cs h)
  Stopped-Added _ _ (edge_refused e rest ws cs target error h got) =
      let before = Adds-Added (e ∷ rest) ws cs h in
      (
        e ∷ rest,
        record {
          edges = before.edges;
          divided = before.divided;
          planned = before.planned;
          named = before.named;
        },
      )
  Stopped-Added _ _ (state_unconfirmed answer ws cs h) =
      let before = Adds-Added [] ws cs h in
      (
        [],
        record {
          edges = before.edges;
          divided = before.divided;
          planned = before.planned;
          named = before.named;
        },
      )

failed_report-Tells :
    (requirement : Option Requirement) (failure : Failure) (es : List Edge)
    → Tells (failed_report requirement failure (map relation es)) es
unfolding failed_report Tells
failed_report-Tells requirement (stage_failed code causes) [] = (refl, refl)
failed_report-Tells requirement (stage_failed code causes) (e ∷ es) = (refl, refl)
failed_report-Tells requirement attribute_error es = tt

module _ (reader : Reader) (resolutions : Resolutions) (workspace : ApplyWorkspace) where
  -- The report against the writes. Nothing was written; or the writes ended early, after the first
  -- missing edges of the plan, and a State that was written after them is not named; or all missing
  -- edges and the State were written.
  pub data Accounts : Option ApplyReport × World → Type 0 where
    unwritten :
        (answer : Option ApplyReport) (w : World)
        → w.writes ≡ []
        → Tells answer []
        → Accounts (answer, w)
    ended_early :
        (answer : Option ApplyReport) (w : World) (requirement : Requirement)
        → (prepared : Structure × Evidence × Plan) (es rest : List Edge)
        → IsPrepared reader resolutions workspace [] requirement prepared
        → es ++ rest ≡ prepared.2.missing
        → ArePlanned requirement prepared.2.targets (landed w.writes) es
        → Tells answer es
        → Accounts (answer, w)
    applied_all :
        (report : ApplyReport) (w : World) (requirement : Requirement)
        → (prepared : Structure × Evidence × Plan) (ws : List Write)
        → IsPrepared reader resolutions workspace [] requirement prepared
        → w.writes ≡ wrote_state requirement.id applied_state (ok tt) ∷ ws
        → ArePlanned requirement prepared.2.targets (landed ws) prepared.2.missing
        → report.code ≡ ApplyResultCode.requirement_applied
        → report.relations_added ≡ prepared.2.missing
        → report.created ≡ map relation prepared.2.missing ++ state_applied ∷ []
        → Accounts (some report, w)

  Outcome-Accounts :
      (entity_id : String) (r : Option ApplyReport × World)
      → Outcome reader resolutions workspace entity_id r
      → Accounts r
  unfolding already_applied applied_report Tells
  Outcome-Accounts id _ (not_loaded failure t) =
      unwritten _ _ refl (failed_report-Tells none failure [])
  Outcome-Accounts id _ (was_applied requirement t loaded h) = unwritten _ _ refl (refl, refl)
  Outcome-Accounts id _ (not_prepared requirement failure t loaded) =
      unwritten _ _ refl (failed_report-Tells (some requirement) failure [])
  Outcome-Accounts id _ (stopped requirement failure w prepared loaded h stops) =
      let (rest, got) = Stopped-Added workspace requirement prepared.2 w.writes w.created stops in
      ended_early _ w requirement prepared got.edges rest h got.divided got.planned (
        subst (λ cs. Tells (failed_report (some requirement) failure cs) got.edges) (sym got.named)
          (failed_report-Tells (some requirement) failure got.edges))
  Outcome-Accounts id _ (completed requirement w prepared loaded h done) =
      let before = done.at_last_edge in
      let got =
        Adds-Added workspace requirement prepared.2 [] before.writes before.created
          done.done.all_added in
      let all = sym (snoc_nil got.edges) ∙ got.divided in
      applied_all _ w requirement prepared before.writes h done.done.state_written
        (subst (ArePlanned requirement prepared.2.targets (landed before.writes)) all got.planned)
        refl refl
        (done.done.noted ∙ ap (λ cs. cs ++ state_applied ∷ []) (got.named ∙ ap (map relation) all))

  -- Each application ends in one of three ways. No write was attempted, and a report names nothing.
  -- Or the additions that Fibery answered with success are the first missing edges of the prepared
  -- plan, in order, each from the Requirement to its target; a report names exactly these edges, and
  -- is PARTIAL_APPLY where there are any. A State that was written behind all of them, but was not
  -- confirmed, is not named. Or the additions are all missing edges, the last write is that of the
  -- State, answered with success, and the report is REQUIREMENT_APPLIED and names all the edges and
  -- the State.
  pub apply_standard_requirement-Accounts :
      (entity_id : String) (t : ℕ)
      → Accounts (apply_standard_requirement reader resolutions workspace entity_id t)
  apply_standard_requirement-Accounts entity_id t =
      Outcome-Accounts entity_id _
        (apply_standard_requirement-Outcome reader resolutions workspace entity_id t)
