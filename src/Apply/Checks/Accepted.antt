-- ===== src/Apply/Checks/Accepted.antt =====
-- `_check_bindings`, `_confirmed_edges` and the choice of an artifact in requirement_apply.py: what holds of
-- what passes them.
use sdlc.Base.{ℕ, ◌≡◌, refl, ◌⊎◌, inl, inr, true, Option, none, some, List}
use sdlc.NormativeTree.{DocumentNode}
use sdlc.NormativeTree.Manifest.{TreeManifest}
use sdlc.Evidence.{
  ReviewResult, clear, blocked_on_what, Clearance, incoherent, unknown, established, Reader,
}
use sdlc.Evidence.What.{what_clearance}
use sdlc.Results.{ApplyResultCode}
use sdlc.Apply.{Edge, World, Failure}
use sdlc.Apply.Reads.{
  Keeps, Reads, return-Reads, raise-Reads, require-Reads, then-Reads, weaken-Reads, Ends,
}
use sdlc.Apply.Checks.{
  Evidence, derived_edges, confirmed_edges, chosen, same_trees, check_trees, is_as_reviewed,
  check_what, check_bindings,
}

-- The reviewed document, the tree and the Process Result are those of the review, and no material
-- product question is open.
pub record IsAsReviewed (reader : Reader) (e : Evidence) : Type 0 where
  pub same : is_as_reviewed reader e ≡ true
  pub same_tree :
      same_trees reader e.latest_review.reviewed_tree e.latest_process.output_tree ≡ true
  pub is_clear : what_clearance e.latest_review e.latest_process ≡ established clear

check_what-clear :
    (before now : World) (kept : Keeps before now) (c : Clearance)
    → Reads before (λ _. c ≡ established clear) (check_what c) now
unfolding check_what
check_what-clear before now kept incoherent = raise-Reads before now kept _ _
check_what-clear before now kept unknown = raise-Reads before now kept _ _
check_what-clear before now kept (established blocked_on_what) = raise-Reads before now kept _ _
check_what-clear before now kept (established clear) = return-Reads before now kept _ _ refl

check_trees-same :
    (reader : Reader) (before now : World) (kept : Keeps before now) (a b : Option TreeManifest)
    → Reads before (λ _. same_trees reader a b ≡ true) (check_trees reader a b) now
unfolding check_trees
check_trees-same reader before now kept (some a) (some b) = require-Reads before now kept _ _
check_trees-same reader before now kept none b = raise-Reads before now kept _ _
check_trees-same reader before now kept (some a) none = raise-Reads before now kept _ _

pub check_bindings-IsAsReviewed :
    (reader : Reader) (e : Evidence) (before now : World)
    → Keeps before now
    → Reads before (λ _. IsAsReviewed reader e) (check_bindings reader e) now
unfolding check_bindings
check_bindings-IsAsReviewed reader e before now kept =
    then-Reads (require-Reads before now kept _ _) (λ _ w k same.
      then-Reads (check_trees-same reader before w k _ _) (λ _ w k same_tree.
        weaken-Reads (check_what-clear before w k _)
          (λ _ is_clear. record { same = same; same_tree = same_tree; is_clear = is_clear })))

pub confirmed_edges-derived :
    (result : ReviewResult) (mirror : List Edge) (before now : World)
    → Keeps before now
    → Reads before
        (λ edges. edges ≡ derived_edges result.relation_verifications)
        (confirmed_edges result mirror)
        now
unfolding confirmed_edges
confirmed_edges-derived result mirror before now kept =
    then-Reads (require-Reads before now kept _ _) (λ _ w k _.
      then-Reads (require-Reads before w k _ _) (λ _ w k _.
        then-Reads (require-Reads before w k _ _) (λ _ w k _. return-Reads before w k _ _ refl)))

pub chosen-Ends :
    (conflict : ApplyResultCode) (missing : Failure)
    → (answer : Option (ℕ × DocumentNode) ⊎ ℕ) (before now : World) → Keeps before now
    → Ends
        (λ node w. Keeps before w × (w.moment ≡ now.moment) × (answer ≡ inl (some node)))
        (Keeps before)
        (chosen conflict missing answer)
        now
chosen-Ends conflict missing (inr i) before now kept = record { outcome = kept }
chosen-Ends conflict missing (inl none) before now kept = record { outcome = kept }
chosen-Ends conflict missing (inl (some newest)) before now kept = record {
  outcome = (kept, refl, refl);
}
