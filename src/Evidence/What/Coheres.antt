-- ===== src/Evidence/What/Coheres.antt =====
-- `what_clearance` of review_result.py: when a status is established.
use sdlc.Base.{
  String, ◌≡◌, refl, ap, ◌∙◌, ◌↔◌, ◌⊎◌, inl, inr, Bool, true, false, not, ◌&&◌, Option, none, some,
  List, [], ◌∷◌, arith, same_text, same_text_iff, Bool-cases, eq_iff, eq_refl,
}
use sdlc.Evidence.{
  ProcessResult, ReviewResult, ReviewedReworkResponse, WhatStatus, incoherent, unknown, established,
}
use sdlc.Evidence.What.{
  has_question_evidence, process_rework_bound, process_resolution_bound, review_rework_bound,
  review_resolution_bound, same_texts, same_questions, same_flag, same_response, same_responses,
  brief_identity, expected_responses, rework_coheres, resolution_coheres, clearance_of,
  what_clearance,
}

first_true : (a b : Bool) → (a && b) ≡ true → a ≡ true
first_true true b h = refl
first_true false b h = h

second_true : (a b : Bool) → (a && b) ≡ true → b ≡ true
second_true true b h = h
second_true false b h = cc

not-true : (b : Bool) → not b ≡ true → b ≡ false
not-true true h = cc
not-true false h = refl

same_texts-path : (xs ys : List String) → same_texts xs ys ≡ true → xs ≡ ys
same_texts-path [] [] h = refl
same_texts-path [] (y ∷ ys) h = cc
same_texts-path (x ∷ xs) [] h = cc
same_texts-path (x ∷ xs) (y ∷ ys) h =
    let head = (eq_iff x y).0 (ground arith) in
    let tail = same_texts-path xs ys (ground arith) in (λ i. head i ∷ tail i)

same_questions-path : (a b : Option (List String)) → same_questions a b ≡ true → a ≡ b
same_questions-path none none h = refl
same_questions-path none (some b) h = cc
same_questions-path (some a) none h = cc
same_questions-path (some a) (some b) h = ap some (same_texts-path a b h)

same_flag-path : (a b : Bool) → same_flag a b ≡ true → a ≡ b
same_flag-path true b h = ground arith
same_flag-path false true h = cc
same_flag-path false false h = refl

same_response-path : (a b : ReviewedReworkResponse) → same_response a b ≡ true → a ≡ b
same_response-path a b h =
    let item = (eq_iff a.response.item b.response.item).0 (ground arith) in
    let answer = (eq_iff a.response.answer b.response.answer).0 (ground arith) in
    let flag = same_flag-path a.blocks_what b.blocks_what (ground arith) in
    (λ i. record { response = record { item = item i; answer = answer i }; blocks_what = flag i })

same_responses-path : (xs ys : List ReviewedReworkResponse) → same_responses xs ys ≡ true → xs ≡ ys
same_responses-path [] [] h = refl
same_responses-path [] (y ∷ ys) h = cc
same_responses-path (x ∷ xs) [] h = cc
same_responses-path (x ∷ xs) (y ∷ ys) h =
    let head = same_response-path x y (ground arith) in
    let tail = same_responses-path xs ys (ground arith) in (λ i. head i ∷ tail i)

same_texts_refl : (xs : List String) → same_texts xs xs ≡ true
same_texts_refl [] = refl
same_texts_refl (x ∷ xs) = rw (eq_refl x, same_texts_refl xs) refl

same_questions_refl : (a : Option (List String)) → same_questions a a ≡ true
same_questions_refl none = refl
same_questions_refl (some a) = same_texts_refl a

same_flag_refl : (b : Bool) → same_flag b b ≡ true
same_flag_refl true = refl
same_flag_refl false = refl

same_responses_refl : (xs : List ReviewedReworkResponse) → same_responses xs xs ≡ true
same_responses_refl [] = refl
same_responses_refl (x ∷ xs) =
    rw
      (
        eq_refl x.response.item,
        eq_refl x.response.answer,
        same_flag_refl x.blocks_what,
        same_responses_refl xs,
      )
      refl

module _ (review : ReviewResult) (process : ProcessResult) where
  -- The review verified the rework responses of the process, or neither records any.
  abbrev pub ReworkCoheres : Type 0
  ReworkCoheres =
      (review_rework_bound review ≡ true)
        × (review.reviewed_brief_identity ≡ brief_identity process.rework_brief)
        × (review.reviewed_rework_responses
            ≡ expected_responses process.rework_brief process.rework_responses)
      ⊎ (review_rework_bound review ≡ false) × (process_rework_bound process ≡ false)

  pub record Coheres (status : WhatStatus) : Type 0 where
    pub has_status : review.what_status ≡ some status
    pub recorded : has_question_evidence process ≡ true
    pub questions : review.reviewed_product_questions ≡ process.product_questions
    pub rework : ReworkCoheres
    pub versions :
        (process_resolution_bound process && not (review_resolution_bound review)) ≡ false
    pub resolutions : review.reviewed_resolutions ≡ process.resolutions
    pub policy : review.reviewed_autonomy_policy ≡ process.autonomy_policy

  rework_coheres-ReworkCoheres : rework_coheres review process ≡ true → ReworkCoheres
  unfolding rework_coheres
  rework_coheres-ReworkCoheres h = elim (Bool-cases (review_rework_bound review)) [
    | inl bound ↦
        let both : (same_text review.reviewed_brief_identity (brief_identity process.rework_brief)
              && same_responses review.reviewed_rework_responses
                  (expected_responses process.rework_brief process.rework_responses))
            ≡ true =
          rw bound at h in
        inl (
          bound,
          (same_text_iff review.reviewed_brief_identity (brief_identity process.rework_brief)).0
              (first_true _ _ both),
          same_responses-path review.reviewed_rework_responses
              (expected_responses process.rework_brief process.rework_responses)
              (second_true _ _ both),
        )
    | inr unbound ↦ inr (unbound, not-true _ (rw unbound at h))
  ]

  ReworkCoheres-true : ReworkCoheres → rework_coheres review process ≡ true
  unfolding rework_coheres
  ReworkCoheres-true (inl (bound, identity, responses)) =
      rw
        (
          bound,
          identity,
          responses,
          (same_text_iff (brief_identity process.rework_brief)
                (brief_identity process.rework_brief)).1
              refl,
          same_responses_refl (expected_responses process.rework_brief process.rework_responses),
        )
        refl
  ReworkCoheres-true (inr (unbound, nothing)) = rw (unbound, nothing) refl

  abbrev agrees : Bool
  unfolding has_question_evidence rework_coheres resolution_coheres
  agrees =
      has_question_evidence process
      && (same_questions review.reviewed_product_questions process.product_questions
          && (rework_coheres review process && resolution_coheres review process))

  agrees-Coheres :
      (status : WhatStatus) → review.what_status ≡ some status → agrees ≡ true → Coheres status
  unfolding resolution_coheres agrees
  agrees-Coheres status has h =
      let (recorded, h₁) = parts (has_question_evidence process) _ h in
      let (questions, h₂) =
        parts (same_questions review.reviewed_product_questions process.product_questions) _ h₁ in
      let (rework, resolved) = parts (rework_coheres review process) _ h₂ in
      let (versions, h₃) =
        parts (not (process_resolution_bound process && not (review_resolution_bound review))) _
          resolved in
      let (texts, policy) =
        parts (same_texts review.reviewed_resolutions process.resolutions) _ h₃ in
      record {
        has_status = has;
        recorded = recorded;
        questions =
            same_questions-path review.reviewed_product_questions process.product_questions
              questions;
        rework = rework_coheres-ReworkCoheres rework;
        versions = not-true _ versions;
        resolutions = same_texts-path review.reviewed_resolutions process.resolutions texts;
        policy = (same_text_iff review.reviewed_autonomy_policy process.autonomy_policy).0 policy;
      }
    where
      parts : (a b : Bool) → (a && b) ≡ true → (a ≡ true) × (b ≡ true)
      parts a b e = (first_true a b e, second_true a b e)

  Coheres-agrees : (status : WhatStatus) → Coheres status → agrees ≡ true
  unfolding resolution_coheres agrees
  Coheres-agrees status c =
      rw
        (
          c.recorded,
          c.questions,
          same_questions_refl process.product_questions,
          ReworkCoheres-true c.rework,
          c.versions,
          c.resolutions,
          same_texts_refl process.resolutions,
          c.policy,
        )
        ((same_text_iff process.autonomy_policy process.autonomy_policy).1 refl)

  established-Coheres :
      (status : WhatStatus) (found : Option WhatStatus)
      → review.what_status ≡ found
      → clearance_of found review process ≡ established status
      → Coheres status
  unfolding clearance_of
  established-Coheres status none has h = elim (Bool-cases (has_question_evidence process)) [
    | inl recorded ↦ absurd (no_status (rw recorded at h))
    | inr unrecorded ↦ absurd (unknown_status (rw unrecorded at h))
  ]
    where
      no_status : incoherent ≡ established status → ⊥
      no_status e = cc

      unknown_status : unknown ≡ established status → ⊥
      unknown_status e = cc
  established-Coheres status (some found) has h = elim (Bool-cases agrees) [
    | inl agree ↦ agrees-Coheres status (has ∙ ap some (same_status (rw agree at h))) agree
    | inr differ ↦ absurd (no_status (rw differ at h))
  ]
    where
      same_status : established found ≡ established status → found ≡ status
      same_status e = ground arith

      no_status : incoherent ≡ established status → ⊥
      no_status e = cc

  -- A status is established exactly when the review has it, the Process Result recorded its product
  -- questions, and the review verified exactly these questions, the rework responses with what they
  -- block, and the resolutions under the same policy.
  pub what_clearance-exact :
      (status : WhatStatus) → (what_clearance review process ≡ established status) ↔ Coheres status
  unfolding what_clearance clearance_of
  what_clearance-exact status = (
    λ h. established-Coheres status review.what_status refl h,
    λ c. rw (c.has_status, Coheres-agrees status c) refl,
  )
