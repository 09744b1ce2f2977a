-- ===== src/Evidence/What.antt =====
-- `what_clearance` of review_result.py: the WHAT status that a Review Result establishes for the Process
-- Result it binds.
pub mod Coheres
use sdlc.Base.{
  String, Bool, true, false, not, ◌&&◌, ◌||◌, Option, none, some, List, [], ◌∷◌, map, same_text,
  ◌==◌, if◌then◌else◌,
}
use sdlc.NormativeTree.{listed}
use sdlc.Evidence.{
  ProcessResult, ReviewResult, ReworkResponse, ReworkBrief, ReviewedReworkResponse, WhatStatus,
  Clearance, incoherent, unknown, established,
}

abbrev is_some : Option (List String) → Bool
is_some none = false
is_some (some questions) = true

-- `has_question_evidence`
unfoldable pub has_question_evidence : ProcessResult → Bool
has_question_evidence process =
    (process.version == "0.6" || (process.version == "0.5" || process.version == "0.4"))
    && is_some process.product_questions

-- `is_rework_bound` and `is_resolution_bound` of a Process Result.
abbrev pub process_rework_bound : ProcessResult → Bool
process_rework_bound process = process.version == "0.6" || process.version == "0.5"

abbrev pub process_resolution_bound : ProcessResult → Bool
process_resolution_bound process = process.version == "0.6"

-- The same of a Review Result.
abbrev pub review_rework_bound : ReviewResult → Bool
review_rework_bound review =
    review.version == "0.7" || (review.version == "0.6" || review.version == "0.5")

abbrev pub review_resolution_bound : ReviewResult → Bool
review_resolution_bound review = review.version == "0.7"

abbrev pub same_texts : List String → List String → Bool
same_texts [] [] = true
same_texts [] (y ∷ ys) = false
same_texts (x ∷ xs) [] = false
same_texts (x ∷ xs) (y ∷ ys) = x == y && same_texts xs ys

abbrev pub same_questions : Option (List String) → Option (List String) → Bool
same_questions none none = true
same_questions (some a) (some b) = same_texts a b
same_questions none (some b) = false
same_questions (some a) none = false

abbrev pub same_flag : Bool → Bool → Bool
same_flag true b = b
same_flag false b = not b

abbrev pub same_response : ReviewedReworkResponse → ReviewedReworkResponse → Bool
same_response a b =
    a.response.item == b.response.item
    && (a.response.answer == b.response.answer && same_flag a.blocks_what b.blocks_what)

abbrev pub same_responses : List ReviewedReworkResponse → List ReviewedReworkResponse → Bool
same_responses [] [] = true
same_responses [] (y ∷ ys) = false
same_responses (x ∷ xs) [] = false
same_responses (x ∷ xs) (y ∷ ys) = same_response x y && same_responses xs ys

abbrev pub brief_identity : Option ReworkBrief → Option String
brief_identity none = none
brief_identity (some brief) = some brief.identity

-- `expected`
unfoldable pub expected_responses :
    Option ReworkBrief → List ReworkResponse → List ReviewedReworkResponse
expected_responses none responses = []
expected_responses (some brief) responses =
    map (λ r. record { response = r; blocks_what = listed r.item brief.what_refs }) responses

-- `_require_rework_coherence`
unfoldable pub rework_coheres : ReviewResult → ProcessResult → Bool
unfolding expected_responses
rework_coheres review process =
    if review_rework_bound review
    then same_text review.reviewed_brief_identity (brief_identity process.rework_brief)
      && same_responses review.reviewed_rework_responses
          (expected_responses process.rework_brief process.rework_responses)
    else not (process_rework_bound process)

-- `_require_resolution_coherence`
unfoldable pub resolution_coheres : ReviewResult → ProcessResult → Bool
resolution_coheres review process =
    not (process_resolution_bound process && not (review_resolution_bound review))
    && (same_texts review.reviewed_resolutions process.resolutions
        && same_text review.reviewed_autonomy_policy process.autonomy_policy)

unfoldable pub clearance_of : Option WhatStatus → ReviewResult → ProcessResult → Clearance
unfolding has_question_evidence rework_coheres resolution_coheres
clearance_of none review process = if has_question_evidence process then incoherent else unknown
clearance_of (some status) review process =
    if has_question_evidence process
      && (same_questions review.reviewed_product_questions process.product_questions
          && (rework_coheres review process && resolution_coheres review process))
    then established status
    else incoherent

-- `what_clearance`
unfoldable pub what_clearance : ReviewResult → ProcessResult → Clearance
unfolding clearance_of
what_clearance review process = clearance_of review.what_status review process
