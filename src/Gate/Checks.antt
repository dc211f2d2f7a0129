-- ===== src/Gate/Checks.antt =====
-- src/prxref/gate/checks.py: the conclusion of a review, and the writes that close a check.
pub mod Closing
pub mod Tests
use prxref.Base.{
  ℕ, zero, suc, ◌+◌, ◌-◌, ◌≡◌, refl, ◌↔◌, arith, String, Bool, true, false, not, ◌&&◌, ◌||◌, Option,
  none, some, List, [], ◌∷◌, length, ltb, if◌then◌else◌,
}

-- `VERDICTS`
pub data ReviewVerdict : Type 0 where
  approved request_changes incomplete errored : ReviewVerdict

-- A review result with a known verdict; counts that are missing or None are 0.
pub record Review : Type 0 where
  pub verdict : ReviewVerdict
  pub chunks_failed : ℕ
  pub overflow_files : ℕ
  pub degraded : Bool

-- `cancelled` closes the check of a closed pull request.
pub data Conclusion : Type 0 where
  success failure cancelled : Conclusion

-- Why; `malformed` for what is no dictionary with a known verdict.
pub data Reason : Type 0 where
  malformed review_error incomplete_review did_not_fit degraded_review error_findings clean : Reason

abbrev is_errored : ReviewVerdict → Bool
is_errored errored = true
is_errored _ = false

abbrev is_incomplete : ReviewVerdict → Bool
is_incomplete incomplete = true
is_incomplete _ = false

abbrev asks_changes : ReviewVerdict → Bool
asks_changes request_changes = true
asks_changes _ = false

unfoldable pub conclude : Review → Conclusion × Reason
conclude r =
    if is_errored r.verdict
    then (failure, review_error)
    else if is_incomplete r.verdict || ltb 0 r.chunks_failed
    then (failure, incomplete_review)
    else if ltb 0 r.overflow_files
    then (failure, did_not_fit)
    else if r.degraded
    then (failure, degraded_review)
    else if asks_changes r.verdict
    then (failure, error_findings)
    else (success, clean)

unfoldable pub conclusion_for : Option Review → Conclusion × Reason
unfolding conclude
conclusion_for none = (failure, malformed)
conclusion_for (some r) = conclude r

abbrev pub annotation_batch : ℕ
annotation_batch = 50

-- A PATCH of the check run: annotations alone, or with the conclusion that completes it.
pub data Patch (A : Type 0) : Type 0 where
  annotates : List A → Patch A
  completes : Conclusion → List A → Patch A

module _ {A : Type 0} where
  -- `xs[:n]` and `xs[n:]`
  unfoldable pub take : ℕ → List A → List A
  take zero xs = []
  take (suc n) [] = []
  take (suc n) (x ∷ xs) = x ∷ take n xs

  unfoldable pub drop : ℕ → List A → List A
  drop zero xs = xs
  drop (suc n) [] = []
  drop (suc n) (x ∷ xs) = drop n xs

  -- The slices of `range(0, len(xs), ANNOTATION_BATCH)`, on fuel for each element.
  unfoldable pub slices : ℕ → List A → List (List A)
  unfolding take drop
  slices fuel [] = []
  slices zero (x ∷ xs) = []
  slices (suc fuel) (x ∷ xs) =
      take annotation_batch (x ∷ xs) ∷ slices fuel (drop annotation_batch (x ∷ xs))

  -- `… or [[]]`
  unfoldable pub batches : List A → List (List A)
  unfolding slices
  batches [] = [] ∷ []
  batches (x ∷ xs) = slices (length (x ∷ xs)) (x ∷ xs)

  -- The loop of `_close_check` over the batches, where each fence passes.
  unfoldable pub patches : Conclusion → List (List A) → List (Patch A)
  patches c [] = []
  patches c (b ∷ []) = completes c b ∷ []
  patches c (b ∷ d ∷ bs) = annotates b ∷ patches c (d ∷ bs)

  unfoldable pub close_check : Conclusion → List A → List (Patch A)
  unfolding patches batches
  close_check c annotations = patches c (batches annotations)
