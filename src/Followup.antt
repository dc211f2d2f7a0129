-- ===== src/Followup.antt =====
-- src/prxref/followup_merge.py: what a chunk's context follow-up changes in its first review.
-- Confidences are natural numbers in a unit as fine as needed. The comparisons of claims by their
-- words (`_code_tokens`, `normalize_title` and the search for whole names) are arguments.
pub mod Search
pub mod Settled
pub mod Tests
use prxref.Base.{
  ℕ, zero, suc, ◌+◌, ◌-◌, String, Bool, true, false, not, ◌&&◌, ◌||◌, Option, none, some, List, [],
  ◌∷◌, length, any, str_eq, ltb, leb, ◌==◌, is_some, nth, if◌then◌else◌,
}

-- The fields of a finding that the merge reads or writes; `drop_reason` is kept as a mark.
pub record Finding : Type 0 where
  pub file : String
  pub line : ℕ
  pub confidence : Option ℕ
  pub title : String
  pub body : String
  pub drop_reason : Option String

unfoldable pub confidence_of : Finding → ℕ
confidence_of f = elim f.confidence [ none ↦ 0 | some c ↦ c ]

unfoldable pub set_nth {ℓ} : {A : Type ℓ} → ℕ → A → List A → List A
set_nth i a [] = []
set_nth zero a (x ∷ xs) = a ∷ xs
set_nth (suc i) a (x ∷ xs) = x ∷ set_nth i a xs

-- The variables of the loop of `merge_followup`.
pub record Merge : Type 0 where
  pub out : List Finding
  pub used : List ℕ
  pub confirmed : ℕ
  pub unconfirmed : ℕ

unfoldable pub mark : Finding → Finding
mark f = record f { drop_reason = some "not confirmed by context follow-up" }

-- `conf < floor` and no drop reason
unfoldable pub is_open : ℕ → Finding → Bool
unfolding confidence_of
is_open floor f = ltb (confidence_of f) floor && not (is_some f.drop_reason)

module _ (shares_code same_title : Finding → Finding → Bool)
    (names_in : Finding → List String → Bool) where
  unfoldable pub confirms : ℕ → ℕ → Finding → Finding → List String → Bool
  unfolding confidence_of
  confirms floor window question rerun names =
      if ltb (confidence_of rerun) floor
      then false
      else if not (str_eq rerun.file question.file)
      then false
      else if ltb 0 question.line
          && ltb 0 rerun.line
          && leb (rerun.line - question.line + (question.line - rerun.line)) window
      then true
      else if (question.line == 0 || rerun.line == 0) && shares_code question rerun
      then true
      else if same_title question rerun
      then true
      else names_in rerun names

  -- The unused re-run finding that confirms a question with the highest confidence, the first of
  -- equal ones: the best so far, the place of the next one, and the findings ahead.
  unfoldable pub best_rerun :
      ℕ
      → ℕ
      → Finding
      → List String
      → List ℕ
      → Option (ℕ × Finding)
      → ℕ
      → List Finding
      → Option (ℕ × Finding)
  unfolding confirms confidence_of any
  best_rerun floor window question names used found i [] = found
  best_rerun floor window question names used found i (r ∷ rs) =
      let skipped = best_rerun floor window question names used found (i + 1) rs in
      let taken = best_rerun floor window question names used (some (i, r)) (i + 1) rs in
      let better : Bool = elim found [
        | none ↦ true
        | some (j, b) ↦ ltb (confidence_of b) (confidence_of r)
      ] in
      if any (λ j. i == j) used || not (confirms floor window question r names)
      then skipped
      else if better
      then taken
      else skipped

  -- A question that is to be settled.
  unfoldable pub settle_question : ℕ → ℕ → List Finding → ℕ → Finding → List String → Merge → Merge
  unfolding best_rerun mark set_nth
  settle_question floor window rerun index question names m =
      elim (best_rerun floor window question names m.used none 0 rerun) [
        | none ↦ record m {
          out = set_nth index (mark question) m.out;
          unconfirmed = m.unconfirmed + 1;
        }
        | some (j, r) ↦ record m {
          out = set_nth index r m.out;
          used = j ∷ m.used;
          confirmed = m.confirmed + 1;
        }
      ]

  -- One round of the loop.
  unfoldable pub merge_question :
      ℕ → ℕ → List Finding → List Finding → ℕ × List String → Merge → Merge
  unfolding settle_question is_open nth
  merge_question floor window first rerun (index, []) m = m
  merge_question floor window first rerun (index, name ∷ names) m = elim (nth index first) [
    | none ↦ m
    | some question ↦
        if is_open floor question
        then settle_question floor window rerun index question (name ∷ names) m
        else m
  ]

  unfoldable pub merge_questions :
      ℕ → ℕ → List Finding → List Finding → List (ℕ × List String) → Merge → Merge
  unfolding merge_question
  merge_questions floor window first rerun [] m = m
  merge_questions floor window first rerun (q ∷ qs) m =
      merge_questions floor window first rerun qs (merge_question floor window first rerun q m)

  -- The questions stand in the order of their indices, each index once.
  unfoldable pub merge_followup :
      ℕ → ℕ → List Finding → List Finding → List (ℕ × List String) → Merge
  unfolding merge_questions
  merge_followup floor window first rerun questions =
      merge_questions floor window first rerun questions
        (record { out = first; used = []; confirmed = 0; unconfirmed = 0 })

  -- `len(rerun) - confirmed`
  unfoldable pub discarded : List Finding → Merge → ℕ
  discarded rerun m = length rerun - m.confirmed
