-- ===== src/Followup/Tests.antt =====
-- Runs of src/prxref/followup_merge.py, where no claims share words.
use prxref.Base.{arith, ℕ, String, false, ◌≡◌, refl, none, some, List, [], ◌∷◌, str_eq}
use prxref.Followup.{Finding, Merge, mark, merge_followup}
use prxref.Followup.Settled.{MergeFits, merge_followup-MergeFits}

abbrev finding : ℕ → ℕ → Finding
finding line confidence = record {
  file = "a.py";
  line = line;
  confidence = some confidence;
  title = "t";
  body = "b";
  drop_reason = none;
}

abbrev first_review : List Finding
first_review = finding 10 40 ∷ finding 50 40 ∷ finding 90 95 ∷ []

abbrev second_review : List Finding
second_review = finding 12 70 ∷ finding 11 80 ∷ []

abbrev questions : List (ℕ × List String)
questions = (0, "f" ∷ []) ∷ (1, "g" ∷ []) ∷ (2, "h" ∷ []) ∷ []

abbrev merged : Merge
merged =
    merge_followup (λ a b. false) (λ a b. false) (λ a ns. false) 60 3 first_review second_review
      questions

-- The better of the two confirms the first question, none the second.
merged_run : merged.out ≡ finding 11 80 ∷ mark (finding 50 40) ∷ finding 90 95 ∷ []
unfolding merge_followup str_eq
merged_run = refl

merge_followup-MergeFits_example :
    MergeFits
      (λ a b. false)
      (λ a b. false)
      (λ a ns. false)
      60
      3
      second_review
      first_review
      questions
      merged
merge_followup-MergeFits_example =
    merge_followup-MergeFits (λ a b. false) (λ a b. false) (λ a ns. false) 60 3 second_review
      first_review questions
      (
        (λ e. omega (arith, e), (λ e. omega (arith, e), tt)),
        ((λ e. omega (arith, e), tt), (tt, tt)),
      )
