-- ===== src/Gate/Checks/Tests.antt =====
-- Runs of src/prxref/gate/checks.py.
use prxref.Base.{ℕ, ◌≡◌, refl, false, some, List, [], ◌∷◌, All}
use prxref.Gate.Checks.{approved, Review, success, failure, conclusion_for, close_check, completes}
use prxref.Gate.Checks.Closing.{written, IsSmall, CompletesLast, close_check_lem}

abbrev clean_review : Review
clean_review = record {
  verdict = approved;
  chunks_failed = 0;
  overflow_files = 0;
  degraded = false;
}

clean_run : (conclusion_for (some clean_review)).0 ≡ success
unfolding conclusion_for
clean_run = refl

abbrev no_annotations : List ℕ
no_annotations = []

-- A check with no annotations is still completed.
nothing_to_annotate : close_check failure no_annotations ≡ completes failure [] ∷ []
unfolding close_check
nothing_to_annotate = refl

abbrev two_annotations : List ℕ
two_annotations = 3 ∷ 4 ∷ []

close_check_lem_example :
    (written (close_check failure two_annotations) ≡ two_annotations)
    × All IsSmall (close_check failure two_annotations)
    × CompletesLast failure (close_check failure two_annotations)
close_check_lem_example = close_check_lem failure two_annotations
