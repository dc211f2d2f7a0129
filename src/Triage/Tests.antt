-- ===== src/Triage/Tests.antt =====
-- Runs of the diff parser and the chunker of src/prxref/triage.py.
use prxref.Base.{ℕ, ◌+◌, ◌≡◌, refl, List, [], ◌∷◌, ◌++◌, map, none, some, false, All, keep, arith}
use prxref.Base.Text.{Text, codes}
use prxref.Triage.Diff.{
  plus, minus, context, DiffLine, Hunk, FileDiff, modified, parse_hunk_body, skip_markers,
}
use prxref.Triage.Lines.{split_lines, is_boundary}
use prxref.Triage.Branches.{initial}
use prxref.Triage.Parse.{parse_unified_diff, parse_lines}
use prxref.Triage.Body.{change, marker, Piece, show, header_of, number_lines, parse_hunk_body-show}
use prxref.Triage.Loop.{Rounds, parse_lines-Rounds}
use prxref.Triage.Files.{FileFits, parse_unified_diff-FileFits}
use prxref.Triage.FormFeed.{two_added, two_new, parse_hunk_body-form_feed}
use prxref.Triage.Score.{is_change, is_plus, is_minus}
use prxref.Triage.Trim.{trim_hunk_context, old_side, new_side}
use prxref.Triage.Trim.Kept.{HeadAt, trim_hunk_context_lem}
use prxref.Triage.Trim.Gap.{apart, trim_gap}
use prxref.Triage.Split.{join_hunks, hunks_of, GroupFits, split_by_hunk-pieces}
use prxref.Triage.Pieces.{split_by_hunk}
use prxref.Triage.Plan.{Limits, ChunkPlan, plan_chunks, place_files, Placement, candidates}
use prxref.Triage.Plan.Hunks.{HunkTest, count_chunks, count_files, plan_chunks-hunks}
use prxref.Triage.Plan.Bounds.{PlacementFits, place_files-PlacementFits}

abbrev line : Text → Text
line t = t ++ 10 ∷ []

abbrev sample : Text
sample =
    line (codes "diff --git a/pkg/mod.py b/pkg/mod.py")
    ++ (line (codes "index 111..222 100644")
        ++ (line (codes "--- a/pkg/mod.py")
            ++ (line (codes "+++ b/pkg/mod.py")
                ++ (line (codes "@@ -3,2 +3,3 @@ def f():")
                    ++ (line (codes " x = 1")
                        ++ (line (codes "--- y")
                            ++ (line (codes "+++ z") ++ line (codes "+w"))))))))

parse_sample :
    parse_unified_diff sample
    ≡ record {
      path = codes "pkg/mod.py";
      old_path = some (codes "pkg/mod.py");
      new_path = some (codes "pkg/mod.py");
      status = modified;
      is_binary = false;
      hunks =
          record {
            old_start = 3;
            old_count = 2;
            new_start = 3;
            new_count = 3;
            lines =
                record {
                  kind = context;
                  text = codes "x = 1";
                  old_line = some 3;
                  new_line = some 3;
                }
                ∷ record { kind = minus; text = codes "-- y"; old_line = some 4; new_line = none }
                ∷ record { kind = plus; text = codes "++ z"; old_line = none; new_line = some 4 }
                ∷ record { kind = plus; text = codes "w"; old_line = none; new_line = some 5 }
                ∷ [];
          }
          ∷ [];
    }
      ∷ []
unfolding parse_unified_diff
parse_sample = refl

abbrev pieces : List Piece
pieces =
    change context (codes "x = 1")
    ∷ change minus (codes "-- y")
    ∷ change plus (codes "++ z")
    ∷ marker (codes " No newline at end of file")
    ∷ []

abbrev after : List Text
after = codes "diff --git a/b b/b" ∷ []

parse_hunk_body-show_example :
    parse_hunk_body (header_of 3 3 pieces) (map show pieces ++ after)
    ≡ (record (header_of 3 3 pieces) { lines = number_lines 3 3 pieces }, skip_markers after)
parse_hunk_body-show_example = parse_hunk_body-show 3 3 pieces after

parse_unified_diff-FileFits_example : All FileFits (parse_unified_diff sample)
parse_unified_diff-FileFits_example = parse_unified_diff-FileFits sample

abbrev sample_lines : List Text
sample_lines = codes "+++ b/x" ∷ codes "@@ -0,0 +1 @@" ∷ codes "+w" ∷ []

parse_lines-Rounds_example : Rounds initial sample_lines (parse_lines 3 initial sample_lines)
parse_lines-Rounds_example = parse_lines-Rounds 3 initial sample_lines (omega arith)

parse_hunk_body-form_feed_example :
    parse_hunk_body (two_new 0 1) (split_lines (two_added (codes "a") (codes "b") (codes "c"))) ≡ (
      record (two_new 0 1) {
        lines =
            record { kind = plus; text = codes "a"; old_line = none; new_line = some 1 }
            ∷ record {
              kind = context;
              text = codes "b";
              old_line = some 0;
              new_line = some (1 + 1);
            }
            ∷ [];
      },
      codes "+c" ∷ [],
    )
unfolding is_boundary
parse_hunk_body-form_feed_example =
    parse_hunk_body-form_feed 0 1 (codes "a") 98 [] (codes "c") (refl, tt) (refl, tt) (refl, tt)
      refl refl refl

abbrev change_line : ℕ → DiffLine
change_line n = record { kind = plus; text = codes "w"; old_line = none; new_line = some n }

abbrev hunk_at : ℕ → Hunk
hunk_at n = record {
  old_start = 0;
  old_count = 0;
  new_start = n;
  new_count = 1;
  lines = change_line n ∷ [];
}

abbrev file_of : Text → List Hunk → FileDiff
file_of path hunks = record {
  path = path;
  old_path = some path;
  new_path = some path;
  status = modified;
  is_binary = false;
  hunks = hunks;
}

abbrev two_files : List FileDiff
two_files =
    file_of (codes "pkg/a.py") (hunk_at 1 ∷ hunk_at 9 ∷ [])
    ∷ file_of (codes "pkg/b.py") (hunk_at 4 ∷ [])
    ∷ []

abbrev limits : Limits
limits = record { max_chunks = 2; token_budget = 60; max_files_per_chunk = 5 }

abbrev one_hunk_first : FileDiff
one_hunk_first = file_of (codes "pkg/a.py") (hunk_at 1 ∷ [])

abbrev one_hunk_second : FileDiff
one_hunk_second = file_of (codes "pkg/a.py") (hunk_at 9 ∷ [])

abbrev other_file : FileDiff
other_file = file_of (codes "pkg/b.py") (hunk_at 4 ∷ [])

-- The first file is split, since its estimate is 80, and the second overflows.
abbrev two_placed : Placement
two_placed = record {
  chunks =
      record { files = one_hunk_first ∷ other_file ∷ []; tokens = 80 }
      ∷ record { files = one_hunk_second ∷ []; tokens = 40 }
      ∷ [];
  overflow_paths = codes "pkg/b.py" ∷ [];
}

two_files-placed : place_files limits (λ p. 0) two_files ≡ some two_placed
unfolding place_files
two_files-placed = refl

two_files-planned :
    plan_chunks limits (λ p. 0) two_files
    ≡ some (record {
      chunks = (one_hunk_first ∷ other_file ∷ []) ∷ (one_hunk_second ∷ []) ∷ [];
      chunk_tokens = 80 ∷ 40 ∷ [];
      overflow_files = 1;
      budget = 60;
    })
unfolding plan_chunks
two_files-planned = refl

plan_chunks-hunks_example :
    (plan : ChunkPlan) × (plan_chunks limits (λ p. 0) two_files ≡ some plan)
    × ((p : HunkTest) → count_chunks p plan.chunks ≡ count_files p (candidates two_files))
plan_chunks-hunks_example = plan_chunks-hunks limits (λ p. 0) two_files (omega arith)

place_files-PlacementFits_example : PlacementFits limits two_placed
place_files-PlacementFits_example =
    place_files-PlacementFits limits (λ p. 0) two_files two_placed (omega arith) (omega arith)
      two_files-placed

abbrev big_file : FileDiff
big_file = file_of (codes "pkg/a.py") (hunk_at 1 ∷ hunk_at 9 ∷ [])

split_by_hunk-pieces_example :
    (join_hunks (hunks_of (split_by_hunk big_file 60)) ≡ big_file.hunks)
    × All (GroupFits 60) (hunks_of (split_by_hunk big_file 60))
split_by_hunk-pieces_example = split_by_hunk-pieces big_file 60

abbrev padded : Hunk
padded = record {
  old_start = 7;
  old_count = 2;
  new_start = 7;
  new_count = 3;
  lines =
      record { kind = context; text = codes "x"; old_line = some 7; new_line = some 7 }
      ∷ record { kind = context; text = codes "y"; old_line = some 8; new_line = some 8 }
      ∷ record { kind = plus; text = codes "z"; old_line = none; new_line = some 9 }
      ∷ [];
}

trim_hunk_context_lem_example :
    (keep is_change (trim_hunk_context padded 1).lines ≡ keep is_change padded.lines)
    × ((trim_hunk_context padded 1).old_count ≡ old_side (trim_hunk_context padded 1).lines)
    × ((trim_hunk_context padded 1).new_count ≡ new_side (trim_hunk_context padded 1).lines)
    × HeadAt
        (trim_hunk_context padded 1).old_start
        (trim_hunk_context padded 1).new_start
        (trim_hunk_context padded 1).lines
unfolding is_plus is_minus old_side new_side
trim_hunk_context_lem_example =
    trim_hunk_context_lem padded 1 ((refl, refl), ((refl, refl), ((refl, refl), tt))) refl refl

trim_gap_example :
    ((trim_hunk_context (apart 1 1 [] [] []) 0).lines
      ≡ record { kind = plus; text = []; old_line = none; new_line = some 1 }
        ∷ record { kind = plus; text = []; old_line = none; new_line = some (1 + 2) }
        ∷ [])
    × ((parse_hunk_body
          (record (trim_hunk_context (apart 1 1 [] [] []) 0) { lines = [] })
          (codes "+" ∷ codes "+" ∷ [])).0.lines
        ≡ record { kind = plus; text = []; old_line = none; new_line = some 1 }
          ∷ record { kind = plus; text = []; old_line = none; new_line = some (1 + 1) }
          ∷ [])
trim_gap_example = trim_gap 1 1 [] [] []
