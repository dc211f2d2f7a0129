-- ===== src/Reviewer/Tests.antt =====
-- Runs of `render_chunk` of src/prxref/reviewer.py.
use prxref.Base.{◌≡◌, refl, false, none, some, [], ◌∷◌, arith, count_where}
use prxref.Base.Text.{codes, digits, show_number}
use prxref.Triage.Lines.{is_boundary}
use prxref.Triage.Diff.{plus, minus, context, Hunk, added, modified, FileDiff}
use prxref.Triage.Body.{number_lines, old_lines, new_lines}
use prxref.Triage.Branches.{or_path}
use prxref.Triage.Parse.{parse_unified_diff}
use prxref.Reviewer.{render_chunk, render_file}
use prxref.Reviewer.Rounds.{Numbered}
use prxref.Reviewer.Moves.{IsWritten}
use prxref.Reviewer.RoundTrip.{parse_unified_diff-render_chunk}

abbrev changed_hunk : Hunk
changed_hunk = record {
  old_start = 30;
  old_count = 2;
  new_start = 31;
  new_count = 2;
  lines =
      record { kind = context; text = codes "def f():"; old_line = some 30; new_line = some 31 }
      ∷ record { kind = minus; text = codes "-- 1"; old_line = some 31; new_line = none }
      ∷ record { kind = plus; text = codes "++ 2"; old_line = none; new_line = some 32 }
      ∷ [];
}

abbrev new_hunk : Hunk
new_hunk = record {
  old_start = 0;
  old_count = 0;
  new_start = 1;
  new_count = 1;
  lines = record { kind = plus; text = codes "x"; old_line = none; new_line = some 1 } ∷ [];
}

abbrev changed_file : FileDiff
changed_file = record {
  path = codes "f.py";
  old_path = some (codes "f.py");
  new_path = some (codes "f.py");
  status = modified;
  is_binary = false;
  hunks = changed_hunk ∷ [];
}

abbrev new_one : FileDiff
new_one = record {
  path = codes "x y";
  old_path = none;
  new_path = some (codes "x y");
  status = added;
  is_binary = false;
  hunks = new_hunk ∷ [];
}

changed_rendered :
    render_file changed_file none
    ≡ codes
        "diff --git a/f.py b/f.py\n--- a/f.py\n+++ b/f.py\n@@ -30,2 +31,2 @@\n def f():\n--- 1\n+++ 2"
unfolding render_file or_path count_where show_number digits
changed_rendered = refl

changed_hunk-Numbered : Numbered changed_hunk
unfolding number_lines old_lines new_lines
changed_hunk-Numbered = record { lines = refl; old = refl; new = refl }

new_hunk-Numbered : Numbered new_hunk
unfolding number_lines old_lines new_lines
new_hunk-Numbered = record { lines = refl; old = refl; new = refl }

changed_file-IsWritten : IsWritten changed_file
unfolding or_path is_boundary
changed_file-IsWritten = record {
  text = refl;
  changed = refl;
  numbered = (changed_hunk-Numbered, tt);
  old = (refl, ground arith, ground arith);
  new = (refl, ground arith, ground arith);
  path = refl;
  status = refl;
  clean = ground arith;
}

new_one-IsWritten : IsWritten new_one
unfolding or_path is_boundary
new_one-IsWritten = record {
  text = refl;
  changed = refl;
  numbered = (new_hunk-Numbered, tt);
  old = tt;
  new = (refl, ground arith, ground arith);
  path = refl;
  status = tt;
  clean = ground arith;
}

parse_unified_diff-render_chunk_example :
    parse_unified_diff (render_chunk (changed_file ∷ new_one ∷ []) none)
    ≡ changed_file ∷ new_one ∷ []
parse_unified_diff-render_chunk_example =
    parse_unified_diff-render_chunk (changed_file ∷ new_one ∷ [])
      (changed_file-IsWritten, (new_one-IsWritten, tt))
