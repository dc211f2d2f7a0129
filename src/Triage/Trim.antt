-- ===== src/Triage/Trim.antt =====
-- `trim_hunk_context` of src/prxref/triage.py.
pub mod Kept
pub mod Gap
use prxref.Base.{
  is_empty, ℕ, zero, suc, ◌+◌, ◌-◌, Bool, true, false, ◌&&◌, ◌||◌, not, List, [], ◌∷◌, any,
  count_where, leb, if◌then◌else◌,
}
use prxref.Triage.Diff.{DiffLine, Hunk}
use prxref.Triage.Score.{is_plus, is_minus, is_change}

-- The positions of the changed lines, from a position on.
unfoldable pub change_at : ℕ → List DiffLine → List ℕ
unfolding is_change
change_at i [] = []
change_at i (l ∷ ls) = let rest = change_at (i + 1) ls in if is_change l then i ∷ rest else rest

-- `abs(i - j) <= radius`
abbrev pub is_near : ℕ → ℕ → ℕ → Bool
is_near radius i j = leb (i - j + (j - i)) radius

abbrev pub is_kept : ℕ → List ℕ → ℕ → DiffLine → Bool
is_kept radius changes i l = is_change l || any (is_near radius i) changes

unfoldable pub kept : ℕ → List ℕ → ℕ → List DiffLine → List DiffLine
unfolding any is_change
kept radius changes i [] = []
kept radius changes i (l ∷ ls) =
    let rest = kept radius changes (i + 1) ls in
    if is_kept radius changes i l then l ∷ rest else rest

-- The lines before the first that is kept: `hunk.lines[:cut]`.
unfoldable pub cut_off : ℕ → List ℕ → ℕ → List DiffLine → List DiffLine
unfolding any is_change
cut_off radius changes i [] = []
cut_off radius changes i (l ∷ ls) =
    let rest = cut_off radius changes (i + 1) ls in
    if is_kept radius changes i l then [] else l ∷ rest

-- The lines of the old side, and of the new.
unfoldable pub old_side : List DiffLine → ℕ
unfolding is_plus count_where
old_side ls = count_where (λ l. not (is_plus l)) ls

unfoldable pub new_side : List DiffLine → ℕ
unfolding is_minus count_where
new_side ls = count_where (λ l. not (is_minus l)) ls

-- The new hunk, from the positions of the changes.
unfoldable pub trimmed : Hunk → ℕ → List ℕ → Hunk
unfolding kept cut_off old_side new_side
trimmed hunk radius changes =
    let lines = kept radius changes 0 hunk.lines in
    let cut = cut_off radius changes 0 hunk.lines in
    record {
      old_start = hunk.old_start + old_side cut;
      old_count = old_side lines;
      new_start = hunk.new_start + new_side cut;
      new_count = new_side lines;
      lines = lines;
    }

unfoldable pub trim_hunk_context : Hunk → ℕ → Hunk
unfolding change_at trimmed
trim_hunk_context hunk radius =
    let changes = change_at 0 hunk.lines in
    if is_empty changes then hunk else trimmed hunk radius changes
