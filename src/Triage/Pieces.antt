-- ===== src/Triage/Pieces.antt =====
-- `est_tokens`, `split_by_hunk` and `_rejoin_pieces` of src/prxref/triage.py.
use prxref.Base.{
  ℕ, ◌+◌, ◌*◌, ◌/◌, max, Bool, false, ◌||◌, Option, none, some, List, [], ◌∷◌, ◌++◌, map, any,
  count_where, length, ltb, leb, if◌then◌else◌,
}
use prxref.Base.Text.{Text, text_eq}
use prxref.Triage.Diff.{DiffLine, Hunk, FileDiff}
use prxref.Triage.Score.{is_change}

-- `len(changed)` of a hunk's lines, and the characters of their texts.
unfoldable pub changed_lines : List DiffLine → ℕ
unfolding is_change count_where
changed_lines ls = count_where is_change ls

unfoldable pub changed_chars : List DiffLine → ℕ
unfolding is_change
changed_chars [] = 0
changed_chars (l ∷ ls) = (if is_change l then length l.text else 0) + changed_chars ls

unfoldable pub total_lines : List Hunk → ℕ
unfolding changed_lines
total_lines [] = 0
total_lines (h ∷ hs) = changed_lines h.lines + total_lines hs

unfoldable pub total_chars : List Hunk → ℕ
unfolding changed_chars
total_chars [] = 0
total_chars (h ∷ hs) = changed_chars h.lines + total_chars hs

-- `max(lines * _TOKENS_PER_LINE, chars // _CHARS_PER_TOKEN)`
unfoldable pub estimate : ℕ → ℕ → ℕ
estimate lines chars = max (lines * 40) (chars / 3)

unfoldable pub est_hunks : List Hunk → ℕ
unfolding estimate total_lines total_chars
est_hunks hs = estimate (total_lines hs) (total_chars hs)

unfoldable pub est_tokens : FileDiff → ℕ
unfolding est_hunks
est_tokens f = est_hunks f.hunks

abbrev pub is_full : ℕ → ℕ → ℕ → List Hunk → Hunk → Bool
is_full budget lines chars [] h = false
is_full budget lines chars (g ∷ gs) h =
    ltb budget (estimate (lines + changed_lines h.lines) (chars + changed_chars h.lines))

-- The loop over the hunks: the counters and hunks of the last group, and the hunks ahead.
unfoldable pub group_hunks : ℕ → ℕ → ℕ → List Hunk → List Hunk → List (List Hunk)
unfolding estimate changed_lines changed_chars
group_hunks budget lines chars cur [] = cur ∷ []
group_hunks budget lines chars cur (h ∷ hs) =
    let next_group =
      group_hunks budget (changed_lines h.lines) (changed_chars h.lines) (h ∷ []) hs in
    let same_group =
      group_hunks budget (lines + changed_lines h.lines) (chars + changed_chars h.lines)
        (cur ++ h ∷ []) hs in
    if is_full budget lines chars cur h then cur ∷ next_group else same_group

unfoldable pub split_by_hunk : FileDiff → ℕ → List FileDiff
unfolding est_tokens group_hunks
split_by_hunk f budget =
    if ltb (length f.hunks) 2 || leb (est_tokens f) budget
    then f ∷ []
    else map (λ g. record f { hunks = g }) (group_hunks budget 0 0 [] f.hunks)

-- `path in split_paths`
unfoldable pub has_path : Text → List Text → Bool
unfolding text_eq
has_path p ps = any (text_eq p) ps

-- Adds hunks to the first file of a path, and answers whether there is one.
unfoldable pub add_hunks : Text → List Hunk → List FileDiff → Option (List FileDiff)
unfolding text_eq
add_hunks p hs [] = none
add_hunks p hs (f ∷ fs) =
    let rest = add_hunks p hs fs in
    if text_eq p f.path
    then some (record f { hunks = f.hunks ++ hs } ∷ fs)
    else elim rest [ none ↦ none | some gs ↦ some (f ∷ gs) ]

-- One round of the loop: `at` has the place of every file of `out` whose path was split.
unfoldable pub rejoin : List Text → List FileDiff → FileDiff → List FileDiff
unfolding has_path add_hunks
rejoin split_paths out f =
    let joined = add_hunks f.path f.hunks out in
    if has_path f.path split_paths
    then elim joined [ none ↦ out ++ f ∷ [] | some fs ↦ fs ]
    else out ++ f ∷ []

unfoldable pub rejoin_all : List Text → List FileDiff → List FileDiff → List FileDiff
unfolding rejoin
rejoin_all split_paths out [] = out
rejoin_all split_paths out (f ∷ fs) = rejoin_all split_paths (rejoin split_paths out f) fs

unfoldable pub rejoin_pieces : List FileDiff → List Text → List FileDiff
unfolding rejoin_all
rejoin_pieces chunk split_paths = rejoin_all split_paths [] chunk
