-- ===== src/Triage/Parse.antt =====
-- `parse_unified_diff` of src/prxref/triage.py, over the lines of the diff.
use prxref.Base.{
  ℕ, zero, suc, Bool, true, false, ◌||◌, not, Option, none, some, List, [], ◌∷◌, ◌++◌,
  if◌then◌else◌, is_some, length,
}
use prxref.Base.Text.{Text, codes, text_eq, drop_prefix, starts_with}
use prxref.Triage.Lines.{split_lines}
use prxref.Triage.Diff.{Hunk, FileDiff, match_hunk, parse_hunk_body}
use prxref.Triage.Branches.{
  Parser, initial, close_current, on_header, on_old, on_new, with_cur, on_binary, on_rename_from,
  on_rename_to, on_copy_from, on_copy_to,
}

-- What a line is, in the order of the tests; `other` leaves the state alone.
pub data Line : Type 0 where
  header : Text → Line
  old_operand new_operand : Text → Line
  hunk_header : Hunk → Line
  binary : Line
  rename_from rename_to copy_from copy_to : Text → Line
  new_mode deleted_mode : Line
  other : Line

-- `cur is not None and not cur.is_binary`
unfoldable pub takes_hunks : Option FileDiff → Bool
takes_hunks none = false
takes_hunks (some f) = not f.is_binary

unfoldable pub is_binary_line : Text → Bool
unfolding starts_with text_eq
is_binary_line line =
    starts_with (codes "Binary files ") line || text_eq line (codes "GIT binary patch")

-- An extended header that only means something inside a file: `if line.startswith(…) and cur is
-- not None`. A line with the prefix passes none of the later tests.
unfoldable pub operand : (Text → Line) → Option FileDiff → Option Text → Line → Line
operand make cur none later = later
operand make cur (some r) later = if is_some cur then make r else other

-- The tests after the hunk header's.
unfoldable pub classify_extended : Option FileDiff → Text → Line
unfolding is_binary_line drop_prefix starts_with operand
classify_extended cur line =
    let modes =
      if starts_with (codes "new file mode") line
      then new_mode
      else if starts_with (codes "deleted file mode") line
      then deleted_mode
      else other in
    if is_binary_line line
    then binary
    else operand rename_from cur (drop_prefix (codes "rename from ") line) (
        operand rename_to cur (drop_prefix (codes "rename to ") line) (
          operand copy_from cur (drop_prefix (codes "copy from ") line)
            (operand copy_to cur (drop_prefix (codes "copy to ") line) modes)))

-- `m and cur is not None and not cur.is_binary`, and the later tests if it fails
unfoldable pub classify_hunk : Option FileDiff → Text → Option Hunk → Line
unfolding classify_extended takes_hunks
classify_hunk cur line none = classify_extended cur line
classify_hunk cur line (some h) =
    if takes_hunks cur then hunk_header h else classify_extended cur line

unfoldable pub classify : Option FileDiff → Text → Line
unfolding classify_hunk drop_prefix starts_with match_hunk
classify cur line =
    if starts_with (codes "diff --git ") line
    then header line
    else elim (drop_prefix (codes "--- ") line) [
      | some r ↦ old_operand r
      | none ↦ elim (drop_prefix (codes "+++ ") line) [
        | some r ↦ new_operand r
        | none ↦ classify_hunk cur line (match_hunk line)
      ]
    ]

-- The branches that consume one line.
unfoldable pub on_line : Parser → Line → Parser
unfolding on_header on_old on_new on_binary on_rename_from on_rename_to on_copy_from on_copy_to
on_line st (header line) = on_header st line
on_line st (old_operand raw) = on_old st raw
on_line st (new_operand raw) = on_new st raw
on_line st (hunk_header h) = st
on_line st binary = on_binary st
on_line st (rename_from raw) = on_rename_from st raw
on_line st (rename_to raw) = on_rename_to st raw
on_line st (copy_from raw) = on_copy_from st raw
on_line st (copy_to raw) = on_copy_to st raw
on_line st new_mode = record st { added_hint = true }
on_line st deleted_mode = record st { removed_hint = true }
on_line st other = st

unfoldable pub add_hunk : Parser → Hunk → Parser
unfolding with_cur
add_hunk st h = with_cur (λ f. record f { hunks = f.hunks ++ h ∷ [] }) st

-- The main loop, on fuel: each round consumes a line, and a hunk header its body too.
unfoldable pub parse_lines : ℕ → Parser → List Text → Parser
unfolding classify on_line parse_hunk_body add_hunk
parse_lines zero st lines = st
parse_lines (suc fuel) st [] = st
parse_lines (suc fuel) st (line ∷ lines) = elim (classify st.cur line) [
  | hunk_header h ↦
      let (hunk, rest) = parse_hunk_body h lines in parse_lines fuel (add_hunk st hunk) rest
  | l ↦ parse_lines fuel (on_line st l) lines
]

unfoldable pub parse_unified_diff : Text → List FileDiff
unfolding split_lines parse_lines close_current
parse_unified_diff diff =
    let lines = split_lines diff in (close_current (parse_lines (length lines) initial lines)).files
