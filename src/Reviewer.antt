-- ===== src/Reviewer.antt =====
-- `_render_file` and `render_chunk` of src/prxref/reviewer.py: the diff text of a worker's prompt.
pub mod Decimal
pub mod Heads
pub mod Rounds
pub mod Paths
pub mod Moves
pub mod FileRounds
pub mod Cut
pub mod RoundTrip
pub mod Tests
use prxref.Base.{
  ℕ, Bool, true, false, not, ◌&&◌, Option, none, some, List, [], ◌∷◌, ◌++◌, map, count_where,
  if◌then◌else◌,
}
use prxref.Base.Text.{Text, codes, show_number}
use prxref.Triage.Diff.{
  Kind, plus, minus, context, DiffLine, Hunk, Status, renamed, copied, FileDiff,
}
use prxref.Triage.Trim.{trim_hunk_context}
use prxref.Triage.Branches.{or_path}

-- `line.kind`
abbrev pub kind_char : Kind → ℕ
kind_char plus = b'+'
kind_char minus = b'-'
kind_char context = 32

abbrev pub is_plus : Kind → Bool
is_plus plus = true
is_plus _ = false

abbrev pub is_minus : Kind → Bool
is_minus minus = true
is_minus _ = false

abbrev pub render_line : DiffLine → Text
render_line l = kind_char l.kind ∷ l.text

-- `h if context_lines is None else trim_hunk_context(h, context_lines)`
unfoldable pub shown_hunk : Option ℕ → Hunk → Hunk
shown_hunk none h = h
shown_hunk (some n) h = trim_hunk_context h n

abbrev pub hunk_head : ℕ → ℕ → ℕ → ℕ → Text
hunk_head old_start old_count new_start new_count =
    codes "@@ -"
    ++ (show_number old_start
        ++ (codes ","
            ++ (show_number old_count
                ++ (codes " +"
                    ++ (show_number new_start
                        ++ (codes "," ++ (show_number new_count ++ codes " @@")))))))

unfoldable pub render_hunk : Hunk → List Text
render_hunk h =
    hunk_head h.old_start (count_where (λ l. not (is_plus l.kind)) h.lines) h.new_start
      (count_where (λ l. not (is_minus l.kind)) h.lines)
    ∷ map render_line h.lines

unfoldable pub render_hunks : Option ℕ → List Hunk → List Text
unfolding render_hunk shown_hunk
render_hunks n [] = []
render_hunks n (h ∷ hs) = render_hunk (shown_hunk n h) ++ render_hunks n hs

-- `f.old_path and f.new_path`
abbrev pub is_path : Option Text → Bool
is_path none = false
is_path (some []) = false
is_path (some (c ∷ s)) = true

abbrev pub text_of : Option Text → Text
text_of none = []
text_of (some t) = t

abbrev pub is_renamed : Status → Bool
is_renamed renamed = true
is_renamed _ = false

abbrev pub is_copied : Status → Bool
is_copied copied = true
is_copied _ = false

-- The two lines of a rename or a copy.
abbrev pub moved : Text → Option Text → Option Text → List Text
moved word old new =
    (word ++ codes " from " ++ text_of old) ∷ (word ++ codes " to " ++ text_of new) ∷ []

abbrev pub renames : Status → Option Text → Option Text → List Text
renames status old new =
    if is_renamed status && (is_path old && is_path new) then moved (codes "rename") old new else []

abbrev pub copies : Status → Option Text → Option Text → List Text
copies status old new =
    if is_copied status && (is_path old && is_path new) then moved (codes "copy") old new else []

abbrev pub operand_of : Text → Option Text → Text
operand_of prefix none = codes "/dev/null"
operand_of prefix (some p) = prefix ++ p

abbrev pub any_hunks : List Hunk → Bool
any_hunks [] = false
any_hunks (h ∷ hs) = true

-- The lines of `_render_file`, which joins them by newlines.
unfoldable pub file_lines : Option ℕ → FileDiff → List Text
unfolding render_hunks
file_lines n f =
    let old = or_path f.old_path (or_path f.new_path f.path) in
    let new = or_path f.new_path (or_path f.old_path f.path) in
    let head = codes "diff --git a/" ++ (old ++ (codes " b/" ++ new)) in
    let binary =
      (codes "Binary files a/" ++ (old ++ (codes " and b/" ++ (new ++ codes " differ")))) ∷ [] in
    let hunks =
      (codes "--- " ++ operand_of (codes "a/") f.old_path)
      ∷ (codes "+++ " ++ operand_of (codes "b/") f.new_path)
      ∷ render_hunks n f.hunks in
    head
    ∷ (renames f.status f.old_path f.new_path
        ++ (copies f.status f.old_path f.new_path
            ++ (if f.is_binary then binary else if any_hunks f.hunks then hunks else [])))

-- `"\n".join(lines)`
unfoldable pub join_lines : List Text → Text
join_lines [] = []
join_lines (l ∷ []) = l
join_lines (l ∷ m ∷ ls) = l ++ 10 ∷ join_lines (m ∷ ls)

unfoldable pub render_file : FileDiff → Option ℕ → Text
unfolding join_lines file_lines
render_file f n = join_lines (file_lines n f)

-- `"\n\n".join(…)` over the files
unfoldable pub render_chunk : List FileDiff → Option ℕ → Text
unfolding render_file
render_chunk [] n = []
render_chunk (f ∷ []) n = render_file f n
render_chunk (f ∷ g ∷ fs) n = render_file f n ++ 10 ∷ 10 ∷ render_chunk (g ∷ fs) n
