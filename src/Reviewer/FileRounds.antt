-- ===== src/Reviewer/FileRounds.antt =====
-- How `parse_unified_diff` of src/prxref/triage.py reads the lines of one file that `_render_file`
-- of src/prxref/reviewer.py wrote.
use prxref.Base.{
  Bool, false, Option, none, some, List, [], ◌∷◌, ◌++◌, ◌≡◌, refl, sym, ap, subst, ◌∙◌, arith,
  false≢true, append_assoc,
}
use prxref.Base.Text.{Text, codes, text_eq_refl}
use prxref.Triage.Diff.{
  Hunk, Status, added, modified, removed, renamed, copied, FileDiff, clean_path, skip_markers,
}
use prxref.Triage.Branches.{
  Parser, on_old, on_new, new_file, close_current, status_of, same_path, or_path,
}
use prxref.Triage.Parse.{old_operand, new_operand, on_line}
use prxref.Triage.Loop.{Rounds, is_hunk}
use prxref.Reviewer.{is_renamed, is_copied, renames, copies, operand_of, file_lines, render_hunks}
use prxref.Reviewer.Heads.{classify-old, classify-new}
use prxref.Reviewer.Rounds.{hunks-Rounds}
use prxref.Reviewer.Paths.{PlainPath, clean_path-old, clean_path-new}
use prxref.Reviewer.Moves.{StatusFits, IsWritten, one_line, opened, Opens, head_round, moves-Rounds}

-- The file with what was read of it.
abbrev so_far : FileDiff → List Hunk → FileDiff
so_far f hs = record {
  path = f.path;
  old_path = f.old_path;
  new_path = f.new_path;
  status = modified;
  is_binary = false;
  hunks = hs;
}

-- The state in which a file was read.
abbrev pub read_state : Parser → FileDiff → List Hunk → Parser
read_state st f hs = record {
  files = (close_current st).files;
  pending_old = none;
  have_pending_old = false;
  cur = some (so_far f hs);
  copy_hint = is_copied f.status;
  rename_hint = is_renamed f.status;
  added_hint = false;
  removed_hint = false;
}

some_path :
    (s : Status) (o n : Option Text) (p : Text)
    → StatusFits s o n
    → PlainPath o
    → PlainPath n
    → or_path n (or_path o p) ≡ or_path n (or_path o [])
unfolding or_path
some_path s o (some (c ∷ n)) p h x y = refl
some_path s (some (c ∷ o)) none p h x y = refl
some_path s (some []) n p h x y = absurd (false≢true x.0)
some_path s o (some []) p h x y = absurd (false≢true y.0)
some_path renamed none none p h x y = absurd h
some_path copied none none p h x y = absurd h
some_path added none none p h x y = absurd h
some_path removed none none p h x y = absurd h
some_path modified none none p h x y = absurd h

operands_state :
    (st : Parser) (f : FileDiff) (w : IsWritten f) (a b : Option Text) (p : Text)
    → on_new
        (on_old
          (opened st (is_copied f.status) (is_renamed f.status) (new_file a b p))
          (operand_of (codes "a/") f.old_path))
        (operand_of (codes "b/") f.new_path)
      ≡ read_state st f []
unfolding on_new on_old
operands_state st f w a b p =
    let result = λ (o : Option Text) (n : Option Text) (q : Text). record (read_state st f []) {
      cur = some (new_file o n q);
    } in
    let raw = operand_of (codes "b/") f.new_path in
    ap (λ o. result o (clean_path raw) (or_path (clean_path raw) (or_path o p)))
      (clean_path-old f.old_path w.old)
    ∙ ap (λ n. result f.old_path n (or_path n (or_path f.old_path p)))
        (clean_path-new f.new_path w.new)
    ∙ ap (λ q. result f.old_path f.new_path q)
        (some_path f.status f.old_path f.new_path p w.status w.old w.new ∙ sym w.path)

status_read :
    (s : Status) (o n : Option Text) (st : Parser) (f : FileDiff)
    → StatusFits s o n
    → st.copy_hint ≡ is_copied s
    → st.rename_hint ≡ is_renamed s
    → st.added_hint ≡ false
    → st.removed_hint ≡ false
    → f.old_path ≡ o
    → f.new_path ≡ n
    → status_of st f ≡ s
unfolding status_of same_path
status_read renamed (some a) (some b) st f h c r x y i j = ground arith
status_read copied (some a) (some b) st f h c r x y i j = ground arith
status_read added none (some b) st f h c r x y i j = ground arith
status_read removed (some a) none st f h c r x y i j = ground arith
status_read modified (some a) (some b) st f h c r x y i j = ground (arith, text_eq_refl a)
status_read _ _ _ st f h c r x y i j = absurd h

-- The file that closing that state adds.
pub closed_file :
    (st : Parser) (f : FileDiff)
    → IsWritten f
    → (close_current (read_state st f f.hunks)).files ≡ (close_current st).files ++ f ∷ []
unfolding close_current
closed_file st f w =
    let s : status_of (read_state st f f.hunks) (so_far f f.hunks) ≡ f.status =
      status_read f.status f.old_path f.new_path (read_state st f f.hunks) (so_far f f.hunks)
        w.status refl refl refl refl refl refl in
    ap (λ (x : Status). (close_current st).files ++ record (so_far f f.hunks) { status = x } ∷ []) s
    ∙ ap (λ (b : Bool). (close_current st).files ++ record f { is_binary = b } ∷ []) (sym w.text)

pub lines_of :
    (f : FileDiff)
    → IsWritten f
    → file_lines none f
      ≡ (codes "diff --git a/"
          ++ (or_path f.old_path (or_path f.new_path f.path)
              ++ (codes " b/" ++ or_path f.new_path (or_path f.old_path f.path))))
        ∷ (renames f.status f.old_path f.new_path
            ++ (copies f.status f.old_path f.new_path
                ++ (codes "--- " ++ operand_of (codes "a/") f.old_path)
                  ∷ (codes "+++ " ++ operand_of (codes "b/") f.new_path)
                  ∷ render_hunks none f.hunks))
unfolding file_lines
lines_of f w = rw (w.text, w.changed) refl

operands-Rounds :
    (f : FileDiff) (st : Parser) (rest : List Text) (last : Parser)
    → IsWritten f
    → skip_markers rest ≡ rest
    → Rounds (read_state st f f.hunks) rest last
    → Opens st
        (is_copied f.status)
        (is_renamed f.status)
        ((codes "--- " ++ operand_of (codes "a/") f.old_path)
          ∷ (codes "+++ " ++ operand_of (codes "b/") f.new_path)
          ∷ (render_hunks none f.hunks ++ rest))
        last
unfolding on_line on_old is_hunk
operands-Rounds f st rest last w stop r a b p =
    let old = operand_of (codes "a/") f.old_path in
    let new = operand_of (codes "b/") f.new_path in
    let ahead = render_hunks none f.hunks ++ rest in
    let body =
      hunks-Rounds f.hunks (read_state st f []) (so_far f []) rest last w.numbered refl refl stop
        r in
    one_line _ (codes "--- " ++ old) _ last (old_operand old) (classify-old (new_file a b p) old)
      refl
      (one_line _ (codes "+++ " ++ new) ahead last (new_operand new)
        (classify-new (new_file a b p) new) refl
        (subst (λ x. Rounds x ahead last) (sym (operands_state st f w a b p)) body))

-- The rounds over a file's lines, from any state of the parser.
pub file-Rounds :
    (f : FileDiff) (st : Parser) (rest : List Text) (last : Parser)
    → IsWritten f
    → skip_markers rest ≡ rest
    → Rounds (read_state st f f.hunks) rest last
    → Rounds st (file_lines none f ++ rest) last
file-Rounds f st rest last w stop r =
    let moves = renames f.status f.old_path f.new_path in
    let copied_lines = copies f.status f.old_path f.new_path in
    let operands =
      (codes "--- " ++ operand_of (codes "a/") f.old_path)
      ∷ (codes "+++ " ++ operand_of (codes "b/") f.new_path)
      ∷ render_hunks none f.hunks in
    let apart : (moves ++ (copied_lines ++ operands)) ++ rest
        ≡ moves ++ (copied_lines ++ (operands ++ rest)) =
      append_assoc moves (copied_lines ++ operands) rest
      ∙ ap (λ x. moves ++ x) (append_assoc copied_lines operands rest) in
    subst (λ ls. Rounds st (ls ++ rest) last) (sym (lines_of f w))
      (head_round st _ _ last (
        subst (λ ls. Opens st false false ls last) (sym apart)
          (moves-Rounds f.status f.old_path f.new_path st _ last w.status w.old w.new
            (operands-Rounds f st rest last w stop r))))
