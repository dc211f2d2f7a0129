-- ===== src/Reviewer/RoundTrip.antt =====
-- What `render_chunk` of src/prxref/reviewer.py writes, `parse_unified_diff` of
-- src/prxref/triage.py reads back.
use prxref.Base.{
  false, none, List, [], ◌∷◌, ◌++◌, ◌≡◌, refl, sym, ap, subst, ◌∙◌, arith, All, append_assoc,
  append_nil, length,
}
use prxref.Base.Text.{Text}
use prxref.Triage.Diff.{Hunk, FileDiff, skip_markers, is_backslash, parse_hunk_body}
use prxref.Triage.Branches.{Parser, initial, close_current}
use prxref.Triage.Parse.{
  Line, hunk_header, classify, on_line, add_hunk, parse_lines, parse_unified_diff,
}
use prxref.Triage.Loop.{Rounds, at_end, hunk_round, line_round, is_hunk, parse_lines-Rounds}
use prxref.Reviewer.{file_lines, render_chunk}
use prxref.Reviewer.Heads.{classify-empty}
use prxref.Reviewer.Moves.{IsWritten}
use prxref.Reviewer.FileRounds.{read_state, closed_file, file-Rounds}
use prxref.Reviewer.Cut.{chunk_lines, split_lines-render_chunk}

-- The state after the files.
abbrev chunk_state : Parser → List FileDiff → Parser
chunk_state st [] = st
chunk_state st (f ∷ fs) = chunk_state (read_state st f f.hunks) fs

-- An empty line is passed over.
blank-Rounds :
    (x : Parser) (ls : List Text) (last : Parser) → Rounds x ls last → Rounds x ([] ∷ ls) last
unfolding on_line is_hunk
blank-Rounds x ls last r =
    let e = sym (classify-empty x.cur) in
    line_round (subst (λ c. is_hunk c ≡ false) e refl)
      (subst (λ c. Rounds (on_line x c) ls last) e r)

chunk-Rounds :
    (fs : List FileDiff) (st : Parser)
    → All IsWritten fs
    → Rounds st (chunk_lines fs) (chunk_state st fs)
unfolding chunk_lines skip_markers is_backslash on_line is_hunk
chunk-Rounds [] st h = at_end st
chunk-Rounds (f ∷ []) st h =
    subst (λ ls. Rounds st ls (read_state st f f.hunks)) (append_nil (file_lines none f))
      (file-Rounds f st [] _ h.0 refl (at_end _))
chunk-Rounds (f ∷ g ∷ fs) st h =
    let next = read_state st f f.hunks in
    file-Rounds f st ([] ∷ chunk_lines (g ∷ fs)) _ h.0 refl
      (blank-Rounds next (chunk_lines (g ∷ fs)) _ (chunk-Rounds (g ∷ fs) next h.1))

chunk_files :
    (fs : List FileDiff) (st : Parser)
    → All IsWritten fs
    → (close_current (chunk_state st fs)).files ≡ (close_current st).files ++ fs
chunk_files [] st h = sym (append_nil (close_current st).files)
chunk_files (f ∷ fs) st h =
    chunk_files fs (read_state st f f.hunks) h.1
    ∙ ap (λ x. x ++ fs) (closed_file st f h.0)
    ∙ append_assoc (close_current st).files (f ∷ []) fs

hunk_eq : (g h : Hunk) → hunk_header g ≡ hunk_header h → g ≡ h
hunk_eq g h e = cc

not_both : (c : Line) (h : Hunk) → c ≡ hunk_header h → is_hunk c ≡ false → ⊥
unfolding is_hunk
not_both c h e f = ground arith

-- The rounds over the lines end in one state.
Rounds-unique :
    (st : Parser) (ls : List Text) (a b : Parser) → Rounds st ls a → Rounds st ls b → a ≡ b
Rounds-unique st [] a b (at_end _) (at_end _) = refl
Rounds-unique st (l ∷ ls) a b (hunk_round g e r) (hunk_round h e' s) =
    let same = hunk_eq h g (sym e' ∙ e) in
    Rounds-unique (add_hunk st (parse_hunk_body g ls).0) (parse_hunk_body g ls).1 a b r
      (subst (λ x. Rounds (add_hunk st (parse_hunk_body x ls).0) (parse_hunk_body x ls).1 b) same s)
Rounds-unique st (l ∷ ls) a b (hunk_round g e r) (line_round f s) = absurd (not_both _ g e f)
Rounds-unique st (l ∷ ls) a b (line_round f r) (hunk_round h e s) = absurd (not_both _ h e f)
Rounds-unique st (l ∷ ls) a b (line_round f r) (line_round f' s) =
    Rounds-unique (on_line st (classify st.cur l)) ls a b r s

-- Text files with hunks, whose lines are numbered from the hunks' starts and counted by their
-- headers, whose paths and lines have no line boundary, and no path a tab, and whose status a diff
-- shows: rendered without a bound on the context, they are read back as they were.
pub parse_unified_diff-render_chunk :
    (fs : List FileDiff) → All IsWritten fs → parse_unified_diff (render_chunk fs none) ≡ fs
unfolding parse_unified_diff close_current
parse_unified_diff-render_chunk fs h =
    let ls = chunk_lines fs in
    let parsed = parse_lines-Rounds (length ls) initial ls (omega arith) in
    ap (λ (x : List Text). (close_current (parse_lines (length x) initial x)).files)
      (split_lines-render_chunk fs h)
    ∙ ap (λ (x : Parser). (close_current x).files)
        (Rounds-unique initial ls _ _ parsed (chunk-Rounds fs initial h))
    ∙ chunk_files fs initial h
