-- ===== src/Reviewer/Rounds.antt =====
-- The rounds in which `parse_unified_diff` of src/prxref/triage.py reads a file that
-- src/prxref/reviewer.py wrote.
use prxref.Base.{
  ◌+◌, false, not, Option, none, some, List, [], ◌∷◌, ◌++◌, map, ◌≡◌, refl, sym, ap, subst, ◌∙◌,
  arith, append_assoc, append_nil, count_where, All, if◌then◌else◌,
}
use prxref.Base.Text.{Text}
use prxref.Triage.Diff.{
  Kind, plus, minus, context, DiffLine, Hunk, FileDiff, parse_hunk_body, skip_markers, is_backslash,
}
use prxref.Triage.Body.{
  Piece, change, show, sign, old_lines, new_lines, number_lines, parse_hunk_body-show,
}
use prxref.Triage.Branches.{Parser, with_cur}
use prxref.Triage.Parse.{add_hunk}
use prxref.Triage.Loop.{Rounds, hunk_round}
use prxref.Reviewer.{
  kind_char, is_plus, is_minus, render_line, shown_hunk, render_hunk, render_hunks,
}
use prxref.Reviewer.Heads.{empty_hunk, classify-hunk_head}

abbrev piece : DiffLine → Piece
piece l = change l.kind l.text

-- The lines of a hunk have the numbers that follow from its start, and its header counts them.
pub record Numbered (h : Hunk) : Type 0 where
  pub lines : number_lines h.old_start h.new_start (map piece h.lines) ≡ h.lines
  pub old : old_lines (map piece h.lines) ≡ h.old_count
  pub new : new_lines (map piece h.lines) ≡ h.new_count

sign_char : (k : Kind) → kind_char k ≡ sign k
sign_char plus = refl
sign_char minus = refl
sign_char context = refl

shown_pieces : (ls : List DiffLine) → map render_line ls ≡ map show (map piece ls)
shown_pieces [] = refl
shown_pieces (l ∷ ls) = cc (sign_char l.kind, shown_pieces ls)

old_step :
    (k : Kind) (t : Text) (ps : List Piece)
    → (if not (is_plus k) then 1 else 0) + old_lines ps ≡ old_lines (change k t ∷ ps)
unfolding old_lines
old_step plus t ps = omega arith
old_step minus t ps = omega arith
old_step context t ps = omega arith

new_step :
    (k : Kind) (t : Text) (ps : List Piece)
    → (if not (is_minus k) then 1 else 0) + new_lines ps ≡ new_lines (change k t ∷ ps)
unfolding new_lines
new_step plus t ps = omega arith
new_step minus t ps = omega arith
new_step context t ps = omega arith

old_counted :
    (ls : List DiffLine) → count_where (λ l. not (is_plus l.kind)) ls ≡ old_lines (map piece ls)
unfolding count_where old_lines
old_counted [] = refl
old_counted (l ∷ ls) =
    ap (λ n. (if not (is_plus l.kind) then 1 else 0) + n) (old_counted ls)
    ∙ old_step l.kind l.text (map piece ls)

new_counted :
    (ls : List DiffLine) → count_where (λ l. not (is_minus l.kind)) ls ≡ new_lines (map piece ls)
unfolding count_where new_lines
new_counted [] = refl
new_counted (l ∷ ls) =
    ap (λ n. (if not (is_minus l.kind) then 1 else 0) + n) (new_counted ls)
    ∙ new_step l.kind l.text (map piece ls)

-- A rendered hunk is read back.
hunk_read :
    (h : Hunk) (rest : List Text)
    → Numbered h
    → skip_markers rest ≡ rest
    → parse_hunk_body
        (empty_hunk h.old_start
          (count_where (λ l. not (is_plus l.kind)) h.lines)
          h.new_start
          (count_where (λ l. not (is_minus l.kind)) h.lines))
        (map render_line h.lines ++ rest)
      ≡ (h, rest)
hunk_read h rest n stop =
    rw (old_counted h.lines, new_counted h.lines, shown_pieces h.lines)
      (parse_hunk_body-show h.old_start h.new_start (map piece h.lines) rest
        ∙ cc (n.lines, n.old, n.new, stop))

-- The state with the hunks of the current file read.
abbrev with_hunks : Parser → FileDiff → List Hunk → Parser
with_hunks st f hs = record st { cur = some (record f { hunks = f.hunks ++ hs }) }

add_one :
    (st : Parser) (f : FileDiff) (h : Hunk)
    → st.cur ≡ some f
    → add_hunk st h ≡ with_hunks st f (h ∷ [])
unfolding add_hunk with_cur
add_one st f h e = rw e refl

heads_stop :
    (hs : List Hunk) (rest : List Text)
    → skip_markers rest ≡ rest
    → skip_markers (render_hunks none hs ++ rest) ≡ render_hunks none hs ++ rest
unfolding render_hunks shown_hunk render_hunk skip_markers is_backslash
heads_stop [] rest stop = stop
heads_stop (h ∷ hs) rest stop = refl

pub hunks-Rounds :
    (hs : List Hunk) (st : Parser) (f : FileDiff) (rest : List Text) (last : Parser)
    → All Numbered hs
    → st.cur ≡ some f
    → f.is_binary ≡ false
    → skip_markers rest ≡ rest
    → Rounds (with_hunks st f hs) rest last
    → Rounds st (render_hunks none hs ++ rest) last
unfolding render_hunks shown_hunk render_hunk
hunks-Rounds [] st f rest last n e b stop r =
    let whole : with_hunks st f [] ≡ st =
      ap (λ (xs : List Hunk). record st { cur = some (record f { hunks = xs }) })
        (append_nil f.hunks)
      ∙ ap (λ (c : Option FileDiff). record st { cur = c }) (sym e) in
    subst (λ x. Rounds x rest last) whole r
hunks-Rounds (h ∷ hs) st f rest last n e b stop r =
    let ahead = render_hunks none hs ++ rest in
    let more : with_hunks st f (h ∷ hs)
        ≡ with_hunks (with_hunks st f (h ∷ [])) (record f { hunks = f.hunks ++ h ∷ [] }) hs =
      ap (λ (xs : List Hunk). record st { cur = some (record f { hunks = xs }) })
        (sym (append_assoc f.hunks (h ∷ []) hs)) in
    let later =
      hunks-Rounds hs (with_hunks st f (h ∷ [])) (record f { hunks = f.hunks ++ h ∷ [] }) rest last
        n.1 refl b stop (subst (λ x. Rounds x rest last) more r) in
    let read =
      subst (λ (p : Hunk × List Text). Rounds (add_hunk st p.0) p.1 last)
        (sym (hunk_read h ahead n.0 (heads_stop hs rest stop)))
        (subst (λ x. Rounds x ahead last) (sym (add_one st f h e)) later) in
    subst (λ ls. Rounds st ls last) (sym (append_assoc (render_hunk h) (render_hunks none hs) rest))
      (hunk_round _ (rw e (classify-hunk_head f _ _ _ _ b)) read)
