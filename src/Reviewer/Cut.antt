-- ===== src/Reviewer/Cut.antt =====
-- The text that src/prxref/reviewer.py writes, cut into lines again by `str.splitlines()`.
use prxref.Base.{
  ℕ, zero, suc, ◌+◌, ◌/◌, ◌%◌, Bool, true, false, not, ◌&&◌, Option, none, some, List, [], ◌∷◌,
  ◌++◌, map, ◌≡◌, refl, sym, ap, subst, ◌∙◌, arith, All, false≢true, if◌then◌else◌, append_assoc,
  ltb, Bool-cases, inl, inr,
}
use prxref.Base.Text.{Text, codes, digits, show_number}
use prxref.Triage.Lines.{
  is_boundary, Clean, split_lines, split_lines-line, split_lines-char, push_char,
}
use prxref.Triage.Diff.{Kind, plus, minus, context, DiffLine, Hunk, Status, FileDiff}
use prxref.Triage.Branches.{or_path}
use prxref.Reviewer.{
  kind_char, render_line, hunk_head, render_hunk, render_hunks, shown_hunk, is_path, is_renamed,
  is_copied, text_of, moved, renames, copies, operand_of, file_lines, join_lines, render_file,
  render_chunk,
}
use prxref.Reviewer.Paths.{PlainPath}
use prxref.Reviewer.Moves.{IsWritten}
use prxref.Reviewer.FileRounds.{lines_of}

abbrev is_full : Text → Bool
is_full [] = false
is_full (c ∷ t) = true

-- A line that the cut finds: with no boundary in it, and not empty.
abbrev pub Good : Text → Type 0
Good l = Clean l × (is_full l ≡ true)

All-append {ℓ κ} :
    {A : Type ℓ} (P : A → Type κ) (xs ys : List A) → All P xs → All P ys → All P (xs ++ ys)
All-append P [] ys h k = k
All-append P (x ∷ xs) ys h k = (h.0, All-append P xs ys h.1 k)

abbrev any_line : List Text → Bool
any_line [] = false
any_line (l ∷ ls) = true

-- One line, and no boundary after it.
last_line : (l : Text) → Good l → split_lines l ≡ l ∷ []
unfolding split_lines push_char
last_line [] h = absurd (false≢true h.1)
last_line (c ∷ []) h = rw h.0.0 refl
last_line (c ∷ d ∷ l) h =
    split_lines-char c d l h.0.0 ∙ ap (push_char c) (last_line (d ∷ l) (h.0.1, refl))

-- Joined lines, and no boundary after them.
split_lines-join_lines :
    (l : Text) (ls : List Text) → All Good (l ∷ ls) → split_lines (join_lines (l ∷ ls)) ≡ l ∷ ls
unfolding join_lines is_boundary
split_lines-join_lines l [] h = last_line l h.0
split_lines-join_lines l (m ∷ ls) h =
    split_lines-line l 10 (join_lines (m ∷ ls)) h.0.0 refl refl
    ∙ ap (λ r. l ∷ r) (split_lines-join_lines m ls h.1)

-- Joined lines before an empty line.
split_lines-join_before :
    (l : Text) (ls : List Text) (s : Text)
    → All Good (l ∷ ls)
    → split_lines (join_lines (l ∷ ls) ++ 10 ∷ s) ≡ (l ∷ ls) ++ split_lines s
unfolding join_lines is_boundary
split_lines-join_before l [] s h = split_lines-line l 10 s h.0.0 refl refl
split_lines-join_before l (m ∷ ls) s h =
    ap split_lines (append_assoc l (10 ∷ join_lines (m ∷ ls)) (10 ∷ s))
    ∙ split_lines-line l 10 (join_lines (m ∷ ls) ++ 10 ∷ s) h.0.0 refl refl
    ∙ ap (λ r. l ∷ r) (split_lines-join_before m ls s h.1)

-- Literals have no boundary: a test.
is_clean : Text → Bool
is_clean [] = true
is_clean (c ∷ t) = not (is_boundary c) && is_clean t

is_clean-Clean : (t : Text) → is_clean t ≡ true → Clean t
unfolding is_clean
is_clean-Clean [] h = tt
is_clean-Clean (c ∷ t) h = (ground arith, is_clean-Clean t (ground arith))

digits-Clean : (f n : ℕ) (out : Text) → Clean out → Clean (digits f n out)
unfolding digits is_boundary
digits-Clean zero n out h = h
digits-Clean (suc f) n out h = elim (Bool-cases (ltb n 10)) [
  | inl small ↦ rw (small, digits) (ground arith, h)
  | inr large ↦
      rw (large, digits) (digits-Clean f (n / 10) ((b'0' + n % 10) ∷ out) (ground arith, h))
]

show_number-Clean : (n : ℕ) → Clean (show_number n)
unfolding show_number
show_number-Clean n = digits-Clean (suc n) n [] tt

Clean-append : (s t : Text) → Clean s → Clean t → Clean (s ++ t)
Clean-append s t = All-append (λ c. is_boundary c ≡ false) s t

or_path-Clean : (o : Option Text) (t : Text) → PlainPath o → Clean t → Clean (or_path o t)
unfolding or_path
or_path-Clean none t p h = h
or_path-Clean (some []) t p h = h
or_path-Clean (some (c ∷ s)) t p h = p.2

text_of-Clean : (o : Option Text) → PlainPath o → Clean (text_of o)
text_of-Clean none p = tt
text_of-Clean (some t) p = p.2

operand_of-Clean :
    (prefix : Text) (o : Option Text) → Clean prefix → PlainPath o → Clean (operand_of prefix o)
unfolding is_clean is_boundary
operand_of-Clean prefix none h p = is_clean-Clean (codes "/dev/null") refl
operand_of-Clean prefix (some t) h p = Clean-append prefix t h p.2

literal : (t u : Text) → is_clean t ≡ true → Clean u → Clean (t ++ u)
literal t u h k = Clean-append t u (is_clean-Clean t h) k

moved-Good :
    (word : Text) (o n : Option Text)
    → Good word
    → PlainPath o
    → PlainPath n
    → All Good (moved word o n)
unfolding is_clean is_boundary
moved-Good [] o n w p q = absurd (false≢true w.1)
moved-Good (c ∷ word) o n w p q = (
  (
    Clean-append ((c ∷ word) ++ codes " from ") (text_of o)
        (Clean-append (c ∷ word) (codes " from ") w.0 (is_clean-Clean (codes " from ") refl))
        (text_of-Clean o p),
    refl,
  ),
  (
    (
      Clean-append ((c ∷ word) ++ codes " to ") (text_of n)
          (Clean-append (c ∷ word) (codes " to ") w.0 (is_clean-Clean (codes " to ") refl))
          (text_of-Clean n q),
      refl,
    ),
    tt,
  ),
)

All-if {ℓ κ} :
    {A : Type ℓ} (P : A → Type κ) (b : Bool) (xs : List A) → All P xs → All P (if b then xs else [])
All-if P true xs h = h
All-if P false xs h = tt

moves-Good :
    (s : Status) (o n : Option Text)
    → PlainPath o
    → PlainPath n
    → All Good (renames s o n) × All Good (copies s o n)
unfolding is_clean is_boundary
moves-Good s o n p q = (
  All-if Good (is_renamed s && (is_path o && is_path n)) (moved (codes "rename") o n)
      (moved-Good (codes "rename") o n (is_clean-Clean (codes "rename") refl, refl) p q),
  All-if Good (is_copied s && (is_path o && is_path n)) (moved (codes "copy") o n)
      (moved-Good (codes "copy") o n (is_clean-Clean (codes "copy") refl, refl) p q),
)

hunk_head-Good : (o a n b : ℕ) → Good (hunk_head o a n b)
unfolding is_clean is_boundary
hunk_head-Good o a n b =
    let from_b =
      Clean-append (show_number b) (codes " @@") (show_number-Clean b)
        (is_clean-Clean (codes " @@") refl) in
    let from_n =
      Clean-append (show_number n) _ (show_number-Clean n) (literal (codes ",") _ refl from_b) in
    let from_a =
      Clean-append (show_number a) _ (show_number-Clean a) (literal (codes " +") _ refl from_n) in
    let from_o =
      Clean-append (show_number o) _ (show_number-Clean o) (literal (codes ",") _ refl from_a) in
    (literal (codes "@@ -") _ refl from_o, refl)

kind_char-Clean : (k : Kind) → is_boundary (kind_char k) ≡ false
unfolding is_boundary
kind_char-Clean plus = refl
kind_char-Clean minus = refl
kind_char-Clean context = refl

lines-Good : (ls : List DiffLine) → All (λ l. Clean l.text) ls → All Good (map render_line ls)
lines-Good [] h = tt
lines-Good (l ∷ ls) h = (((kind_char-Clean l.kind, h.0), refl), lines-Good ls h.1)

hunks-Good :
    (hs : List Hunk)
    → All (λ h. All (λ l. Clean l.text) h.lines) hs
    → All Good (render_hunks none hs)
unfolding render_hunks shown_hunk render_hunk
hunks-Good [] h = tt
hunks-Good (x ∷ hs) h =
    All-append Good (render_hunk x) (render_hunks none hs)
      (hunk_head-Good _ _ _ _, lines-Good x.lines h.0) (hunks-Good hs h.1)

pub file_lines-Good : (f : FileDiff) → IsWritten f → All Good (file_lines none f)
unfolding is_clean is_boundary
file_lines-Good f w =
    let m = moves-Good f.status f.old_path f.new_path w.old w.new in
    let path : Clean f.path =
      subst Clean (sym w.path)
        (or_path-Clean f.new_path _ w.new (or_path-Clean f.old_path [] w.old tt)) in
    let old = or_path-Clean f.old_path _ w.old (or_path-Clean f.new_path f.path w.new path) in
    let new = or_path-Clean f.new_path _ w.new (or_path-Clean f.old_path f.path w.old path) in
    let head = literal (codes "diff --git a/") _ refl (
      Clean-append (or_path f.old_path (or_path f.new_path f.path)) _ old
        (literal (codes " b/") _ refl new)) in
    let from_old =
      literal (codes "--- ") _ refl
        (operand_of-Clean (codes "a/") f.old_path (is_clean-Clean (codes "a/") refl) w.old) in
    let to_new =
      literal (codes "+++ ") _ refl
        (operand_of-Clean (codes "b/") f.new_path (is_clean-Clean (codes "b/") refl) w.new) in
    subst (All Good) (sym (lines_of f w)) (
      (head, refl),
      All-append Good (renames f.status f.old_path f.new_path) _ m.0 (
          All-append Good (copies f.status f.old_path f.new_path) _ m.1
            ((from_old, refl), ((to_new, refl), hunks-Good f.hunks w.clean))),
    )

-- The lines of a chunk: an empty line stands between two files.
unfoldable pub chunk_lines : List FileDiff → List Text
chunk_lines [] = []
chunk_lines (f ∷ []) = file_lines none f
chunk_lines (f ∷ g ∷ fs) = file_lines none f ++ [] ∷ chunk_lines (g ∷ fs)

cut_last : (ls : List Text) → All Good ls → any_line ls ≡ true → split_lines (join_lines ls) ≡ ls
cut_last [] h e = absurd (false≢true e)
cut_last (l ∷ ls) h e = split_lines-join_lines l ls h

cut_before :
    (ls : List Text) (s : Text)
    → All Good ls
    → any_line ls ≡ true
    → split_lines (join_lines ls ++ 10 ∷ s) ≡ ls ++ split_lines s
cut_before [] s h e = absurd (false≢true e)
cut_before (l ∷ ls) s h e = split_lines-join_before l ls s h

some_lines : (f : FileDiff) → any_line (file_lines none f) ≡ true
unfolding file_lines
some_lines f = refl

-- The lines of a rendered chunk.
pub split_lines-render_chunk :
    (fs : List FileDiff) → All IsWritten fs → split_lines (render_chunk fs none) ≡ chunk_lines fs
unfolding render_chunk render_file chunk_lines split_lines is_boundary
split_lines-render_chunk [] h = refl
split_lines-render_chunk (f ∷ []) h =
    cut_last (file_lines none f) (file_lines-Good f h.0) (some_lines f)
split_lines-render_chunk (f ∷ g ∷ fs) h =
    cut_before (file_lines none f) (10 ∷ render_chunk (g ∷ fs) none) (file_lines-Good f h.0)
      (some_lines f)
    ∙ ap (λ r. file_lines none f ++ r)
        (split_lines-line [] 10 (render_chunk (g ∷ fs) none) tt refl refl
          ∙ ap (λ r. [] ∷ r) (split_lines-render_chunk (g ∷ fs) h.1))
