-- ===== src/Triage/Numbers.antt =====
-- Line numbers and counts that `_parse_hunk_body` of src/prxref/triage.py gives on any input.
use prxref.Base.{
  ℕ, zero, suc, ◌+◌, ◌≤◌, none, some, List, [], ◌∷◌, ◌≡◌, refl, sym, subst, arith, inl, inr,
  Bool-cases, length,
}
use prxref.Base.Text.{Text}
use prxref.Triage.Diff.{
  plus, minus, DiffLine, Hunk, Body, is_backslash, body_line, body_step, skip_markers, parse_body,
  parse_hunk_body,
}
use prxref.Triage.Body.{is_counting, parse_body-done, parse_body-line, parse_body-marker}

-- The numbers of a side, in the order of the lines.
unfoldable pub new_numbers : List DiffLine → List ℕ
new_numbers [] = []
new_numbers (l ∷ ls) =
    let rest = new_numbers ls in elim l.new_line [ none ↦ rest | some n ↦ n ∷ rest ]

unfoldable pub old_numbers : List DiffLine → List ℕ
old_numbers [] = []
old_numbers (l ∷ ls) =
    let rest = old_numbers ls in elim l.old_line [ none ↦ rest | some n ↦ n ∷ rest ]

-- As many consecutive numbers as there are in the list, from a start.
unfoldable pub upto : ℕ → ℕ → List ℕ
upto n zero = []
upto n (suc k) = n ∷ upto (n + 1) k

-- How many lines there are of a kind.
unfoldable pub pluses : List DiffLine → ℕ
pluses [] = 0
pluses (l ∷ ls) = (elim l.kind [ plus ↦ 1 | _ ↦ 0 ]) + pluses ls

unfoldable pub minuses : List DiffLine → ℕ
minuses [] = 0
minuses (l ∷ ls) = (elim l.kind [ minus ↦ 1 | _ ↦ 0 ]) + minuses ls

skip_markers-length : (ls : List Text) → length (skip_markers ls) ≤ length ls
unfolding skip_markers
skip_markers-length [] = omega arith
skip_markers-length (l ∷ ls) = ground (arith, skip_markers-length ls)

-- One line fits: its numbers are the next ones, and its kind has room.
body_line-step :
    (b : Body) (l : Text) (ls : List DiffLine)
    → (new_numbers ls ≡ upto (body_step b (body_line b l).kind).new_no (length (new_numbers ls)))
    → (old_numbers ls ≡ upto (body_step b (body_line b l).kind).old_no (length (old_numbers ls)))
    → pluses ls ≤ (body_step b (body_line b l).kind).remaining_new
    → minuses ls ≤ (body_step b (body_line b l).kind).remaining_old
    → (new_numbers (body_line b l ∷ ls) ≡ upto b.new_no (length (new_numbers (body_line b l ∷ ls))))
      × (old_numbers (body_line b l ∷ ls)
          ≡ upto b.old_no (length (old_numbers (body_line b l ∷ ls))))
      × (pluses (body_line b l ∷ ls) ≤ b.remaining_new)
      × (minuses (body_line b l ∷ ls) ≤ b.remaining_old)
unfolding body_line body_step new_numbers old_numbers pluses minuses upto
body_line-step b l ls hn ho hp hm = ground arith

-- What the loop's result is to its counters and to its input.
abbrev Fits : Body → List Text → List DiffLine × List Text → Type 0
Fits b ls p =
    (new_numbers p.0 ≡ upto b.new_no (length (new_numbers p.0)))
    × (old_numbers p.0 ≡ upto b.old_no (length (old_numbers p.0)))
    × (pluses p.0 ≤ b.remaining_new)
    × (minuses p.0 ≤ b.remaining_old)
    × (length p.0 + length p.1 ≤ length ls)

Fits-nothing : (b : Body) (ls rest : List Text) → length rest ≤ length ls → Fits b ls ([], rest)
unfolding new_numbers old_numbers pluses minuses upto
Fits-nothing b ls rest h = (refl, refl, omega arith, omega arith, omega (arith, h))

Fits-line :
    (b : Body) (l : Text) (ls : List Text) (p : List DiffLine × List Text)
    → Fits (body_step b (body_line b l).kind) ls p
    → Fits b (l ∷ ls) (body_line b l ∷ p.0, p.1)
Fits-line b l ls p h =
    let s = body_line-step b l p.0 h.0 h.1 h.2 h.3 in (s.0, s.1, s.2, s.3, omega (arith, h.4))

Fits-skip :
    (b : Body) (l : Text) (ls : List Text) (p : List DiffLine × List Text)
    → Fits b ls p
    → Fits b (l ∷ ls) p
Fits-skip b l ls p h = (h.0, h.1, h.2, h.3, omega (arith, h.4))

pub parse_body-Fits : (b : Body) (ls : List Text) → Fits b ls (parse_body b ls)
unfolding parse_body
parse_body-Fits b [] = Fits-nothing b [] [] (omega arith)
parse_body-Fits b (l ∷ ls) = elim (Bool-cases (is_backslash l)) [
  | inl m ↦
      subst (Fits b (l ∷ ls)) (sym (parse_body-marker b l ls m))
        (Fits-skip b l ls (parse_body b ls) (parse_body-Fits b ls))
  | inr m ↦ elim (Bool-cases (is_counting b)) [
    | inl e ↦ subst (Fits b (l ∷ ls)) (sym (parse_body-line b l ls e m)) (
        Fits-line b l ls (parse_body (body_step b (body_line b l).kind) ls)
          (parse_body-Fits (body_step b (body_line b l).kind) ls))
    | inr e ↦
        subst (Fits b (l ∷ ls)) (sym (parse_body-done b (l ∷ ls) e))
          (Fits-nothing b (l ∷ ls) (skip_markers (l ∷ ls)) (skip_markers-length (l ∷ ls)))
  ]
]

-- The numbers of the new side are consecutive from the header's start, and those of the old side
-- too, and no more lines are added or removed than the header counts.
abbrev pub HunkFits : Hunk → Type 0
HunkFits h =
    (new_numbers h.lines ≡ upto h.new_start (length (new_numbers h.lines)))
    × (old_numbers h.lines ≡ upto h.old_start (length (old_numbers h.lines)))
    × (pluses h.lines ≤ h.new_count)
    × (minuses h.lines ≤ h.old_count)

-- Lines and rest together are no more than the input.
pub parse_hunk_body-HunkFits :
    (h : Hunk) (ls : List Text)
    → h.lines ≡ []
    → let p = parse_hunk_body h ls in HunkFits p.0 × (length p.0.lines + length p.1 ≤ length ls)
unfolding parse_hunk_body
parse_hunk_body-HunkFits h ls e =
    let f =
      parse_body-Fits
        (record {
          remaining_old = h.old_count;
          remaining_new = h.new_count;
          old_no = h.old_start;
          new_no = h.new_start;
        })
        ls in
    rw e ((f.0, f.1, f.2, f.3), f.4)
