-- ===== src/Triage/Body.antt =====
-- The body of a hunk as src/prxref/triage.py reads it: `_parse_hunk_body` against the body that git
-- writes for a list of changes.
use prxref.Base.{
  ℕ, suc, ◌+◌, Bool, true, false, ◌||◌, none, some, List, [], ◌∷◌, ◌++◌, map, ◌≡◌, refl, ap, ◌∙◌,
  arith, ltb, inl, inr, Bool-cases,
}
use prxref.Base.Text.{Text}
use prxref.Triage.Diff.{
  Kind, plus, minus, context, DiffLine, Hunk, Body, is_backslash, first_char, body_line, body_step,
  skip_markers, parse_body, parse_hunk_body,
}

-- What git writes between two hunk headers: a change, or a line that begins with a backslash, as
-- the marker of a missing newline does.
pub data Piece : Type 0 where
  change : Kind → Text → Piece
  marker : Text → Piece

abbrev pub sign : Kind → ℕ
sign plus = b'+'
sign minus = b'-'
sign context = 32

abbrev pub show : Piece → Text
show (change k t) = sign k ∷ t
show (marker t) = 92 ∷ t

-- The lines that a header's two counts speak of.
unfoldable pub old_lines : List Piece → ℕ
old_lines [] = 0
old_lines (change plus t ∷ ps) = old_lines ps
old_lines (change minus t ∷ ps) = suc (old_lines ps)
old_lines (change context t ∷ ps) = suc (old_lines ps)
old_lines (marker t ∷ ps) = old_lines ps

unfoldable pub new_lines : List Piece → ℕ
new_lines [] = 0
new_lines (change plus t ∷ ps) = suc (new_lines ps)
new_lines (change minus t ∷ ps) = new_lines ps
new_lines (change context t ∷ ps) = suc (new_lines ps)
new_lines (marker t ∷ ps) = new_lines ps

-- The changes, numbered from the first line of either side.
unfoldable pub number_lines : ℕ → ℕ → List Piece → List DiffLine
number_lines o n [] = []
number_lines o n (change plus t ∷ ps) =
    record { kind = plus; text = t; old_line = none; new_line = some n } ∷ number_lines o (n + 1) ps
number_lines o n (change minus t ∷ ps) =
    record { kind = minus; text = t; old_line = some o; new_line = none }
    ∷ number_lines (o + 1) n ps
number_lines o n (change context t ∷ ps) =
    record { kind = context; text = t; old_line = some o; new_line = some n }
    ∷ number_lines (o + 1) (n + 1) ps
number_lines o n (marker t ∷ ps) = number_lines o n ps

abbrev body_of : ℕ → ℕ → List Piece → Body
body_of o n ps = record {
  remaining_old = old_lines ps;
  remaining_new = new_lines ps;
  old_no = o;
  new_no = n;
}

-- Markers alone are passed over by the loop after the body.
markers_only :
    (o n : ℕ) (ps : List Piece) (rest : List Text)
    → old_lines ps ≡ 0
    → new_lines ps ≡ 0
    → (number_lines o n ps ≡ []) × (skip_markers (map show ps ++ rest) ≡ skip_markers rest)
unfolding old_lines new_lines number_lines skip_markers is_backslash
markers_only o n [] rest e e' = (refl, refl)
markers_only o n (change plus t ∷ ps) rest e e' = ground arith
markers_only o n (change minus t ∷ ps) rest e e' = ground arith
markers_only o n (change context t ∷ ps) rest e e' = ground arith
markers_only o n (marker t ∷ ps) rest e e' = markers_only o n ps rest e e'

-- `remaining_old > 0 or remaining_new > 0`
abbrev pub is_counting : Body → Bool
is_counting b = ltb 0 b.remaining_old || ltb 0 b.remaining_new

-- A body with nothing left to count is not entered.
pub parse_body-done :
    (b : Body) (ls : List Text) → is_counting b ≡ false → parse_body b ls ≡ ([], skip_markers ls)
unfolding parse_body skip_markers
parse_body-done b [] e = refl
parse_body-done b (l ∷ ls) e = ground arith

pub parse_body-line :
    (b : Body) (l : Text) (ls : List Text)
    → is_counting b ≡ true
    → is_backslash l ≡ false
    → parse_body b (l ∷ ls) ≡ (
      body_line b l ∷ (parse_body (body_step b (body_line b l).kind) ls).0,
      (parse_body (body_step b (body_line b l).kind) ls).1,
    )
unfolding parse_body
parse_body-line b l ls e e' = ground arith

pub parse_body-marker :
    (b : Body) (l : Text) (ls : List Text)
    → is_backslash l ≡ true
    → parse_body b (l ∷ ls) ≡ parse_body b ls
unfolding parse_body skip_markers
parse_body-marker b l ls h = elim (Bool-cases (is_counting b)) [
  | inl e ↦ ground arith
  | inr e ↦ ground (arith, parse_body-done b ls)
]

parse_body-show :
    (o n : ℕ) (ps : List Piece) (rest : List Text)
    → parse_body (body_of o n ps) (map show ps ++ rest) ≡ (number_lines o n ps, skip_markers rest)
unfolding parse_body body_line body_step first_char is_backslash skip_markers old_lines new_lines
    number_lines
parse_body-show o n [] [] = refl
parse_body-show o n [] (r ∷ rest) = refl
parse_body-show o n (change plus t ∷ ps) rest = ground (arith, parse_body-show o (n + 1) ps rest)
parse_body-show o n (change minus t ∷ ps) rest = ground (arith, parse_body-show (o + 1) n ps rest)
parse_body-show o n (change context t ∷ ps) rest =
    ground (arith, parse_body-show (o + 1) (n + 1) ps rest)
parse_body-show o n (marker t ∷ ps) rest =
    parse_body-marker (body_of o n ps) (92 ∷ t) (map show ps ++ rest) refl
    ∙ parse_body-show o n ps rest

abbrev pub header_of : ℕ → ℕ → List Piece → Hunk
header_of o n ps = record {
  old_start = o;
  old_count = old_lines ps;
  new_start = n;
  new_count = new_lines ps;
  lines = [];
}

-- What git writes for a list of changes is read back: under a header with the counts of the pieces,
-- the lines become those changes with their numbers, whatever characters a changed line begins
-- with, and what follows the hunk is left, less the marker lines at its head.
pub parse_hunk_body-show :
    (o n : ℕ) (ps : List Piece) (rest : List Text)
    → parse_hunk_body (header_of o n ps) (map show ps ++ rest)
      ≡ (record (header_of o n ps) { lines = number_lines o n ps }, skip_markers rest)
unfolding parse_hunk_body
parse_hunk_body-show o n ps rest =
    ap (λ p. (record (header_of o n ps) { lines = p.0 }, p.1)) (parse_body-show o n ps rest)
