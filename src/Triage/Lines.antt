-- ===== src/Triage/Lines.antt =====
-- `str.splitlines()`, by which src/prxref/triage.py cuts a diff into lines.
use prxref.Base.{
  ℕ, Bool, true, false, ◌||◌, ◌&&◌, List, [], ◌∷◌, ◌++◌, ◌≡◌, refl, ap, ◌∙◌, arith, ◌==◌, leb,
  if◌then◌else◌, All,
}
use prxref.Base.Text.{Text}

-- The line boundaries of Python: \n, \v, \f, \r, \x1c to \x1e, \x85, U+2028 and U+2029.
unfoldable pub is_boundary : ℕ → Bool
is_boundary c =
    (leb 10 c && leb c 13) || (leb 28 c && leb c 30) || c == 0x85 || c == 0x2028 || c == 0x2029

-- The first character of the first line.
unfoldable pub push_char : ℕ → List Text → List Text
push_char c [] = (c ∷ []) ∷ []
push_char c (l ∷ ls) = (c ∷ l) ∷ ls

-- \r\n is one boundary; the text has no line after a boundary at its end.
unfoldable pub split_lines : Text → List Text
unfolding is_boundary push_char
split_lines [] = []
split_lines (c ∷ []) = if is_boundary c then [] ∷ [] else (c ∷ []) ∷ []
split_lines (c ∷ d ∷ s) =
    let after_two = split_lines s in
    let after_one = split_lines (d ∷ s) in
    if c == 13 && d == 10
    then [] ∷ after_two
    else if is_boundary c
    then [] ∷ after_one
    else push_char c after_one

abbrev pub Clean : Text → Type 0
Clean l = All (λ c. is_boundary c ≡ false) l

not_return : (c : ℕ) → is_boundary c ≡ false → (c == 13) ≡ false
unfolding is_boundary
not_return c h = ground arith

pub split_lines-char :
    (c d : ℕ) (s : Text)
    → is_boundary c ≡ false
    → split_lines (c ∷ d ∷ s) ≡ push_char c (split_lines (d ∷ s))
unfolding split_lines
split_lines-char c d s h = ground (arith, not_return c h)

split_lines-boundary :
    (b : ℕ) (s : Text)
    → is_boundary b ≡ true
    → (b == 13) ≡ false
    → split_lines (b ∷ s) ≡ [] ∷ split_lines s
unfolding split_lines
split_lines-boundary b [] h e = ground arith
split_lines-boundary b (c ∷ s) h e = ground arith

-- A line without a boundary in it, and the boundary after it, are cut off whole.
pub split_lines-line :
    (l : Text) (b : ℕ) (s : Text)
    → Clean l
    → is_boundary b ≡ true
    → (b == 13) ≡ false
    → split_lines (l ++ b ∷ s) ≡ l ∷ split_lines s
unfolding push_char
split_lines-line [] b s h e e' = split_lines-boundary b s e e'
split_lines-line (c ∷ []) b s h e e' =
    split_lines-char c b s h.0 ∙ ap (push_char c) (split_lines-boundary b s e e')
split_lines-line (c ∷ d ∷ l) b s h e e' =
    split_lines-char c d (l ++ b ∷ s) h.0 ∙ ap (push_char c) (split_lines-line (d ∷ l) b s h.1 e e')

-- The text of a list of lines.
unfoldable pub unlines : List Text → Text
unlines [] = []
unlines (l ∷ ls) = l ++ 10 ∷ unlines ls

pub split_lines-unlines : (ls : List Text) → All Clean ls → split_lines (unlines ls) ≡ ls
unfolding split_lines unlines is_boundary
split_lines-unlines [] h = refl
split_lines-unlines (l ∷ ls) h =
    split_lines-line l 10 (unlines ls) h.0 refl refl ∙ ap (λ r. l ∷ r) (split_lines-unlines ls h.1)
