-- ===== src/Triage/Loop.antt =====
-- The main loop of `parse_unified_diff` of src/prxref/triage.py: its rounds as a relation, and
-- that the fuel is enough.
use prxref.Base.{
  ℕ, zero, suc, ◌≤◌, Bool, true, false, Option, none, some, List, [], ◌∷◌, ◌≡◌, refl, sym, subst,
  arith, ◌⊎◌, inl, inr, length, if◌then◌else◌,
}
use prxref.Base.Text.{Text, codes, starts_with, drop_prefix}
use prxref.Triage.Diff.{Hunk, FileDiff, match_hunk, parse_hunk_body}
use prxref.Triage.Numbers.{parse_hunk_body-HunkFits}
use prxref.Triage.Branches.{Parser}
use prxref.Triage.Parse.{
  Line, header, old_operand, new_operand, hunk_header, binary, rename_from, rename_to, copy_from,
  copy_to, new_mode, deleted_mode, other, classify, classify_extended, takes_hunks, operand,
  classify_hunk, on_line, add_hunk, parse_lines,
}

match_hunk-empty : (l : Text) (h : Hunk) → match_hunk l ≡ some h → h.lines ≡ []
unfolding match_hunk
match_hunk-empty l h e = ground arith

unfoldable pub is_hunk : Line → Bool
is_hunk (hunk_header h) = true
is_hunk _ = false

operand-hunk :
    (make : Text → Line) (cur : Option FileDiff) (o : Option Text) (later : Line)
    → ((r : Text) → is_hunk (make r) ≡ false)
    → is_hunk later ≡ false
    → is_hunk (operand make cur o later) ≡ false
unfolding operand is_hunk
operand-hunk make cur none later h e = e
operand-hunk make none (some r) later h e = refl
operand-hunk make (some f) (some r) later h e = h r

if-hunk :
    (b : Bool) (x y : Line)
    → is_hunk x ≡ false
    → is_hunk y ≡ false
    → is_hunk (if b then x else y) ≡ false
if-hunk true x y h e = h
if-hunk false x y h e = e

-- The lines with no hunk.
rename_from-hunk : (r : Text) → is_hunk (rename_from r) ≡ false
unfolding is_hunk
rename_from-hunk r = refl

rename_to-hunk : (r : Text) → is_hunk (rename_to r) ≡ false
unfolding is_hunk
rename_to-hunk r = refl

copy_from-hunk : (r : Text) → is_hunk (copy_from r) ≡ false
unfolding is_hunk
copy_from-hunk r = refl

copy_to-hunk : (r : Text) → is_hunk (copy_to r) ≡ false
unfolding is_hunk
copy_to-hunk r = refl

plain-hunk :
    (is_hunk binary ≡ false)
    × (is_hunk new_mode ≡ false)
    × (is_hunk deleted_mode ≡ false)
    × (is_hunk other ≡ false)
unfolding is_hunk
plain-hunk = (refl, refl, refl, refl)

classify_extended-hunk :
    (cur : Option FileDiff) (l : Text) → is_hunk (classify_extended cur l) ≡ false
unfolding classify_extended
classify_extended-hunk cur l =
    search
      (
        if-hunk, operand-hunk, rename_from-hunk, rename_to-hunk, copy_from-hunk, copy_to-hunk,
        plain-hunk.0, plain-hunk.1, plain-hunk.2, plain-hunk.3,
      )
      depth 9

classify_hunk-hunk :
    (cur : Option FileDiff) (l : Text) (o : Option Hunk) (h : Hunk)
    → classify_hunk cur l o ≡ hunk_header h
    → (takes_hunks cur ≡ true) × (o ≡ some h)
unfolding classify_hunk is_hunk
classify_hunk-hunk cur l none h e = ground (arith, classify_extended-hunk cur l)
classify_hunk-hunk cur l (some g) h e = ground (arith, classify_extended-hunk cur l)

-- The three tests before the hunk header's.
past_markers :
    (b : Bool) (l : Text) (o n : Option Text) (c : Line) (h : Hunk)
    → (if b then header l else elim o [
      | some r ↦ old_operand r
      | none ↦ elim n [ some r ↦ new_operand r | none ↦ c ]
    ])
      ≡ hunk_header h
    → c ≡ hunk_header h
past_markers true l o n c h e = ground arith
past_markers false l (some r) n c h e = ground arith
past_markers false l none (some r) c h e = ground arith
past_markers false l none none c h e = e

-- A hunk header is taken only under a file that is not binary, and it brings no lines.
pub classify-hunk :
    (cur : Option FileDiff) (l : Text) (h : Hunk)
    → classify cur l ≡ hunk_header h
    → (takes_hunks cur ≡ true) × (h.lines ≡ [])
unfolding classify
classify-hunk cur l h e =
    let c =
      past_markers (starts_with (codes "diff --git ") l) l (drop_prefix (codes "--- ") l)
        (drop_prefix (codes "+++ ") l) (classify_hunk cur l (match_hunk l)) h e in
    let k = classify_hunk-hunk cur l (match_hunk l) h c in (k.0, match_hunk-empty l h k.1)

-- The rounds of the loop, from a state and the lines ahead to the state at the end of the lines.
pub data Rounds : Parser → List Text → Parser → Type 0 where
  at_end : (st : Parser) → Rounds st [] st
  hunk_round :
      {st : Parser} {l : Text} {ls : List Text} {last : Parser} (h : Hunk)
      → classify st.cur l ≡ hunk_header h
      → Rounds (add_hunk st (parse_hunk_body h ls).0) (parse_hunk_body h ls).1 last
      → Rounds st (l ∷ ls) last
  line_round :
      {st : Parser} {l : Text} {ls : List Text} {last : Parser}
      → is_hunk (classify st.cur l) ≡ false
      → Rounds (on_line st (classify st.cur l)) ls last
      → Rounds st (l ∷ ls) last

parse_lines-hunk :
    (n : ℕ) (st : Parser) (l : Text) (ls : List Text) (h : Hunk)
    → classify st.cur l ≡ hunk_header h
    → parse_lines (suc n) st (l ∷ ls)
      ≡ parse_lines n (add_hunk st (parse_hunk_body h ls).0) (parse_hunk_body h ls).1
unfolding parse_lines
parse_lines-hunk n st l ls h e = rw e refl

parse_lines-line :
    (n : ℕ) (st : Parser) (l : Text) (ls : List Text) (c : Line)
    → classify st.cur l ≡ c
    → is_hunk c ≡ false
    → parse_lines (suc n) st (l ∷ ls) ≡ parse_lines n (on_line st (classify st.cur l)) ls
unfolding parse_lines is_hunk
parse_lines-line n st l ls (hunk_header h) e f = ground arith
parse_lines-line n st l ls (header r) e f = rw e refl
parse_lines-line n st l ls (old_operand r) e f = rw e refl
parse_lines-line n st l ls (new_operand r) e f = rw e refl
parse_lines-line n st l ls binary e f = rw e refl
parse_lines-line n st l ls (rename_from r) e f = rw e refl
parse_lines-line n st l ls (rename_to r) e f = rw e refl
parse_lines-line n st l ls (copy_from r) e f = rw e refl
parse_lines-line n st l ls (copy_to r) e f = rw e refl
parse_lines-line n st l ls new_mode e f = rw e refl
parse_lines-line n st l ls deleted_mode e f = rw e refl
parse_lines-line n st l ls other e f = rw e refl

is_hunk-cases : (c : Line) → ((h : Hunk) × (c ≡ hunk_header h)) ⊎ (is_hunk c ≡ false)
unfolding is_hunk
is_hunk-cases (hunk_header h) = inl (h, refl)
is_hunk-cases (header r) = inr refl
is_hunk-cases (old_operand r) = inr refl
is_hunk-cases (new_operand r) = inr refl
is_hunk-cases binary = inr refl
is_hunk-cases (rename_from r) = inr refl
is_hunk-cases (rename_to r) = inr refl
is_hunk-cases (copy_from r) = inr refl
is_hunk-cases (copy_to r) = inr refl
is_hunk-cases new_mode = inr refl
is_hunk-cases deleted_mode = inr refl
is_hunk-cases other = inr refl

-- With at least as much fuel as there are lines, what `parse_lines` answers is the state in which
-- the rounds of the loop reach the end of the lines.
pub parse_lines-Rounds :
    (n : ℕ) (st : Parser) (ls : List Text) → length ls ≤ n → Rounds st ls (parse_lines n st ls)
unfolding parse_lines
parse_lines-Rounds zero st [] h = at_end st
parse_lines-Rounds zero st (l ∷ ls) h = let absurd : ⊥ = omega arith in elim absurd [ ]
parse_lines-Rounds (suc n) st [] h = at_end st
parse_lines-Rounds (suc n) st (l ∷ ls) h = elim (is_hunk-cases (classify st.cur l)) [
  | inl (g, e) ↦
      let p = parse_hunk_body g ls in
      let fits = parse_hunk_body-HunkFits g ls (classify-hunk st.cur l g e).1 in
      subst (Rounds st (l ∷ ls)) (sym (parse_lines-hunk n st l ls g e))
        (hunk_round g e (parse_lines-Rounds n (add_hunk st p.0) p.1 (omega (arith, fits.1))))
  | inr e ↦
      subst (Rounds st (l ∷ ls)) (sym (parse_lines-line n st l ls _ refl e))
        (line_round e (parse_lines-Rounds n (on_line st (classify st.cur l)) ls (omega arith)))
]
