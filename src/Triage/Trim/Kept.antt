-- ===== src/Triage/Trim/Kept.antt =====
-- What `trim_hunk_context` of src/prxref/triage.py keeps of a hunk.
use prxref.Base.{
  is_empty, ℕ, ◌+◌, true, false, not, ◌≡◌, refl, sym, ap, subst, List, [], ◌∷◌, keep, count_where,
  arith, if◌then◌else◌, Bool-cases, inl, inr, none, some,
}
use prxref.Triage.Diff.{Hunk, DiffLine}
use prxref.Triage.Score.{is_plus, is_minus, is_change}
use prxref.Triage.Trim.{
  change_at, is_kept, kept, cut_off, old_side, new_side, trimmed, trim_hunk_context,
}

-- All changes are kept, in order.
keep-kept :
    (r : ℕ) (changes : List ℕ) (i : ℕ) (ls : List DiffLine)
    → keep is_change (kept r changes i ls) ≡ keep is_change ls
unfolding keep kept
keep-kept r changes i [] = refl
keep-kept r changes i (l ∷ ls) = ground (arith, keep-kept r changes (i + 1) ls)

-- Without a change the hunk stays as it is.
change_at-none : (i : ℕ) (ls : List DiffLine) → keep is_change ls ≡ [] → change_at i ls ≡ []
unfolding change_at keep
change_at-none i [] h = refl
change_at-none i (l ∷ ls) h = ground (arith, change_at-none (i + 1) ls)

pub trim_changes :
    (h : Hunk) (r : ℕ) → keep is_change (trim_hunk_context h r).lines ≡ keep is_change h.lines
unfolding trim_hunk_context trimmed
trim_changes h r = ground (arith, keep-kept r (change_at 0 h.lines) 0 h.lines)

-- The header of the trimmed hunk counts its lines, if the header of the hunk counted them.
pub trim_counts :
    (h : Hunk) (r : ℕ)
    → h.old_count ≡ old_side h.lines
    → h.new_count ≡ new_side h.lines
    → ((trim_hunk_context h r).old_count ≡ old_side (trim_hunk_context h r).lines)
      × ((trim_hunk_context h r).new_count ≡ new_side (trim_hunk_context h r).lines)
unfolding trim_hunk_context trimmed
trim_counts h r o n = ground arith

-- A line that carries the numbers o and n, on the sides where it stands.
abbrev pub LineAt : ℕ → ℕ → DiffLine → Type 0
LineAt o n l =
    (l.old_line ≡ (if is_plus l then none else some o))
    × (l.new_line ≡ (if is_minus l then none else some n))

-- Lines that are numbered from o and n on.
abbrev pub Numbered : ℕ → ℕ → List DiffLine → Type 0
Numbered o n [] = Unit
Numbered o n (l ∷ ls) =
    LineAt o n l
    × Numbered (o + (if not (is_plus l) then 1 else 0)) (n + (if not (is_minus l) then 1 else 0)) ls

abbrev pub HeadAt : ℕ → ℕ → List DiffLine → Type 0
HeadAt o n [] = Unit
HeadAt o n (l ∷ ls) = LineAt o n l

HeadAt-same : (a b c d : ℕ) (ls : List DiffLine) → a ≡ c → b ≡ d → HeadAt a b ls → HeadAt c d ls
HeadAt-same a b c d ls e f h = subst (λ x. HeadAt x d ls) e (subst (λ x. HeadAt a x ls) f h)

cut_off-kept :
    (r : ℕ) (changes : List ℕ) (i : ℕ) (l : DiffLine) (ls : List DiffLine)
    → is_kept r changes i l ≡ true
    → (cut_off r changes i (l ∷ ls) ≡ [])
      × (kept r changes i (l ∷ ls) ≡ l ∷ kept r changes (i + 1) ls)
unfolding cut_off kept
cut_off-kept r changes i l ls e = ground arith

cut_off-cut :
    (r : ℕ) (changes : List ℕ) (i : ℕ) (l : DiffLine) (ls : List DiffLine)
    → is_kept r changes i l ≡ false
    → (cut_off r changes i (l ∷ ls) ≡ l ∷ cut_off r changes (i + 1) ls)
      × (kept r changes i (l ∷ ls) ≡ kept r changes (i + 1) ls)
unfolding cut_off kept
cut_off-cut r changes i l ls e = ground arith

-- The kept lines begin at the numbers that the cut lines lead up to.
kept-HeadAt :
    (r : ℕ) (changes : List ℕ) (i o n : ℕ) (ls : List DiffLine)
    → Numbered o n ls
    → HeadAt
        (o + old_side (cut_off r changes i ls))
        (n + new_side (cut_off r changes i ls))
        (kept r changes i ls)
unfolding kept old_side new_side count_where
kept-HeadAt r changes i o n [] h = tt
kept-HeadAt r changes i o n (l ∷ ls) h = elim (Bool-cases (is_kept r changes i l)) [
  | inl e ↦
      let (c, k) = cut_off-kept r changes i l ls e in
      subst (HeadAt _ _) (sym k) (
        HeadAt-same o n _ _ (l ∷ kept r changes (i + 1) ls) (omega (arith, ap old_side c))
          (omega (arith, ap new_side c)) h.0)
  | inr e ↦
      let (c, k) = cut_off-cut r changes i l ls e in
      subst (HeadAt _ _) (sym k) (
        HeadAt-same _ _ _ _ (kept r changes (i + 1) ls) (omega (arith, ap old_side c))
          (omega (arith, ap new_side c)) (kept-HeadAt r changes (i + 1) _ _ ls h.1))
]

Numbered-HeadAt : (o n : ℕ) (ls : List DiffLine) → Numbered o n ls → HeadAt o n ls
Numbered-HeadAt o n [] h = tt
Numbered-HeadAt o n (l ∷ ls) h = h.0

abbrev StartsRight : Hunk → Type 0
StartsRight h = HeadAt h.old_start h.new_start h.lines

-- In a hunk whose lines are numbered from its header's starts, the trimmed hunk's first line has
-- the numbers that the trimmed header says.
pub trim-HeadAt :
    (h : Hunk) (r : ℕ)
    → Numbered h.old_start h.new_start h.lines
    → let t = trim_hunk_context h r in HeadAt t.old_start t.new_start t.lines
unfolding trim_hunk_context trimmed
trim-HeadAt h r k =
    elim (is_empty (change_at 0 h.lines))
      as (λ b. StartsRight (if b then h else trimmed h r (change_at 0 h.lines))) [
        | true ↦ Numbered-HeadAt h.old_start h.new_start h.lines k
        | false ↦ kept-HeadAt r (change_at 0 h.lines) 0 h.old_start h.new_start h.lines k
      ]

-- Trimming does all that its header promises: the changes stay, in order; counts that were right
-- stay right; and if the lines were numbered from the header's starts, the first line that is left
-- has the numbers of the new starts.
pub trim_hunk_context_lem :
    (h : Hunk) (r : ℕ)
    → Numbered h.old_start h.new_start h.lines
    → h.old_count ≡ old_side h.lines
    → h.new_count ≡ new_side h.lines
    → let t = trim_hunk_context h r in
      (keep is_change t.lines ≡ keep is_change h.lines)
      × (t.old_count ≡ old_side t.lines)
      × (t.new_count ≡ new_side t.lines)
      × HeadAt t.old_start t.new_start t.lines
trim_hunk_context_lem h r k o n =
    let c = trim_counts h r o n in (trim_changes h r, c.0, c.1, trim-HeadAt h r k)
