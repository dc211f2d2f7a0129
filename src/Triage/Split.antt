-- ===== src/Triage/Split.antt =====
-- What `split_by_hunk` of src/prxref/triage.py makes of a file.
use prxref.Base.{
  ℕ, ◌+◌, ◌≤◌, true, false, ◌||◌, ◌≡◌, refl, sym, ap, subst, List, [], ◌∷◌, ◌++◌, map, arith,
  length, append_assoc, append_nil, ltb, leb, ltb→lt, leb→le, Bool-cases, ◌⊎◌, inl, inr, All,
}
use prxref.Triage.Diff.{Hunk, FileDiff}
use prxref.Triage.Pieces.{
  changed_lines, changed_chars, total_lines, total_chars, estimate, est_hunks, est_tokens, is_full,
  group_hunks, split_by_hunk,
}

unfoldable pub join_hunks : List (List Hunk) → List Hunk
join_hunks [] = []
join_hunks (g ∷ gs) = g ++ join_hunks gs

abbrev pub hunks_of : List FileDiff → List (List Hunk)
hunks_of fs = map (λ f. f.hunks) fs

total_lines-append : (gs hs : List Hunk) → total_lines (gs ++ hs) ≡ total_lines gs + total_lines hs
unfolding total_lines
total_lines-append [] hs = omega arith
total_lines-append (g ∷ gs) hs = omega (arith, total_lines-append gs hs)

total_chars-append : (gs hs : List Hunk) → total_chars (gs ++ hs) ≡ total_chars gs + total_chars hs
unfolding total_chars
total_chars-append [] hs = omega arith
total_chars-append (g ∷ gs) hs = omega (arith, total_chars-append gs hs)

-- A group that the budget admits: its estimate fits, or it is at most one hunk.
abbrev pub GroupFits : ℕ → List Hunk → Type 0
GroupFits budget g = (est_hunks g ≤ budget) ⊎ (length g ≤ 1)

group_hunks-join :
    (b lines chars : ℕ) (cur hs : List Hunk)
    → join_hunks (group_hunks b lines chars cur hs) ≡ cur ++ hs
unfolding group_hunks join_hunks
group_hunks-join b lines chars cur [] = refl
group_hunks-join b lines chars cur (h ∷ hs) =
    let n = changed_lines h.lines in
    let m = changed_chars h.lines in
    ground (
      arith,
      ap (λ r. cur ++ r) (group_hunks-join b n m (h ∷ []) hs),
      group_hunks-join b (lines + n) (chars + m) (cur ++ h ∷ []) hs,
      append_assoc cur (h ∷ []) hs,
    )

-- Adding a hunk that does not fill the group leaves a group that fits.
GroupFits-add :
    (b : ℕ) (cur : List Hunk) (h : Hunk)
    → is_full b (total_lines cur) (total_chars cur) cur h ≡ false
    → GroupFits b (cur ++ h ∷ [])
unfolding est_hunks total_lines total_chars estimate
GroupFits-add b [] h e = inr (omega arith)
GroupFits-add b (g ∷ gs) h e =
    inl (ground (arith, total_lines-append (g ∷ gs) (h ∷ []), total_chars-append (g ∷ gs) (h ∷ [])))

group_hunks-full :
    (b lines chars : ℕ) (cur : List Hunk) (h : Hunk) (hs : List Hunk)
    → is_full b lines chars cur h ≡ true
    → group_hunks b lines chars cur (h ∷ hs)
      ≡ cur ∷ group_hunks b (changed_lines h.lines) (changed_chars h.lines) (h ∷ []) hs
unfolding group_hunks
group_hunks-full b lines chars cur h hs e = ground arith

group_hunks-same :
    (b lines chars : ℕ) (cur : List Hunk) (h : Hunk) (hs : List Hunk)
    → is_full b lines chars cur h ≡ false
    → group_hunks b lines chars cur (h ∷ hs)
      ≡ group_hunks b
          (lines + changed_lines h.lines)
          (chars + changed_chars h.lines)
          (cur ++ h ∷ [])
          hs
unfolding group_hunks
group_hunks-same b lines chars cur h hs e = ground arith

group_hunks-GroupFits :
    (b lines chars : ℕ) (cur hs : List Hunk)
    → lines ≡ total_lines cur
    → chars ≡ total_chars cur
    → GroupFits b cur
    → All (GroupFits b) (group_hunks b lines chars cur hs)
unfolding group_hunks total_lines total_chars
group_hunks-GroupFits b lines chars cur [] l c k = (k, tt)
group_hunks-GroupFits b lines chars cur (h ∷ hs) l c k =
    elim (Bool-cases (is_full b lines chars cur h)) [
      | inl e ↦ subst (All (GroupFits b)) (sym (group_hunks-full b lines chars cur h hs e)) (
        k,
        group_hunks-GroupFits b (changed_lines h.lines) (changed_chars h.lines) (h ∷ []) hs
            (omega arith) (omega arith) (inr (omega arith)),
      )
      | inr e ↦ subst (All (GroupFits b)) (sym (group_hunks-same b lines chars cur h hs e)) (
          group_hunks-GroupFits b (lines + changed_lines h.lines) (chars + changed_chars h.lines)
            (cur ++ h ∷ []) hs (omega (arith, l, total_lines-append cur (h ∷ [])))
            (omega (arith, c, total_chars-append cur (h ∷ [])))
            (GroupFits-add b cur h (
              subst (λ n. is_full b n (total_chars cur) cur h ≡ false) l
                (subst (λ n. is_full b lines n cur h ≡ false) c e))))
    ]

hunks_of-pieces :
    (f : FileDiff) (gs : List (List Hunk)) → hunks_of (map (λ g. record f { hunks = g }) gs) ≡ gs
hunks_of-pieces f [] = refl
hunks_of-pieces f (g ∷ gs) = ap (λ r. g ∷ r) (hunks_of-pieces f gs)

-- The pieces' hunks, one after the other, are the given ones, and each piece fits.
abbrev Pieces : ℕ → List Hunk → List (List Hunk) → Type 0
Pieces b hs gs = (join_hunks gs ≡ hs) × All (GroupFits b) gs

split_by_hunk-whole :
    (f : FileDiff) (b : ℕ)
    → (ltb (length f.hunks) 2 || leb (est_tokens f) b) ≡ true
    → (split_by_hunk f b ≡ f ∷ []) × GroupFits b f.hunks
unfolding split_by_hunk est_tokens
split_by_hunk-whole f b e = elim (Bool-cases (ltb (length f.hunks) 2)) [
  | inl l ↦ (ground arith, inr (omega (arith, ltb→lt _ _ l)))
  | inr l ↦ (ground arith, inl (leb→le (est_tokens f) b (ground arith)))
]

split_by_hunk-split :
    (f : FileDiff) (b : ℕ)
    → (ltb (length f.hunks) 2 || leb (est_tokens f) b) ≡ false
    → split_by_hunk f b ≡ map (λ g. record f { hunks = g }) (group_hunks b 0 0 [] f.hunks)
unfolding split_by_hunk
split_by_hunk-split f b e = ground arith

-- The pieces' hunks, one after the other, are the file's, and each piece's estimate fits the budget
-- or the piece has at most one hunk.
pub split_by_hunk-pieces :
    (f : FileDiff) (b : ℕ)
    → (join_hunks (hunks_of (split_by_hunk f b)) ≡ f.hunks)
      × All (GroupFits b) (hunks_of (split_by_hunk f b))
unfolding join_hunks total_lines total_chars
split_by_hunk-pieces f b = elim (Bool-cases (ltb (length f.hunks) 2 || leb (est_tokens f) b)) [
  | inl e ↦
      let w = split_by_hunk-whole f b e in
      subst (λ fs. Pieces b f.hunks (hunks_of fs)) (sym w.0) (append_nil f.hunks, (w.1, tt))
  | inr e ↦
      subst (λ fs. Pieces b f.hunks (hunks_of fs)) (sym (split_by_hunk-split f b e))
        (subst (Pieces b f.hunks) (sym (hunks_of-pieces f (group_hunks b 0 0 [] f.hunks))) (
          group_hunks-join b 0 0 [] f.hunks,
          group_hunks-GroupFits b 0 0 [] f.hunks refl refl (inr (omega arith)),
        ))
]
