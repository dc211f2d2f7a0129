-- ===== src/Gate/Checks/Closing.antt =====
-- What src/prxref/gate/checks.py writes to close a check.
use prxref.Base.{
  ℕ, zero, suc, ◌-◌, ◌≤◌, ◌≡◌, refl, sym, ap, ◌∙◌, subst, ◌↔◌, arith, false, some, List, [], ◌∷◌,
  ◌++◌, length, All,
}
use prxref.Gate.Checks.{
  approved, Review, Conclusion, success, conclude, conclusion_for, annotation_batch, take, drop,
  slices, batches, Patch, annotates, completes, patches, close_check,
}

-- Only a clean approval succeeds: a known verdict `Approved`, no chunk failed, no file left out and
-- no degraded review.
pub conclusion_for-success :
    (r : Review)
    → ((conclusion_for (some r)).0 ≡ success) ↔ (
        (r.verdict ≡ approved)
        × (r.chunks_failed ≡ 0)
        × (r.overflow_files ≡ 0)
        × (r.degraded ≡ false))
unfolding conclusion_for conclude
conclusion_for-success r = (λ e. ground arith, λ e. ground arith)

module _ {A : Type 0} where
  take-drop : (n : ℕ) (xs : List A) → take n xs ++ drop n xs ≡ xs
  unfolding take drop
  take-drop zero xs = refl
  take-drop (suc n) [] = refl
  take-drop (suc n) (x ∷ xs) = ap (λ r. x ∷ r) (take-drop n xs)

  length-take : (n : ℕ) (xs : List A) → length (take n xs) ≤ n
  unfolding take
  length-take zero xs = omega arith
  length-take (suc n) [] = omega arith
  length-take (suc n) (x ∷ xs) = omega (arith, length-take n xs)

  length-drop : (n : ℕ) (xs : List A) → length (drop n xs) ≤ length xs - n
  unfolding drop
  length-drop zero xs = omega arith
  length-drop (suc n) [] = omega arith
  length-drop (suc n) (x ∷ xs) = omega (arith, length-drop n xs)

  unfoldable pub join : List (List A) → List A
  join [] = []
  join (b ∷ bs) = b ++ join bs

  slices-join :
      (fuel : ℕ) (xs : List A)
      → length xs ≤ fuel
      → (join (slices fuel xs) ≡ xs) × All (λ b. length b ≤ annotation_batch) (slices fuel xs)
  unfolding slices join
  slices-join fuel [] h = (refl, tt)
  slices-join zero (x ∷ xs) h = let absurd : ⊥ = omega (arith, h) in elim absurd [ ]
  slices-join (suc fuel) (x ∷ xs) h =
      let rest = drop annotation_batch (x ∷ xs) in
      let k = slices-join fuel rest (omega (arith, h, length-drop annotation_batch (x ∷ xs))) in
      (
        ap (λ r. take annotation_batch (x ∷ xs) ++ r) k.0 ∙ take-drop annotation_batch (x ∷ xs),
        (length-take annotation_batch (x ∷ xs), k.1),
      )

  batches-join :
      (xs : List A) → (join (batches xs) ≡ xs) × All (λ b. length b ≤ annotation_batch) (batches xs)
  unfolding batches join
  batches-join [] = (refl, (omega arith, tt))
  batches-join (x ∷ xs) = slices-join (length (x ∷ xs)) (x ∷ xs) (omega arith)

  abbrev pub annotations_of : Patch A → List A
  annotations_of (annotates b) = b
  annotations_of (completes c b) = b

  unfoldable pub written : List (Patch A) → List A
  written [] = []
  written (p ∷ ps) = annotations_of p ++ written ps

  -- The last PATCH completes the check with the conclusion, and no other does.
  abbrev pub CompletesLast : Conclusion → List (Patch A) → Type 0
  CompletesLast c [] = ⊥
  CompletesLast c (p ∷ []) = (b : List A) × (p ≡ completes c b)
  CompletesLast c (p ∷ q ∷ ps) = ((b : List A) × (p ≡ annotates b)) × CompletesLast c (q ∷ ps)

  abbrev pub IsSmall : Patch A → Type 0
  IsSmall p = length (annotations_of p) ≤ annotation_batch

  patches_lem :
      (c : Conclusion) (b : List A) (bs : List (List A))
      → All (λ x. length x ≤ annotation_batch) (b ∷ bs)
      → (written (patches c (b ∷ bs)) ≡ join (b ∷ bs))
        × All IsSmall (patches c (b ∷ bs))
        × CompletesLast c (patches c (b ∷ bs))
  unfolding patches written join
  patches_lem c b [] h = (refl, (h.0, tt), (b, refl))
  patches_lem c b (d ∷ []) h =
      let k = patches_lem c d [] h.1 in (ap (λ r. b ++ r) k.0, (h.0, k.1), ((b, refl), k.2))
  patches_lem c b (d ∷ f ∷ bs) h =
      let k = patches_lem c d (f ∷ bs) h.1 in (ap (λ r. b ++ r) k.0, (h.0, k.1), ((b, refl), k.2))

  batches-cons : (xs : List A) → (b : List A) × (bs : List (List A)) × (batches xs ≡ b ∷ bs)
  unfolding batches slices
  batches-cons [] = ([], [], refl)
  batches-cons (x ∷ xs) = (_, _, refl)

  -- The writes that close a check hold all annotations in order, at most 50 in each, and the last of
  -- them, and no other, completes the check with the conclusion.
  pub close_check_lem :
      (c : Conclusion) (xs : List A)
      → (written (close_check c xs) ≡ xs)
        × All IsSmall (close_check c xs)
        × CompletesLast c (close_check c xs)
  unfolding close_check
  close_check_lem c xs =
      let (b, bs, e) = batches-cons xs in
      let j = batches-join xs in
      let k = patches_lem c b bs (subst (All (λ x. length x ≤ annotation_batch)) e j.1) in
      subst
        (λ ys.
          (written (patches c ys) ≡ xs)
          × All IsSmall (patches c ys)
          × CompletesLast c (patches c ys))
        (sym e) (k.0 ∙ ap join (sym e) ∙ j.0, k.1, k.2)
