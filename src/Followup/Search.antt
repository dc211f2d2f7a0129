-- ===== src/Followup/Search.antt =====
-- What the search of `merge_followup` of src/prxref/followup_merge.py for a re-run finding answers.
use prxref.Base.{
  nth, ℕ, zero, suc, ◌+◌, String, Bool, true, false, not, ◌||◌, ◌≡◌, ◌≢◌, refl, sym, ap, subst,
  Option, none, some, List, [], ◌∷◌, ◌⊎◌, inl, inr, any, arith, ltb, ◌==◌, Bool-cases, some_inj,
}
use prxref.Followup.{Finding, set_nth, confidence_of, confirms, best_rerun}

nth-set_nth :
    (i k : ℕ) (x : Finding) (xs : List Finding)
    → (nth i (set_nth k x xs) ≡ nth i xs) ⊎ ((i ≡ k) × (nth i (set_nth k x xs) ≡ some x))
unfolding nth set_nth
nth-set_nth i k x [] = inl refl
nth-set_nth zero zero x (y ∷ ys) = inr (refl, refl)
nth-set_nth zero (suc k) x (y ∷ ys) = inl refl
nth-set_nth (suc i) zero x (y ∷ ys) = inl refl
nth-set_nth (suc i) (suc k) x (y ∷ ys) = elim (nth-set_nth i k x ys) [
  | inl e ↦ inl e
  | inr (e, f) ↦ inr (ap suc e, f)
]

pub set_nth-here :
    (k : ℕ) (x y : Finding) (xs : List Finding)
    → nth k xs ≡ some y
    → nth k (set_nth k x xs) ≡ some x
unfolding nth set_nth
set_nth-here k x y [] e = let absurd : ⊥ = ground arith in elim absurd [ ]
set_nth-here zero x y (z ∷ xs) e = refl
set_nth-here (suc k) x y (z ∷ xs) e = set_nth-here k x y xs e

pub set_nth-other :
    (i k : ℕ) (x : Finding) (xs : List Finding) → k ≢ i → nth i (set_nth k x xs) ≡ nth i xs
set_nth-other i k x xs differs = elim (nth-set_nth i k x xs) [
  | inl e ↦ e
  | inr (e, f) ↦ absurd (differs (sym e))
]

-- No place twice.
abbrev pub Distinct : List ℕ → Type 0
Distinct [] = Unit
Distinct (j ∷ js) = (any (λ n. j == n) js ≡ false) × Distinct js

module _ (shares_code same_title : Finding → Finding → Bool)
    (names_in : Finding → List String → Bool) (floor window : ℕ) (rerun : List Finding) where
  abbrev Found :
      Finding
      → List String
      → List ℕ
      → Option (ℕ × Finding)
      → ℕ
      → List Finding
      → ℕ
      → Finding
      → Type 0
  Found question names used found i rs j r =
      (found ≡ some (j, r))
      ⊎ ((k : ℕ) × (j ≡ i + k)
          × (nth k rs ≡ some r)
          × (any (λ n. j == n) used ≡ false)
          × (confirms shares_code same_title names_in floor window question r names ≡ true))

  Found-next :
      (question : Finding) (names : List String) (used : List ℕ) (found : Option (ℕ × Finding))
      (i : ℕ) (x : Finding) (rs : List Finding) (j : ℕ) (r : Finding)
      → Found question names used found (i + 1) rs j r
      → Found question names used found i (x ∷ rs) j r
  unfolding nth
  Found-next question names used found i x rs j r (inl e) = inl e
  Found-next question names used found i x rs j r (inr (k, e, n, u, c)) =
      inr (suc k, omega (arith, e), n, u, c)

  Found-here :
      (question : Finding) (names : List String) (used : List ℕ) (found : Option (ℕ × Finding))
      (i : ℕ) (x : Finding) (rs : List Finding) (j : ℕ) (r : Finding)
      → any (λ n. i == n) used ≡ false
      → confirms shares_code same_title names_in floor window question x names ≡ true
      → Found question names used (some (i, x)) (i + 1) rs j r
      → Found question names used found i (x ∷ rs) j r
  unfolding nth
  Found-here question names used found i x rs j r u c (inl e) =
      let p = some_inj e in
      inr (
        0,
        omega (arith, sym (ap (λ q. q.0) p)),
        ap (λ q. some q.1) p,
        subst (λ n. any (λ m. n == m) used ≡ false) (ap (λ q. q.0) p) u,
        subst (λ f. confirms shares_code same_title names_in floor window question f names ≡ true)
            (ap (λ q. q.1) p) c,
      )
  Found-here question names used found i x rs j r u c (inr (k, e, n, v, d)) =
      inr (suc k, omega (arith, e), n, v, d)

  -- What the search answers stands among the findings ahead, is unused and confirms the question.
  pub best_rerun-Found :
      (question : Finding) (names : List String) (used : List ℕ) (found : Option (ℕ × Finding))
      (i : ℕ) (rs : List Finding) (j : ℕ) (r : Finding)
      → best_rerun shares_code same_title names_in floor window question names used found i rs
        ≡ some (j, r)
      → Found question names used found i rs j r
  unfolding best_rerun
  best_rerun-Found question names used found i [] j r e = inl e
  best_rerun-Found question names used found i (x ∷ rs) j r e =
      let c = confirms shares_code same_title names_in floor window question x names in
      let better : Bool = elim found [
        | none ↦ true
        | some (k, b) ↦ ltb (confidence_of b) (confidence_of x)
      ] in
      elim (Bool-cases (any (λ n. i == n) used || not c)) [
        | inl t ↦
            Found-next question names used found i x rs j r
              (best_rerun-Found question names used found (i + 1) rs j r (ground arith))
        | inr t ↦ elim (Bool-cases better) [
          | inr b ↦
              Found-next question names used found i x rs j r
                (best_rerun-Found question names used found (i + 1) rs j r (ground arith))
          | inl b ↦
              Found-here question names used found i x rs j r (ground arith) (ground arith)
                (best_rerun-Found question names used (some (i, x)) (i + 1) rs j r (ground arith))
        ]
      ]

  -- A search that answers none had found none before.
  best_rerun-empty :
      (question : Finding) (names : List String) (used : List ℕ) (found : Option (ℕ × Finding))
      (i : ℕ) (rs : List Finding)
      → best_rerun shares_code same_title names_in floor window question names used found i rs
        ≡ none
      → found ≡ none
  unfolding best_rerun
  best_rerun-empty question names used found i [] e = e
  best_rerun-empty question names used found i (x ∷ rs) e =
      let c = confirms shares_code same_title names_in floor window question x names in
      let better : Bool = elim found [
        | none ↦ true
        | some (k, b) ↦ ltb (confidence_of b) (confidence_of x)
      ] in
      let skipped = best_rerun-empty question names used found (i + 1) rs in
      let taken = best_rerun-empty question names used (some (i, x)) (i + 1) rs in
      elim (Bool-cases (any (λ n. i == n) used || not c)) [
        | inl t ↦ skipped (ground arith)
        | inr t ↦ elim (Bool-cases better) [
          | inr b ↦ skipped (ground arith)
          | inl b ↦
              let filled : ◌≡◌ {A = Option (ℕ × Finding)} (some (i, x)) none =
                taken (ground arith) in
              let absurd : ⊥ = ground arith in elim absurd [ ]
        ]
      ]

  -- The search from the next finding on answered none too.
  best_rerun-next :
      (question : Finding) (names : List String) (used : List ℕ) (found : Option (ℕ × Finding))
      (i : ℕ) (x : Finding) (rs : List Finding)
      → best_rerun shares_code same_title names_in floor window question names used found i (x ∷ rs)
        ≡ none
      → best_rerun shares_code same_title names_in floor window question names used found (i + 1) rs
        ≡ none
  unfolding best_rerun
  best_rerun-next question names used found i x rs e =
      let c = confirms shares_code same_title names_in floor window question x names in
      let better : Bool = elim found [
        | none ↦ true
        | some (k, b) ↦ ltb (confidence_of b) (confidence_of x)
      ] in
      elim (Bool-cases (any (λ n. i == n) used || not c)) [
        | inl t ↦ ground arith
        | inr t ↦ elim (Bool-cases better) [
          | inr b ↦ ground arith
          | inl b ↦
              let filled : ◌≡◌ {A = Option (ℕ × Finding)} (some (i, x)) none =
                best_rerun-empty question names used (some (i, x)) (i + 1) rs (ground arith) in
              let absurd : ⊥ = ground arith in elim absurd [ ]
        ]
      ]

  -- A finding that confirms the question and is not used ends the search with an answer.
  best_rerun-here :
      (question : Finding) (names : List String) (used : List ℕ) (i : ℕ) (x : Finding)
      (rs : List Finding)
      → best_rerun shares_code same_title names_in floor window question names used none i (x ∷ rs)
        ≡ none
      → confirms shares_code same_title names_in floor window question x names ≡ true
      → any (λ n. i == n) used ≡ true
  unfolding best_rerun
  best_rerun-here question names used i x rs e c = elim (Bool-cases (any (λ n. i == n) used)) [
    | inl u ↦ u
    | inr u ↦
        let filled : ◌≡◌ {A = Option (ℕ × Finding)} (some (i, x)) none =
          best_rerun-empty question names used (some (i, x)) (i + 1) rs (ground arith) in
        let absurd : ⊥ = ground arith in elim absurd [ ]
  ]

  -- Where the search answers none, each finding ahead that confirms the question is used.
  pub best_rerun-none :
      (question : Finding) (names : List String) (used : List ℕ) (i : ℕ) (rs : List Finding) (k : ℕ)
      (r : Finding)
      → best_rerun shares_code same_title names_in floor window question names used none i rs ≡ none
      → nth k rs ≡ some r
      → confirms shares_code same_title names_in floor window question r names ≡ true
      → any (λ n. (i + k) == n) used ≡ true
  unfolding best_rerun nth
  best_rerun-none question names used i [] k r e at c =
      let absurd : ⊥ = ground arith in elim absurd [ ]
  best_rerun-none question names used i (x ∷ rs) zero r e at c =
      let place : i ≡ i + 0 = omega arith in
      subst (λ j. any (λ n. j == n) used ≡ true) place
        (best_rerun-here question names used i x rs e (
          subst (λ f. confirms shares_code same_title names_in floor window question f names ≡ true)
            (sym (some_inj at)) c))
  best_rerun-none question names used i (x ∷ rs) (suc k) r e at c =
      let place : (i + 1) + k ≡ i + suc k = omega arith in
      subst (λ j. any (λ n. j == n) used ≡ true) place
        (best_rerun-none question names used (i + 1) rs k r
          (best_rerun-next question names used none i x rs e) at c)
