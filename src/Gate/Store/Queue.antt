-- ===== src/Gate/Store/Queue.antt =====
-- What the queries of src/prxref/gate/store.py answer: which generation is worked on next, and which
-- is a PR's newest.
use prxref.Base.{
  ℕ, ◌≤◌, ◌<◌, String, ◌≡◌, refl, sym, ◌∙◌, Bool, true, false, ◌&&◌, none, some, List, [], ◌∷◌,
  arith, Bool-cases, All, &&-parts, subst, false≢true, inl, inr, keep, best, Option-cases,
}
use prxref.Gate.Store.Rows.{
  Generation, Store, is_queued, find_id, max_gen, same_pr, lower_id, higher_gen,
}
use prxref.Gate.Store.Queries.{is_newest, next_queued}
use prxref.Gate.Store.Table.{QueuedNewest, same_pr_refl}
use prxref.Gate.Store.History.{IsValid}

-- What `best` answers: a row of the list that no row of it beats.
pub best-none :
    (beats : Generation → Generation → Bool) (gs : List Generation) → best beats gs ≡ none → gs ≡ []
unfolding best
best-none beats [] e = refl
best-none beats (g ∷ gs) e = ground arith

abbrev FromId : ℕ → List Generation → Type 0
FromId n = All λ h. n ≤ h.id

FromId-mono : (m n : ℕ) (gs : List Generation) → m ≤ n → FromId n gs → FromId m gs
FromId-mono m n [] h a = tt
FromId-mono m n (g ∷ gs) h a = (omega arith, FromId-mono m n gs h a.1)

best-lower : (gs : List Generation) (g : Generation) → best lower_id gs ≡ some g → FromId g.id gs
unfolding best
best-lower [] g e = tt
best-lower (x ∷ gs) g e = elim (Option-cases (best lower_id gs)) [
  | inl p ↦ (ground arith, rw (best-none lower_id gs p) tt)
  | inr (y, p) ↦ (
    ground (arith, best-lower gs y p),
    FromId-mono g.id y.id gs (ground arith) (best-lower gs y p),
  )
]

-- A property of all rows is one of the best.
pub best-All :
    (P : Generation → Type 0) (beats : Generation → Generation → Bool) (gs : List Generation)
    (g : Generation)
    → All P gs
    → best beats gs ≡ some g
    → P g
unfolding best
best-All P beats [] g a e = absurd (ground arith)
best-All P beats (x ∷ gs) g a e = elim (Option-cases (best beats gs)) [
  | inl p ↦ subst P (ground arith) a.0
  | inr (y, p) ↦ elim (Bool-cases (beats y x)) [
    | inl b ↦ subst P (ground arith) (best-All P beats gs y a.1 p)
    | inr b ↦ subst P (ground arith) a.0
  ]
]

keep-passes : (p : Generation → Bool) (gs : List Generation) → All (λ g. p g ≡ true) (keep p gs)
unfolding keep
keep-passes p [] = tt
keep-passes p (g ∷ gs) = elim (Bool-cases (p g)) [
  | inl e ↦ rw e (e, keep-passes p gs)
  | inr e ↦ rw e (keep-passes p gs)
]

-- A row that passes the test is kept.
kept-from :
    (n i : ℕ) (p : Generation → Bool) (gs : List Generation) (h : Generation)
    → FromId n (keep p gs)
    → find_id i gs ≡ some h
    → p h ≡ true
    → n ≤ h.id
unfolding keep find_id
kept-from n i p [] h a e k = absurd (ground arith)
kept-from n i p (g ∷ gs) h a e k = ground (arith, kept-from n i p gs h)

keep-nil :
    (i : ℕ) (p : Generation → Bool) (gs : List Generation) (h : Generation)
    → keep p gs ≡ []
    → find_id i gs ≡ some h
    → p h ≡ false
unfolding keep find_id
keep-nil i p [] h n e = absurd (ground arith)
keep-nil i p (g ∷ gs) h n e = ground (arith, keep-nil i p gs h)

-- No row of a PR is above its maximum.
pub gen-le-max :
    (i : ℕ) (gs : List Generation) (g : Generation)
    → find_id i gs ≡ some g
    → g.gen ≤ max_gen g.repo g.pr_number gs
unfolding find_id max_gen
gen-le-max i [] g e = absurd (ground arith)
gen-le-max i (x ∷ gs) g e = ground (arith, gen-le-max i gs g, same_pr_refl g)

-- In a valid database every queued row passes the test of `next_queued`.
queued-next :
    (i : ℕ) (all gs : List Generation) (h : Generation)
    → QueuedNewest all gs
    → find_id i gs ≡ some h
    → h.gen ≤ max_gen h.repo h.pr_number all
    → is_queued h.state ≡ true
    → (is_queued h.state && is_newest all h) ≡ true
unfolding find_id is_newest
queued-next i all [] h q e le k = absurd (ground arith)
queued-next i all (g ∷ gs) h q e le k = ground (arith, queued-next i all gs h)

module _ (s : Store) (v : IsValid s) where
  -- In a valid database `next_queued` answers a queued row whose id is at most that of every queued
  -- row.
  pub next_queued-oldest :
      (g h : Generation) (i : ℕ)
      → next_queued s ≡ some g
      → find_id i s.generations ≡ some h
      → is_queued h.state ≡ true
      → (is_queued g.state ≡ true) × (g.id ≤ h.id)
  unfolding next_queued
  next_queued-oldest g h i e there k =
      let next = λ (x : Generation). is_queued x.state && is_newest s.generations x in
      (
        (&&-parts (is_queued g.state) (is_newest s.generations g) (
            best-All (λ x. next x ≡ true) lower_id (keep next s.generations) g
              (keep-passes next s.generations) e)).0,
        kept-from g.id i next s.generations h (best-lower (keep next s.generations) g e) there (
            queued-next i s.generations s.generations h v.queued_newest there
              (gen-le-max i s.generations h there) k),
      )

  -- In a valid database `next_queued` answers None only if no row is queued.
  pub next_queued-none :
      (h : Generation) (i : ℕ)
      → next_queued s ≡ none
      → find_id i s.generations ≡ some h
      → is_queued h.state ≡ false
  unfolding next_queued
  next_queued-none h i e there =
      let next = λ (x : Generation). is_queued x.state && is_newest s.generations x in
      let z =
        keep-nil i next s.generations h (best-none lower_id (keep next s.generations) e) there in
      elim (Bool-cases (is_queued h.state)) [
        | inl k ↦ absurd (
            false≢true (
              sym z
              ∙ queued-next i s.generations s.generations h v.queued_newest there
                  (gen-le-max i s.generations h there) k))
        | inr k ↦ k
      ]

latest-le-max :
    (repo : String) (pr : ℕ) (gs : List Generation) (y : Generation)
    → best higher_gen (keep (same_pr repo pr) gs) ≡ some y
    → y.gen ≤ max_gen repo pr gs
unfolding best keep max_gen
latest-le-max repo pr [] y e = absurd (ground arith)
latest-le-max repo pr (g ∷ gs) y e = elim (Bool-cases (same_pr repo pr g)) [
  | inl k ↦ elim (Option-cases (best higher_gen (keep (same_pr repo pr) gs))) [
    | inl p ↦ ground arith
    | inr (z, p) ↦ ground (arith, latest-le-max repo pr gs z p)
  ]
  | inr k ↦ ground (arith, latest-le-max repo pr gs y)
]

-- The newest row of a PR wins over the older ones.
pub latest-head :
    (repo : String) (pr : ℕ) (g : Generation) (gs : List Generation)
    → same_pr repo pr g ≡ true
    → max_gen repo pr gs < g.gen
    → best higher_gen (keep (same_pr repo pr) (g ∷ gs)) ≡ some g
unfolding best keep
latest-head repo pr g gs k h = elim (Option-cases (best higher_gen (keep (same_pr repo pr) gs))) [
  | inl p ↦ rw (k, p, best) refl
  | inr (z, p) ↦ ground (arith, latest-le-max repo pr gs z p)
]
