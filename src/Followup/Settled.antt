-- ===== src/Followup/Settled.antt =====
-- What `merge_followup` of src/prxref/followup_merge.py makes of the first review's findings.
use prxref.Base.{
  nth, ℕ, ◌+◌, String, Bool, true, false, is_empty, ◌≡◌, ◌≢◌, refl, sym, ap, ◌∙◌, subst, Option,
  none, some, List, [], ◌∷◌, ◌⊎◌, inl, inr, length, any, All, arith, ◌==◌, ==-refl, Bool-cases,
  Option-cases,
}
use prxref.Followup.{
  Finding, set_nth, Merge, mark, confirms, best_rerun, settle_question, is_open, merge_question,
  merge_questions, merge_followup,
}
use prxref.Followup.Search.{
  set_nth-here, set_nth-other, Distinct, best_rerun-Found, best_rerun-none,
}

-- The place is none of the questions'.
abbrev pub Absent : ℕ → List (ℕ × List String) → Type 0
Absent i = All (λ q. q.0 ≢ i)

-- No place is asked about twice.
abbrev pub Once : List (ℕ × List String) → Type 0
Once [] = Unit
Once ((k, names) ∷ qs) = Absent k qs × Once qs

-- The places that are used stay used.
abbrev Grows : List ℕ → List ℕ → Type 0
Grows u v = (j : ℕ) → any (λ n. j == n) u ≡ true → any (λ n. j == n) v ≡ true

Grows-cons : (k : ℕ) (u : List ℕ) → Grows u (k ∷ u)
unfolding any
Grows-cons k u j h = ground arith

any_self : (j : ℕ) (u : List ℕ) → any (λ n. j == n) (j ∷ u) ≡ true
unfolding any
any_self j u = ground (arith, ==-refl j)

module _ (shares_code same_title : Finding → Finding → Bool)
    (names_in : Finding → List String → Bool) (floor window : ℕ) (rerun first : List Finding) where
  -- The re-run finding at a place confirms the question under its names.
  abbrev pub Confirms : Finding → List String → ℕ → Finding → Type 0
  Confirms question names j r =
      (nth j rerun ≡ some r)
      × (confirms shares_code same_title names_in floor window question r names ≡ true)

  -- What becomes of an open question, with the places that are used in the end: a re-run finding
  -- that confirms it and is used takes its place, or it is marked, and each re-run finding that
  -- confirms it is used.
  abbrev pub Answered : Finding → List String → List ℕ → Option Finding → Type 0
  Answered question names used after =
      ((j : ℕ) × (r : Finding) × (after ≡ some r)
        × Confirms question names j r
        × (any (λ n. j == n) used ≡ true))
      ⊎ ((after ≡ some (mark question))
          × ((j : ℕ) (r : Finding) → Confirms question names j r → any (λ n. j == n) used ≡ true))

  -- A question without names, of no finding, or of one that is not open.
  abbrev pub Skipped : ℕ → List String → Type 0
  Skipped k names =
      (is_empty names ≡ true)
      ⊎ (nth k first ≡ none)
      ⊎ ((question : Finding) × (nth k first ≡ some question) × (is_open floor question ≡ false))

  abbrev pub Settles : ℕ → List String → List ℕ → Option Finding → Type 0
  Settles k names used after =
      (Skipped k names × (after ≡ nth k first))
      ⊎ ((question : Finding) × (nth k first ≡ some question)
          × (is_open floor question ≡ true)
          × (is_empty names ≡ false)
          × Answered question names used after)

  Settles-Grows :
      (k : ℕ) (names : List String) (u v : List ℕ) (after : Option Finding)
      → Grows u v
      → Settles k names u after
      → Settles k names v after
  Settles-Grows k names u v after g (inl s) = inl s
  Settles-Grows k names u v after g (inr (q, e, o, n, inl (j, r, a, c, h))) =
      inr (q, e, o, n, inl (j, r, a, c, g j h))
  Settles-Grows k names u v after g (inr (q, e, o, n, inr (a, h))) =
      inr (q, e, o, n, inr (a, λ j r c. g j (h j r c)))

  -- No re-run finding is used twice, and as many questions are confirmed as findings are used.
  abbrev pub Counts : Merge → Type 0
  Counts m = Distinct m.used × (m.confirmed ≡ length m.used)

  -- One round settles its question, and leaves the other places.
  abbrev Round : ℕ → List String → Merge → Merge → Type 0
  Round k names m n =
      Settles k names n.used (nth k n.out)
      × ((i : ℕ) → k ≢ i → nth i n.out ≡ nth i m.out)
      × Grows m.used n.used
      × Counts n

  settle_question-Round :
      (k : ℕ) (question : Finding) (names : List String) (m : Merge)
      → is_empty names ≡ false
      → nth k first ≡ some question
      → nth k m.out ≡ nth k first
      → is_open floor question ≡ true
      → Counts m
      → Round k names m
          (settle_question shares_code same_title names_in floor window rerun k question names m)
  unfolding settle_question
  settle_question-Round k question names m named e same o (once, n) =
      let best =
        best_rerun shares_code same_title names_in floor window question names m.used none 0
          rerun in
      elim (Option-cases best) [
        | inl b ↦ subst (Round k names m) (sym (settled_none b)) (
          inr (
            question,
            e,
            o,
            named,
            inr (
              set_nth-here k (mark question) question m.out (same ∙ e),
              λ j r c. spent j (
                  best_rerun-none shares_code same_title names_in floor window rerun question names
                    m.used 0 rerun j r b c.0 c.1),
            ),
          ),
          λ i d. set_nth-other i k (mark question) m.out d,
          λ j h. h,
          (once, n),
        )
        | inr ((j, r), b) ↦
            elim (best_rerun-Found shares_code same_title names_in floor window rerun question names
              m.used none 0 rerun j r b) [
                | inl no_such ↦ let absurd : ⊥ = ground arith in elim absurd [ ]
                | inr (i, ji, at, unused, c) ↦
                    let place : nth j rerun ≡ some r =
                      ap (λ x. nth x rerun) (omega (arith, ji)) ∙ at in
                    subst (Round k names m) (sym (settled_some j r b)) (
                      inr (
                        question,
                        e,
                        o,
                        named,
                        inl (
                          j,
                          r,
                          set_nth-here k r question m.out (same ∙ e),
                          (place, c),
                          any_self j m.used,
                        ),
                      ),
                      λ i d. set_nth-other i k r m.out d,
                      Grows-cons j m.used,
                      ((unused, once), omega (arith, n)),
                    )
              ]
      ]
    where
      spent : (j : ℕ) → any (λ n. (0 + j) == n) m.used ≡ true → any (λ n. j == n) m.used ≡ true
      spent j h =
          let place : 0 + j ≡ j = omega arith in
          subst (λ i. any (λ n. i == n) m.used ≡ true) place h

      settled_none :
          best_rerun shares_code same_title names_in floor window question names m.used none 0 rerun
            ≡ none
          → settle_question shares_code same_title names_in floor window rerun k question names m
            ≡ record m { out = set_nth k (mark question) m.out; unconfirmed = m.unconfirmed + 1 }
      settled_none b = rw (b, settle_question) refl

      settled_some :
          (j : ℕ) (r : Finding)
          → best_rerun shares_code same_title names_in floor window question names m.used none 0
              rerun
            ≡ some (j, r)
          → settle_question shares_code same_title names_in floor window rerun k question names m
            ≡ record m { out = set_nth k r m.out; used = j ∷ m.used; confirmed = m.confirmed + 1 }
      settled_some j r b = rw (b, settle_question) refl

  question-Round :
      (k : ℕ) (names : List String) (m : Merge)
      → nth k m.out ≡ nth k first
      → Counts m
      → Round k names m
          (merge_question shares_code same_title names_in floor window first rerun (k, names) m)
  unfolding merge_question
  question-Round k [] m same c = (inl (inl refl, same), λ i d. refl, λ j h. h, c)
  question-Round k (name ∷ names) m same c = elim (Option-cases (nth k first)) [
    | inl e ↦
        subst (Round k (name ∷ names) m) (sym (passed_none e))
          (inl (inr (inl e), same), λ i d. refl, λ j h. h, c)
    | inr (question, e) ↦ elim (Bool-cases (is_open floor question)) [
      | inr o ↦
          subst (Round k (name ∷ names) m) (sym (passed_shut question e o))
            (inl (inr (inr (question, e, o)), same), λ i d. refl, λ j h. h, c)
      | inl o ↦
          subst (Round k (name ∷ names) m) (sym (settled question e o))
            (settle_question-Round k question (name ∷ names) m refl e same o c)
    ]
  ]
    where
      round : Merge
      round =
          merge_question shares_code same_title names_in floor window first rerun (k, name ∷ names)
            m

      passed_none : nth k first ≡ none → round ≡ m
      passed_none e = rw (e, merge_question) refl

      passed_shut : (q : Finding) → nth k first ≡ some q → is_open floor q ≡ false → round ≡ m
      passed_shut q e o = rw (e, merge_question) (rw (o, merge_question) refl)

      settled :
          (q : Finding)
          → nth k first ≡ some q
          → is_open floor q ≡ true
          → round
            ≡ settle_question shares_code same_title names_in floor window rerun k q
                (name ∷ names)
                m
      settled q e o = rw (e, merge_question) (rw (o, merge_question) refl)

  abbrev Settled : List (ℕ × List String) → Merge → Merge → Type 0
  Settled qs m n =
      All (λ q. Settles q.0 q.1 n.used (nth q.0 n.out)) qs
      × ((i : ℕ) → Absent i qs → nth i n.out ≡ nth i m.out)
      × Grows m.used n.used
      × Counts n

  -- The places that are asked about later are as in the first review.
  abbrev Awaits : List (ℕ × List String) → Merge → Type 0
  Awaits qs m = All (λ q. nth q.0 m.out ≡ nth q.0 first) qs

  Awaits-next :
      (k : ℕ) (qs : List (ℕ × List String)) (m n : Merge)
      → Absent k qs
      → ((i : ℕ) → k ≢ i → nth i n.out ≡ nth i m.out)
      → Awaits qs m
      → Awaits qs n
  Awaits-next k [] m n d same a = tt
  Awaits-next k (q ∷ qs) m n (d, ds) same (e, a) =
      (same q.0 (λ f. d (sym f)) ∙ e, Awaits-next k qs m n ds same a)

  questions-Settled :
      (qs : List (ℕ × List String)) (m : Merge)
      → Once qs
      → Awaits qs m
      → Counts m
      → Settled qs m (merge_questions shares_code same_title names_in floor window first rerun qs m)
  unfolding merge_questions
  questions-Settled [] m once a c = (tt, λ i d. refl, λ j h. h, c)
  questions-Settled ((k, names) ∷ qs) m (absent, once) (e, a) c =
      let n =
        merge_question shares_code same_title names_in floor window first rerun (k, names) m in
      let (s, same, grows, counts) = question-Round k names m e c in
      let (ss, others, more, in_the_end) =
        questions-Settled qs n once (Awaits-next k qs m n absent same a) counts in
      let last = merge_questions shares_code same_title names_in floor window first rerun qs n in
      (
        (
          subst (Settles k names last.used) (sym (others k absent))
              (Settles-Grows k names n.used last.used (nth k n.out) more s),
          ss,
        ),
        λ i d. others i d.1 ∙ same i (λ f. d.0 f),
        λ j h. more j (grows j h),
        in_the_end,
      )

  -- The outcome of the merge for the questions.
  abbrev pub MergeFits : List (ℕ × List String) → Merge → Type 0
  MergeFits qs m =
      All (λ q. Settles q.0 q.1 m.used (nth q.0 m.out)) qs
      × ((i : ℕ) → Absent i qs → nth i m.out ≡ nth i first)
      × Counts m

  -- Where no finding is asked about twice: a finding of the first review stays as it is if no
  -- question asks about it, or the question has no names, or it is not an open question below the
  -- floor. An open one that is asked about is replaced by a re-run finding that confirms it under
  -- the question's names, or is marked, and then every re-run finding that confirms it under
  -- these names is used. No re-run finding is used twice, and as many questions are confirmed as
  -- findings are used.
  pub merge_followup-MergeFits :
      (qs : List (ℕ × List String))
      → Once qs
      → MergeFits qs (merge_followup shares_code same_title names_in floor window first rerun qs)
  unfolding merge_followup
  merge_followup-MergeFits qs once =
      let (s, same, grows, counts) = questions-Settled qs _ once (at_first qs) (tt, refl) in
      (s, same, counts)
    where
      at_first :
          (rs : List (ℕ × List String))
          → Awaits rs (record { out = first; used = []; confirmed = 0; unconfirmed = 0 })
      at_first [] = tt
      at_first (r ∷ rs) = (refl, at_first rs)
