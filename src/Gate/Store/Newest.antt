-- ===== src/Gate/Store/Newest.antt =====
-- What `enqueue` of src/prxref/gate/store.py means for the queries that follow it.
use prxref.Base.{
  ℕ, suc, ◌≤◌, ◌<◌, String, ◌≡◌, refl, sym, ap, subst, inl, inr, Bool, true, ◌&&◌, some, List, [],
  ◌∷◌, arith, Bool-cases, Option-cases, All, any, keep, best, str_eq, str_eq_refl,
}
use prxref.Gate.Exec.{Result}
use prxref.Gate.Store.Rows.{Generation, Store, is_queued, same_pr, higher_id}
use prxref.Gate.Store.Queries.{
  latest_generation, latest_generation_for_head, has_live_generation, is_covering,
}
use prxref.Gate.Store.Generations.{enqueue, supersede}
use prxref.Gate.Store.Table.{Ordered, same_pr_refl, max_gen-update_where, update_where-Ordered}
use prxref.Gate.Store.History.{IsValid}
use prxref.Gate.Store.Enqueue.{new_row, enqueued, superseded_rows, enqueue_lem, supersede-Moves}
use prxref.Gate.Store.Queue.{latest-head, best-All}

abbrev Below : ℕ → List Generation → Type 0
Below n = All λ g. g.id < n

Ordered-Below : (m n : ℕ) (gs : List Generation) → Ordered m gs → m ≤ n → Below n gs
Ordered-Below m n [] o h = tt
Ordered-Below m n (g ∷ gs) o h =
    (omega (arith, o.0), Ordered-Below g.id n gs o.2 (omega (arith, o.0)))

keep-Below :
    (n : ℕ) (p : Generation → Bool) (gs : List Generation) → Below n gs → Below n (keep p gs)
unfolding keep
keep-Below n p [] b = tt
keep-Below n p (g ∷ gs) b = elim (Bool-cases (p g)) [
  | inl e ↦ rw e (b.0, keep-Below n p gs b.1)
  | inr e ↦ rw e (keep-Below n p gs b.1)
]

-- A kept row with the highest id wins.
highest-head :
    (p : Generation → Bool) (g : Generation) (gs : List Generation)
    → p g ≡ true
    → Below g.id gs
    → best higher_id (keep p (g ∷ gs)) ≡ some g
unfolding best keep
highest-head p g gs k b = elim (Option-cases (best higher_id (keep p gs))) [
  | inl e ↦ rw (k, e, best) refl
  | inr (z, e) ↦
      ground (arith, best-All (λ x. x.id < g.id) higher_id (keep p gs) z (keep-Below g.id p gs b) e)
]

module _ (repo : String) (pr : ℕ) (head_sha base_sha base_ref reason : String) (now : ℕ) (s : Store)
    (v : IsValid s) where
  abbrev new : Generation
  new = new_row repo pr head_sha base_sha base_ref reason now s

  abbrev old_rows : List Generation
  old_rows = superseded_rows repo pr now s.generations

  abbrev after : Store
  after = (enqueue repo pr head_sha base_sha base_ref reason now s).1

  after_lem : enqueued repo pr head_sha base_sha base_ref reason now s ≡ after
  after_lem = sym (
      ap (λ (r : Result Generation × Store). r.1)
        (enqueue_lem repo pr head_sha base_sha base_ref reason now s v))

  old_rows-Below : Below (suc s.seq) old_rows
  old_rows-Below =
      Ordered-Below (suc s.seq) (suc s.seq) old_rows
        (update_where-Ordered (λ g. same_pr repo pr g && is_queued g.state) (supersede now)
          (supersede-Moves repo pr now) (suc s.seq) s.generations v.ordered)
        (omega arith)

  -- The row that `enqueue` made is its PR's latest generation.
  pub enqueue_latest : latest_generation repo pr after ≡ some new
  unfolding latest_generation
  enqueue_latest =
      subst (λ t. latest_generation repo pr t ≡ some new) after_lem
        (latest-head repo pr new old_rows (same_pr_refl new) (
          rw
            (max_gen-update_where (λ g. same_pr repo pr g && is_queued g.state) (supersede now)
              (supersede-Moves repo pr now))
            (omega arith)))

  -- And its head's.
  pub enqueue_latest_for_head : latest_generation_for_head repo head_sha after ≡ some new
  unfolding latest_generation_for_head
  enqueue_latest_for_head =
      subst (λ t. latest_generation_for_head repo head_sha t ≡ some new) after_lem
        (highest-head (λ g. str_eq g.repo repo && str_eq g.head_sha head_sha) new old_rows
          (rw (str_eq_refl repo, str_eq_refl head_sha) refl) old_rows-Below)

  -- And live for its head and base.
  pub enqueue_live : has_live_generation repo pr head_sha base_sha after ≡ true
  unfolding has_live_generation any is_covering
  enqueue_live =
      subst (λ t. has_live_generation repo pr head_sha base_sha t ≡ true) after_lem
        (rw (same_pr_refl new, str_eq_refl head_sha, str_eq_refl base_sha) refl)
