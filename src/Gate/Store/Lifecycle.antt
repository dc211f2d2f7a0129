-- ===== src/Gate/Store/Lifecycle.antt =====
-- `start` and `finish` of src/prxref/gate/store.py on every branch, and what `requeue_expired` and
-- `adopt_orphans` leave.
pub mod Closed
use prxref.Base.{
  ℕ, suc, ◌+◌, ◌≤◌, String, ◌≡◌, refl, Bool, true, false, ◌&&◌, Option, some, List, [], ◌∷◌, arith,
  ◌==◌, if◌then◌else◌, Bool-cases, inl, inr, count_where,
}
use prxref.Gate.Exec.{ok, err, lease_lost, state_error, tx, settle, ◌>>=◌, guard}
use prxref.Gate.Store.Rows.{
  State, in_progress, Generation, Store, is_final, is_queued, is_live, find_id, update_where,
}
use prxref.Gate.Store.Fence.{update, is_fenced, fence}
use prxref.Gate.Store.Generations.{start, finish}
use prxref.Gate.Store.Table.{Ordered}
use prxref.Gate.Store.History.{IsValid, get_found}

abbrev with_id : ℕ → (Generation → Bool) → Generation → Bool
with_id i p g = g.id == i && p g

count_free :
    (n i : ℕ) (p : Generation → Bool) (gs : List Generation)
    → Ordered n gs
    → n ≤ i
    → count_where (with_id i p) gs ≡ 0
unfolding count_where
count_free n i p [] o h = refl
count_free n i p (g ∷ gs) o h = ground (arith, count_free g.id i p gs)

-- At most one row has an id.
count_with_id :
    (n i : ℕ) (p : Generation → Bool) (gs : List Generation) (g : Generation)
    → Ordered n gs
    → find_id i gs ≡ some g
    → count_where (with_id i p) gs ≡ (if p g then 1 else 0)
unfolding count_where find_id
count_with_id n i p [] g o e = absurd (ground arith)
count_with_id n i p (x ∷ gs) g o e =
    ground (arith, count_with_id x.id i p gs g, count_free x.id i p gs)

-- The row under an id after an UPDATE by that id.
find_updated :
    (i : ℕ) (p : Generation → Bool) (set : Generation → Generation) (gs : List Generation)
    (g : Generation)
    → find_id i gs ≡ some g
    → ((x : Generation) → (set x).id ≡ x.id)
    → p g ≡ true
    → find_id i (update_where (with_id i p) set gs) ≡ some (set g)
unfolding find_id update_where
find_updated i p set [] g e k h = absurd (ground arith)
find_updated i p set (x ∷ gs) g e k h = ground (arith, find_updated i p set gs g, k x)

fence_live :
    (token now : ℕ) (s : Store)
    → is_fenced token now s.worker ≡ true
    → fence token now s ≡ (ok tt, s)
unfolding fence ◌>>=◌ guard
fence_live token now s h = rw h refl

fence_dead :
    (token now : ℕ) (s : Store)
    → is_fenced token now s.worker ≡ false
    → fence token now s ≡ (err lease_lost, s)
unfolding fence ◌>>=◌ guard
fence_dead token now s h = rw h refl

module _ (i token t now : ℕ) (s : Store) (g : Generation) (v : IsValid s)
    (there : find_id i s.generations ≡ some g) where
  abbrev started : Generation → Generation
  started x = record x { state = in_progress; started_at = some now; attempts = x.attempts + 1 }

  abbrev start_rows : Store
  start_rows = record s {
    generations = update_where (with_id i (λ x. is_queued x.state)) started s.generations;
  }

  -- `start` under a live lease takes a queued row to in progress and counts the attempt; on any
  -- other row it raises StateError, without the lease LeaseLost, and then it writes nothing.
  pub start_lem : start i token t now s ≡ (
      if is_fenced token t s.worker
      then (if is_queued g.state then (ok (started g), start_rows) else (err state_error, s))
      else (err lease_lost, s))
  unfolding start ◌>>=◌ tx settle update guard
  start_lem = elim (Bool-cases (is_fenced token t s.worker)) [
    | inl e ↦ elim (Bool-cases (is_queued g.state)) [
      | inl q ↦
          rw
            (
              e,
              q,
              fence_live token t s e,
              count_with_id (suc s.seq) i (λ x. is_queued x.state) s.generations g v.ordered there,
              q,
            )
            (get_found i start_rows (started g)
              (find_updated i (λ x. is_queued x.state) started s.generations g there (λ x. refl) q))
      | inr q ↦
          rw
            (
              e,
              q,
              fence_live token t s e,
              count_with_id (suc s.seq) i (λ x. is_queued x.state) s.generations g v.ordered there,
              q,
            )
            refl
    ]
    | inr e ↦ rw (e, fence_dead token t s e) refl
  ]

module _ (i token : ℕ) (outcome : State) (conclusion error : Option String) (t now : ℕ) (s : Store)
    (g : Generation) (v : IsValid s) (there : find_id i s.generations ≡ some g) where
  abbrev finished : Generation → Generation
  finished x = record x {
    state = outcome;
    conclusion = conclusion;
    error = error;
    finished_at = some now;
  }

  abbrev finish_rows : Store
  finish_rows = record s {
    generations = update_where (with_id i (λ x. is_live x.state)) finished s.generations;
  }

  -- `finish` refuses an outcome that is not final, a lost lease, and a row that is already final;
  -- else it closes the row, and no other.
  pub finish_lem : finish i token outcome conclusion error t now s ≡ (
      if is_final outcome
      then (if is_fenced token t s.worker
          then (if is_live g.state then (ok tt, finish_rows) else (err state_error, s))
          else (err lease_lost, s))
      else (err state_error, s))
  unfolding finish ◌>>=◌ tx settle update guard
  finish_lem = elim (Bool-cases (is_final outcome)) [
    | inl f ↦ elim (Bool-cases (is_fenced token t s.worker)) [
      | inl e ↦ elim (Bool-cases (is_live g.state)) [
        | inl q ↦
            rw
              (
                f,
                e,
                q,
                fence_live token t s e,
                count_with_id (suc s.seq) i (λ x. is_live x.state) s.generations g v.ordered there,
                q,
              )
              refl
        | inr q ↦
            rw
              (
                f,
                e,
                q,
                fence_live token t s e,
                count_with_id (suc s.seq) i (λ x. is_live x.state) s.generations g v.ordered there,
                q,
              )
              refl
      ]
      | inr e ↦ rw (f, e, fence_dead token t s e) refl
    ]
    | inr f ↦ rw f refl
  ]

  -- The row that `finish` closed.
  pub finish_row : is_live g.state ≡ true → find_id i finish_rows.generations ≡ some (finished g)
  finish_row q = find_updated i (λ x. is_live x.state) finished s.generations g there (λ x. refl) q
