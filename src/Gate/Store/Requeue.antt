-- ===== src/Gate/Store/Requeue.antt =====
-- Recovery after a dead worker: `_requeue_in_progress`, `requeue_expired` and `adopt_orphans` of
-- src/prxref/gate/store.py.
use prxref.Base.{
  ℕ, suc, ◌≤◌, String, ◌≡◌, refl, sym, ap, ◌∙◌, Bool, true, false, some, List, [], ◌∷◌, map, arith,
  ltb, if◌then◌else◌, Bool-cases, All, is_some, inl, inr, keep,
}
use prxref.Gate.Exec.{ok, pure, tx, settle, ◌>>=◌, guard}
use prxref.Gate.Exec.Keeps.{Leads, Leads-tx, Leads-bind, Leads-gets, Leads-pure}
use prxref.Gate.Store.Rows.{
  queued, superseded, stale, Generation, Store, is_live, is_queued, is_in_progress, max_gen,
  update_where, find_id, order_by_id,
}
use prxref.Gate.Store.Fence.{update, is_fenced, fence}
use prxref.Gate.Store.Generations.{
  is_overtaken, overtake, requeue_row, requeue_in_progress, requeue_expired, adopt_orphans,
}
use prxref.Gate.Store.Table.{
  Moves, IsUpdate, Ordered, QueuedNewest, QueuedNewest-max_gen, max_gen-update_where, updated,
  find_id-update_where, update_where-Ordered, update_where-QueuedNewest, update_where-Moves,
  Moves-trans,
}
use prxref.Gate.Store.Transitions.{Moves-live}
use prxref.Gate.Store.History.{Advances, Advances-order, fence-Advances}

in_progress_live : (g : Generation) → is_in_progress g.state ≡ true → is_live g.state ≡ true
unfolding is_in_progress is_live
in_progress_live g h = ground arith

overtake-IsUpdate : (all : List Generation) (now : ℕ) → IsUpdate (is_overtaken all) (overtake now)
unfolding is_overtaken overtake is_queued
overtake-IsUpdate all now = record {
  moves = λ g h.
      Moves-live g (if is_some g.check_run_id then stale else superseded) g.started_at (some now)
        g.check_run_id g.conclusion g.error g.attempts (in_progress_live g (ground arith))
        (omega arith);
  queues = λ g h k. ground arith;
}

requeue-Moves : (g : Generation) → is_in_progress g.state ≡ true → Moves g (requeue_row g)
unfolding requeue_row
requeue-Moves g h =
    Moves-live g queued g.started_at g.finished_at g.check_run_id g.conclusion g.error g.attempts
      (in_progress_live g h) (omega arith)

abbrev overtaken_rows : ℕ → List Generation → List Generation
overtaken_rows now gs = update_where (is_overtaken gs) (overtake now) gs

-- The table after `_requeue_in_progress`.
abbrev pub requeued : ℕ → List Generation → List Generation
requeued now gs = update_where (λ g. is_in_progress g.state) requeue_row (overtaken_rows now gs)

-- The ids that `_requeue_in_progress` returns.
abbrev pub requeued_ids : ℕ → List Generation → List ℕ
requeued_ids now gs =
    map (λ g. g.id) (order_by_id (keep (λ g. is_in_progress g.state) (overtaken_rows now gs)))

pub requeue_lem :
    (now : ℕ) (s : Store)
    → requeue_in_progress now s
      ≡ (ok (requeued_ids now s.generations), record s { generations = requeued now s.generations })
unfolding requeue_in_progress ◌>>=◌ update
requeue_lem now s = refl

-- A row that is in progress, or queued, is its PR's newest.
abbrev LiveNewest : List Generation → List Generation → Type 0
LiveNewest all = All λ g. is_in_progress g.state ≡ true → max_gen g.repo g.pr_number all ≤ g.gen

-- The first UPDATE leaves only newest rows in progress.
overtaken_newest :
    (now : ℕ) (all gs : List Generation)
    → LiveNewest all (update_where (is_overtaken all) (overtake now) gs)
unfolding update_where is_overtaken overtake is_in_progress
overtaken_newest now all [] = tt
overtaken_newest now all (g ∷ gs) = (
  elim (Bool-cases (is_overtaken all g)) [
    | inl e ↦ rw e (λ h. ground arith)
    | inr e ↦ rw e (λ h. ground arith)
  ],
  overtaken_newest now all gs,
)

requeue_rows_newest :
    (all gs : List Generation)
    → LiveNewest all gs
    → QueuedNewest all gs
    → QueuedNewest all (update_where (λ g. is_in_progress g.state) requeue_row gs)
unfolding update_where requeue_row
requeue_rows_newest all [] l q = tt
requeue_rows_newest all (g ∷ gs) l q = (
  elim (Bool-cases (is_in_progress g.state)) [ inl e ↦ rw e (λ h. l.0 e) | inr e ↦ rw e q.0 ],
  requeue_rows_newest all gs l.1 q.1,
)

module _ (now : ℕ) (gs : List Generation) where
  abbrev running : Generation → Bool
  running g = is_in_progress g.state

  max_gen-requeued : (r : String) (n : ℕ) → max_gen r n (requeued now gs) ≡ max_gen r n gs
  max_gen-requeued r n =
      max_gen-update_where running requeue_row requeue-Moves r n (overtaken_rows now gs)
      ∙ max_gen-update_where (is_overtaken gs) (overtake now) (overtake-IsUpdate gs now).moves r n
          gs

  max_gen-overtaken : (r : String) (n : ℕ) → max_gen r n (overtaken_rows now gs) ≡ max_gen r n gs
  max_gen-overtaken r n =
      max_gen-update_where (is_overtaken gs) (overtake now) (overtake-IsUpdate gs now).moves r n gs

  requeued-Ordered : (n : ℕ) → Ordered n gs → Ordered n (requeued now gs)
  requeued-Ordered n o =
      update_where-Ordered running requeue_row requeue-Moves n (overtaken_rows now gs) (
        update_where-Ordered (is_overtaken gs) (overtake now) (overtake-IsUpdate gs now).moves n gs
          o)

  requeued-QueuedNewest : QueuedNewest gs gs → QueuedNewest (requeued now gs) (requeued now gs)
  requeued-QueuedNewest q =
      QueuedNewest-max_gen gs (requeued now gs) (requeued now gs) max_gen-requeued (
        requeue_rows_newest gs (overtaken_rows now gs) (overtaken_newest now gs gs) (
          QueuedNewest-max_gen (overtaken_rows now gs) gs (overtaken_rows now gs)
            (λ r n. sym (max_gen-overtaken r n))
            (update_where-QueuedNewest (is_overtaken gs) (overtake now) (overtake-IsUpdate gs now)
              gs q)))

  -- What becomes of one row: a row in progress goes back to the queue if it is its PR's newest, and
  -- else is stale if it owns a check run, and superseded if not.
  abbrev pub fate : Generation → Generation
  fate g =
      if is_in_progress g.state
      then (if ltb g.gen (max_gen g.repo g.pr_number gs) then overtake now g else requeue_row g)
      else g

  fate_lem :
      (g : Generation)
      → updated running requeue_row (updated (is_overtaken gs) (overtake now) g) ≡ fate g
  unfolding is_overtaken overtake is_in_progress
  fate_lem g = ground arith

  requeued-Evolves :
      (i : ℕ) (g : Generation)
      → find_id i gs ≡ some g
      → (h : Generation) × (find_id i (requeued now gs) ≡ some h) × Moves g h
  requeued-Evolves i g e =
      let (h, p, m) =
        update_where-Moves (is_overtaken gs) (overtake now) (overtake-IsUpdate gs now).moves i gs g
          e in
      let (k, q, n) =
        update_where-Moves running requeue_row requeue-Moves i (overtaken_rows now gs) h p in
      (k, q, Moves-trans m n)

  find_id-requeued :
      (i : ℕ) (g : Generation) → find_id i gs ≡ some g → find_id i (requeued now gs) ≡ some (fate g)
  find_id-requeued i g e =
      rw
        (
          find_id-update_where running requeue_row requeue-Moves,
          find_id-update_where (is_overtaken gs) (overtake now) (overtake-IsUpdate gs now).moves,
          e,
        )
        (ap some (fate_lem g))

requeue-Advances : (now : ℕ) → Leads Advances (requeue_in_progress now)
requeue-Advances now = record {
  at = λ s v. rw requeue_lem (record {
    valid = record {
      ordered = requeued-Ordered now s.generations (suc s.seq) v.ordered;
      queued_newest = requeued-QueuedNewest now s.generations v.queued_newest;
    };
    evolves = record { rows = requeued-Evolves now s.generations };
  });
}

pub adopt_orphans-Advances :
    (token fence_now now : ℕ) → Leads Advances (adopt_orphans token fence_now now)
unfolding adopt_orphans
adopt_orphans-Advances token fence_now now =
    Leads-tx Advances-order _
      (Leads-bind Advances-order _ _ (fence-Advances token fence_now) (λ _. requeue-Advances now))

requeue_unless :
    (live : Bool) (now : ℕ) → Leads Advances (if live then pure [] else requeue_in_progress now)
requeue_unless true now = Leads-pure Advances-order []
requeue_unless false now = requeue-Advances now

pub requeue_expired-Advances : (lease_now now : ℕ) → Leads Advances (requeue_expired lease_now now)
unfolding requeue_expired
requeue_expired-Advances lease_now now =
    Leads-tx Advances-order _ (
      Leads-bind Advances-order _ _ (Leads-gets Advances-order _) (λ live. requeue_unless live now))

-- `adopt_orphans` under a live lease: a row in progress goes back to the queue if it is its PR's
-- newest, and else is closed, stale if it owns a check run and superseded if not; every other row
-- stays as it is.
pub adopt_orphans_fate :
    (token fence_now now i : ℕ) (s : Store) (g : Generation)
    → is_fenced token fence_now s.worker ≡ true
    → find_id i s.generations ≡ some g
    → find_id i (adopt_orphans token fence_now now s).1.generations
      ≡ some (
          if is_in_progress g.state
          then (if ltb g.gen (max_gen g.repo g.pr_number s.generations)
              then record g {
                finished_at = some now;
                state = if is_some g.check_run_id then stale else superseded;
              }
              else record g { state = queued })
          else g)
unfolding adopt_orphans tx settle ◌>>=◌ fence guard overtake requeue_row
adopt_orphans_fate token fence_now now i s g live there =
    rw (live, requeue_lem) (find_id-requeued now s.generations i g there)
