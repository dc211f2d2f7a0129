-- ===== src/Gate/Store/Generations.antt =====
-- The transitions of a generation: `enqueue`, `cancel_pr`, `start`, `set_check_run`, `finish`,
-- `requeue_expired` and `adopt_orphans` of src/prxref/gate/store.py.
use prxref.Base.{
  ℕ, suc, ◌+◌, String, Bool, false, not, ◌&&◌, Option, none, some, List, [], ◌∷◌, map, ◌==◌, ltb,
  if◌then◌else◌, is_some, any, keep,
}
use prxref.Gate.Exec.{state_error, integrity_error, Exec, pure, raise, gets, tx, ◌>>=◌, ◌>>◌, guard}
use prxref.Gate.Store.Rows.{
  State, queued, in_progress, superseded, stale, cancelled, is_final, is_queued, is_in_progress,
  is_live, Generation, LeaseRow, Store, same_pr, max_gen, order_by_id,
}
use prxref.Gate.Store.Fence.{update, fence, get}

-- INSERT INTO generations: it fails if the row breaks UNIQUE(repo, pr_number, gen). The id is the
-- next of AUTOINCREMENT.
unfoldable pub insert : String → ℕ → String → String → String → ℕ → String → ℕ → Exec Store ℕ
unfolding pure raise
insert repo pr_number head_sha base_sha base_ref gen reason now s =
    if any (λ g. same_pr repo pr_number g && g.gen == gen) s.generations
    then raise integrity_error s
    else pure (suc s.seq) (record s {
      seq = suc s.seq;
      generations =
          record {
            id = suc s.seq;
            repo = repo;
            pr_number = pr_number;
            head_sha = head_sha;
            base_sha = base_sha;
            base_ref = base_ref;
            gen = gen;
            reason = reason;
            state = queued;
            created_at = now;
            started_at = none;
            finished_at = none;
            check_run_id = none;
            external_id = none;
            conclusion = none;
            error = none;
            attempts = 0;
          }
          ∷ s.generations;
    })

unfoldable pub supersede : ℕ → Generation → Generation
supersede now g = record g { state = superseded; finished_at = some now }

-- The transaction of `enqueue`; its value is the new row's id.
unfoldable pub enqueue_tx : String → ℕ → String → String → String → String → ℕ → Exec Store ℕ
enqueue_tx repo pr_number head_sha base_sha base_ref reason now = tx (do
  newest ← gets (λ s. max_gen repo pr_number s.generations)
  _ ← update (λ g. same_pr repo pr_number g && is_queued g.state) (supersede now)
  lastrowid ← insert repo pr_number head_sha base_sha base_ref (newest + 1) reason now
  _ ← update (λ g. g.id == lastrowid) (λ g. record g { external_id = some g.id })
  pure lastrowid)

unfoldable pub enqueue : String → ℕ → String → String → String → String → ℕ → Exec Store Generation
enqueue repo pr_number head_sha base_sha base_ref reason now = do
  new_id ← enqueue_tx repo pr_number head_sha base_sha base_ref reason now
  get new_id

unfoldable pub cancel_pr : String → ℕ → ℕ → Exec Store ℕ
cancel_pr repo pr_number now = tx (
    update (λ g. same_pr repo pr_number g && is_queued g.state && not (is_some g.check_run_id))
      (λ g. record g { state = cancelled; finished_at = some now }))

unfoldable pub start : ℕ → ℕ → ℕ → ℕ → Exec Store Generation
start gen_id token fence_now now = do
  _ ← tx (do
    fence token fence_now
    rowcount ←
        update (λ g. g.id == gen_id && is_queued g.state)
          (λ g. record g { state = in_progress; started_at = some now; attempts = g.attempts + 1 })
    guard (rowcount == 1) state_error)
  get gen_id

unfoldable pub set_check_run : ℕ → ℕ → ℕ → ℕ → Exec Store (Unit {0})
set_check_run gen_id token check_run_id fence_now = tx (do
  fence token fence_now
  _ ← update (λ g. g.id == gen_id) (λ g. record g { check_run_id = some check_run_id })
  pure tt)

unfoldable pub finish :
    ℕ → ℕ → State → Option String → Option String → ℕ → ℕ → Exec Store (Unit {0})
finish gen_id token outcome conclusion error fence_now now = do
  guard (is_final outcome) state_error
  tx (do
    fence token fence_now
    rowcount ←
        update (λ g. g.id == gen_id && is_live g.state)
          (λ g. record g {
            state = outcome;
            conclusion = conclusion;
            error = error;
            finished_at = some now;
          })
    guard (rowcount == 1) state_error)

-- In progress, and a newer generation of its PR exists.
unfoldable pub is_overtaken : List Generation → Generation → Bool
is_overtaken gs g = is_in_progress g.state && ltb g.gen (max_gen g.repo g.pr_number gs)

unfoldable pub overtake : ℕ → Generation → Generation
overtake now g = record g {
  finished_at = some now;
  state = if is_some g.check_run_id then stale else superseded;
}

unfoldable pub requeue_row : Generation → Generation
requeue_row g = record g { state = queued }

-- `_requeue_in_progress`
unfoldable pub requeue_in_progress : ℕ → Exec Store (List ℕ)
requeue_in_progress now = do
  rows ← gets (λ s. s.generations)
  _ ← update (is_overtaken rows) (overtake now)
  ids ← gets (λ s. map (λ g. g.id) (order_by_id (keep (λ g. is_in_progress g.state) s.generations)))
  _ ← update (λ g. is_in_progress g.state) requeue_row
  pure ids

-- `row is not None and row[0] > self._clock()`
unfoldable pub is_unexpired : ℕ → Option LeaseRow → Bool
is_unexpired now none = false
is_unexpired now (some row) = ltb now row.expires_at

unfoldable pub requeue_expired : ℕ → ℕ → Exec Store (List ℕ)
requeue_expired lease_now now = tx (do
  live ← gets (λ s. is_unexpired lease_now s.worker)
  if live then pure [] else requeue_in_progress now)

unfoldable pub adopt_orphans : ℕ → ℕ → ℕ → Exec Store (List ℕ)
adopt_orphans token fence_now now = tx (do fence token fence_now; requeue_in_progress now)
