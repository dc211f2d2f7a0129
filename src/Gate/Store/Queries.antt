-- ===== src/Gate/Store/Queries.antt =====
-- The read-only methods of src/prxref/gate/store.py over `generations`.
use prxref.Base.{
  ℕ, String, Bool, true, false, ◌&&◌, Option, List, str_eq, ◌==◌, keep, best, any, count_where,
}
use prxref.Gate.Store.Rows.{
  State, queued, in_progress, completed, failed, is_queued, Generation, Store, same_pr, max_gen,
  order_by_id, lower_id, higher_id, higher_gen,
}

-- The row is its PR's newest: `gen=(SELECT MAX(gen) …)`.
unfoldable pub is_newest : List Generation → Generation → Bool
is_newest gs g = g.gen == max_gen g.repo g.pr_number gs

unfoldable pub next_queued : Store → Option Generation
unfolding is_newest
next_queued s =
    best lower_id (keep (λ g. is_queued g.state && is_newest s.generations g) s.generations)

unfoldable pub queued_rows : Store → List Generation
queued_rows s = order_by_id (keep (λ g. is_queued g.state) s.generations)

unfoldable pub latest_generation : String → ℕ → Store → Option Generation
latest_generation repo pr_number s = best higher_gen (keep (same_pr repo pr_number) s.generations)

unfoldable pub latest_generation_for_head : String → String → Store → Option Generation
latest_generation_for_head repo head_sha s =
    best higher_id (keep (λ g. str_eq g.repo repo && str_eq g.head_sha head_sha) s.generations)

-- `state IN ('queued','in_progress','completed','failed')`
unfoldable pub is_covering : State → Bool
is_covering queued = true
is_covering in_progress = true
is_covering completed = true
is_covering failed = true
is_covering _ = false

unfoldable pub has_live_generation : String → ℕ → String → String → Store → Bool
has_live_generation repo pr_number head_sha base_sha s =
    any
      (λ g.
        same_pr repo pr_number g
        && str_eq g.head_sha head_sha
        && str_eq g.base_sha base_sha
        && is_covering g.state)
      s.generations

unfoldable pub queue_depth : Store → ℕ
queue_depth s = count_where (λ g. is_queued g.state) s.generations
