-- ===== src/Gate/Watchdog.antt =====
-- src/prxref/gate/watchdog.py: expiry repair and reconciliation. The GitHub client is an argument:
-- what it answers for each repository and page of open pull requests.
pub mod Coverage
pub mod Reconcile
pub mod Tests
use prxref.Base.{
  ℕ, zero, suc, ◌+◌, String, Bool, true, false, not, ◌&&◌, Option, none, some, List, [], ◌∷◌, ◌++◌,
  length, ltb, leb, is_some, if◌then◌else◌,
}
use prxref.Gate.Exec.{Exec, Result, ok, err, pure, gets, ◌>>=◌}
use prxref.Gate.Store.Rows.{State, cancelled, failed, Generation, Store}
use prxref.Gate.Store.Queries.{latest_generation_for_head}
use prxref.Gate.Store.Generations.{enqueue, requeue_expired}

-- The fields of a pull request that `reconcile` reads.
pub record Pull : Type 0 where
  pub number : ℕ
  pub head : String
  pub base : String
  pub base_ref : String

-- A reply to one GET: a batch of pull requests, `none` for one without those fields, or a
-- `GitHubError`.
pub data Page : Type 0 where
  batch : List (Option Pull) → Page
  github_error : Page

abbrev pub per_page : ℕ
per_page = 100

abbrev pub max_pages : ℕ
max_pages = 10

-- The loop of `_list_open` over the pages left.
unfoldable pub list_open_from : (ℕ → Page) → ℕ → ℕ → List (Option Pull) → List (Option Pull)
list_open_from client zero page pulls = pulls
list_open_from client (suc left) page pulls = elim (client page) [
  | github_error ↦ pulls
  | batch b ↦
      let more = list_open_from client left (suc page) (pulls ++ b) in
      if ltb (length b) per_page then pulls ++ b else more
]

unfoldable pub list_open : (ℕ → Page) → List (Option Pull)
unfolding list_open_from
list_open client = list_open_from client max_pages 1 []

is_cancelled : State → Bool
is_cancelled cancelled = true
is_cancelled _ = false

is_failed : State → Bool
is_failed failed = true
is_failed _ = false

-- `_covers`
unfoldable pub covers : Option Generation → Bool
unfolding is_cancelled is_failed
covers none = false
covers (some row) =
    if is_cancelled row.state
    then false
    else not (is_failed row.state && not (is_some row.check_run_id))

-- The body of the loop of `reconcile` over one pull request: what it adds to `made`. `clock` is
-- what the clock reads at the insert that follows a number of inserts.
unfoldable pub reconcile_pull : (ℕ → ℕ) → String → Pull → Exec Store (List Generation)
reconcile_pull clock repo p = do
  row ← gets (latest_generation_for_head repo p.head)
  if covers row then pure [] else do
    now ← gets (λ s. clock s.seq)
    g ← enqueue repo p.number p.head p.base p.base_ref "reconcile" now
    pure (g ∷ [])

unfoldable pub reconcile_pulls :
    (ℕ → ℕ) → String → List (Option Pull) → Exec Store (List Generation)
reconcile_pulls clock repo [] = pure []
reconcile_pulls clock repo (none ∷ pulls) = reconcile_pulls clock repo pulls
reconcile_pulls clock repo (some p ∷ pulls) = do
  made ← reconcile_pull clock repo p
  more ← reconcile_pulls clock repo pulls
  pure (made ++ more)

unfoldable pub reconcile :
    (ℕ → ℕ) → (String → ℕ → Page) → List String → Exec Store (List Generation)
reconcile clock client [] = pure []
reconcile clock client (repo ∷ repos) = do
  made ← reconcile_pulls clock repo (list_open (client repo))
  more ← reconcile clock client repos
  pure (made ++ more)

pub record Watchdog : Type 0 where
  pub repos : List String
  pub reconcile_s : ℕ
  pub last_reconcile : Option ℕ

unfoldable pub is_due : Watchdog → ℕ → Bool
is_due w now = elim w.last_reconcile [ none ↦ true | some last ↦ leb (last + w.reconcile_s) now ]

-- `tick`: the new `_last_reconcile` beside the two parts of the reply.
unfoldable pub tick :
    (ℕ → ℕ)
    → (String → ℕ → Page)
    → Watchdog
    → ℕ
    → ℕ
    → ℕ
    → Exec Store (Watchdog × List ℕ × Option (List Generation))
tick clock client w lease_now store_now now = do
  requeued ← requeue_expired lease_now store_now
  if is_due w now
      then (do
        made ← reconcile clock client w.repos
        pure (record w { last_reconcile = some now }, requeued, some made))
      else pure (w, requeued, none)
