-- ===== src/Gate/Worker.antt =====
-- src/prxref/gate/worker.py: `run_generation`, and the class `Worker`. The texts of exceptions,
-- which pass through `_redact`, are what `env.message` gives.
pub mod Ending
pub mod Ends
pub mod Faults
pub mod Fenced
pub mod Tests
use prxref.Base.{
  ℕ, zero, suc, ◌+◌, String, Bool, true, false, not, ◌&&◌, Option, none, some, List, [], ◌∷◌, ◌++◌,
  str_eq, if◌then◌else◌,
}
use prxref.Base.Text.{codes}
use prxref.Gate.Exec.{lease_lost, state_error, gets, pure}
use prxref.Gate.Exec
use prxref.Gate.Store.Rows.{State, Generation}
use prxref.Gate.Store.Queries.{has_live_generation, next_queued}
use prxref.Gate.Store.Leases.{acquire_lease, renew_lease, release_lease, is_paused}
use prxref.Gate.Store.Generations.{enqueue, start, finish, adopt_orphans}
use prxref.Gate.Binding.{LivePr, Drift, closed, overtaken, check_binding}
use prxref.Gate.Checks.{Conclusion, Review, errored}
use prxref.Gate.World.{
  Fault, store_error, stale, Report, ReviewEnd, finished, timed_out, crashed, interrupted,
  interruption, Outside, Act, give, throw, ◌>>=◌, ◌>>◌, attempt, at_store, read_live_pr,
}
use prxref.Gate.Publisher.{Lease}
use prxref.Gate.Publisher.Check.{renew, read_row, begin, fail, cancel}
use prxref.Gate.Publisher.Complete.{complete}

-- `except LeaseLost`
unfoldable pub is_lease_lost : Fault → Bool
is_lease_lost (store_error lease_lost) = true
is_lease_lost _ = false

abbrev pub drift_name : Drift → String
drift_name Drift.closed = "closed"
drift_name Drift.head_moved = "head moved"
drift_name Drift.retargeted = "retargeted"
drift_name Drift.base_moved = "base moved"
drift_name Drift.overtaken = "superseded"

-- `reason in _DRIFT`
unfoldable pub is_moved : Drift → Bool
is_moved closed = false
is_moved overtaken = false
is_moved _ = true

abbrev pub conclusion_name : Conclusion → String
conclusion_name Conclusion.success = "success"
conclusion_name Conclusion.failure = "failure"
conclusion_name Conclusion.cancelled = "cancelled"

-- `_error_reason`
unfoldable pub error_reason : Report → Option String
error_reason r = elim r.result [
  | none ↦ none
  | some v ↦ elim v.verdict [
    | errored ↦ elim r.posted_reason [
      | none ↦ some "review error: the review posted no reason"
      | some line ↦ some line
    ]
    | _ ↦ none
  ]
]

module _ (env : Outside) where
  unfoldable pub finish_generation :
      Generation → Lease → State → Option String → Option String → Act State
  finish_generation g lease state conclusion why = do
    at_store env (λ fence_now now. finish g.id lease.token state conclusion why fence_now now)
    give state

  -- Handlers that swallow all but a lost lease.
  unfoldable pub swallow : Fault → Act (Unit {0})
  unfolding is_lease_lost
  swallow f = if is_lease_lost f then throw f else give tt

  unfoldable pub read_and_fail : Generation → Lease → Fault → Act (Unit {0})
  read_and_fail g lease f = do row ← read_row env g.id; fail env row lease (codes (env.why f))

  -- `_publish_failed`
  unfoldable pub publish_failed : Generation → Lease → Fault → Act State
  unfolding finish_generation swallow read_and_fail
  publish_failed g lease f =
      attempt (read_and_fail g lease f)
        (λ _. finish_generation g lease State.failed (some "failure") (some (env.message f)))
        (λ e. do
          swallow e
          finish_generation g lease State.failed (some "failure") (some (env.message f)))

  -- `except LeaseLost: raise` and `except Exception: return _publish_failed(…)`
  unfoldable pub publish_failed_unless_lost : Generation → Lease → Fault → Act State
  unfolding publish_failed is_lease_lost
  publish_failed_unless_lost g lease f =
      if is_lease_lost f then throw f else publish_failed g lease f

  unfoldable pub enqueue_repair : Generation → LivePr → Bool → Act State
  enqueue_repair g live covered =
      if str_eq live.state "open" && not covered
      then (do
        _ ← at_store env (λ _ now.
            enqueue g.repo g.pr_number live.head_sha live.base_sha live.base_ref "repair" now)
        give State.stale)
      else give State.stale

  unfoldable pub repair_live : Generation → LivePr → Act State
  unfolding enqueue_repair
  repair_live g live = do
    covered ←
        at_store env
          (λ _ _. gets (has_live_generation g.repo g.pr_number live.head_sha live.base_sha))
    enqueue_repair g live covered

  unfoldable pub skip_repair : Fault → Act State
  unfolding is_lease_lost
  skip_repair f = if is_lease_lost f then throw f else give State.stale

  unfoldable pub repair : Generation → Drift → Act State
  unfolding repair_live skip_repair is_moved
  repair g reason =
      if is_moved reason
      then attempt (read_live_pr env g.repo g.pr_number) (repair_live g) skip_repair
      else give State.stale

  unfoldable pub cancel_closed : Generation → Lease → Act State
  unfolding publish_failed_unless_lost finish_generation
  cancel_closed g lease =
      attempt (cancel env g lease (codes "PR closed"))
        (λ _.
          finish_generation g lease State.cancelled (some "cancelled")
            (some (drift_name Drift.closed)))
        (publish_failed_unless_lost g lease)

  unfoldable pub close_stale : Generation → Lease → Drift → Act State
  unfolding finish_generation repair
  close_stale g lease reason = do
    _ ← finish_generation g lease State.stale none (some (drift_name reason))
    repair g reason

  -- `_not_bound`
  unfoldable pub not_bound : Generation → Lease → Drift → Act State
  unfolding cancel_closed close_stale
  not_bound g lease closed = cancel_closed g lease
  not_bound g lease reason = close_stale g lease reason

  -- `except Stale`, `except LeaseLost`, `except Exception`
  unfoldable pub publishing_failed : Generation → Lease → Fault → Act State
  unfolding not_bound publish_failed_unless_lost
  publishing_failed g lease (stale reason) = not_bound g lease reason
  publishing_failed g lease f = publish_failed_unless_lost g lease f

  -- `_fail_publish`, and the `finish` after it.
  unfoldable pub fail_review : Generation → Lease → String → String → Act State
  unfolding swallow finish_generation
  fail_review g lease why error =
      attempt (fail env g lease (codes why))
        (λ _. finish_generation g lease State.failed (some "failure") (some error))
        (λ e. do swallow e; finish_generation g lease State.failed (some "failure") (some error))

  unfoldable pub complete_review : Generation → Lease → Report → Act State
  unfolding finish_generation publishing_failed error_reason
  complete_review g lease r =
      attempt (complete env g lease r)
        (λ conclusion.
          finish_generation g lease State.completed (some (conclusion_name conclusion))
            (error_reason r))
        (publishing_failed g lease)

  unfoldable pub end_review : Generation → Lease → ReviewEnd → Act State
  unfolding fail_review complete_review
  end_review g lease (finished r) = complete_review g lease r
  end_review g lease (timed_out why) = fail_review g lease why why
  end_review g lease (crashed why error) = fail_review g lease why error
  end_review g lease interrupted = throw interruption

  unfoldable pub run_review : Generation → Lease → Act State
  unfolding end_review
  run_review g lease = do row ← read_row env g.id; end_review row lease (env.review row)

  unfoldable pub run_bound : Generation → Lease → Option Drift → Act State
  unfolding not_bound publishing_failed run_review
  run_bound g lease (some reason) = not_bound g lease reason
  run_bound g lease none =
      attempt (begin env g lease) (λ _. run_review g lease) (publishing_failed g lease)

  unfoldable pub check_and_run : Generation → Lease → LivePr → Act State
  unfolding run_bound
  check_and_run g lease live = do
    reason ← at_store env (λ _ _. gets (check_binding g live))
    run_bound g lease reason

  unfoldable pub run_started : Generation → Lease → Act State
  unfolding check_and_run publish_failed_unless_lost
  run_started g lease =
      attempt (read_live_pr env g.repo g.pr_number) (check_and_run g lease)
        (publish_failed_unless_lost g lease)

  unfoldable pub run_generation : ℕ → Lease → Act State
  unfolding run_started
  run_generation gen_id lease = do
    g ← at_store env (λ fence_now now. start gen_id lease.token fence_now now)
    run_started g lease

  -- `Worker.acquire`; `holder_alive` asks the operating system for a process.
  unfoldable pub adopt : String → ℕ → Option ℕ → Act (Option Lease)
  adopt holder ttl none = give none
  adopt holder ttl (some token) = do
    _ ← at_store env (λ fence_now now. adopt_orphans token fence_now now)
    give (some (record { holder = holder; token = token; ttl = ttl }))

  unfoldable pub acquire : String → ℕ → (String → Bool) → Act (Option Lease)
  unfolding adopt
  acquire holder ttl holder_alive = do
    token ← at_store env (λ _ now. acquire_lease holder ttl holder_alive now)
    adopt holder ttl token

  unfoldable pub run_next : Lease → Option Generation → Act (Option State)
  unfolding run_generation
  run_next lease none = give none
  run_next lease (some g) = do state ← run_generation g.id lease; give (some state)

  unfoldable pub run_unpaused : Lease → Bool → Act (Option State)
  unfolding run_next
  run_unpaused lease true = give none
  run_unpaused lease false = do g ← at_store env (λ _ _. gets next_queued); run_next lease g

  -- `Worker.run_once`
  unfoldable pub run_once : Lease → Act (Option State)
  unfolding run_unpaused
  run_once lease = do
    renew env lease
    paused ← at_store env (λ _ _. gets is_paused)
    run_unpaused lease paused

  -- One round of the loop of `Worker.run`, from the lease that it holds to the next. No handler
  -- catches an interruption; this one alone may meet one.
  unfoldable pub keep_lease : Lease → Fault → Act (Option Lease)
  unfolding is_lease_lost
  keep_lease lease interruption = throw interruption
  keep_lease lease f = if is_lease_lost f then give none else give (some lease)

  unfoldable pub run_leased : Option Lease → Act (Option Lease)
  unfolding run_once keep_lease
  run_leased none = give none
  run_leased (some lease) = attempt (run_once lease) (λ _. give (some lease)) (keep_lease lease)

  unfoldable pub run_round : String → ℕ → (String → Bool) → Option Lease → Act (Option Lease)
  unfolding run_leased acquire
  run_round holder ttl holder_alive (some lease) = run_leased (some lease)
  run_round holder ttl holder_alive none = do
    lease ← acquire holder ttl holder_alive
    run_leased lease

  unfoldable pub release : Option Lease → Act (Unit {0})
  release none = give tt
  release (some lease) = at_store env (λ _ _. release_lease lease.holder lease.token)

  -- `Worker.run`, with the rounds until `stop` is set; the waits between them are not modelled.
  unfoldable pub run_worker : ℕ → String → ℕ → (String → Bool) → Option Lease → Act (Unit {0})
  unfolding run_round release
  run_worker zero holder ttl holder_alive lease = release lease
  run_worker (suc rounds) holder ttl holder_alive lease = do
    next ← run_round holder ttl holder_alive lease
    run_worker rounds holder ttl holder_alive next
