-- ===== src/Gate/Worker/Fenced.antt =====
-- Every write of a worker of src/prxref/gate/worker.py to GitHub follows a renewal of its lease.
use prxref.Base.{ℕ, zero, suc, String, Bool, true, false, Option, none, some, []}
use prxref.Gate.Store.Rows.{State, Generation, Store}
use prxref.Gate.Binding.{LivePr, Drift, closed}
use prxref.Gate.World.{
  Fault, stale, ReviewEnd, finished, timed_out, crashed, interrupted, interruption, Outside,
}
use prxref.Gate.World.Fenced.{EachFenced, Runs-give, Runs-at_store, Runs-same}
use prxref.Gate.Publisher.{Lease}
use prxref.Gate.Publisher.CheckFenced.{
  Steady, renew-Runs, read_row-Steady, begin-Steady, fail-Steady, cancel-Steady,
}
use prxref.Gate.Publisher.CheckFenced.{running}
use prxref.Gate.Publisher.Fenced.{complete-Steady}
use prxref.Gate.Worker.{
  finish_generation, swallow, read_and_fail, publish_failed, publish_failed_unless_lost,
  enqueue_repair, repair_live, skip_repair, repair, cancel_closed, close_stale, not_bound,
  publishing_failed, fail_review, complete_review, end_review, run_review, run_bound, check_and_run,
  run_started, run_generation, adopt, acquire, run_next, run_unpaused, run_once, keep_lease,
  run_leased, run_round, release, run_worker,
}

module _ (env : Outside) where
  finish_row-Steady :
      (g : Generation) (lease : Lease) (o : State) (c e : Option String)
      → Steady env (finish_generation env g lease o c e)
  unfolding finish_generation
  finish_row-Steady g lease o c e = search running depth 9

  swallow-Steady : (f : Fault) → Steady env (swallow env f)
  unfolding swallow
  swallow-Steady f = search running depth 9

  read_and_fail-Steady :
      (g : Generation) (lease : Lease) (f : Fault) → Steady env (read_and_fail env g lease f)
  unfolding read_and_fail
  read_and_fail-Steady g lease f = search (running, read_row-Steady, fail-Steady) depth 9

  publish_failed-Steady :
      (g : Generation) (lease : Lease) (f : Fault) → Steady env (publish_failed env g lease f)
  unfolding publish_failed
  publish_failed-Steady g lease f =
      search (running, read_and_fail-Steady, finish_row-Steady, swallow-Steady) depth 9

  unless_lost-Steady :
      (g : Generation) (lease : Lease) (f : Fault)
      → Steady env (publish_failed_unless_lost env g lease f)
  unfolding publish_failed_unless_lost
  unless_lost-Steady g lease f = search (running, publish_failed-Steady) depth 9

  enqueue_repair-Steady :
      (g : Generation) (live : LivePr) (b : Bool) → Steady env (enqueue_repair env g live b)
  unfolding enqueue_repair
  enqueue_repair-Steady g live b = search running depth 9

  repair-Steady : (g : Generation) (reason : Drift) → Steady env (repair env g reason)
  unfolding repair repair_live skip_repair
  repair-Steady g reason = search (running, enqueue_repair-Steady) depth 12

  not_bound-Steady :
      (g : Generation) (lease : Lease) (reason : Drift) → Steady env (not_bound env g lease reason)
  unfolding not_bound cancel_closed close_stale
  not_bound-Steady g lease closed =
      search (running, cancel-Steady, finish_row-Steady, unless_lost-Steady) depth 9
  not_bound-Steady g lease reason =
      Runs-same env _ _ false (finish_row-Steady g lease _ _ _) (λ _. repair-Steady g reason)

  publishing_failed-Steady :
      (g : Generation) (lease : Lease) (f : Fault) → Steady env (publishing_failed env g lease f)
  unfolding publishing_failed
  publishing_failed-Steady g lease (stale reason) = not_bound-Steady g lease reason
  publishing_failed-Steady g lease f = unless_lost-Steady g lease f

  fail_review-Steady :
      (g : Generation) (lease : Lease) (why error : String)
      → Steady env (fail_review env g lease why error)
  unfolding fail_review
  fail_review-Steady g lease why error =
      search (running, fail-Steady, finish_row-Steady, swallow-Steady) depth 9

  end_review-Steady :
      (g : Generation) (lease : Lease) (e : ReviewEnd) → Steady env (end_review env g lease e)
  unfolding end_review complete_review
  end_review-Steady g lease (finished r) =
      search (running, complete-Steady, finish_row-Steady, publishing_failed-Steady) depth 9
  end_review-Steady g lease (timed_out why) = fail_review-Steady g lease why why
  end_review-Steady g lease (crashed why error) = fail_review-Steady g lease why error
  end_review-Steady g lease interrupted = search running depth 9

  run_review-Steady : (g : Generation) (lease : Lease) → Steady env (run_review env g lease)
  unfolding run_review
  run_review-Steady g lease = search (running, read_row-Steady, end_review-Steady) depth 9

  run_bound-Steady :
      (g : Generation) (lease : Lease) (reason : Option Drift)
      → Steady env (run_bound env g lease reason)
  unfolding run_bound
  run_bound-Steady g lease (some reason) = not_bound-Steady g lease reason
  run_bound-Steady g lease none =
      search (running, begin-Steady, run_review-Steady, publishing_failed-Steady) depth 9

  run_generation-Steady : (i : ℕ) (lease : Lease) → Steady env (run_generation env i lease)
  unfolding run_generation run_started check_and_run
  run_generation-Steady i lease = search (running, run_bound-Steady, unless_lost-Steady) depth 12

  adopt-Steady :
      (holder : String) (ttl : ℕ) (token : Option ℕ) → Steady env (adopt env holder ttl token)
  unfolding adopt
  adopt-Steady holder ttl none = Runs-give env false none
  adopt-Steady holder ttl (some token) = search running depth 9

  run_next-Steady : (lease : Lease) (g : Option Generation) → Steady env (run_next env lease g)
  unfolding run_next
  run_next-Steady lease none = Runs-give env false none
  run_next-Steady lease (some g) = search (running, run_generation-Steady) depth 9

  run_unpaused-Steady : (lease : Lease) (b : Bool) → Steady env (run_unpaused env lease b)
  unfolding run_unpaused
  run_unpaused-Steady lease true = Runs-give env false none
  run_unpaused-Steady lease false = search (running, run_next-Steady) depth 9

  run_once-Steady : (lease : Lease) → Steady env (run_once env lease)
  unfolding run_once
  run_once-Steady lease = search (running, renew-Runs, run_unpaused-Steady) depth 9

  keep_lease-Steady : (lease : Lease) (f : Fault) → Steady env (keep_lease env lease f)
  unfolding keep_lease
  keep_lease-Steady lease interruption = search running depth 9
  keep_lease-Steady lease f = search running depth 9

  run_leased-Steady : (lease : Option Lease) → Steady env (run_leased env lease)
  unfolding run_leased
  run_leased-Steady none = Runs-give env false none
  run_leased-Steady (some lease) = search (running, run_once-Steady, keep_lease-Steady) depth 9

  round-Steady :
      (holder : String) (ttl : ℕ) (alive : String → Bool) (lease : Option Lease)
      → Steady env (run_round env holder ttl alive lease)
  unfolding run_round acquire
  round-Steady holder ttl alive (some lease) = run_leased-Steady (some lease)
  round-Steady holder ttl alive none = search (running, adopt-Steady, run_leased-Steady) depth 9

  release-Steady : (lease : Option Lease) → Steady env (release env lease)
  unfolding release
  release-Steady none = Runs-give env false tt
  release-Steady (some lease) = Runs-at_store env false _

  run-Steady :
      (n : ℕ) (holder : String) (ttl : ℕ) (alive : String → Bool) (lease : Option Lease)
      → Steady env (run_worker env n holder ttl alive lease)
  unfolding run_worker
  run-Steady zero holder ttl alive lease = release-Steady lease
  run-Steady (suc n) holder ttl alive lease =
      Runs-same env _ _ false (round-Steady holder ttl alive lease)
        (λ next. run-Steady n holder ttl alive next)

  -- However many rounds a worker runs from its start, whatever GitHub answers and other threads and
  -- processes do: each POST and PATCH that it sent finds its lease renewed after the POST or PATCH
  -- before it, unless that one was answered with 401.
  pub run-EachFenced :
      (n : ℕ) (holder : String) (ttl : ℕ) (alive : String → Bool) (s : Store)
      → EachFenced env
          (run_worker env n holder ttl alive none
            (record { store = s; steps = []; tick = 0 })).1.steps
  run-EachFenced n holder ttl alive s =
      ((run-Steady n holder ttl alive none).at _ tt (λ x. absurd (cc))).0
