-- ===== src/Gate/Worker/Ends.antt =====
-- Where `run_generation` of src/prxref/gate/worker.py returns a state, the generation's row has it.
use prxref.Base.{arith, ℕ, String, ◌≡◌, refl, sym, subst, Bool, Option, none, some}
use prxref.Gate.Exec.{Result, ok, err}
use prxref.Gate.Store.Rows.{State, Generation, Store}
use prxref.Gate.Store.Calls.{run}
use prxref.Gate.Store.Generations.{start, finish}
use prxref.Gate.Store.History.{IsValid}
use prxref.Gate.Store.Transitions.{start-Advances, finish-Advances}
use prxref.Gate.Store.Enqueue.{enqueue-Advances}
use prxref.Gate.Store.Invariant.{run-Advances}
use prxref.Gate.Store.Lifecycle.Closed.{Closed, finish-Closed, get-id, start-id}
use prxref.Gate.Binding.{LivePr, Drift, closed}
use prxref.Gate.World.{
  Fault, stale, returned, World, Report, ReviewEnd, finished, timed_out, crashed, interrupted,
  interruption, Outside, give, throw, after, ◌>>=◌, stored, at_store,
}
use prxref.Gate.World.Carries.{Carries, Carries-at_store, Carries-read_live_pr}
use prxref.Gate.Publisher.{Lease}
use prxref.Gate.Publisher.Check.{read_row}
use prxref.Gate.Publisher.CheckOnward.{
  gets-Advances, read_row-Carries, begin-Carries, fail-Carries, cancel-Carries,
}
use prxref.Gate.Publisher.CheckOnward.{onward}
use prxref.Gate.Publisher.Onward.{complete-Carries}
use prxref.Gate.Worker.{
  finish_generation, swallow, read_and_fail, publish_failed, publish_failed_unless_lost,
  enqueue_repair, repair_live, skip_repair, repair, cancel_closed, close_stale, not_bound,
  publishing_failed, fail_review, complete_review, end_review, run_review, run_bound, check_and_run,
  run_started, run_generation,
}
use prxref.Gate.Worker.Ending.{
  Ends, Gives, Reads, Ends-throw, Ends-if, Ends-bind, Ends-attempt, Ends-read, Ends-then,
  Gives-give, Gives-throw, Gives-if, Gives-bind, Gives-attempt,
}

module _ (env : Outside) where
  stored-finish :
      (i token : ℕ) (o : State) (c e : Option String) (t now : ℕ) (s : Store) (w : World)
      (st : State)
      → IsValid s
      → (after (λ _. give o) throw (stored w (finish i token o c e t now s))).0 ≡ returned st
      → (st ≡ o)
        × Closed i o (after (λ _. give o) throw (stored w (finish i token o c e t now s))).1.store
  unfolding stored give throw
  stored-finish i token o c e t now s w st v h =
      end_of (finish i token o c e t now s) h (finish-Closed i token o c e t now s v)
    where
      end_of :
          (r : Result (Unit {0}) × Store)
          → (after (λ _. give o) throw (stored w r)).0 ≡ returned st
          → (r.0 ≡ ok tt → Closed i o r.1)
          → (st ≡ o) × Closed i o (after (λ _. give o) throw (stored w r)).1.store
      end_of (ok a, x) q k = (cc, k refl)
      end_of (err f, x) q k = absurd (ground arith)

  finished_row :
      (g : Generation) (lease : Lease) (o : State) (c e : Option String) (w : World) (st : State)
      → IsValid w.store
      → (finish_generation env g lease o c e w).0 ≡ returned st
      → (st ≡ o) × Closed g.id o (finish_generation env g lease o c e w).1.store
  unfolding finish_generation at_store ◌>>=◌
  finished_row g lease o c e w st v h =
      let now = env.moment w.tick in
      stored-finish g.id lease.token o c e now.fence_now now.now (run now.calls w.store) w st
        (run-Advances now.calls w.store v).valid h

  finish_row-Carries :
      (g : Generation) (lease : Lease) (o : State) (c e : Option String)
      → Carries (finish_generation env g lease o c e)
  unfolding finish_generation
  finish_row-Carries g lease o c e = search (onward, finish-Advances) depth 9

  finish_row-Ends :
      (g : Generation) (lease : Lease) (o : State) (c e : Option String)
      → Ends g.id (finish_generation env g lease o c e)
  finish_row-Ends g lease o c e = record {
    at = λ w st v h.
        let k = finished_row g lease o c e w st v h in
        subst (λ x. Closed g.id x (finish_generation env g lease o c e w).1.store) (sym k.0) k.1;
  }

  swallow-Carries : (f : Fault) → Carries (swallow env f)
  unfolding swallow
  swallow-Carries f = search onward depth 9

  read_and_fail-Carries :
      (g : Generation) (lease : Lease) (f : Fault) → Carries (read_and_fail env g lease f)
  unfolding read_and_fail
  read_and_fail-Carries g lease f = search (onward, read_row-Carries, fail-Carries) depth 9

  ruleset ending = (
    Ends-throw, Ends-if, Ends-bind, Ends-attempt, finish_row-Ends, swallow-Carries,
    read_and_fail-Carries, read_row-Carries, begin-Carries, fail-Carries, cancel-Carries,
    complete-Carries, Carries-read_live_pr, Carries-at_store, gets-Advances,
  )

  publish_failed-Ends :
      (g : Generation) (lease : Lease) (f : Fault) → Ends g.id (publish_failed env g lease f)
  unfolding publish_failed
  publish_failed-Ends g lease f = search ending depth 9

  unless_lost-Ends :
      (g : Generation) (lease : Lease) (f : Fault)
      → Ends g.id (publish_failed_unless_lost env g lease f)
  unfolding publish_failed_unless_lost
  unless_lost-Ends g lease f = search (ending, publish_failed-Ends) depth 9

  cancel_closed-Ends : (g : Generation) (lease : Lease) → Ends g.id (cancel_closed env g lease)
  unfolding cancel_closed
  cancel_closed-Ends g lease = search (ending, unless_lost-Ends) depth 9

  ruleset giving = (
    Gives-give, Gives-throw, Gives-if, Gives-bind, Gives-attempt, Carries-read_live_pr,
    Carries-at_store, gets-Advances, enqueue-Advances, finish-Advances,
  )

  finish_row-Gives :
      (g : Generation) (lease : Lease) (o : State) (c e : Option String)
      → Gives o (finish_generation env g lease o c e)
  unfolding finish_generation
  finish_row-Gives g lease o c e = search giving depth 9

  enqueue_repair-Gives :
      (g : Generation) (live : LivePr) (b : Bool) → Gives State.stale (enqueue_repair env g live b)
  unfolding enqueue_repair
  enqueue_repair-Gives g live b = search giving depth 9

  repair-Gives : (g : Generation) (reason : Drift) → Gives State.stale (repair env g reason)
  unfolding repair repair_live skip_repair
  repair-Gives g reason = search (giving, enqueue_repair-Gives) depth 12

  close_stale-Ends :
      (g : Generation) (lease : Lease) (reason : Drift) → Ends g.id (close_stale env g lease reason)
  unfolding close_stale
  close_stale-Ends g lease reason =
      Ends-then g.id State.stale _ _ (finish_row-Ends g lease _ _ _)
        (finish_row-Gives g lease _ _ _) (λ _. repair-Gives g reason)

  not_bound-Ends :
      (g : Generation) (lease : Lease) (reason : Drift) → Ends g.id (not_bound env g lease reason)
  unfolding not_bound
  not_bound-Ends g lease closed = cancel_closed-Ends g lease
  not_bound-Ends g lease reason = close_stale-Ends g lease reason

  publishing_failed-Ends :
      (g : Generation) (lease : Lease) (f : Fault) → Ends g.id (publishing_failed env g lease f)
  unfolding publishing_failed
  publishing_failed-Ends g lease (stale reason) = not_bound-Ends g lease reason
  publishing_failed-Ends g lease f = unless_lost-Ends g lease f

  fail_review-Ends :
      (g : Generation) (lease : Lease) (why error : String)
      → Ends g.id (fail_review env g lease why error)
  unfolding fail_review
  fail_review-Ends g lease why error = search ending depth 9

  complete_review-Ends :
      (g : Generation) (lease : Lease) (r : Report) → Ends g.id (complete_review env g lease r)
  unfolding complete_review
  complete_review-Ends g lease r = search (ending, publishing_failed-Ends) depth 9

  end_review-Ends :
      (g : Generation) (lease : Lease) (e : ReviewEnd) → Ends g.id (end_review env g lease e)
  unfolding end_review
  end_review-Ends g lease (finished r) = complete_review-Ends g lease r
  end_review-Ends g lease (timed_out why) = fail_review-Ends g lease why why
  end_review-Ends g lease (crashed why error) = fail_review-Ends g lease why error
  end_review-Ends g lease interrupted = Ends-throw g.id interruption

  stored_id :
      (i : ℕ) (w : World) (r : Result Generation × Store) (g : Generation)
      → ((x : Generation) → r.0 ≡ ok x → x.id ≡ i)
      → (stored w r).0 ≡ returned g
      → g.id ≡ i
  unfolding stored
  stored_id i w (ok x, s) g k e = k g (cc)
  stored_id i w (err f, s) g k e = absurd (ground arith)

  read_row-Reads : (i : ℕ) → Reads i (read_row env i)
  unfolding read_row at_store
  read_row-Reads i = record {
    at = λ w g e. stored_id i w _ g (λ x. get-id i _ x) e;
    carries = read_row-Carries env i;
  }

  start-Reads :
      (i token : ℕ) → Reads i (at_store env (λ fence_now now. start i token fence_now now))
  unfolding at_store
  start-Reads i token = record {
    at = λ w g e. stored_id i w _ g (λ x. start-id i token _ _ _ x) e;
    carries = Carries-at_store env _ (λ t now. start-Advances i token t now);
  }

  run_review-Ends : (g : Generation) (lease : Lease) → Ends g.id (run_review env g lease)
  unfolding run_review
  run_review-Ends g lease =
      Ends-read g.id _ _ (read_row-Reads g.id) (λ row. end_review-Ends row lease (env.review row))

  run_bound-Ends :
      (g : Generation) (lease : Lease) (reason : Option Drift)
      → Ends g.id (run_bound env g lease reason)
  unfolding run_bound
  run_bound-Ends g lease (some reason) = not_bound-Ends g lease reason
  run_bound-Ends g lease none = search (ending, run_review-Ends, publishing_failed-Ends) depth 9

  run_started-Ends : (g : Generation) (lease : Lease) → Ends g.id (run_started env g lease)
  unfolding run_started check_and_run
  run_started-Ends g lease = search (ending, run_bound-Ends, unless_lost-Ends) depth 9

  run_generation-Ends : (i : ℕ) (lease : Lease) → Ends i (run_generation env i lease)
  unfolding run_generation
  run_generation-Ends i lease =
      Ends-read i _ _ (start-Reads i lease.token) (λ g. run_started-Ends g lease)

  -- From a valid database, and whatever GitHub answers and other threads and processes do: where
  -- `run_generation` returns a state, the generation's row has that state, and is neither queued nor
  -- in progress.
  pub run_generation-Closed :
      (i : ℕ) (lease : Lease) (w : World) (st : State)
      → IsValid w.store
      → (run_generation env i lease w).0 ≡ returned st
      → Closed i st (run_generation env i lease w).1.store
  run_generation-Closed i lease = (run_generation-Ends i lease).at
