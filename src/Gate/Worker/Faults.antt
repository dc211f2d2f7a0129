-- ===== src/Gate/Worker/Faults.antt =====
-- What `run_generation` of src/prxref/gate/worker.py may raise: errors of the store, and what ended a
-- review that no handler catches.
use prxref.Base.{
  refl, ◌⊎◌, inl, inr, arith, ℕ, String, ◌≡◌, Bool, true, false, Option, none, some, if◌then◌else◌,
}
use prxref.Gate.Exec.{Error, lease_lost, Exec, Result, ok, err}
use prxref.Gate.Store.Rows.{State, Generation, Store}
use prxref.Gate.Binding.{LivePr, Drift, closed}
use prxref.Gate.World.{
  Fault, store_error, stale, Outcome, returned, raised, World, ReviewEnd, finished, timed_out,
  crashed, interrupted, interruption, Outside, Act, give, throw, after, ◌>>=◌, attempt, stored,
  at_store,
}
use prxref.Gate.Publisher.{Lease}
use prxref.Gate.Publisher.Check.{read_row}
use prxref.Gate.Worker.{
  is_lease_lost, finish_generation, swallow, publish_failed, publish_failed_unless_lost,
  enqueue_repair, repair_live, skip_repair, repair, cancel_closed, close_stale, not_bound,
  publishing_failed, fail_review, complete_review, end_review, run_review, run_bound, check_and_run,
  run_started, run_generation,
}

-- An error of the store, or the interruption that ended a review.
abbrev pub Expected : Outside → Fault → Type 0
Expected env f =
    ((e : Error) × (f ≡ store_error e))
    ⊎ ((f ≡ interruption) × ((g : Generation) × (env.review g ≡ interrupted)))

-- The exceptions of `m` are expected.
pub record Contained (env : Outside) {A : Type 0} (m : Act A) : Type 0 where
  pub at : (w : World) (f : Fault) → (m w).0 ≡ raised f → Expected env f

module _ (env : Outside) {A : Type 0} where
  Contained-give : (a : A) → Contained env (give a)
  unfolding give
  Contained-give a = record { at = λ w f e. absurd (ground arith) }

  Contained-throw : (e : Error) → Contained env (throw {A = A} (store_error e))
  unfolding throw
  Contained-throw e = record { at = λ w f h. inl (e, cc) }

  stored_only :
      (w : World) (r : Result A × Store) (f : Fault) → (stored w r).0 ≡ raised f → Expected env f
  unfolding stored
  stored_only w (ok a, s) f h = absurd (ground arith)
  stored_only w (err e, s) f h = inl (e, cc)

  Contained-at_store : (m : ℕ → ℕ → Exec Store A) → Contained env (at_store env m)
  unfolding at_store
  Contained-at_store m = record { at = λ w f h. stored_only w _ f h }

  Contained-if :
      (b : Bool) (m n : Act A)
      → Contained env m
      → Contained env n
      → Contained env (if b then m else n)
  Contained-if true m n p q = p
  Contained-if false m n p q = q

module _ (env : Outside) {A B : Type 0} where
  after_raise :
      (k : A → Act B) (w : World) (f : Fault)
      → (r : Outcome A × World) → ((a : A) → Contained env (k a))
      → ((g : Fault) → r.0 ≡ raised g → Expected env g)
      → (after k throw r).0 ≡ raised f
      → Expected env f
  unfolding throw
  after_raise k w f (returned a, v) p q h = (p a).at v f h
  after_raise k w f (raised g, v) p q h = q f (cc)

  Contained-bind :
      (m : Act A) (k : A → Act B)
      → Contained env m
      → ((a : A) → Contained env (k a))
      → Contained env (m >>= k)
  unfolding ◌>>=◌
  Contained-bind m k c p = record { at = λ w f h. after_raise k w f (m w) p (c.at w) h }

  after_handled :
      (k : A → Act B) (h : Fault → Act B) (f : Fault) (r : Outcome A × World)
      → ((a : A) → Contained env (k a))
      → ((g : Fault) → Contained env (h g))
      → (after k h r).0 ≡ raised f
      → Expected env f
  after_handled k h f (returned a, v) p q e = (p a).at v f e
  after_handled k h f (raised g, v) p q e = (q g).at v f e

  -- What the body raises is handled.
  Contained-attempt :
      (m : Act A) (k : A → Act B) (h : Fault → Act B)
      → ((a : A) → Contained env (k a))
      → ((f : Fault) → Contained env (h f))
      → Contained env (attempt m k h)
  unfolding attempt
  Contained-attempt m k h p q = record { at = λ w f e. after_handled k h f (m w) p q e }

-- What ended a review passes the handlers.
Contained-interrupt :
    (env : Outside) {A : Type 0} (g : Generation)
    → env.review g ≡ interrupted
    → Contained env (throw {A = A} interruption)
unfolding throw
Contained-interrupt env g h = record { at = λ w f e. inr (cc, (g, h)) }

-- `except LeaseLost: raise` raises a LeaseLost.
Contained-unless_lost :
    (env : Outside) {A : Type 0} (f : Fault) (m : Act A)
    → Contained env m
    → Contained env (if is_lease_lost f then throw f else m)
unfolding is_lease_lost
Contained-unless_lost env (store_error lease_lost) m p = Contained-throw env lease_lost
Contained-unless_lost env (store_error _) m p = p
Contained-unless_lost env _ m p = p

ruleset storing =
    (Contained-give, Contained-at_store, Contained-bind, Contained-attempt, Contained-unless_lost)

module _ (env : Outside) where
  finish_row-Only :
      (g : Generation) (lease : Lease) (o : State) (c e : Option String)
      → Contained env (finish_generation env g lease o c e)
  unfolding finish_generation
  finish_row-Only g lease o c e = search storing depth 9

  swallow-Only : (f : Fault) → Contained env (swallow env f)
  unfolding swallow
  swallow-Only f = search storing depth 9

  publish_failed-Only :
      (g : Generation) (lease : Lease) (f : Fault) → Contained env (publish_failed env g lease f)
  unfolding publish_failed
  publish_failed-Only g lease f = search (storing, finish_row-Only, swallow-Only) depth 9

  unless_lost-Only :
      (g : Generation) (lease : Lease) (f : Fault)
      → Contained env (publish_failed_unless_lost env g lease f)
  unfolding publish_failed_unless_lost
  unless_lost-Only g lease f = Contained-unless_lost env f _ (publish_failed-Only g lease f)

  enqueue_repair-Only :
      (g : Generation) (live : LivePr) (b : Bool) → Contained env (enqueue_repair env g live b)
  unfolding enqueue_repair
  enqueue_repair-Only g live b = search (storing, Contained-if) depth 9

  skip_repair-Only : (f : Fault) → Contained env (skip_repair env f)
  unfolding skip_repair
  skip_repair-Only f = Contained-unless_lost env f _ (Contained-give env State.stale)

  repair-Only : (g : Generation) (reason : Drift) → Contained env (repair env g reason)
  unfolding repair repair_live
  repair-Only g reason =
      search (storing, Contained-if, enqueue_repair-Only, skip_repair-Only) depth 12

  not_bound-Only :
      (g : Generation) (lease : Lease) (reason : Drift)
      → Contained env (not_bound env g lease reason)
  unfolding not_bound cancel_closed close_stale
  not_bound-Only g lease closed = search (storing, finish_row-Only, unless_lost-Only) depth 9
  not_bound-Only g lease reason =
      Contained-bind env _ _ (finish_row-Only g lease _ _ _) (λ _. repair-Only g reason)

  publishing_failed-Only :
      (g : Generation) (lease : Lease) (f : Fault) → Contained env (publishing_failed env g lease f)
  unfolding publishing_failed
  publishing_failed-Only g lease (stale reason) = not_bound-Only g lease reason
  publishing_failed-Only g lease f = unless_lost-Only g lease f

  fail_review-Only :
      (g : Generation) (lease : Lease) (why error : String)
      → Contained env (fail_review env g lease why error)
  unfolding fail_review
  fail_review-Only g lease why error = search (storing, finish_row-Only, swallow-Only) depth 9

  end_review-Only :
      (g : Generation) (lease : Lease) (e : ReviewEnd)
      → env.review g ≡ e
      → Contained env (end_review env g lease e)
  unfolding end_review complete_review
  end_review-Only g lease (finished r) h =
      search (storing, finish_row-Only, publishing_failed-Only) depth 9
  end_review-Only g lease (timed_out why) h = fail_review-Only g lease why why
  end_review-Only g lease (crashed why error) h = fail_review-Only g lease why error
  end_review-Only g lease interrupted h = Contained-interrupt env g h

  run_review-Only : (g : Generation) (lease : Lease) → Contained env (run_review env g lease)
  unfolding run_review read_row
  run_review-Only g lease =
      Contained-bind env _ _ (Contained-at_store env _)
        (λ row. end_review-Only row lease (env.review row) refl)

  run_bound-Only :
      (g : Generation) (lease : Lease) (reason : Option Drift)
      → Contained env (run_bound env g lease reason)
  unfolding run_bound
  run_bound-Only g lease (some reason) = not_bound-Only g lease reason
  run_bound-Only g lease none = search (storing, run_review-Only, publishing_failed-Only) depth 9

  run_generation-Only : (i : ℕ) (lease : Lease) → Contained env (run_generation env i lease)
  unfolding run_generation run_started check_and_run
  run_generation-Only i lease = search (storing, run_bound-Only, unless_lost-Only) depth 12

  -- Whatever GitHub answers, and whatever other threads and processes do: what `run_generation`
  -- raises is an error of the store, or the `BaseException` that ended a review and is no
  -- `Exception`; never a `GitHubError`, a `Stale` or an error on a reply.
  pub run_generation-raises :
      (i : ℕ) (lease : Lease) (w : World) (f : Fault)
      → (run_generation env i lease w).0 ≡ raised f
      → Expected env f
  run_generation-raises i lease = (run_generation-Only i lease).at
