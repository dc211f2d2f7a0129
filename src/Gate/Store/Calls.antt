-- ===== src/Gate/Store/Calls.antt =====
-- Any interleaving of the threads and processes that share the database of
-- src/prxref/gate/store.py: each method is one transaction, so a run is a sequence of calls.
use prxref.Base.{ℕ, String, Bool, Option, List, [], ◌∷◌}
use prxref.Gate.Store.Rows.{State, Store}
use prxref.Gate.Store.Deliveries.{record_delivery, mark_delivery_handled}
use prxref.Gate.Store.Leases.{acquire_lease, renew_lease, release_lease, set_paused}
use prxref.Gate.Store.Generations.{
  enqueue, cancel_pr, start, set_check_run, finish, requeue_expired, adopt_orphans,
}
use prxref.Gate.Store.Publications.{record_publication}

-- A call of a method that writes, with its arguments and the clock's readings.
pub data Call : Type 0 where
  delivered : String → String → Option String → String → Option ℕ → ℕ → Call
  handled : String → Call
  enqueues : String → ℕ → String → String → String → String → ℕ → Call
  cancels : String → ℕ → ℕ → Call
  acquires : String → ℕ → (String → Bool) → ℕ → Call
  renews : String → ℕ → ℕ → ℕ → Call
  releases : String → ℕ → Call
  starts : ℕ → ℕ → ℕ → ℕ → Call
  sets_check : ℕ → ℕ → ℕ → ℕ → Call
  finishes : ℕ → ℕ → State → Option String → Option String → ℕ → ℕ → Call
  requeues : ℕ → ℕ → Call
  adopts : ℕ → ℕ → ℕ → Call
  publishes : ℕ → ℕ → String → ℕ → ℕ → ℕ → Call
  pauses : Bool → Call

-- The database after a call, whether it returned or raised.
unfoldable pub call : Call → Store → Store
call (delivered i e a r p now) s = (record_delivery i e a r p now s).1
call (handled i) s = (mark_delivery_handled i s).1
call (enqueues r p h b f why now) s = (enqueue r p h b f why now s).1
call (cancels r p now) s = (cancel_pr r p now s).1
call (acquires holder ttl alive now) s = (acquire_lease holder ttl alive now s).1
call (renews holder token ttl now) s = (renew_lease holder token ttl now s).1
call (releases holder token) s = (release_lease holder token s).1
call (starts i token t now) s = (start i token t now s).1
call (sets_check i token c t) s = (set_check_run i token c t s).1
call (finishes i token o c e t now) s = (finish i token o c e t now s).1
call (requeues t now) s = (requeue_expired t now s).1
call (adopts token t now) s = (adopt_orphans token t now s).1
call (publishes i token k g t now) s = (record_publication i token k g t now s).1
call (pauses b) s = (set_paused b s).1

-- The first call of the list comes first.
unfoldable pub run : List Call → Store → Store
run [] s = s
run (c ∷ cs) s = run cs (call c s)

-- What every call keeps, every run keeps.
module _ (R : Store → Store → Type 0) (stay : (s : Store) → R s s)
    (chain : (s t u : Store) → R s t → R t u → R s u)
    (step : (c : Call) (s : Store) → R s (call c s)) where
  pub run_induction : (cs : List Call) (s : Store) → R s (run cs s)
  unfolding run
  run_induction [] s = stay s
  run_induction (c ∷ cs) s =
      chain s (call c s) (run cs (call c s)) (step c s) (run_induction cs (call c s))
