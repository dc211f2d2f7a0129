-- ===== src/Gate/Store/Fencing.antt =====
-- The fencing token of src/prxref/gate/store.py: it only grows, so a worker whose lease another
-- process took over can write nothing any more.
use prxref.Base.{
  ℕ, ◌+◌, ◌≤◌, ◌<◌, String, ◌≡◌, refl, Bool, true, false, Option, some, List, arith, if◌then◌else◌,
  Bool-cases, inl, inr, str_eq_iff,
}
use prxref.Gate.Exec.{Exec, ok, err, lease_lost, state_error, tx, settle, ◌>>=◌, guard}
use prxref.Gate.Exec.Keeps.{Leads}
use prxref.Gate.Store.Rows.{State, LeaseRow, Store, is_final}
use prxref.Gate.Store.Fence.{is_fenced, fence}
use prxref.Gate.Store.Deliveries.{record_delivery, mark_delivery_handled}
use prxref.Gate.Store.Leases.{
  last_token, acquire_lease, renew_lease, can_renew, release_lease, released, set_paused,
}
use prxref.Gate.Store.Publications.{record_publication}
use prxref.Gate.Store.Generations.{start, set_check_run, finish, adopt_orphans}
use prxref.Gate.Store.Untouched.{
  Ignores, SameBy, enqueue-Same, start-Same, set_check_run-Same, finish-Same, requeue_expired-Same,
  adopt_orphans-Same, record_publication-Same, cancel_pr-Same,
}
use prxref.Gate.Store.Calls.{
  Call, delivered, handled, enqueues, cancels, acquires, renews, releases, starts, sets_check,
  finishes, requeues, adopts, publishes, pauses, call, run, run_induction,
}

abbrev TokenGrows : Store → Store → Type 0
TokenGrows s t = last_token s.worker ≤ last_token t.worker

abbrev pub worker_of : Store → Option LeaseRow
worker_of s = s.worker

pub worker_alone : Ignores worker_of
worker_alone s gs n ps = refl

same_lease :
    {A : Type 0} {m : Exec Store A}
    → Leads (SameBy worker_of) m
    → (s : Store) → TokenGrows s (m s).1
same_lease k s = rw (k.at s) (omega arith)

call-TokenGrows : (c : Call) (s : Store) → TokenGrows s (call c s)
unfolding call record_delivery mark_delivery_handled acquire_lease renew_lease release_lease
    set_paused settle last_token released
call-TokenGrows (delivered i e a r p now) s = ground arith
call-TokenGrows (handled i) s = omega arith
call-TokenGrows (enqueues r p h b f why now) s =
    same_lease (enqueue-Same worker_of worker_alone r p h b f why now) s
call-TokenGrows (cancels r p now) s = same_lease (cancel_pr-Same worker_of worker_alone r p now) s
call-TokenGrows (acquires holder ttl alive now) s = ground arith
call-TokenGrows (renews holder token ttl now) s = ground arith
call-TokenGrows (releases holder token) s = ground arith
call-TokenGrows (starts i token t now) s =
    same_lease (start-Same worker_of worker_alone i token t now) s
call-TokenGrows (sets_check i token c t) s =
    same_lease (set_check_run-Same worker_of worker_alone i token c t) s
call-TokenGrows (finishes i token o c e t now) s =
    same_lease (finish-Same worker_of worker_alone i token o c e t now) s
call-TokenGrows (requeues t now) s =
    same_lease (requeue_expired-Same worker_of worker_alone t now) s
call-TokenGrows (adopts token t now) s =
    same_lease (adopt_orphans-Same worker_of worker_alone token t now) s
call-TokenGrows (publishes i token k g t now) s =
    same_lease (record_publication-Same worker_of worker_alone i token k g t now) s
call-TokenGrows (pauses b) s = omega arith

-- Whatever is called, the token of the worker lease never falls.
pub run-TokenGrows :
    (cs : List Call) (s : Store) → last_token s.worker ≤ last_token (run cs s).worker
run-TokenGrows =
    run_induction TokenGrows (λ s. omega arith) (λ s t u p q. omega (arith, p, q)) call-TokenGrows

-- A token below the lease's own passes no fence.
fence_stale :
    (token now : ℕ) (s : Store)
    → token < last_token s.worker
    → fence token now s ≡ (err lease_lost, s)
unfolding fence is_fenced last_token ◌>>=◌ guard
fence_stale token now s h = ground arith

-- What a worker may do only under its lease.
pub record IsFencedOut (token : ℕ) (s : Store) : Type 0 where
  pub no_start : (i t now : ℕ) → start i token t now s ≡ (err lease_lost, s)
  pub no_check : (i c t : ℕ) → set_check_run i token c t s ≡ (err lease_lost, s)
  pub no_finish :
      (i : ℕ) (outcome : State) (c e : Option String) (t now : ℕ)
      → finish i token outcome c e t now s
        ≡ (err (if is_final outcome then lease_lost else state_error), s)
  pub no_adopt : (t now : ℕ) → adopt_orphans token t now s ≡ (err lease_lost, s)
  pub no_publication :
      (i : ℕ) (kind : String) (g t now : ℕ)
      → record_publication i token kind g t now s ≡ (err lease_lost, s)
  pub no_renewal :
      (holder : String) (ttl now : ℕ) → renew_lease holder token ttl now s ≡ (ok false, s)

stale-IsFencedOut : (token : ℕ) (s : Store) → token < last_token s.worker → IsFencedOut token s
unfolding start set_check_run finish adopt_orphans record_publication renew_lease can_renew
    last_token tx settle ◌>>=◌ guard
stale-IsFencedOut token s h = record {
  no_start = λ i t now. rw (fence_stale token t s h) refl;
  no_check = λ i c t. rw (fence_stale token t s h) refl;
  no_finish = λ i outcome c e t now. elim (Bool-cases (is_final outcome)) [
    | inl final ↦ rw (final, fence_stale token t s h) refl
    | inr open_ended ↦ rw open_ended refl
  ];
  no_adopt = λ t now. rw (fence_stale token t s h) refl;
  no_publication = λ i kind g t now. rw (fence_stale token t s h) refl;
  no_renewal = λ holder ttl now. ground arith;
}

acquired :
    (holder : String) (ttl : ℕ) (alive : String → Bool) (now token : ℕ) (s : Store)
    → (acquire_lease holder ttl alive now s).0 ≡ ok (some token)
    → last_token (acquire_lease holder ttl alive now s).1.worker ≡ last_token s.worker + 1
unfolding acquire_lease settle last_token
acquired holder ttl alive now token s got = ground arith

-- A lease that was taken over: whatever happens after the acquisition, every fenced method refuses
-- each token that was issued before it, and writes nothing.
pub acquire_fences_out :
    (holder : String) (ttl : ℕ) (alive : String → Bool) (now token old : ℕ) (s : Store)
    (cs : List Call)
    → (acquire_lease holder ttl alive now s).0 ≡ ok (some token)
    → old ≤ last_token s.worker
    → IsFencedOut old (run cs (acquire_lease holder ttl alive now s).1)
acquire_fences_out holder ttl alive now token old s cs got h =
    let t = (acquire_lease holder ttl alive now s).1 in
    stale-IsFencedOut old (run cs t)
      (omega (arith, run-TokenGrows cs t, acquired holder ttl alive now token s got))

-- Right after an acquisition its token passes the fence until the lease's time is over, and the
-- holder can renew it.
pub acquire_admits :
    (holder : String) (ttl : ℕ) (alive : String → Bool) (now token later : ℕ) (s : Store)
    → (acquire_lease holder ttl alive now s).0 ≡ ok (some token)
    → later < now + ttl
    → let t = (acquire_lease holder ttl alive now s).1 in
      (fence token later t ≡ (ok tt, t)) × ((renew_lease holder token ttl later t).0 ≡ ok true)
unfolding acquire_lease settle fence is_fenced guard ◌>>=◌ renew_lease can_renew
acquire_admits holder ttl alive now token later s got h =
    (ground arith, ground (arith, str_eq_iff holder holder))
