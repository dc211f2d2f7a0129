-- ===== src/Gate/Store/Exclusion.antt =====
-- The worker lease of src/prxref/gate/store.py excludes other workers while its holder lives, whatever
-- the threads and processes call.
use prxref.Base.{
  ℕ, ◌+◌, ◌≤◌, ◌<◌, String, ◌≡◌, ◌≢◌, ◌⊎◌, inl, inr, refl, sym, subst, Bool, true, false, Option,
  none, some, List, [], ◌∷◌, arith, str_eq, str_eq_iff, any, All, Bool-cases,
}
use prxref.Gate.Exec.{Exec, ok, settle, ◌>>=◌, guard}
use prxref.Gate.Exec.Keeps.{Leads}
use prxref.Gate.Store.Rows.{LeaseRow, Store}
use prxref.Gate.Store.Fence.{is_fenced, fence}
use prxref.Gate.Store.Deliveries.{has_delivery, record_delivery, mark_delivery_handled}
use prxref.Gate.Store.Leases.{
  is_held, last_token, acquire_lease, renew_lease, can_renew, expire_at, is_holder, release_lease,
  released, set_paused,
}
use prxref.Gate.Store.Untouched.{
  SameBy, enqueue-Same, start-Same, set_check_run-Same, finish-Same, requeue_expired-Same,
  adopt_orphans-Same, record_publication-Same, cancel_pr-Same,
}
use prxref.Gate.Store.Fencing.{worker_of, worker_alone}
use prxref.Gate.Store.Calls.{
  Call, delivered, handled, enqueues, cancels, acquires, renews, releases, starts, sets_check,
  finishes, requeues, adopts, publishes, pauses, call, run,
}

module _ (holder : String) (token deadline : ℕ) where
  -- Others acquire before the deadline and find the holder alive. The holder does not acquire or
  -- release the lease, and its own renewals do not shorten it.
  abbrev pub Respects : Call → Type 0
  Respects (acquires other ttl alive now) =
      (holder ≢ other) × (alive holder ≡ true) × (now < deadline)
  Respects (renews other t ttl now) = (holder ≢ other) ⊎ (token ≢ t) ⊎ (deadline ≤ now + ttl)
  Respects (releases other t) = (holder ≢ other) ⊎ (token ≢ t)
  Respects _ = Unit {0}

  -- The row is the holder's, under its token, and runs to the deadline at least.
  abbrev Holds : Option LeaseRow → Type 0
  Holds none = ⊥
  Holds (some row) = (row.holder ≡ holder) × (row.token ≡ token) × (deadline ≤ row.expires_at)

  acquire_held :
      (other : String) (ttl : ℕ) (alive : String → Bool) (now : ℕ) (s : Store)
      → Holds s.worker
      → holder ≢ other
      → alive holder ≡ true
      → now < deadline
      → acquire_lease other ttl alive now s ≡ (ok none, s)
  unfolding acquire_lease settle is_held
  acquire_held other ttl alive now s h differs up early = rw (held s.worker h) refl
    where
      held : (o : Option LeaseRow) → Holds o → is_held other alive now o ≡ true
      held none k = elim k [ ]
      held (some row) (e, t, d) =
          let apart : str_eq row.holder other ≡ false =
            ground (arith, str_eq_iff row.holder other) in
          let lives : alive row.holder ≡ true = rw e up in ground arith

  fence_held :
      (later : ℕ) (s : Store) → Holds s.worker → later < deadline → fence token later s ≡ (ok tt, s)
  unfolding fence is_fenced ◌>>=◌ guard
  fence_held later s h early = rw (fenced s.worker h) refl
    where
      fenced : (o : Option LeaseRow) → Holds o → is_fenced token later o ≡ true
      fenced none k = elim k [ ]
      fenced (some row) k = ground arith

  other_holder :
      (other : String) (t : ℕ) (row : LeaseRow)
      → (holder ≢ other) ⊎ (token ≢ t)
      → Holds (some row)
      → is_holder other t row ≡ false
  unfolding is_holder
  other_holder other t row (inl differs) (e, f, d) = ground (arith, str_eq_iff row.holder other)
  other_holder other t row (inr differs) (e, f, d) = ground arith

  acquire-Holds :
      (other : String) (ttl : ℕ) (alive : String → Bool) (now : ℕ) (s : Store)
      → Respects (acquires other ttl alive now)
      → Holds s.worker
      → Holds (acquire_lease other ttl alive now s).1.worker
  acquire-Holds other ttl alive now s (differs, up, early) h =
      subst (λ r. Holds r.1.worker) (sym (acquire_held other ttl alive now s h differs up early)) h

  expire-Holds :
      (other : String) (t ttl now : ℕ) (o : Option LeaseRow)
      → Respects (renews other t ttl now)
      → Holds o
      → can_renew other t now o ≡ true
      → Holds (expire_at (now + ttl) o)
  unfolding can_renew
  expire-Holds other t ttl now none r h c = h
  expire-Holds other t ttl now (some row) (inl differs) h c =
      let absurd : ⊥ = ground (arith, other_holder other t row (inl differs) h) in elim absurd [ ]
  expire-Holds other t ttl now (some row) (inr (inl differs)) h c =
      let absurd : ⊥ = ground (arith, other_holder other t row (inr differs) h) in elim absurd [ ]
  expire-Holds other t ttl now (some row) (inr (inr longer)) (e, f, d) c = (e, f, longer)

  renew-Holds :
      (other : String) (t ttl now : ℕ) (s : Store)
      → Respects (renews other t ttl now)
      → Holds s.worker
      → Holds (renew_lease other t ttl now s).1.worker
  unfolding renew_lease settle
  renew-Holds other t ttl now s r h = elim (Bool-cases (can_renew other t now s.worker)) [
    | inl c ↦
        subst (λ x. Holds x.worker) (sym (renewed c)) (expire-Holds other t ttl now s.worker r h c)
    | inr c ↦ subst (λ x. Holds x.worker) (sym (stayed c)) h
  ]
    where
      renewed :
          can_renew other t now s.worker ≡ true
          → (renew_lease other t ttl now s).1 ≡ record s { worker = expire_at (now + ttl) s.worker }
      renewed c = rw c refl

      stayed : can_renew other t now s.worker ≡ false → (renew_lease other t ttl now s).1 ≡ s
      stayed c = rw c refl

  released-Holds :
      (other : String) (t : ℕ) (o : Option LeaseRow)
      → (holder ≢ other) ⊎ (token ≢ t)
      → Holds o
      → Holds (released other t o)
  unfolding released
  released-Holds other t none r h = h
  released-Holds other t (some row) r h = rw (other_holder other t row r h) h

  release-Holds :
      (other : String) (t : ℕ) (s : Store)
      → Respects (releases other t)
      → Holds s.worker
      → Holds (release_lease other t s).1.worker
  unfolding release_lease settle
  release-Holds other t s r h = released-Holds other t s.worker r h

  same-Holds :
      {A : Type 0} {m : Exec Store A}
      → Leads (SameBy worker_of) m
      → (s : Store) → Holds s.worker
      → Holds (m s).1.worker
  same-Holds k s h = subst Holds (sym (k.at s)) h

  call-Holds : (c : Call) (s : Store) → Respects c → Holds s.worker → Holds (call c s).worker
  unfolding call record_delivery mark_delivery_handled set_paused settle any
  call-Holds (delivered i e a r p now) s x h =
      subst Holds
        (sym (elim (Bool-cases (has_delivery i s.deliveries)) [
          | inl old ↦ kept_old old
          | inr new ↦ kept_new new
        ]))
        h
    where
      kept_old :
          has_delivery i s.deliveries ≡ true → (record_delivery i e a r p now s).1.worker ≡ s.worker
      kept_old old = rw old refl

      kept_new :
          has_delivery i s.deliveries ≡ false
          → (record_delivery i e a r p now s).1.worker ≡ s.worker
      kept_new new = rw new refl
  call-Holds (handled i) s x h = h
  call-Holds (enqueues r p b f g why now) s x h =
      same-Holds (enqueue-Same worker_of worker_alone r p b f g why now) s h
  call-Holds (cancels r p now) s x h =
      same-Holds (cancel_pr-Same worker_of worker_alone r p now) s h
  call-Holds (acquires other ttl alive now) s x h = acquire-Holds other ttl alive now s x h
  call-Holds (renews other t ttl now) s x h = renew-Holds other t ttl now s x h
  call-Holds (releases other t) s x h = release-Holds other t s x h
  call-Holds (starts i t e now) s x h = same-Holds (start-Same worker_of worker_alone i t e now) s h
  call-Holds (sets_check i t c e) s x h =
      same-Holds (set_check_run-Same worker_of worker_alone i t c e) s h
  call-Holds (finishes i t o c e f now) s x h =
      same-Holds (finish-Same worker_of worker_alone i t o c e f now) s h
  call-Holds (requeues t now) s x h =
      same-Holds (requeue_expired-Same worker_of worker_alone t now) s h
  call-Holds (adopts t e now) s x h =
      same-Holds (adopt_orphans-Same worker_of worker_alone t e now) s h
  call-Holds (publishes i t k g e now) s x h =
      same-Holds (record_publication-Same worker_of worker_alone i t k g e now) s h
  call-Holds (pauses b) s x h = h

  run-Holds :
      (cs : List Call) (s : Store) → All Respects cs → Holds s.worker → Holds (run cs s).worker
  unfolding run
  run-Holds [] s r h = h
  run-Holds (c ∷ cs) s (x, r) h = run-Holds cs (call c s) r (call-Holds c s x h)

acquired-Holds :
    (holder : String) (ttl : ℕ) (alive : String → Bool) (now token : ℕ) (s : Store)
    → (acquire_lease holder ttl alive now s).0 ≡ ok (some token)
    → Holds holder token (now + ttl) (acquire_lease holder ttl alive now s).1.worker
unfolding acquire_lease settle last_token
acquired-Holds holder ttl alive now token s got =
    elim (Bool-cases (is_held holder alive now s.worker)) [
      | inl held ↦ let absurd : ⊥ = ground arith in elim absurd [ ]
      | inr free ↦
          let given : last_token s.worker + 1 ≡ token = ground arith in
          rw free (refl, given, omega arith)
    ]

-- From an acquisition to the end of its time, through any calls in which the holder neither acquires
-- nor releases the lease nor renews it for a shorter time, and every other worker that tries to
-- acquire it does so before that end and finds the holder alive: the token passes the fence, and
-- another worker's `acquire_lease` that finds the holder alive gives nothing and writes nothing.
pub acquire_excludes :
    (holder : String) (ttl : ℕ) (alive : String → Bool) (now token : ℕ) (s : Store) (cs : List Call)
    (other : String) (time : ℕ) (lives : String → Bool) (later : ℕ)
    → (acquire_lease holder ttl alive now s).0 ≡ ok (some token)
    → All (Respects holder token (now + ttl)) cs
    → later < now + ttl
    → holder ≢ other
    → lives holder ≡ true
    → let t = run cs (acquire_lease holder ttl alive now s).1 in
      (fence token later t ≡ (ok tt, t)) × (acquire_lease other time lives later t ≡ (ok none, t))
acquire_excludes holder ttl alive now token s cs other time lives later got respects early differs
      up =
    let t = run cs (acquire_lease holder ttl alive now s).1 in
    let h =
      run-Holds holder token (now + ttl) cs (acquire_lease holder ttl alive now s).1 respects
        (acquired-Holds holder ttl alive now token s got) in
    (
      fence_held holder token (now + ttl) later t h early,
      acquire_held holder token (now + ttl) other time lives later t h differs up early,
    )
