-- ===== src/Gate/Store/Tests.antt =====
-- Runs of the store of src/prxref/gate/store.py on small databases, and instances of its theorems.
use prxref.Base.{
  String, ◌≢◌, inr, ℕ, ◌≤◌, ◌≡◌, refl, false≢true, true, false, none, some, List, [], ◌∷◌, arith,
  str_eq, str_eq_iff, any, count_where, keep, best,
}
use prxref.Gate.Exec.{ok, err, state_error, ◌>>=◌, tx, settle}
use prxref.Gate.Store.Rows.{
  State, queued, in_progress, completed, superseded, Generation, Store, empty_store, is_final,
  is_live, is_queued, is_in_progress, find_id, max_gen, same_pr, update_where,
}
use prxref.Gate.Store.Fence.{is_fenced, fence, update, get}
use prxref.Gate.Store.Deliveries.{record_delivery}
use prxref.Gate.Store.Leases.{acquire_lease, renew_lease, last_token, is_held}
use prxref.Gate.Store.Queries.{next_queued, is_newest}
use prxref.Gate.Store.Generations.{
  enqueue, enqueue_tx, insert, supersede, start, finish, adopt_orphans,
}
use prxref.Gate.Store.History.{IsValid}
use prxref.Gate.Store.Calls.{Call, enqueues, acquires, renews, starts, run}
use prxref.Gate.Store.Invariant.{reachable-IsValid, run-frozen, queued_unique}
use prxref.Gate.Store.Fencing.{IsFencedOut, run-TokenGrows, acquire_fences_out, acquire_admits}
use prxref.Gate.Store.Exclusion.{acquire_excludes}
use prxref.Gate.Store.Enqueue.{new_row, enqueued, enqueue_lem}
use prxref.Gate.Store.Once.{record_delivery_once}
use prxref.Gate.Store.Lifecycle.{start_lem, finish_lem}
use prxref.Gate.Store.Queue.{next_queued-oldest}
use prxref.Gate.Store.Requeue.{adopt_orphans_fate}

-- A queued review of one pull request, and a newer push while it runs.
abbrev pub row : ℕ → ℕ → State → Generation
row i n state_now = record {
  id = i;
  repo = "acme/shop";
  pr_number = 7;
  head_sha = "aaa";
  base_sha = "bbb";
  base_ref = "main";
  gen = n;
  reason = "opened";
  state = state_now;
  created_at = 10;
  started_at = none;
  finished_at = none;
  check_run_id = none;
  external_id = some i;
  conclusion = none;
  error = none;
  attempts = 0;
}

abbrev pub leased : List Generation → Store
leased gs = record {
  deliveries = [];
  generations = gs;
  seq = 2;
  worker = some (record { holder = "mac:1"; token = 3; expires_at = 100 });
  paused = none;
  publications = [];
}

-- Generation 1 runs and was overtaken by generation 2, which waits.
abbrev pub overtaken : Store
overtaken = leased (row 2 2 queued ∷ row 1 1 in_progress ∷ [])

pub overtaken-IsValid : IsValid overtaken
unfolding max_gen same_pr str_eq is_queued
overtaken-IsValid = record {
  ordered = omega arith;
  queued_newest = (λ _. omega arith, (λ h. absurd (false≢true h), tt));
}

abbrev history : List Call
history =
    enqueues "acme/shop" 7 "aaa" "bbb" "main" "opened" 10
    ∷ acquires "mac:1" 90 (λ _. true) 10
    ∷ starts 1 1 11 11
    ∷ enqueues "acme/shop" 7 "ccc" "bbb" "main" "synchronize" 12
    ∷ []

reachable-IsValid_example : IsValid (run history empty_store)
reachable-IsValid_example = reachable-IsValid history

run-frozen_example :
    (h : Generation) × (find_id 1
        (run history (leased (row 2 2 queued ∷ row 1 1 completed ∷ []))).generations
      ≡ some h)
    × (h ≡ record (row 1 1 completed) { check_run_id = h.check_run_id })
unfolding find_id is_live max_gen same_pr str_eq is_queued
run-frozen_example =
    run-frozen history (leased (row 2 2 queued ∷ row 1 1 completed ∷ [])) 1 (row 1 1 completed)
      (record {
        ordered = omega arith;
        queued_newest = (λ _. omega arith, (λ h. absurd (false≢true h), tt));
      })
      refl refl

queued_unique_example : ◌≡◌ {A = ℕ} 2 2
unfolding find_id is_queued run
queued_unique_example =
    queued_unique [] overtaken 2 2 (row 2 2 queued) (row 2 2 queued) overtaken-IsValid refl refl
      refl refl refl refl

-- Another process takes the lease over after it ran out; the first holder's token 3 is dead.
acquire_fences_out_example :
    IsFencedOut 3 (run history (acquire_lease "mac:2" 90 (λ _. true) 200 overtaken).1)
unfolding acquire_lease is_held str_eq last_token
acquire_fences_out_example =
    acquire_fences_out "mac:2" 90 (λ _. true) 200 4 3 overtaken history refl (omega arith)

-- Another worker tries to acquire the lease, and the holder renews it.
abbrev attempts : List Call
attempts = acquires "mac:3" 90 (λ _. true) 220 ∷ renews "mac:2" 4 90 230 ∷ []

acquire_excludes_example :
    let t = run attempts (acquire_lease "mac:2" 90 (λ _. true) 200 overtaken).1 in
    (fence 4 280 t ≡ (ok tt, t)) × (acquire_lease "mac:3" 90 (λ _. true) 280 t ≡ (ok none, t))
unfolding acquire_lease is_held str_eq last_token
acquire_excludes_example =
    acquire_excludes "mac:2" 90 (λ _. true) 200 4 overtaken attempts "mac:3" 90 (λ _. true) 280 refl
      ((apart, refl, omega arith), (inr (inr (omega arith)), tt)) (omega arith) apart refl
  where
    apart : ◌≢◌ {A = String} "mac:2" "mac:3"
    apart e = false≢true ((str_eq_iff "mac:2" "mac:3").1 e)

acquire_admits_example :
    let t = (acquire_lease "mac:2" 90 (λ _. true) 200 overtaken).1 in
    (fence 4 250 t ≡ (ok tt, t)) × ((renew_lease "mac:2" 4 90 250 t).0 ≡ ok true)
unfolding acquire_lease is_held str_eq last_token
acquire_admits_example =
    acquire_admits "mac:2" 90 (λ _. true) 200 4 250 overtaken refl (omega arith)

run-TokenGrows_example : 3 ≤ last_token (run history overtaken).worker
unfolding last_token
run-TokenGrows_example = run-TokenGrows history overtaken

enqueue_lem_example : enqueue "acme/shop" 7 "ccc" "bbb" "main" "synchronize" 12 overtaken ≡ (
  ok (new_row "acme/shop" 7 "ccc" "bbb" "main" "synchronize" 12 overtaken),
  enqueued "acme/shop" 7 "ccc" "bbb" "main" "synchronize" 12 overtaken,
)
enqueue_lem_example =
    enqueue_lem "acme/shop" 7 "ccc" "bbb" "main" "synchronize" 12 overtaken overtaken-IsValid

-- The queued row was superseded, and the new one is number 3.
enqueued_run :
    (enqueue "acme/shop" 7 "ccc" "bbb" "main" "synchronize" 12 overtaken).1.generations
    ≡ record (row 3 3 queued) { head_sha = "ccc"; reason = "synchronize"; created_at = 12 }
      ∷ record (row 2 2 superseded) { finished_at = some 12 }
      ∷ row 1 1 in_progress
      ∷ []
unfolding enqueue enqueue_tx tx settle ◌>>=◌ update insert get supersede update_where find_id
    max_gen same_pr str_eq is_queued any count_where
enqueued_run = refl

record_delivery_once_example :
    let t =
      run history
        (record_delivery "d-1" "pull_request" (some "opened") "acme/shop" (some 7) 5 overtaken).1 in
    record_delivery "d-1" "pull_request" (some "opened") "acme/shop" (some 7) 900 t ≡ (ok false, t)
record_delivery_once_example =
    record_delivery_once "d-1" "pull_request" "pull_request" (some "opened") (some "opened")
      "acme/shop" "acme/shop" (some 7) (some 7) 5 900 overtaken history

abbrev running : Generation
running = record (row 2 2 in_progress) { started_at = some 51; attempts = 1 }

start_lem_example :
    start 2 3 50 51 overtaken ≡ (ok running, leased (running ∷ row 1 1 in_progress ∷ []))
unfolding is_fenced is_queued find_id update_where
start_lem_example = start_lem 2 3 50 51 overtaken (row 2 2 queued) overtaken-IsValid refl

finish_lem_example : (finish 1 3 queued none none 50 51 overtaken) ≡ (err state_error, overtaken)
unfolding is_final find_id
finish_lem_example =
    finish_lem 1 3 queued none none 50 51 overtaken (row 1 1 in_progress) overtaken-IsValid refl

next_queued-oldest_example : (is_queued (row 2 2 queued).state ≡ true) × (2 ≤ 2)
unfolding next_queued find_id is_queued best keep is_newest max_gen same_pr str_eq
next_queued-oldest_example =
    next_queued-oldest overtaken overtaken-IsValid (row 2 2 queued) (row 2 2 queued) 2 refl refl
      refl

adopt_orphans_fate_example :
    find_id 1 (adopt_orphans 3 50 51 overtaken).1.generations
    ≡ some (record (row 1 1 superseded) { finished_at = some 51 })
unfolding find_id is_fenced is_in_progress max_gen same_pr str_eq
adopt_orphans_fate_example = adopt_orphans_fate 3 50 51 1 overtaken (row 1 1 in_progress) refl refl
