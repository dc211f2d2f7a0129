-- ===== src/Gate/Store/Once.antt =====
-- A webhook delivery is taken once: `record_delivery` of src/prxref/gate/store.py.
use prxref.Base.{
  ℕ, String, ◌≡◌, refl, true, false, Option, List, [], ◌∷◌, map, arith, any, str_eq_refl,
}
use prxref.Gate.Exec.{Exec, ok, settle}
use prxref.Gate.Exec.Keeps.{Leads}
use prxref.Gate.Store.Rows.{Delivery, Store}
use prxref.Gate.Store.Deliveries.{has_delivery, record_delivery, set_handled, mark_delivery_handled}
use prxref.Gate.Store.Leases.{acquire_lease, renew_lease, release_lease, set_paused}
use prxref.Gate.Store.Untouched.{
  Ignores, SameBy, enqueue-Same, start-Same, set_check_run-Same, finish-Same, requeue_expired-Same,
  adopt_orphans-Same, record_publication-Same, cancel_pr-Same,
}
use prxref.Gate.Store.Calls.{
  Call, delivered, handled, enqueues, cancels, acquires, renews, releases, starts, sets_check,
  finishes, requeues, adopts, publishes, pauses, call, run, run_induction,
}

abbrev deliveries_of : Store → List Delivery
deliveries_of s = s.deliveries

deliveries_alone : Ignores deliveries_of
deliveries_alone s gs n ps = refl

module _ (id : String) where
  -- A recorded delivery stays recorded.
  abbrev pub Remembers : Store → Store → Type 0
  Remembers s t = has_delivery id s.deliveries ≡ true → has_delivery id t.deliveries ≡ true

  same_deliveries :
      {A : Type 0} {m : Exec Store A}
      → Leads (SameBy deliveries_of) m
      → (s : Store) → Remembers s (m s).1
  same_deliveries k s h = rw (k.at s) h

  has_delivery-map :
      (j : String) (ds : List Delivery)
      → has_delivery id (map (set_handled j) ds) ≡ has_delivery id ds
  unfolding any set_handled
  has_delivery-map j [] = refl
  has_delivery-map j (d ∷ ds) = ground (arith, has_delivery-map j ds)

  call-Remembers : (c : Call) (s : Store) → Remembers s (call c s)
  unfolding call record_delivery mark_delivery_handled acquire_lease renew_lease release_lease
      set_paused settle any
  call-Remembers (delivered i e a r p now) s h = ground arith
  call-Remembers (handled i) s h = rw has_delivery-map h
  call-Remembers (enqueues r p hd b f why now) s h =
      same_deliveries (enqueue-Same deliveries_of deliveries_alone r p hd b f why now) s h
  call-Remembers (cancels r p now) s h =
      same_deliveries (cancel_pr-Same deliveries_of deliveries_alone r p now) s h
  call-Remembers (acquires holder ttl alive now) s h = ground arith
  call-Remembers (renews holder token ttl now) s h = ground arith
  call-Remembers (releases holder token) s h = h
  call-Remembers (starts i token t now) s h =
      same_deliveries (start-Same deliveries_of deliveries_alone i token t now) s h
  call-Remembers (sets_check i token c t) s h =
      same_deliveries (set_check_run-Same deliveries_of deliveries_alone i token c t) s h
  call-Remembers (finishes i token o c e t now) s h =
      same_deliveries (finish-Same deliveries_of deliveries_alone i token o c e t now) s h
  call-Remembers (requeues t now) s h =
      same_deliveries (requeue_expired-Same deliveries_of deliveries_alone t now) s h
  call-Remembers (adopts token t now) s h =
      same_deliveries (adopt_orphans-Same deliveries_of deliveries_alone token t now) s h
  call-Remembers (publishes i token k g t now) s h =
      same_deliveries (record_publication-Same deliveries_of deliveries_alone i token k g t now) s h
  call-Remembers (pauses b) s h = h

  pub run-Remembers : (cs : List Call) (s : Store) → Remembers s (run cs s)
  run-Remembers = run_induction Remembers (λ s h. h) (λ s t u p q h. q (p h)) call-Remembers

  pub recorded :
      (event : String) (action : Option String) (repo : String) (pr : Option ℕ) (now : ℕ)
      (s : Store)
      → has_delivery id (record_delivery id event action repo pr now s).1.deliveries ≡ true
  unfolding record_delivery settle any
  recorded event action repo pr now s = ground (arith, str_eq_refl id)

  pub recorded_before :
      (event : String) (action : Option String) (repo : String) (pr : Option ℕ) (now : ℕ)
      (s : Store)
      → has_delivery id s.deliveries ≡ true
      → record_delivery id event action repo pr now s ≡ (ok false, s)
  unfolding record_delivery settle
  recorded_before event action repo pr now s h = rw h refl

-- Once an id has been recorded, whatever is called in between, recording it again answers False and
-- writes nothing.
pub record_delivery_once :
    (id event event' : String) (action action' : Option String) (repo repo' : String)
    (pr pr' : Option ℕ) (now now' : ℕ) (s : Store) (cs : List Call)
    → let t = run cs (record_delivery id event action repo pr now s).1 in
      record_delivery id event' action' repo' pr' now' t ≡ (ok false, t)
record_delivery_once id event event' action action' repo repo' pr pr' now now' s cs =
    let u = (record_delivery id event action repo pr now s).1 in
    recorded_before id event' action' repo' pr' now' (run cs u)
      (run-Remembers id cs u (recorded id event action repo pr now s))
