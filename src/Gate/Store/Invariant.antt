-- ===== src/Gate/Store/Invariant.antt =====
-- Every run of the methods of src/prxref/gate/store.py keeps the database valid, and what that
-- means for the rows.
use prxref.Base.{ℕ, suc, ◌≤◌, String, ◌≡◌, refl, sym, true, false, some, List, [], ◌∷◌, arith}
use prxref.Gate.Exec.{settle}
use prxref.Gate.Exec.Keeps.{Leads, Leads-tx, Leads-bind}
use prxref.Gate.Store.Rows.{
  Generation, Publication, Store, empty_store, is_live, is_queued, max_gen, find_id, same_pr,
}
use prxref.Gate.Store.Deliveries.{record_delivery, mark_delivery_handled}
use prxref.Gate.Store.Leases.{acquire_lease, renew_lease, release_lease, set_paused}
use prxref.Gate.Store.Publications.{put_publication, record_publication}
use prxref.Gate.Store.Table.{Ordered, QueuedNewest, same_pr_iff}
use prxref.Gate.Store.History.{IsValid, Advances, Advances-order, same_rows, fence-Advances}
use prxref.Gate.Store.Transitions.{
  cancel_pr-Advances, start-Advances, set_check_run-Advances, finish-Advances,
}
use prxref.Gate.Store.Enqueue.{enqueue-Advances}
use prxref.Gate.Store.Requeue.{requeue_expired-Advances, adopt_orphans-Advances}
use prxref.Gate.Store.Calls.{
  Call, delivered, handled, enqueues, cancels, acquires, renews, releases, starts, sets_check,
  finishes, requeues, adopts, publishes, pauses, call, run, run_induction,
}

put_publication-Advances : (row : Publication) → Leads Advances (put_publication row)
unfolding put_publication
put_publication-Advances row = record { at = λ s. same_rows s _ refl refl }

pub record_publication-Advances :
    (i token : ℕ) (kind : String) (g t now : ℕ)
    → Leads Advances (record_publication i token kind g t now)
unfolding record_publication
record_publication-Advances i token kind g t now =
    Leads-tx Advances-order _
      (Leads-bind Advances-order _ _ (fence-Advances token t) (λ _. put_publication-Advances _))

-- Every call keeps a valid database valid, and moves its rows.
pub call-Advances : (c : Call) (s : Store) → Advances s (call c s)
unfolding call record_delivery mark_delivery_handled acquire_lease renew_lease release_lease
    set_paused settle
call-Advances (delivered i e a r p now) s = same_rows s _ (ground arith) (ground arith)
call-Advances (handled i) s = same_rows s _ refl refl
call-Advances (enqueues r p h b f why now) s = (enqueue-Advances r p h b f why now).at s
call-Advances (cancels r p now) s = (cancel_pr-Advances r p now).at s
call-Advances (acquires holder ttl alive now) s = same_rows s _ (ground arith) (ground arith)
call-Advances (renews holder token ttl now) s = same_rows s _ (ground arith) (ground arith)
call-Advances (releases holder token) s = same_rows s _ refl refl
call-Advances (starts i token t now) s = (start-Advances i token t now).at s
call-Advances (sets_check i token c t) s = (set_check_run-Advances i token c t).at s
call-Advances (finishes i token o c e t now) s = (finish-Advances i token o c e t now).at s
call-Advances (requeues t now) s = (requeue_expired-Advances t now).at s
call-Advances (adopts token t now) s = (adopt_orphans-Advances token t now).at s
call-Advances (publishes i token k g t now) s = (record_publication-Advances i token k g t now).at s
call-Advances (pauses b) s = same_rows s _ refl refl

pub run-Advances : (cs : List Call) (s : Store) → Advances s (run cs s)
run-Advances = run_induction Advances Advances-order.stay Advances-order.chain call-Advances

pub empty_store-IsValid : IsValid empty_store
empty_store-IsValid = record { ordered = tt; queued_newest = tt }

-- A run from the empty database.
pub reachable-IsValid : (cs : List Call) → IsValid (run cs empty_store)
reachable-IsValid cs = (run-Advances cs empty_store empty_store-IsValid).valid

-- A row that is in the table stays in it; once it is neither queued nor in progress, nothing but its
-- check run id ever changes.
pub run-frozen :
    (cs : List Call) (s : Store) (i : ℕ) (g : Generation)
    → IsValid s
    → find_id i s.generations ≡ some g
    → is_live g.state ≡ false
    → (h : Generation) × (find_id i (run cs s).generations ≡ some h)
      × (h ≡ record g { check_run_id = h.check_run_id })
run-frozen cs s i g v e dead =
    let (h, found, m) = (run-Advances cs s v).evolves.rows i g e in (h, found, m.frozen dead)

-- A row found by its id has that id, and is ordered with the others.
gen-le-max_gen :
    (i : ℕ) (gs : List Generation) (g : Generation) (repo : String) (n : ℕ)
    → find_id i gs ≡ some g
    → same_pr repo n g ≡ true
    → g.gen ≤ max_gen repo n gs
unfolding find_id max_gen
gen-le-max_gen i [] g repo n e h = absurd (ground arith)
gen-le-max_gen i (x ∷ gs) g repo n e h = ground (arith, gen-le-max_gen i gs g repo n)

QueuedNewest-find_id :
    (i : ℕ) (all gs : List Generation) (g : Generation)
    → QueuedNewest all gs
    → find_id i gs ≡ some g
    → is_queued g.state ≡ true
    → max_gen g.repo g.pr_number all ≤ g.gen
unfolding find_id
QueuedNewest-find_id i all [] g q e h = absurd (ground arith)
QueuedNewest-find_id i all (x ∷ gs) g q e h = ground (arith, QueuedNewest-find_id i all gs g)

-- `gen` grows with each insert of a PR: two rows of a PR with one `gen` are one row.
gen_unique :
    (n i j : ℕ) (gs : List Generation) (g h : Generation)
    → Ordered n gs
    → find_id i gs ≡ some g
    → find_id j gs ≡ some h
    → g.repo ≡ h.repo
    → g.pr_number ≡ h.pr_number
    → g.gen ≡ h.gen
    → i ≡ j
unfolding find_id
gen_unique n i j [] g h o p q r m eq = absurd (ground arith)
gen_unique n i j (x ∷ gs) g h o p q r m eq = ground (
  arith,
  gen-le-max_gen j gs h x.repo x.pr_number,
  gen-le-max_gen i gs g x.repo x.pr_number,
  same_pr_iff x.repo x.pr_number h,
  same_pr_iff x.repo x.pr_number g,
  gen_unique x.id i j gs g h,
)

-- Two queued rows of one PR are one row.
pub queued_unique :
    (cs : List Call) (s : Store) (i j : ℕ) (g h : Generation)
    → IsValid s
    → find_id i (run cs s).generations ≡ some g
    → find_id j (run cs s).generations ≡ some h
    → is_queued g.state ≡ true
    → is_queued h.state ≡ true
    → g.repo ≡ h.repo
    → g.pr_number ≡ h.pr_number
    → i ≡ j
queued_unique cs s i j g h v p q a b r m =
    let t = run cs s in
    let w = (run-Advances cs s v).valid in
    let x = QueuedNewest-find_id i t.generations t.generations g w.queued_newest p a in
    let y = QueuedNewest-find_id j t.generations t.generations h w.queued_newest q b in
    let k =
      gen-le-max_gen j t.generations h g.repo g.pr_number q
        ((same_pr_iff _ _ h).1 (sym r, sym m)) in
    let l = gen-le-max_gen i t.generations g h.repo h.pr_number p ((same_pr_iff _ _ g).1 (r, m)) in
    gen_unique (suc t.seq) i j t.generations g h w.ordered p q r m (omega arith)
