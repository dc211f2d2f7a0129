-- ===== src/Gate/Publisher/Repeated.antt =====
-- How `fail` of src/prxref/gate/checks.py creates a check again, where the look after an uncertain
-- reply did not come to an end.
use prxref.Base.{
  ℕ, ◌≡◌, refl, subst, ◌∙◌, suc, arith, true, false, none, some, List, [], ◌∷◌, ◌++◌, Bool-cases,
  inl, inr, str_eq_refl,
}
use prxref.Base.Text.{Text, codes, text_eq_refl}
use prxref.Gate.Exec.{tx, settle}
use prxref.Gate.Store.Rows.{Generation, find_id}
use prxref.Gate.Store.History.{get_found}
use prxref.Gate.Store.Leases.{renew_lease, can_renew}
use prxref.Gate.Store.Calls.{run}
use prxref.Gate.Checks.{Conclusion}
use prxref.Gate.World.{
  Fault, returned, post_check_run, Step, sent, renewed, World, Outside, Act, throw, after, ◌>>=◌,
  attempt, stored, at_store, request, retry, send, reply_of, is_unauthorized,
}
use prxref.Gate.Publisher.{Lease, mark_renewed, renewal, external_text}
use prxref.Gate.Publisher.Check.{
  renew, fence_write, post_check, create_check, open_check, ensure_check, close_check_run, read_row,
  with_check, fail,
}
use prxref.Gate.Publisher.Looks.{is_create, is_fresh, EachLooked}
use prxref.Gate.Publisher.Adding.{
  Looked, Adds, Adds-give, Adds-throw, Adds-outcome, Adds-at_store, after-Adds, Adds-bind,
  recover_check-Adds, close_check_run-Adds, read_row-Adds,
}

module _ (env : Outside) (g : Generation) where
  record Repeats {A : Type 0} (m : Act A) : Type 0 where
    pub at : (w : World) → is_fresh env g w.steps ≡ false → Looked env g (m w).1 → ⊥

  module _ {A B : Type 0} (m : Act A) (k : A → Act B) where
    Repeats-bind : Repeats m → ((a : A) → Adds env g (k a)) → Repeats (m >>= k)
    unfolding ◌>>=◌
    Repeats-bind c p = record {
      at = λ w old e. c.at w old (after-Adds env g k throw (m w) p (Adds-throw env g) e);
    }

    Repeats-attempt :
        (h : Fault → Act B)
        → Repeats m
        → ((a : A) → Adds env g (k a))
        → ((f : Fault) → Adds env g (h f))
        → Repeats (attempt m k h)
    unfolding attempt
    Repeats-attempt h c p q = record {
      at = λ w old e. c.at w old (after-Adds env g k h (m w) p q e);
    }

  own_create : is_create g (post_check_run g.repo g.head_sha (external_text g)) ≡ true
  unfolding is_create
  own_create =
      ground (arith, str_eq_refl g.repo, str_eq_refl g.head_sha, text_eq_refl (external_text g))

  first_repeats :
      (h : List Step)
      → is_fresh env g h ≡ false
      → EachLooked env g (sent (post_check_run g.repo g.head_sha (external_text g)) ∷ h)
      → ⊥
  first_repeats h old e = cc (e.1 own_create, old)

  request-Repeats : Repeats (request env (post_check_run g.repo g.head_sha (external_text g)))
  unfolding request send retry reply_of
  request-Repeats =
      let r = post_check_run g.repo g.head_sha (external_text g) in
      record {
        at = λ w old e. elim (Bool-cases (is_unauthorized (env.reply (sent r ∷ w.steps)))) [
          | inl u ↦ first_repeats w.steps old (rw (u, request) at e).0
          | inr u ↦ first_repeats w.steps old (rw (u, request) at e)
        ];
      }

  post_check-Repeats : Repeats (post_check env g)
  unfolding post_check
  post_check-Repeats = Repeats-bind _ _ request-Repeats (λ b. Adds-outcome env g _)

  create_check-Repeats : (lease : Lease) → Repeats (create_check env lease none g)
  unfolding create_check
  create_check-Repeats lease =
      Repeats-bind _ _
        (Repeats-attempt _ _ _ post_check-Repeats (Adds-give env g)
          (recover_check-Adds env g lease g))
        (λ i. Adds-bind env g _ _ (Adds-at_store env g _) (λ _. Adds-give env g i))

  -- The fence passes.
  fence_passes :
      (lease : Lease) (w : World)
      → let now = env.moment w.tick in
        can_renew lease.holder lease.token now.fence_now (run now.calls w.store).worker ≡ true
        → (v : World) × (fence_write env lease none w ≡ (returned tt, v))
          × (v.steps ≡ renewed ∷ w.steps)
  unfolding fence_write renew renewal at_store ◌>>=◌ stored renew_lease tx settle mark_renewed
  fence_passes lease w live =
      let now = env.moment w.tick in
      (
        record {
          store =
              (renew_lease lease.holder lease.token lease.ttl now.fence_now
                (run now.calls w.store)).1;
          steps = renewed ∷ w.steps;
          tick = suc w.tick;
        },
        rw live refl,
        refl,
      )

  fresh_renewed : (h : List Step) → is_fresh env g (renewed ∷ h) ≡ is_fresh env g h
  unfolding is_fresh
  fresh_renewed h = refl

  module _ (lease : Lease) (unchecked : g.check_run_id ≡ none) where
    opened_repeats :
        (v : World)
        → is_fresh env g v.steps ≡ false
        → Looked env g (open_check env lease none g g.check_run_id v).1
        → ⊥
    unfolding open_check
    opened_repeats v old e =
        (create_check-Repeats lease).at v old
          (subst (λ i. Looked env g (open_check env lease none g i v).1) unchecked e)

    ensured_repeats :
        (w : World)
        → let now = env.moment w.tick in
          can_renew lease.holder lease.token now.fence_now (run now.calls w.store).worker ≡ true
          → is_fresh env g w.steps ≡ false
          → Looked env g (ensure_check env g lease none w).1
          → ⊥
    unfolding ensure_check ◌>>=◌
    ensured_repeats w live old e =
        let (v, passed, noted) = fence_passes lease w live in
        opened_repeats v (rw noted (fresh_renewed w.steps ∙ old)) (
          subst
            (λ r. Looked env g (after (λ _. open_check env lease none g g.check_run_id) throw r).1)
            passed e)

    checked_repeats :
        (w : World)
        → let now = env.moment w.tick in
          can_renew lease.holder lease.token now.fence_now (run now.calls w.store).worker ≡ true
          → is_fresh env g w.steps ≡ false
          → Looked env g (with_check env g lease none none w).1
          → ⊥
    unfolding with_check ◌>>=◌
    checked_repeats w live old e = ensured_repeats w live old (
        after-Adds env g (λ _. read_row env g.id) throw (ensure_check env g lease none w)
          (λ _. read_row-Adds env g g.id) (Adds-throw env g) e)

  -- The world after `get` found the row.
  abbrev read_world : World → World
  read_world w = record w { store = run (env.moment w.tick).calls w.store; tick = suc w.tick }

  read_found :
      (i : ℕ) (w : World)
      → find_id i (run (env.moment w.tick).calls w.store).generations ≡ some g
      → read_row env i w ≡ (returned g, read_world w)
  unfolding read_row at_store stored
  read_found i w there = rw (get_found i (run (env.moment w.tick).calls w.store) g there) refl

  -- The row of a generation has no check id, its lease can be renewed when the fence asks, and a
  -- POST of its check that may have landed was sent before without a look after it that did not
  -- find the check: then `fail` sends the POST again.
  pub fail-repeats :
      (x : Generation) (lease : Lease) (reason : Text) (w : World)
      → find_id x.id (read_world w).store.generations ≡ some g
      → g.check_run_id ≡ none
      → let now = env.moment (read_world w).tick in
        can_renew lease.holder lease.token now.fence_now (run now.calls (read_world w).store).worker
          ≡ true
        → is_fresh env g w.steps ≡ false
        → ¬ EachLooked env g (fail env x lease reason w).1.steps
  unfolding fail ◌>>=◌
  fail-repeats x lease reason w there unchecked live old e =
      let title = codes "sdlc review: failure" in
      let text = codes "**failure**: " ++ reason in
      let close = λ (checked : Generation).
        close_check_run env checked lease none Conclusion.failure title text [] in
      let rest = λ (row : Generation). with_check env row lease none row.check_run_id >>= close in
      let began : Looked env g (rest g (read_world w)).1 =
        subst (λ r. Looked env g (after rest throw r).1) (read_found x.id w there) e in
      checked_repeats lease unchecked (read_world w) live old (
        subst (λ i. Looked env g (with_check env g lease none i (read_world w)).1) unchecked
          (after-Adds env g close throw (with_check env g lease none g.check_run_id (read_world w))
            (λ row. close_check_run-Adds env g row lease Conclusion.failure title text [])
            (Adds-throw env g) began))
