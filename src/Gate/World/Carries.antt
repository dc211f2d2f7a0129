-- ===== src/Gate/World/Carries.antt =====
-- Relations between the world before and after an action of a worker, one rule for each way to
-- build an action.
use prxref.Base.{arith, ℕ, String, ◌≡◌, refl, Bool, true, false, if◌then◌else◌}
use prxref.Gate.Exec.{Exec, Result, ok, err}
use prxref.Gate.Exec.Keeps.{Leads}
use prxref.Gate.Store.Rows.{Store}
use prxref.Gate.Store.Calls.{run}
use prxref.Gate.Store.History.{Advances, Advances-order}
use prxref.Gate.Store.Invariant.{run-Advances}
use prxref.Gate.World.{
  Fault, Outcome, returned, raised, Http, ApiRequest, World, Outside, Act, give, throw, outcome,
  after, ◌>>=◌, attempt, stored, at_store, request, retry, send, reply_of, read_live_pr,
}

-- `m` leaves a database that the store's methods can reach, whether it returns or raises.
abbrev pub Onward : World → World → Type 0
Onward w v = Advances w.store v.store

pub record Carries {A : Type 0} (m : Act A) : Type 0 where
  pub at : (w : World) → Onward w (m w).1

stay : (w : World) → Onward w w
stay w = Advances-order.stay w.store

module _ {A : Type 0} where
  pub Carries-give : (a : A) → Carries (give a)
  unfolding give
  Carries-give a = record { at = stay }

  pub Carries-throw : (f : Fault) → Carries (throw {A = A} f)
  unfolding throw
  Carries-throw f = record { at = stay }

  pub Carries-outcome : (o : Outcome A) → Carries (outcome o)
  unfolding outcome
  Carries-outcome o = record { at = stay }

  stored-Onward :
      (w : World) (r : Result A × Store) → Advances w.store r.1 → Onward w (stored w r).1
  unfolding stored
  stored-Onward w (ok a, s) k = k
  stored-Onward w (err e, s) k = k

  pub Carries-at_store :
      (env : Outside) (m : ℕ → ℕ → Exec Store A)
      → ((t now : ℕ) → Leads Advances (m t now))
      → Carries (at_store env m)
  unfolding at_store
  Carries-at_store env m k = record {
    at = λ w.
        let now = env.moment w.tick in
        let s = run now.calls w.store in
        stored-Onward w (m now.fence_now now.now s) (
          Advances-order.chain w.store s (m now.fence_now now.now s).1
            (run-Advances now.calls w.store) ((k now.fence_now now.now).at s));
  }

module _ {A B : Type 0} where
  after-Onward :
      (k : A → Act B) (h : Fault → Act B) (w : World) (r : Outcome A × World)
      → ((a : A) → Carries (k a))
      → ((f : Fault) → Carries (h f))
      → Onward w r.1
      → Onward w (after k h r).1
  after-Onward k h w (returned a, v) p q o =
      Advances-order.chain w.store v.store (k a v).1.store o ((p a).at v)
  after-Onward k h w (raised f, v) p q o =
      Advances-order.chain w.store v.store (h f v).1.store o ((q f).at v)

  pub Carries-bind :
      (m : Act A) (k : A → Act B) → Carries m → ((a : A) → Carries (k a)) → Carries (m >>= k)
  unfolding ◌>>=◌
  Carries-bind m k c p = record { at = λ w. after-Onward k throw w (m w) p Carries-throw (c.at w) }

  pub Carries-attempt :
      (m : Act A) (k : A → Act B) (h : Fault → Act B)
      → Carries m
      → ((a : A) → Carries (k a))
      → ((f : Fault) → Carries (h f))
      → Carries (attempt m k h)
  unfolding attempt
  Carries-attempt m k h c p q = record { at = λ w. after-Onward k h w (m w) p q (c.at w) }

pub Carries-if :
    {A : Type 0} (b : Bool) (m n : Act A) → Carries m → Carries n → Carries (if b then m else n)
Carries-if true m n p q = p
Carries-if false m n p q = q

answered : (r : Http × World) → (reply_of r).1 ≡ r.1
unfolding reply_of
answered (h, w) = refl

retried_store :
    (env : Outside) (r : ApiRequest) (h : Http) (w : World) → (retry env r (h, w)).1.store ≡ w.store
unfolding retry send reply_of
retried_store env r h w = ground arith

pub Carries-request : (env : Outside) (r : ApiRequest) → Carries (request env r)
unfolding request send
Carries-request env r = record { at = λ w. rw retried_store (stay w) }

pub Carries-read_live_pr :
    (env : Outside) (repo : String) (n : ℕ) → Carries (read_live_pr env repo n)
unfolding read_live_pr
Carries-read_live_pr env repo n = Carries-bind _ _ (Carries-request env _) (λ b. Carries-outcome _)
