-- ===== src/Gate/Worker/Ending.antt =====
-- Actions of the worker that end in a state: the rules by which the state stands at a row of the store.
use prxref.Base.{ℕ, ◌≡◌, refl, sym, subst, ◌∙◌, Bool, true, false, if◌then◌else◌}
use prxref.Gate.Store.Rows.{State, Generation}
use prxref.Gate.Store.History.{IsValid}
use prxref.Gate.Store.Lifecycle.Closed.{Closed, Closed-Advances}
use prxref.Gate.World.{
  Fault, Outcome, returned, raised, World, Act, give, throw, after, ◌>>=◌, attempt,
}
use prxref.Gate.World.Carries.{Carries, Carries-give, Carries-throw, Carries-bind, Carries-attempt}

-- From a valid database: where `m` returns a state, the row with this id is closed in it.
pub record Ends (i : ℕ) (m : Act State) : Type 0 where
  pub at :
      (w : World) (st : State) → IsValid w.store → (m w).0 ≡ returned st → Closed i st (m w).1.store

-- `m` returns no other state.
pub record Gives (st : State) (m : Act State) : Type 0 where
  pub only : (w : World) (x : State) → (m w).0 ≡ returned x → x ≡ st
  pub carries : Carries m

-- `m` returns rows with this id.
pub record Reads (i : ℕ) (m : Act Generation) : Type 0 where
  pub at : (w : World) (g : Generation) → (m w).0 ≡ returned g → g.id ≡ i
  pub carries : Carries m

pub Ends-throw : (i : ℕ) (f : Fault) → Ends i (throw f)
unfolding throw
Ends-throw i f = record { at = λ w st v e. cc }

pub Ends-if :
    (i : ℕ) (b : Bool) (m n : Act State) → Ends i m → Ends i n → Ends i (if b then m else n)
Ends-if i true m n p q = p
Ends-if i false m n p q = q

module _ {A : Type 0} (i : ℕ) where
  after-Ends :
      (k : A → Act State) (h : Fault → Act State) (r : Outcome A × World) (st : State)
      → ((a : A) → Ends i (k a))
      → ((f : Fault) → Ends i (h f))
      → IsValid r.1.store
      → (after k h r).0 ≡ returned st
      → Closed i st (after k h r).1.store
  after-Ends k h (returned a, w) st p q v e = (p a).at w st v e
  after-Ends k h (raised f, w) st p q v e = (q f).at w st v e

  pub Ends-bind :
      (m : Act A) (k : A → Act State) → Carries m → ((a : A) → Ends i (k a)) → Ends i (m >>= k)
  unfolding ◌>>=◌
  Ends-bind m k c p = record {
    at = λ w st v e. after-Ends k throw (m w) st p (Ends-throw i) (c.at w v).valid e;
  }

  pub Ends-attempt :
      (m : Act A) (k : A → Act State) (h : Fault → Act State)
      → Carries m
      → ((a : A) → Ends i (k a))
      → ((f : Fault) → Ends i (h f))
      → Ends i (attempt m k h)
  unfolding attempt
  Ends-attempt m k h c p q = record {
    at = λ w st v e. after-Ends k h (m w) st p q (c.at w v).valid e;
  }

after_read :
    (i : ℕ) (k : Generation → Act State) (r : Outcome Generation × World) (st : State)
    → ((g : Generation) → Ends g.id (k g))
    → ((g : Generation) → r.0 ≡ returned g → g.id ≡ i)
    → IsValid r.1.store
    → (after k throw r).0 ≡ returned st
    → Closed i st (after k throw r).1.store
after_read i k (returned g, w) st p q v e =
    subst (λ n. Closed n st (k g w).1.store) (q g refl) ((p g).at w st v e)
after_read i k (raised f, w) st p q v e = (Ends-throw i f).at w st v e

pub Ends-read :
    (i : ℕ) (m : Act Generation) (k : Generation → Act State)
    → Reads i m
    → ((g : Generation) → Ends g.id (k g))
    → Ends i (m >>= k)
unfolding ◌>>=◌
Ends-read i m k c p = record {
  at = λ w st v e. after_read i k (m w) st p (c.at w) (c.carries.at w v).valid e;
}

after_end :
    (i : ℕ) (st : State) (k : State → Act State) (r : Outcome State × World) (x : State)
    → ((y : State) → Gives st (k y))
    → ((y : State) → r.0 ≡ returned y → (y ≡ st) × Closed i y r.1.store)
    → IsValid r.1.store
    → (after k throw r).0 ≡ returned x
    → Closed i x (after k throw r).1.store
after_end i st k (returned y, w) x p q v e =
    let is = (p y).only w x e in
    let before = q y refl in
    Closed-Advances i x w.store (k y w).1.store v ((p y).carries.at w)
      (subst (λ z. Closed i z w.store) (before.0 ∙ sym is) before.1)
after_end i st k (raised f, w) x p q v e = (Ends-throw i f).at w x v e

-- What follows the end of a row, and returns the state in which it ended.
pub Ends-then :
    (i : ℕ) (st : State) (m : Act State) (k : State → Act State)
    → Ends i m
    → Gives st m
    → ((y : State) → Gives st (k y))
    → Ends i (m >>= k)
unfolding ◌>>=◌
Ends-then i st m k p g q = record {
  at = λ w x v e.
      after_end i st k (m w) x q (λ y h. (g.only w y h, p.at w y v h)) (g.carries.at w v).valid e;
}

pub Gives-give : (st : State) → Gives st (give st)
unfolding give
Gives-give st = record { only = λ w x e. cc; carries = Carries-give st }

pub Gives-throw : (st : State) (f : Fault) → Gives st (throw f)
unfolding throw
Gives-throw st f = record { only = λ w x e. cc; carries = Carries-throw f }

pub Gives-if :
    (st : State) (b : Bool) (m n : Act State)
    → Gives st m
    → Gives st n
    → Gives st (if b then m else n)
Gives-if st true m n p q = p
Gives-if st false m n p q = q

module _ {A : Type 0} (st : State) where
  after-Gives :
      (k : A → Act State) (h : Fault → Act State) (r : Outcome A × World) (x : State)
      → ((a : A) → Gives st (k a))
      → ((f : Fault) → Gives st (h f))
      → (after k h r).0 ≡ returned x
      → x ≡ st
  after-Gives k h (returned a, w) x p q e = (p a).only w x e
  after-Gives k h (raised f, w) x p q e = (q f).only w x e

  pub Gives-bind :
      (m : Act A) (k : A → Act State) → Carries m → ((a : A) → Gives st (k a)) → Gives st (m >>= k)
  unfolding ◌>>=◌
  Gives-bind m k c p = record {
    only = λ w x e. after-Gives k throw (m w) x p (Gives-throw st) e;
    carries = Carries-bind m k c (λ a. (p a).carries);
  }

  pub Gives-attempt :
      (m : Act A) (k : A → Act State) (h : Fault → Act State)
      → Carries m
      → ((a : A) → Gives st (k a))
      → ((f : Fault) → Gives st (h f))
      → Gives st (attempt m k h)
  unfolding attempt
  Gives-attempt m k h c p q = record {
    only = λ w x e. after-Gives k h (m w) x p q e;
    carries = Carries-attempt m k h c (λ a. (p a).carries) (λ f. (q f).carries);
  }
