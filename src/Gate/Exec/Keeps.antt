-- ===== src/Gate/Exec/Keeps.antt =====
-- Relations between the state before and after an action, one rule for each way to build an action.
use mathlib.Core.Path.{◌≡◌, refl}
use mathlib.Core.Bool.{Bool, true, false}
use prxref.Gate.Exec.{
  Error, Result, ok, err, Exec, pure, raise, gets, settle, tx, continue, ◌>>=◌, guard,
}

-- A relation that holds of the state with itself, and along a chain of steps.
pub record IsOrder {ℓ} {S : Type ℓ} (R : S → S → Type ℓ) : Type ℓ where
  pub stay : (s : S) → R s s
  pub chain : (s t u : S) → R s t → R t u → R s u

-- `m` leads from each state to a related one, whether it returns or raises.
pub record Leads {ℓ} {S A : Type ℓ} (R : S → S → Type ℓ) (m : Exec S A) : Type ℓ where
  pub at : (s : S) → R s (m s).1

module _ {ℓ} {S : Type ℓ} {R : S → S → Type ℓ} (o : IsOrder R) where
  pub Leads-pure : {A : Type ℓ} (a : A) → Leads R (pure a)
  unfolding pure
  Leads-pure a = record { at = λ s. o.stay s }

  pub Leads-raise : {A : Type ℓ} (e : Error) → Leads R (raise {A = A} e)
  unfolding raise
  Leads-raise e = record { at = λ s. o.stay s }

  pub Leads-gets : {A : Type ℓ} (f : S → A) → Leads R (gets f)
  unfolding gets
  Leads-gets f = record { at = λ s. o.stay s }

  tx_settles : {A : Type ℓ} (s : S) (r : Result A × S) → R s r.1 → R s (settle s r).1
  unfolding settle
  tx_settles s (ok a, s') h = h
  tx_settles s (err e, s') h = o.stay s

  pub Leads-tx : {A : Type ℓ} (m : Exec S A) → Leads R m → Leads R (tx m)
  unfolding tx
  Leads-tx m k = record { at = λ s. tx_settles s (m s) (k.at s) }

  continues :
      {A B : Type ℓ} (f : A → Exec S B) (s : S) (r : Result A × S)
      → ((a : A) → Leads R (f a))
      → R s r.1
      → R s (continue f r).1
  continues f s (ok a, s') k h = o.chain s s' (f a s').1 h ((k a).at s')
  continues f s (err e, s') k h = h

  pub Leads-bind :
      {A B : Type ℓ} (m : Exec S A) (f : A → Exec S B)
      → Leads R m
      → ((a : A) → Leads R (f a))
      → Leads R (m >>= f)
  unfolding ◌>>=◌
  Leads-bind m f k l = record { at = λ s. continues f s (m s) l (k.at s) }

module _ {S : Type 0} {R : S → S → Type 0} (o : IsOrder R) where
  pub Leads-guard : (b : Bool) (e : Error) → Leads R (guard b e)
  unfolding guard
  Leads-guard true e = record { at = λ s. o.stay s }
  Leads-guard false e = record { at = λ s. o.stay s }

  -- What follows a guard may use that its test passed.
  pub Leads-guard-bind :
      {A : Type 0} (b : Bool) (e : Error) (m : Exec S A)
      → (b ≡ true → Leads R m)
      → Leads R (guard b e >>= λ _. m)
  unfolding guard ◌>>=◌
  Leads-guard-bind true e m k = record { at = λ s. (k refl).at s }
  Leads-guard-bind false e m k = record { at = λ s. o.stay s }
