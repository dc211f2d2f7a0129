-- ===== src/Gate/Exec.antt =====
-- Methods of an object that mutate it and may raise, and the SQLite transaction `Store._tx` of
-- src/prxref/gate/store.py, which undoes what was written before a raise.
pub mod Keeps
use mathlib.Core.Path.{◌≡◌}
use mathlib.Core.Bool.{Bool, true, false}

-- The exceptions of the gate's store: `LeaseLost`, `StateError`, and `sqlite3.IntegrityError` for
-- a broken UNIQUE constraint.
pub data Error : Type 0 where
  lease_lost state_error integrity_error : Error

pub data Result {ℓ} (A : Type ℓ) : Type ℓ where
  ok : A → Result A
  err : Error → Result A

abbrev pub Exec {ℓ} : Type ℓ → Type ℓ → Type ℓ
Exec S A = S → Result A × S

module _ {ℓ} {S A : Type ℓ} where
  unfoldable pub pure : A → Exec S A
  pure a s = (ok a, s)

  unfoldable pub raise : Error → Exec S A
  raise e s = (err e, s)

  unfoldable pub gets : (S → A) → Exec S A
  gets f s = (ok (f s), s)

  -- BEGIN IMMEDIATE; COMMIT on a normal end, ROLLBACK on a raise.
  unfoldable pub settle : S → Result A × S → Result A × S
  settle s (ok a, s') = (ok a, s')
  settle s (err e, s') = (err e, s)

  unfoldable pub tx : Exec S A → Exec S A
  unfolding settle
  tx m s = settle s (m s)

module _ {ℓ} {S A B : Type ℓ} where
  abbrev pub continue : (A → Exec S B) → Result A × S → Result B × S
  continue f (ok a, s) = f a s
  continue f (err e, s) = (err e, s)

  infixl 10 ◌>>=◌
  unfoldable pub ◌>>=◌ : Exec S A → (A → Exec S B) → Exec S B
  unfolding pure raise gets
  ◌>>=◌ m f s = continue f (m s)

infixl 10 ◌>>◌
abbrev pub ◌>>◌ : {S B : Type 0} → Exec S (Unit {0}) → Exec S B → Exec S B
m >> n = m >>= λ _. n

-- `if not test: raise e`
unfoldable pub guard : {S : Type 0} → Bool → Error → Exec S (Unit {0})
guard true e s = (ok tt, s)
guard false e s = (err e, s)
