-- ===== src/Gate/Store/Fence.antt =====
-- `_fence`, `get` and the UPDATE of `generations`: what the transitions of
-- src/prxref/gate/store.py share. Each reading of the clock is an argument. A database error other
-- than a broken UNIQUE constraint is not modelled.
use prxref.Base.{ℕ, Bool, false, ◌&&◌, Option, none, some, ◌==◌, ltb, count_where}
use prxref.Gate.Exec.{lease_lost, state_error, Exec, pure, raise, gets, ◌>>=◌, guard}
use prxref.Gate.Store.Rows.{Generation, LeaseRow, Store, update_where, find_id}

-- One UPDATE of `generations`; its value is `rowcount`.
unfoldable pub update : (Generation → Bool) → (Generation → Generation) → Exec Store ℕ
unfolding pure
update p set s =
    pure (count_where p s.generations) (record s { generations = update_where p set s.generations })

-- The test of `_fence`: the token is that of a worker lease that has not expired.
unfoldable pub is_fenced : ℕ → ℕ → Option LeaseRow → Bool
is_fenced token now none = false
is_fenced token now (some row) = row.token == token && ltb now row.expires_at

unfoldable pub fence : ℕ → ℕ → Exec Store (Unit {0})
fence token now = do live ← gets (λ s. is_fenced token now s.worker); guard live lease_lost

-- `get`: the row with this id.
unfoldable pub get : ℕ → Exec Store Generation
unfolding pure raise
get gen_id s = elim (find_id gen_id s.generations) [
  | none ↦ raise state_error s
  | some g ↦ pure g s
]
