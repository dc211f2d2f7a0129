-- ===== src/Gate/Store/Leases.antt =====
-- The worker lease and the pause flag of src/prxref/gate/store.py.
use prxref.Base.{
  ℕ, ◌+◌, String, Bool, true, false, not, ◌&&◌, Option, none, some, str_eq, ◌==◌, ltb,
  if◌then◌else◌,
}
use prxref.Gate.Exec.{Exec, pure, tx}
use prxref.Gate.Store.Rows.{LeaseRow, Store}

-- Another holder has the lease, and it can still be its own.
unfoldable pub is_held : String → (String → Bool) → ℕ → Option LeaseRow → Bool
is_held holder holder_alive now none = false
is_held holder holder_alive now (some row) =
    not (str_eq row.holder holder) && ltb now row.expires_at && holder_alive row.holder

-- `(row[1] if row else 0)`
unfoldable pub last_token : Option LeaseRow → ℕ
last_token none = 0
last_token (some row) = row.token

-- `holder_alive` asks the operating system whether a holder's process runs.
unfoldable pub acquire_lease : String → ℕ → (String → Bool) → ℕ → Exec Store (Option ℕ)
unfolding tx pure
acquire_lease holder ttl holder_alive now = tx λ s.
    if is_held holder holder_alive now s.worker
    then pure none s
    else pure (some (last_token s.worker + 1)) (record s {
      worker =
          some
            (record { holder = holder; token = last_token s.worker + 1; expires_at = now + ttl });
    })

-- `holder=? AND token=?`
unfoldable pub is_holder : String → ℕ → LeaseRow → Bool
is_holder holder token row = str_eq row.holder holder && row.token == token

unfoldable pub can_renew : String → ℕ → ℕ → Option LeaseRow → Bool
unfolding is_holder
can_renew holder token now none = false
can_renew holder token now (some row) = is_holder holder token row && ltb now row.expires_at

abbrev pub expire_at : ℕ → Option LeaseRow → Option LeaseRow
expire_at time none = none
expire_at time (some row) = some (record row { expires_at = time })

unfoldable pub renew_lease : String → ℕ → ℕ → ℕ → Exec Store Bool
unfolding tx pure
renew_lease holder token ttl now = tx {S = Store} λ s.
    if can_renew holder token now s.worker
    then pure true (record s { worker = expire_at (now + ttl) s.worker })
    else pure false s

unfoldable pub released : String → ℕ → Option LeaseRow → Option LeaseRow
unfolding is_holder
released holder token none = none
released holder token (some row) =
    if is_holder holder token row then some (record row { expires_at = 0 }) else some row

unfoldable pub release_lease : String → ℕ → Exec Store (Unit {0})
unfolding tx pure
release_lease holder token = tx λ s. pure tt (record s { worker = released holder token s.worker })

abbrev set_token : ℕ → Option LeaseRow → LeaseRow
set_token token none = record { holder = "operator"; token = token; expires_at = 0 }
set_token token (some row) = record row { token = token }

unfoldable pub set_paused : Bool → Exec Store (Unit {0})
unfolding tx pure
set_paused paused =
    tx λ s. pure tt (record s { paused = some (set_token (if paused then 1 else 0) s.paused) })

-- `bool(row and row[0])`
unfoldable pub is_paused : Store → Bool
is_paused s = elim s.paused [ none ↦ false | some row ↦ not (row.token == 0) ]

-- `lease_info`: the row, and whether it is live.
unfoldable pub lease_info : ℕ → Store → Option (LeaseRow × Bool)
lease_info now s = elim s.worker [ none ↦ none | some row ↦ some (row, ltb now row.expires_at) ]
