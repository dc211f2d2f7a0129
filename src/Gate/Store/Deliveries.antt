-- ===== src/Gate/Store/Deliveries.antt =====
-- `record_delivery` and `mark_delivery_handled` of src/prxref/gate/store.py.
use prxref.Base.{ℕ, String, Bool, true, false, Option, List, ◌∷◌, map, str_eq, if◌then◌else◌, any}
use prxref.Gate.Exec.{Exec, pure, tx}
use prxref.Gate.Store.Rows.{Delivery, Store}

abbrev pub has_delivery : String → List Delivery → Bool
has_delivery delivery_id = any (λ d. str_eq d.delivery_id delivery_id)

-- INSERT OR IGNORE; the value is `rowcount == 1`.
unfoldable pub record_delivery :
    String → String → Option String → String → Option ℕ → ℕ → Exec Store Bool
unfolding tx pure any
record_delivery delivery_id event action repo pr_number now = tx λ s.
    if has_delivery delivery_id s.deliveries
    then pure false s
    else pure true (record s {
      deliveries =
          record {
            delivery_id = delivery_id;
            received_at = now;
            event = event;
            action = action;
            repo = repo;
            pr_number = pr_number;
            handled = false;
          }
          ∷ s.deliveries;
    })

-- `UPDATE deliveries SET handled=1 WHERE delivery_id=?` on one row
unfoldable pub set_handled : String → Delivery → Delivery
set_handled delivery_id d =
    if str_eq d.delivery_id delivery_id then record d { handled = true } else d

unfoldable pub mark_delivery_handled : String → Exec Store (Unit {0})
unfolding tx pure
mark_delivery_handled delivery_id =
    tx λ s. pure tt (record s { deliveries = map (set_handled delivery_id) s.deliveries })
