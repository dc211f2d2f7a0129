-- ===== src/Gate/Store.antt =====
-- src/prxref/gate/store.py: the gate's durable state. `Rows` has the tables and the statements on
-- them, `Fence`, `Deliveries`, `Leases`, `Generations`, `Queries` and `Publications` the methods of
-- the class `Store`; the other modules prove what the methods keep and promise.
pub mod Rows
pub mod Fence
pub mod Deliveries
pub mod Leases
pub mod Queries
pub mod Generations
pub mod Publications
pub mod Table
pub mod History
pub mod Transitions
pub mod Enqueue
pub mod Requeue
pub mod Calls
pub mod Invariant
pub mod Fencing
pub mod Exclusion
pub mod Untouched
pub mod Lifecycle
pub mod Once
pub mod Queue
pub mod Newest
pub mod Tests
