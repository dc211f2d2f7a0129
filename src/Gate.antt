-- ===== src/Gate.antt =====
-- The package src/prxref/gate: the review gate.
pub mod Exec
pub mod Store
pub mod Watchdog
pub mod Events
pub mod Receiver
pub mod Binding
pub mod Checks
pub mod World
pub mod Publisher
pub mod Worker
