-- ===== src/Store.antt =====
-- The lease store of pkg/server/lease_store.go: its state and persistence, its operations, and what
-- is proved of them.
pub mod Json
pub mod State
pub mod Leases
pub mod Sweep
pub mod Effects
pub mod Calls
pub mod Find
pub mod Spec
pub mod Invariant
pub mod Blocked
pub mod RoundTrip
pub mod Durable
pub mod Crash
pub mod Identify
pub mod Punctual
pub mod Deadline
pub mod Abstract
pub mod Recovery
pub mod Lives
pub mod Gauges
pub mod Grace
