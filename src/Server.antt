-- ===== src/Server.antt =====
-- The gRPC service of pkg/server/server.go, and the labels of its metrics (pkg/server/metrics.go).
pub mod Rpc
pub mod Labels
pub mod Peer
pub mod Config
pub mod Seal
pub mod Unseal
pub mod Heartbeat
pub mod Deny
pub mod Deliver
pub mod Race
pub mod Counted
