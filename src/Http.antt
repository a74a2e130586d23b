-- ===== src/Http.antt =====
-- The HTTP API of pkg/server/http.go.
pub mod Defs
pub mod Node
pub mod Admin
pub mod Access
pub mod Effects
pub mod Routes
