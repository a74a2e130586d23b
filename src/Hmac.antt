-- ===== src/Hmac.antt =====
-- The signatures of pkg/server/hmac.go. HMAC-SHA256 is a parameter of the model.
pub mod Hex
pub mod Decimal
pub mod Auth
pub mod Verify
pub mod Timestamp
pub mod Replay
