-- ===== src/Client/Flags.antt =====
-- The flags of cmd/kms-client/main.go.
use kms_client.Prelude.{◌≡◌, ◌↔◌, not, none, arith, ◌==◌}
use kms_client.Prelude.Int.{pos, ◌<ℤ◌}
use kms_client.Client.{ClientFlags, validate_flags}

-- The client starts exactly with a positive timeout below the interval, and a CA file exactly with
-- TLS.
pub validate_flags_iff :
    (f : ClientFlags)
    → (validate_flags f ≡ none) ↔ (
        (pos 0 <ℤ f.heartbeat_timeout)
        × (f.heartbeat_timeout <ℤ f.heartbeat_interval)
        × (f.tls_enable ≡ not (f.tls_ca_path == "")))
unfolding validate_flags
validate_flags_iff f = (λ h. ground (arith), λ h. ground (arith))
