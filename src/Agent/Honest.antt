-- ===== src/Agent/Honest.antt =====
-- The requests of cmd/kms-agent/main.go at the handlers of pkg/server/http.go: the two programs sign
-- and verify alike.
use kms_client.Prelude.{
  ℕ, ◌+◌, ◌^◌, ◌≤◌, ◌<◌, ◌≡◌, refl, ◌≢◌, inl, String, true, false, List, [], ◌∷◌, some, arith,
  eq_iff, length,
}
use kms_client.Prelude.Int.{ℤ, pos, ◌+ℤ◌}
use kms_client.Clock.{Time, unix}
use kms_client.Lease.{LeaseRecord}
use kms_client.Nodes.{Range}
use kms_client.Store.State.{LeaseStore}
use kms_client.Store.Calls.{Context, apply, bootstraps}
use kms_client.Store.Invariant.{IsValid}
use kms_client.Store.Identify.{lookup_by_ip-bootstrap}
use kms_client.Hmac.Hex.{hex_encode, AreBytes, hex_decode-hex_encode}
use kms_client.Hmac.Auth.{
  sign, verify, sign_identify, verify_identify, round_timestamp, message, identify_message,
}
use kms_client.Hmac.Verify.{verify_iff}
use kms_client.Hmac.Replay.{verify_confused}
use kms_client.Hmac.Timestamp.{validate_timestamp, validate_timestamp_iff}
use kms_client.Http.Defs.{HttpHandler}
use kms_client.Http.Node.{handle_heartbeat, accept_heartbeat, handle_identify, is_empty}
use kms_client.Agent.{AgentConfig, heartbeat_request, identify_request, identified_uuid}

-- A MAC is a list of 32 bytes.
abbrev pub IsMac : (List ℕ → List ℕ → List ℕ) → Type 0
IsMac mac = (key text : List ℕ) → AreBytes (mac key text) × (length (mac key text) ≡ 32)

-- The two clocks are at most a minute apart, after the Unix epoch.
pub record AreNear (sent checked_at : Time) : Type 0 where
  pub sent_seconds : ℕ
  pub checked_seconds : ℕ
  pub sent_unix : unix sent ≡ pos sent_seconds
  pub checked_unix : unix checked_at ≡ pos checked_seconds
  pub not_zero : 1 ≤ sent_seconds
  pub sent_bound : sent_seconds < 2 ^ 62
  pub checked_bound : checked_seconds < 2 ^ 62
  pub late : sent_seconds ≤ checked_seconds + 60
  pub early : checked_seconds ≤ sent_seconds + 60

valid :
    (sent checked_at : Time)
    → AreNear sent checked_at
    → validate_timestamp (unix sent) checked_at ≡ true
unfolding ◌+ℤ◌
valid sent checked_at near = rw near.sent_unix (
    (validate_timestamp_iff near.checked_seconds (pos near.sent_seconds) checked_at
        near.checked_unix near.checked_bound (ground (arith, near.sent_bound))).1
      (inl (ground (arith, near.early), ground (arith, near.late))))

module _ (mac : List ℕ → List ℕ → List ℕ) (key : List ℕ) (good : IsMac mac) where
  verify-own_sign : (u i : String) (ts : ℤ) → verify mac key u i ts (sign mac key u i ts) ≡ true
  unfolding sign
  verify-own_sign u i ts =
      let b = mac key (message u i (round_timestamp ts)) in
      (verify_iff mac key u i ts _).1
        (b, hex_decode-hex_encode b (good key (message u i (round_timestamp ts))).0, inl refl)

  sign-sign_identify : (ip : String) (ts : ℤ) → sign mac key "" ip ts ≡ sign_identify mac key ip ts
  unfolding sign sign_identify message identify_message
  sign-sign_identify ip ts = refl

  verify-own_sign_identify :
      (ip : String) (ts : ℤ) → verify_identify mac key ip ts (sign_identify mac key ip ts) ≡ true
  verify-own_sign_identify ip ts =
      rw
        (
          ← verify_confused mac key "" ip ip ts (sign_identify mac key ip ts) refl,
          ← sign-sign_identify ip ts,
        )
        (verify-own_sign "" ip ts)

  is_empty-hex_encode : (bs : List ℕ) → length bs ≡ 32 → is_empty (hex_encode bs) ≡ false
  unfolding hex_encode
  is_empty-hex_encode [] h = absurd (ground arith)
  is_empty-hex_encode (b ∷ bs) h = refl

  is_empty-sign : (u i : String) (ts : ℤ) → is_empty (sign mac key u i ts) ≡ false
  unfolding sign
  is_empty-sign u i ts = is_empty-hex_encode _ (good key (message u i (round_timestamp ts))).1

module _ (h : HttpHandler) (good : IsMac h.mac) (cfg : AgentConfig) (sent checked_at : Time)
    (near : AreNear sent checked_at) (s : LeaseStore) where
  -- The agent's heartbeat passes every check of a server that has its key, if node and address are
  -- not empty and the clocks, after the epoch, are at most a minute apart: the handler goes on to
  -- accept it.
  pub handle_heartbeat-heartbeat_request :
      (c : Context)
      → cfg.node_uuid ≢ ""
      → cfg.node_ip ≢ ""
      → handle_heartbeat h checked_at c
          (some (heartbeat_request h.mac h.key cfg sent).0)
          (heartbeat_request h.mac h.key cfg sent).1
          s
        ≡ accept_heartbeat h c (heartbeat_request h.mac h.key cfg sent).0 s
  unfolding handle_heartbeat heartbeat_request
  handle_heartbeat-heartbeat_request c named placed = ground (
    arith,
    eq_iff cfg.node_uuid "",
    eq_iff cfg.node_ip "",
    near.sent_unix,
    near.not_zero,
    valid sent checked_at near,
    is_empty-sign h.mac h.key good cfg.node_uuid cfg.node_ip (unix sent),
    verify-own_sign h.mac h.key good cfg.node_uuid cfg.node_ip (unix sent),
  )

  -- In a valid store, an agent at the address where its node was just unsealed learns the node's UUID
  -- from /node/identify of a server that has its key, if address and UUID are not empty and the
  -- clocks, after the epoch, are at most a minute apart.
  pub identified_uuid-bootstrap :
      (c : Context) (range range' : Range LeaseRecord) (u : String)
      → IsValid s
      → u ≢ ""
      → cfg.node_ip ≢ ""
      → identified_uuid (
          handle_identify h range range' checked_at
            (some (identify_request h.mac h.key cfg sent).0)
            (identify_request h.mac h.key cfg sent).1
            (apply c (bootstraps u cfg.node_ip) s))
        ≡ some u
  unfolding identified_uuid handle_identify identify_request
  identified_uuid-bootstrap c range range' u v named placed = ground (
    arith,
    eq_iff u "",
    eq_iff cfg.node_ip "",
    near.sent_unix,
    near.not_zero,
    valid sent checked_at near,
    sign-sign_identify h.mac h.key good cfg.node_ip (unix sent),
    is_empty-sign h.mac h.key good "" cfg.node_ip (unix sent),
    verify-own_sign_identify h.mac h.key good cfg.node_ip (unix sent),
    lookup_by_ip-bootstrap c range range' u cfg.node_ip s v placed,
  )
