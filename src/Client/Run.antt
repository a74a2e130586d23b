-- ===== src/Client/Run.antt =====
-- run of cmd/kms-client/main.go, with transportCredentials.
use kms_client.Prelude.{
  String, ap, ◌∙◌, Bool-cases, ◌≢◌, ◌≡◌, Bool, true, false, not, List, Option, none, some, arith,
  if◌then◌else◌, Option-cases, inl, inr,
}
use kms_client.Prelude.Int.{pos, leb_ℤ, ◌<ℤ◌}
use kms_client.Server.Rpc.{RpcError, Result, success, failure}
use kms_client.Server.Config.{Bytes}
use kms_client.Client.{ClientFlags, validate_flags, Round, heartbeat_loop}
use kms_client.Client.Flags.{validate_flags_iff}

-- What run asks of the machine and the libraries: the content of a file (`none` is an error),
-- whether certificates are found in it, and whether grpc.NewClient accepts an endpoint.
pub record Surroundings : Type 0 where
  pub read_file : String → Option Bytes
  pub has_certificates : Bytes → Bool
  pub can_dial : String → Bool

-- Plain text, or TLS with these roots.
pub data Credentials : Type 0 where
  insecure : Credentials
  tls_with : Bytes → Credentials

-- How run ends: an error before the loop, the panic of time.NewTicker, or the end of the loop
-- (`none` if it goes on) over a connection with these credentials.
pub data Ended : Type 0 where
  no_start : String → Ended
  panicked : Ended
  looped : Credentials → Option (Option RpcError) → Ended

module _ (env : Surroundings) (f : ClientFlags) where
  -- `none` is an error.
  unfoldable pub transport_credentials : Option Credentials
  transport_credentials =
      if not f.tls_enable then some insecure else elim (env.read_file f.tls_ca_path) [
        | none ↦ none
        | some bundle ↦ if env.has_certificates bundle then some (tls_with bundle) else none
      ]

  -- The loop of heartbeats starts a ticker after the first one, if that is accepted.
  unfoldable pub beat : Credentials → Result Bytes → List Round → Ended
  beat credentials (success r) rounds =
      if leb_ℤ f.heartbeat_interval (pos 0)
      then panicked
      else looped credentials (heartbeat_loop (success r) rounds)
  beat credentials (failure e) rounds = looped credentials (heartbeat_loop (failure e) rounds)

  unfoldable pub run : Result Bytes → List Round → Ended
  unfolding transport_credentials beat
  run first rounds = elim (validate_flags f) [
    | some text ↦ no_start text
    | none ↦ elim transport_credentials [
      | none ↦ no_start "CA bundle"
      | some credentials ↦
          if env.can_dial f.kms_endpoint
          then beat credentials first rounds
          else no_start "failed to dial KMS: "
    ]
  ]

  -- The flags are good, and the connection is encrypted exactly if they say so.
  pub record IsSound (credentials : Credentials) : Type 0 where
    pub accepted : validate_flags f ≡ none
    pub dialled : env.can_dial f.kms_endpoint ≡ true
    pub encrypted :
        f.tls_enable ≡ true
        → (bundle : Bytes) × (env.read_file f.tls_ca_path ≡ some bundle)
          × (env.has_certificates bundle ≡ true)
          × (credentials ≡ tls_with bundle)
    pub plain : f.tls_enable ≡ false → credentials ≡ insecure

  beat-looped :
      (credentials c : Credentials) (first : Result Bytes) (rounds : List Round)
      (end : Option (Option RpcError))
      → beat credentials first rounds ≡ looped c end
      → (credentials ≡ c) × (end ≡ heartbeat_loop first rounds)
  unfolding beat
  beat-looped credentials c (success r) rounds end h = ground arith
  beat-looped credentials c (failure e) rounds end h = ground arith

  credentials-IsSound :
      (credentials : Credentials)
      → validate_flags f ≡ none
      → env.can_dial f.kms_endpoint ≡ true
      → transport_credentials ≡ some credentials
      → IsSound credentials
  unfolding transport_credentials
  credentials-IsSound credentials v d e = record {
    accepted = v;
    dialled = d;
    encrypted = λ on. elim (Option-cases (env.read_file f.tls_ca_path)) [
      | inl missing ↦ absurd (ground arith)
      | inr (bundle, found) ↦ (bundle, found, ground arith, ground arith)
    ];
    plain = λ off. ground arith;
  }

  -- A client that comes to send heartbeats has flags that validateFlags accepts, and sends them
  -- over TLS with the certificates of its CA file if TLS is on, and in plain text only if it is
  -- off; its run ends as the loop does.
  pub run-IsSound :
      (first : Result Bytes) (rounds : List Round) (credentials : Credentials)
      (end : Option (Option RpcError))
      → run first rounds ≡ looped credentials end
      → IsSound credentials × (end ≡ heartbeat_loop first rounds)
  unfolding run
  run-IsSound first rounds credentials end h = elim (Option-cases (validate_flags f)) [
    | inr (text, bad) ↦ absurd (ground arith)
    | inl good ↦ elim (Option-cases transport_credentials) [
      | inl absent ↦ absurd (ground arith)
      | inr (c, made) ↦ elim (Bool-cases (env.can_dial f.kms_endpoint)) [
        | inr bad ↦ absurd (ground arith)
        | inl dialled ↦
            let b = beat-looped c credentials first rounds end (ground arith) in
            (credentials-IsSound credentials good dialled (made ∙ ap some b.0), b.1)
      ]
    ]
  ]

  beat_sound :
      (credentials : Credentials) (first : Result Bytes) (rounds : List Round)
      → pos 0 <ℤ f.heartbeat_interval
      → beat credentials first rounds ≢ panicked
  unfolding beat
  beat_sound credentials (success r) rounds h e = absurd (ground arith)
  beat_sound credentials (failure err) rounds h e = absurd (ground arith)

  -- A client never panics, whatever its flags: an interval that time.NewTicker does not take is
  -- refused before.
  pub run_never_panics : (first : Result Bytes) (rounds : List Round) → run first rounds ≢ panicked
  unfolding run
  run_never_panics first rounds e = elim (Option-cases (validate_flags f)) [
    | inr (text, bad) ↦ absurd (ground arith)
    | inl good ↦ elim (Option-cases transport_credentials) [
      | inl absent ↦ absurd (ground arith)
      | inr (c, made) ↦
          let bounds = (validate_flags_iff f).0 good in
          let lasting : pos 0 <ℤ f.heartbeat_interval = ground (arith, bounds) in
          absurd (ground (arith, beat_sound c first rounds lasting))
    ]
  ]
