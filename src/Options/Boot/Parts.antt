-- ===== src/Options/Boot/Parts.antt =====
-- What a start of cmd/kms-server/main.go needs, and which parts it leaves running.
use kms_client.Prelude.{
  ◌≡◌, ◌≢◌, ◌∙◌, refl, ◌⊎◌, inl, inr, not, true, false, List, Option, none, some, arith, ◌==◌,
}
use kms_client.Prelude.Int.{pos, ◌<ℤ◌, ◌≤ℤ◌}
use kms_client.Prelude.Texts.{codes}
use kms_client.Metrics.{new_metrics}
use kms_client.Store.State.{LeaseStore, new_file_lease_store}
use kms_client.Server.Config.{Bytes, lease_enabled}
use kms_client.DeadMan.{Signal, start}
use kms_client.Options.{Flags, Options, configured, server_options, new_server}
use kms_client.Options.Enabled.{lease_enabled-server_options}
use kms_client.Options.Boot.{Machine, Libraries, up, HttpParts, Running, boot, start_http}
use kms_client.Options.Boot.Steps.{
  configure-up, read_key-up, new_grpc_server-up, start_metrics-up, start_http-up,
  server_options-configured, boot-fields, boot-HasSteps,
}
use kms_client.Options.Boot.Ready.{CanStart, boot-CanStart}

module _ (machine : Machine) (libraries : Libraries) (f : Flags) where
  -- The HTTP API and the switch run with the secrets and the durations of the flags.
  pub record HasParts (http : Option HttpParts) (parts : HttpParts) : Type 0 where
    pub running : http ≡ some parts
    pub enabled : f.heartbeat_enable ≡ true
    pub has_hmac_key : f.heartbeat_hmac_key ≢ ""
    pub has_admin_token : f.admin_token ≢ ""
    pub mac : parts.handler.mac ≡ libraries.mac
    pub key : parts.handler.key ≡ codes f.heartbeat_hmac_key
    pub admin_token : parts.handler.admin_token ≡ f.admin_token
    pub lease_duration : parts.handler.lease_duration ≡ f.lease_duration
    pub heartbeat_interval : parts.handler.heartbeat_interval ≡ f.heartbeat_interval
    pub check_interval : parts.switch.check_interval ≡ f.heartbeat_check_interval
    pub heartbeat_timeout : parts.switch.heartbeat_timeout ≡ f.heartbeat_timeout

  -- They do not run: leases are off, or a secret is missing.
  abbrev pub LacksParts : Option HttpParts → Type 0
  LacksParts http =
      (http ≡ none)
      × ((f.heartbeat_enable ≡ false) ⊎ (f.heartbeat_hmac_key ≡ "") ⊎ (f.admin_token ≡ ""))

  abbrev pub MatchesFlags : Option HttpParts → Type 0
  MatchesFlags http = ((parts : HttpParts) × HasParts http parts) ⊎ LacksParts http

  -- The store and the leases of the gRPC service: none, or those of the flags.
  pub record HasLeases (r : Running) : Type 0 where
    pub enabled : f.heartbeat_enable ≡ true
    pub window : r.server.lease_window ≡ f.lease_duration
    pub interval : pos 0 <ℤ f.heartbeat_interval
    pub lasts : f.heartbeat_interval <ℤ f.lease_duration
    pub store :
        r.store
        ≡ some
            (new_file_lease_store machine.io machine.now f.lease_store_path
              (some new_metrics)
              machine.disk).0

  abbrev pub LacksLeases : Running → Type 0
  LacksLeases r = (f.heartbeat_enable ≡ false) × (r.store ≡ none)

  -- The parts of a server that started with these options.
  pub record IsConsistent (r : Running) (o : Options) : Type 0 where
    pub options :
        server_options machine.io machine.now machine.disk (some new_metrics) f ≡ configured o
    pub store : r.store ≡ o.lease_store
    pub leases : lease_enabled r.server ≡ f.heartbeat_enable
    pub durations : HasLeases r ⊎ LacksLeases r
    pub keys : r.server.get_key ≡ (λ node_uuid. machine.read_file f.key_path)
    pub encryption : r.is_encrypted ≡ f.tls_enable
    pub metrics : r.has_metrics_server ≡ not (f.metrics_endpoint == "")
    pub http : MatchesFlags r.http

  start_http-MatchesFlags :
      (http : Option HttpParts) → start_http machine libraries f ≡ up http → MatchesFlags http
  start_http-MatchesFlags http e = elim (start_http-up machine libraries f http e) [
    | inr lacks ↦ inr lacks
    | inl (same, on, hmac_key, admin_token) ↦ inl (
      _,
      record {
        running = same;
        enabled = on;
        has_hmac_key = hmac_key;
        has_admin_token = admin_token;
        mac = refl;
        key = refl;
        admin_token = refl;
        lease_duration = refl;
        heartbeat_interval = refl;
        check_interval = refl;
        heartbeat_timeout = refl;
      },
    )
  ]

  keys_of :
      (r : Running) (o : Options) (key : Bytes)
      → r.server ≡ new_server key libraries.gcm libraries.net o
      → machine.read_file f.key_path ≡ some key
      → r.server.get_key ≡ (λ node_uuid. machine.read_file f.key_path)
  unfolding new_server
  keys_of r o key server e = rw (server, e) refl

  has_leases :
      (r : Running) (o : Options) (key : Bytes)
      → r.server ≡ new_server key libraries.gcm libraries.net o
      → r.store ≡ o.lease_store
      → server_options machine.io machine.now machine.disk (some new_metrics) f ≡ configured o
      → HasLeases r ⊎ LacksLeases r
  unfolding new_server
  has_leases r o key server store e = elim (server_options-configured machine libraries f o e) [
    | inr (off, absent) ↦ inr (off, store ∙ absent)
    | inl (on, window, interval, lasts, opened) ↦ inl (record {
      enabled = on;
      window = rw server window;
      interval = interval;
      lasts = lasts;
      store = store ∙ opened;
    })
  ]

  -- A server that started has the parts that the flags ask for. Its gRPC service uses the
  -- content of the key's file for every node, is encrypted exactly with --tls-enable, and enforces leases exactly
  -- with --heartbeat-enable: then they last --lease-duration, which is longer than the interval of
  -- heartbeats, and are kept in the store that was opened at its path. The metrics are exposed
  -- exactly if they have an address. Either the HTTP API and the switch run, with the secrets and the
  -- durations of the flags, leases are on and both secrets are set; or they do not run, and leases
  -- are off or one of the secrets is missing.
  pub boot-IsConsistent :
      (r : Running) → boot machine libraries f ≡ up r → (o : Options) × IsConsistent r o
  boot-IsConsistent r e =
      let (key, o, encrypted, exposed, http, done) = boot-HasSteps machine libraries f r e in
      let (server, encryption, store, metrics, same) =
        boot-fields machine libraries f r key o encrypted exposed http e done in
      let options = configure-up machine libraries f o done.options_step in
      let io = machine.io in
      (
        o,
        record {
          options = options;
          store = store;
          leases =
              rw server
                (lease_enabled-server_options io machine.now machine.disk (some new_metrics) f o key
                  libraries.gcm libraries.net options).0;
          durations = has_leases r o key server store options;
          keys = keys_of r o key server (read_key-up machine libraries f key done.key_step);
          encryption =
              encryption ∙ new_grpc_server-up machine libraries f encrypted done.encryption_step;
          metrics = metrics ∙ start_metrics-up machine libraries f exposed done.metrics_step;
          http = rw same (start_http-MatchesFlags http done.http_step);
        },
      )

  -- With leases on and one of the two secrets missing the server starts all the same: it enforces
  -- leases, and has neither the admin endpoints nor the switch.
  pub boot_without_switch :
      (r : Running)
      → boot machine libraries f ≡ up r
      → f.heartbeat_enable ≡ true
      → (f.heartbeat_hmac_key ≡ "") ⊎ (f.admin_token ≡ "")
      → (lease_enabled r.server ≡ true) × (r.http ≡ none)
  boot_without_switch r booted on missing =
      let (o, parts) = boot-IsConsistent r booted in
      (
        parts.leases ∙ on,
        elim parts.http [
          | inr lacks ↦ lacks.0
          | inl (http, has) ↦
              absurd (elim missing [
                | inl bad ↦ has.has_hmac_key bad
                | inr bad ↦ has.has_admin_token bad
              ])
        ],
      )

  -- Flags that ask for all parts, on a machine that has what they need, start the server with its
  -- HTTP API and its switch even if --heartbeat-check-interval is not positive, and the switch then
  -- panics, whatever it is to receive.
  pub boot_panics :
      (signals : List Signal) (s : LeaseStore)
      → CanStart machine f
      → f.heartbeat_check_interval ≤ℤ pos 0
      → (r : Running) × (parts : HttpParts) × (boot machine libraries f ≡ up r)
        × (r.http ≡ some parts)
        × (start parts.switch.check_interval parts.switch.heartbeat_timeout signals s ≡ none)
  unfolding start
  boot_panics signals s can low =
      let (r, booted, http) = boot-CanStart machine libraries f can in
      (r, _, booted, http, ground arith)
