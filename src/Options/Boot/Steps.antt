-- ===== src/Options/Boot/Steps.antt =====
-- Each step of the start in cmd/kms-server/main.go that succeeds, and what it then has done.
use kms_client.Prelude.{
  ◌≡◌, ◌≢◌, ◌⊎◌, inl, inr, Bool, not, true, false, Option, none, some, arith, eq_iff, ◌==◌,
}
use kms_client.Prelude.Int.{pos, ◌<ℤ◌}
use kms_client.Metrics.{new_metrics}
use kms_client.Store.State.{new_file_lease_store}
use kms_client.Server.Config.{Bytes}
use kms_client.Options.{Flags, Options, configured, server_options, new_server, starts_http}
use kms_client.Options.Boot.{
  Machine, Libraries, up, HttpParts, Running, boot, new_grpc_server, new_http_handler,
  new_dead_man_switch, read_key, configure, start_http, Booted-cases, start_metrics,
}

module _ (machine : Machine) (libraries : Libraries) (f : Flags) where
  pub configure-up :
      (o : Options)
      → configure machine libraries f ≡ up o
      → server_options machine.io machine.now machine.disk (some new_metrics) f ≡ configured o
  unfolding configure
  configure-up o e = ground arith

  pub read_key-up :
      (key : Bytes)
      → read_key machine libraries f ≡ up key
      → machine.read_file f.key_path ≡ some key
  unfolding read_key
  read_key-up key e = ground arith

  pub new_grpc_server-up :
      (encrypted : Bool)
      → new_grpc_server machine libraries f ≡ up encrypted
      → encrypted ≡ f.tls_enable
  unfolding new_grpc_server
  new_grpc_server-up encrypted e = ground arith

  pub start_metrics-up :
      (exposed : Bool)
      → start_metrics machine libraries f ≡ up exposed
      → exposed ≡ not (f.metrics_endpoint == "")
  unfolding start_metrics
  start_metrics-up exposed e = ground arith

  pub start_http-up :
      (http : Option HttpParts)
      → start_http machine libraries f ≡ up http
      → ((http
            ≡ some (record {
              handler = new_http_handler machine libraries f;
              switch = new_dead_man_switch machine libraries f;
            }))
          × (f.heartbeat_enable ≡ true)
          × (f.heartbeat_hmac_key ≢ "")
          × (f.admin_token ≢ ""))
        ⊎ ((http ≡ none)
            × ((f.heartbeat_enable ≡ false) ⊎ (f.heartbeat_hmac_key ≡ "") ⊎ (f.admin_token ≡ "")))
  unfolding start_http starts_http
  start_http-up http e = ground (arith, eq_iff f.heartbeat_hmac_key "", eq_iff f.admin_token "")

  pub server_options-configured :
      (o : Options)
      → server_options machine.io machine.now machine.disk (some new_metrics) f ≡ configured o
      → ((f.heartbeat_enable ≡ true)
          × (o.lease_duration ≡ f.lease_duration)
          × (pos 0 <ℤ f.heartbeat_interval)
          × (f.heartbeat_interval <ℤ f.lease_duration)
          × (o.lease_store
              ≡ some
                  (new_file_lease_store machine.io machine.now f.lease_store_path
                    (some new_metrics)
                    machine.disk).0))
        ⊎ ((f.heartbeat_enable ≡ false) × (o.lease_store ≡ none))
  unfolding server_options
  server_options-configured o e = ground arith

  -- The results of the steps.
  pub record HasSteps (key : Bytes) (o : Options) (encrypted exposed : Bool)
      (http : Option HttpParts) : Type 0 where
    pub key_step : read_key machine libraries f ≡ up key
    pub options_step : configure machine libraries f ≡ up o
    pub encryption_step : new_grpc_server machine libraries f ≡ up encrypted
    pub metrics_step : start_metrics machine libraries f ≡ up exposed
    pub http_step : start_http machine libraries f ≡ up http

  pub boot-fields :
      (r : Running) (key : Bytes) (o : Options) (encrypted exposed : Bool) (http : Option HttpParts)
      → boot machine libraries f ≡ up r
      → HasSteps key o encrypted exposed http
      → (r.server ≡ new_server key libraries.gcm libraries.net o)
        × (r.is_encrypted ≡ encrypted)
        × (r.store ≡ o.lease_store)
        × (r.has_metrics_server ≡ exposed)
        × (r.http ≡ http)
  unfolding boot
  boot-fields r key o encrypted exposed http e s =
      ground (arith, s.key_step, s.options_step, s.encryption_step, s.metrics_step, s.http_step)

  pub boot-HasSteps :
      (r : Running)
      → boot machine libraries f ≡ up r
      → (key : Bytes) × (o : Options) × (encrypted : Bool) × (exposed : Bool) × (http : Option
          HttpParts)
        × HasSteps key o encrypted exposed http
  unfolding boot
  boot-HasSteps r e = elim (Booted-cases (read_key machine libraries f)) [
    | inr (err, bad) ↦ absurd (ground arith)
    | inl (key, k) ↦ elim (Booted-cases (configure machine libraries f)) [
      | inr (err, bad) ↦ absurd (ground arith)
      | inl (o, c) ↦ elim (Booted-cases (new_grpc_server machine libraries f)) [
        | inr (err, bad) ↦ absurd (ground arith)
        | inl (encrypted, g) ↦ elim (Booted-cases (start_metrics machine libraries f)) [
          | inr (err, bad) ↦ absurd (ground arith)
          | inl (exposed, m) ↦ elim (Booted-cases (start_http machine libraries f)) [
            | inr (err, bad) ↦ absurd (ground arith)
            | inl (http, h) ↦ (
              key,
              o,
              encrypted,
              exposed,
              http,
              record {
                key_step = k;
                options_step = c;
                encryption_step = g;
                metrics_step = m;
                http_step = h;
              },
            )
          ]
        ]
      ]
    ]
  ]
