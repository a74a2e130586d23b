-- ===== src/Options/Boot/Ready.antt =====
-- When a start of cmd/kms-server/main.go succeeds with all its parts.
use kms_client.Prelude.{
  ◌≡◌, ◌≢◌, refl, Option, Bool, not, ◌==◌, ◌⊎◌, inl, inr, true, false, none, some, arith, eq_iff,
  Option-cases,
}
use kms_client.Metrics.{new_metrics}
use kms_client.Store.State.{new_file_lease_store}
use kms_client.Server.Config.{Bytes}
use kms_client.Options.{Flags, Options, new_server, starts_http}
use kms_client.Options.Enabled.{AsksForLeases, opens_store}
use kms_client.Options.Boot.{
  Machine, Libraries, up, HttpParts, Running, boot, new_grpc_server, new_http_handler,
  new_dead_man_switch, read_key, configure, start_http, start_metrics,
}

-- The flags ask for all parts, and the machine has what they need: the key, the certificate, the
-- addresses, and a lease store's file that opens. Nothing is said of the durations of the switch.
pub record CanStart (machine : Machine) (f : Flags) : Type 0 where
  pub asks : AsksForLeases f
  pub hmac_key : f.heartbeat_hmac_key ≢ ""
  pub admin_token : f.admin_token ≢ ""
  pub key_path : f.key_path ≢ ""
  pub key : machine.read_file f.key_path ≢ none
  pub certificate :
      (f.tls_enable ≡ false) ⊎ (machine.is_certificate f.tls_cert_path f.tls_key_path ≡ true)
  pub api : machine.can_listen f.api_endpoint ≡ true
  pub metrics : machine.can_listen f.metrics_endpoint ≡ true
  pub http : machine.can_listen f.http_endpoint ≡ true
  pub opens :
      (new_file_lease_store machine.io machine.now f.lease_store_path
        (some new_metrics)
        machine.disk).1
      ≡ none

boot_steps :
    (machine : Machine) (libraries : Libraries) (f : Flags) (key : Bytes) (o : Options)
    (encrypted exposed : Bool) (http : Option HttpParts)
    → f.key_path ≢ ""
    → machine.can_listen f.api_endpoint ≡ true
    → read_key machine libraries f ≡ up key
    → configure machine libraries f ≡ up o
    → new_grpc_server machine libraries f ≡ up encrypted
    → start_metrics machine libraries f ≡ up exposed
    → start_http machine libraries f ≡ up http
    → boot machine libraries f
      ≡ up (record {
        server = new_server key libraries.gcm libraries.net o;
        is_encrypted = encrypted;
        store = o.lease_store;
        has_metrics_server = exposed;
        http = http;
      })
unfolding boot
boot_steps machine libraries f key o encrypted exposed http path api k c e m h =
    ground (arith, eq_iff f.key_path "")

module _ (machine : Machine) (libraries : Libraries) (f : Flags) (c : CanStart machine f) where
  abbrev all_parts : HttpParts
  all_parts = record {
    handler = new_http_handler machine libraries f;
    switch = new_dead_man_switch machine libraries f;
  }

  abbrev options : Options
  options = record {
    lease_store =
        some
          (new_file_lease_store machine.io machine.now f.lease_store_path (some new_metrics)
            machine.disk).0;
    lease_duration = f.lease_duration;
  }

  configures : configure machine libraries f ≡ up options
  unfolding configure
  configures =
      ground
        (arith, opens_store machine.io machine.now machine.disk (some new_metrics) f c.asks c.opens)

  encrypts : new_grpc_server machine libraries f ≡ up f.tls_enable
  unfolding new_grpc_server
  encrypts = ground (arith, c.certificate)

  exposes : start_metrics machine libraries f ≡ up (not (f.metrics_endpoint == ""))
  unfolding start_metrics
  exposes = ground (arith, c.metrics)

  starts_parts : start_http machine libraries f ≡ up (some all_parts)
  unfolding start_http starts_http
  starts_parts = ground (
    arith,
    eq_iff f.heartbeat_hmac_key "",
    eq_iff f.admin_token "",
    c.asks.enabled,
    c.hmac_key,
    c.admin_token,
    c.http,
  )

  reads : (key : Bytes) × (read_key machine libraries f ≡ up key)
  unfolding read_key
  reads = elim (Option-cases (machine.read_file f.key_path)) [
    | inl unreadable ↦ absurd (c.key unreadable)
    | inr (key, e) ↦ (key, ground arith)
  ]

  -- The server starts, with its HTTP API and its switch.
  pub boot-CanStart : (r : Running) × (boot machine libraries f ≡ up r) × (r.http ≡ some all_parts)
  boot-CanStart =
      let (key, k) = reads in
      (
        record {
          server = new_server key libraries.gcm libraries.net options;
          is_encrypted = f.tls_enable;
          store = options.lease_store;
          has_metrics_server = not (f.metrics_endpoint == "");
          http = some all_parts;
        },
        boot_steps machine libraries f key options f.tls_enable (not (f.metrics_endpoint == ""))
            (some all_parts) c.key_path c.api k configures encrypts exposes starts_parts,
        refl,
      )
