-- ===== src/Options.antt =====
-- The start of the server in cmd/kms-server/main.go: serverOptions, the Server that it configures,
-- and the parts that run starts with it. Listeners, TLS and the signal handler are not modelled.
pub mod Enabled
pub mod Boot
use kms_client.Prelude.{
  ◌*◌, String, Bool, true, false, not, ◌&&◌, ◌||◌, Option, none, some, ◌==◌, if◌then◌else◌,
}
use kms_client.Prelude.Int.{ℤ, pos, ltb_ℤ, leb_ℤ}
use kms_client.Clock.{Time, Duration, second}
use kms_client.Metrics.{Metrics}
use kms_client.Store.State.{LeaseStore, StoreError, Io, Disk, new_file_lease_store}
use kms_client.Server.Peer.{Net}
use kms_client.Server.Config.{Bytes, Gcm, Server}
use kms_client.Http.Defs.{HttpHandler}
use kms_client.System.{Process}

-- kmsFlags
pub record Flags : Type 0 where
  pub key_path : String
  pub tls_cert_path : String
  pub tls_key_path : String
  pub lease_store_path : String
  pub heartbeat_hmac_key : String
  pub admin_token : String
  pub metrics_endpoint : String
  pub http_endpoint : String
  pub api_endpoint : String
  pub lease_duration : Duration
  pub heartbeat_interval : Duration
  pub heartbeat_check_interval : Duration
  pub heartbeat_timeout : Duration
  pub heartbeat_enable : Bool
  pub tls_enable : Bool

-- The defaults that main gives to package flag.
abbrev pub default_flags : Flags
default_flags = record {
  key_path = "";
  tls_cert_path = "";
  tls_key_path = "";
  lease_store_path = "";
  heartbeat_hmac_key = "";
  admin_token = "";
  metrics_endpoint = ":2112";
  http_endpoint = ":4051";
  api_endpoint = ":4050";
  lease_duration = pos 0;
  heartbeat_interval = pos (30 * second);
  heartbeat_check_interval = pos (30 * second);
  heartbeat_timeout = pos (120 * second);
  heartbeat_enable = false;
  tls_enable = false;
}

-- main: `parse` is what flag.Parse makes of the defaults, and `getenv` is os.Getenv.
unfoldable pub main_flags : (Flags → Flags) → (String → String) → Flags
main_flags parse getenv =
    let f = parse default_flags in
    let key = getenv "HEARTBEAT_HMAC_KEY" in
    let token = getenv "ADMIN_TOKEN" in
    let f' = if not (key == "") then record f { heartbeat_hmac_key = key } else f in
    if not (token == "") then record f' { admin_token = token } else f'

-- server.Options; its clock is the machine's.
pub record Options : Type 0 where
  pub lease_store : Option LeaseStore
  pub lease_duration : Duration

pub data OptionsError : Type 0 where
  invalid_flags : String → OptionsError
  store_failed : StoreError → OptionsError

pub data Configured : Type 0 where
  configured : Options → Configured
  refused : OptionsError → Configured

opened : Flags → LeaseStore × Option StoreError → Configured
opened f (s, none) = configured (record { lease_store = some s; lease_duration = f.lease_duration })
opened f (s, some e) = refused (store_failed e)

unfoldable pub server_options : Io → Time → Disk → Option Metrics → Flags → Configured
unfolding opened
server_options io now disk metrics f =
    if not f.heartbeat_enable
    then (if ltb_ℤ (pos 0) f.lease_duration || not (f.lease_store_path == "")
        then refused
            (invalid_flags "--lease-duration and --lease-store-path require --heartbeat-enable")
        else configured (record { lease_store = none; lease_duration = pos 0 }))
    else if f.lease_store_path == ""
    then refused (invalid_flags "--lease-store-path is required when heartbeat leases are enabled")
    else if leb_ℤ f.heartbeat_interval (pos 0)
    then refused (
        invalid_flags
          "--heartbeat-interval must be greater than zero when heartbeat leases are enabled")
    else if leb_ℤ f.lease_duration (pos 0)
    then refused (
        invalid_flags
          "--lease-duration must be greater than zero when heartbeat leases are enabled")
    else if leb_ℤ f.lease_duration f.heartbeat_interval
    then refused (invalid_flags "--lease-duration must be greater than --heartbeat-interval")
    else opened f (new_file_lease_store io now f.lease_store_path metrics disk)

abbrev is_given : Option LeaseStore → Bool
is_given none = false
is_given (some s) = true

-- NewServer; `key` is the content of the key file, which run answers for every node.
unfoldable pub new_server : Bytes → Gcm → Net → Options → Server
new_server key gcm net o = record {
  get_key = λ node_uuid. some key;
  has_lease_store = is_given o.lease_store;
  lease_window = o.lease_duration;
  gcm = gcm;
  net = net;
}

-- The condition of run under which the HTTP API and the dead-man's switch are started.
unfoldable pub starts_http : Flags → Bool
starts_http f =
    f.heartbeat_enable && (not (f.heartbeat_hmac_key == "") && not (f.admin_token == ""))
