-- ===== src/Options/Boot.antt =====
-- run of cmd/kms-server/main.go: the steps of the start in their order, and the parts that are then
-- running.
pub mod Parts
pub mod Ready
pub mod Steps
pub mod Sound
use kms_client.Prelude.{
  ℕ, String, ◌≡◌, refl, ◌⊎◌, inl, inr, Bool, true, false, not, ◌&&◌, List, Option, none, some, ◌==◌,
  if◌then◌else◌,
}
use kms_client.Prelude.Int.{leb_ℤ, pos}
use kms_client.Prelude.Texts.{codes}
use kms_client.Clock.{Time, Duration}
use kms_client.Metrics.{Metrics, new_metrics}
use kms_client.Store.State.{LeaseStore, Io, Disk}
use kms_client.Server.Peer.{Net}
use kms_client.Server.Config.{Bytes, Gcm, Server}
use kms_client.Http.Defs.{HttpHandler}
use kms_client.Options.{
  Flags, Options, OptionsError, Configured, configured, refused, server_options, new_server,
  starts_http,
}

-- What the start asks of the machine: the content of a file (`none` is an error), whether a pair of
-- files is a certificate, whether an address can be listened on, and the lease store's file.
pub record Machine : Type 0 where
  pub read_file : String → Option Bytes
  pub is_certificate : String → String → Bool
  pub can_listen : String → Bool
  pub io : Io
  pub now : Time
  pub disk : Disk

-- The libraries behind the parts.
pub record Libraries : Type 0 where
  pub mac : List ℕ → List ℕ → List ℕ
  pub gcm : Gcm
  pub net : Net

pub data BootError : Type 0 where
  no_key_path unreadable_key bad_certificate : BootError
  bad_options : OptionsError → BootError
  cannot_listen : String → BootError

pub data Booted {ℓ} (A : Type ℓ) : Type ℓ where
  up : A → Booted A
  down : BootError → Booted A

infixl 5 ◌>>=◌ ◌>>◌
abbrev pub ◌>>=◌ : {A B : Type 0} → Booted A → (A → Booted B) → Booted B
up a >>= f = f a
down e >>= f = down e

abbrev pub ◌>>◌ : {B : Type 0} → Booted (Unit {0}) → Booted B → Booted B
m >> k = m >>= λ _. k

pub Booted-cases :
    {A : Type 0} (m : Booted A) → ((a : A) × (m ≡ up a)) ⊎ ((e : BootError) × (m ≡ down e))
Booted-cases (up a) = inl (a, refl)
Booted-cases (down e) = inr (e, refl)

-- `if !test { return e }`
abbrev pub require : Bool → BootError → Booted (Unit {0})
require true e = up tt
require false e = down e

-- DeadManSwitch, without its store, clock and metrics.
pub record DeadManSwitch : Type 0 where
  pub check_interval : Duration
  pub heartbeat_timeout : Duration

-- The HTTP API and the switch, which are started together.
pub record HttpParts : Type 0 where
  pub handler : HttpHandler
  pub switch : DeadManSwitch

pub record Running : Type 0 where
  pub server : Server
  pub is_encrypted : Bool
  pub store : Option LeaseStore
  pub has_metrics_server : Bool
  pub http : Option HttpParts

module _ (machine : Machine) (libraries : Libraries) (f : Flags) where
  -- os.ReadFile of the key.
  unfoldable pub read_key : Booted Bytes
  read_key = elim (machine.read_file f.key_path) [ none ↦ down unreadable_key | some key ↦ up key ]

  unfoldable pub configure : Booted Options
  configure = elim (server_options machine.io machine.now machine.disk (some new_metrics) f) [
    | configured o ↦ up o
    | refused e ↦ down (bad_options e)
  ]

  -- newGRPCServer: whether the connections are encrypted.
  unfoldable pub new_grpc_server : Booted Bool
  new_grpc_server =
      if not f.tls_enable
      then up false
      else if machine.is_certificate f.tls_cert_path f.tls_key_path
      then up true
      else down bad_certificate

  listen : String → Booted (Unit {0})
  listen endpoint = require (machine.can_listen endpoint) (cannot_listen endpoint)

  -- The Prometheus endpoint; an empty address turns it off.
  unfoldable pub start_metrics : Booted Bool
  unfolding listen
  start_metrics =
      if not (f.metrics_endpoint == "") then (do listen f.metrics_endpoint; up true) else up false

  -- NewHTTPHandler and NewHMACAuth, of the flags.
  abbrev pub new_http_handler : HttpHandler
  new_http_handler = record {
    mac = libraries.mac;
    key = codes f.heartbeat_hmac_key;
    admin_token = f.admin_token;
    lease_duration = f.lease_duration;
    heartbeat_interval = f.heartbeat_interval;
  }

  -- NewDeadManSwitch, of the flags.
  abbrev pub new_dead_man_switch : DeadManSwitch
  new_dead_man_switch = record {
    check_interval = f.heartbeat_check_interval;
    heartbeat_timeout = f.heartbeat_timeout;
  }

  unfoldable pub start_http : Booted (Option HttpParts)
  unfolding starts_http listen
  start_http =
      if starts_http f
      then (do
        listen f.http_endpoint
        up (some (record { handler = new_http_handler; switch = new_dead_man_switch })))
      else up none

  -- run, up to the wait for its parts.
  unfoldable pub boot : Booted Running
  unfolding listen
  boot = do
    require (not (f.key_path == "")) no_key_path
    key ← read_key
    options ← configure
    is_encrypted ← new_grpc_server
    listen f.api_endpoint
    has_metrics_server ← start_metrics
    http ← start_http
    up (record {
      server = new_server key libraries.gcm libraries.net options;
      is_encrypted = is_encrypted;
      store = options.lease_store;
      has_metrics_server = has_metrics_server;
      http = http;
    })
