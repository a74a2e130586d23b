-- ===== src/Tests/Starts.antt =====
-- The theorems on the starts of cmd/kms-server/main.go and cmd/kms-client/main.go, on concrete machines.
use kms_client.Prelude.{◌≡◌, refl, inr, true, List, [], ◌∷◌, none, some, arith}
use kms_client.Prelude.Int.{pos}
use kms_client.Nodes.{lookup}
use kms_client.Store.State.{LeaseStore, new_file_lease_store, load}
use kms_client.Server.Rpc.{success}
use kms_client.Server.Config.{lease_enabled}
use kms_client.DeadMan.{start, tick}
use kms_client.Metrics.{new_metrics}
use kms_client.Store.Invariant.{IsValid}
use kms_client.Store.Lives.{no_file-IsSound}
use kms_client.Options.Boot.Sound.{boot-IsValid}
use kms_client.System.Concurrent.{serves, served, more, done}
use kms_client.System.{step, Process, serve, Event, unseal_request, grpc_heartbeat}
use kms_client.System.Booted.{boot_never_blocks}
use kms_client.System.Unwatched.{IsFree}
use kms_client.Options.{Flags, Options, new_server, server_options, starts_http}
use kms_client.Options.Boot.{
  Machine, Libraries, up, Running, HttpParts, boot, read_key, configure, new_grpc_server,
  start_metrics, start_http,
}
use kms_client.Options.Boot.Ready.{CanStart}
use kms_client.Options.Boot.Parts.{IsConsistent, boot-IsConsistent, boot_panics}
use kms_client.Client.{ClientFlags, default_client_flags, validate_flags, heartbeat_loop, shutdown}
use kms_client.Client.Run.{
  Surroundings, looped, tls_with, run, beat, transport_credentials, IsSound, run-IsSound,
}
use kms_client.Tests.{
  differs, at_second, seconds, alive, one_node, good_io, empty_disk, context_at, lookup-one_node,
  one_node-IsValid, alive-IsCoherent, handler, key, gcm, net, mac, call_at, request, peer_not_empty,
}
use kms_client.Tests.Programs.{flags}

abbrev machine : Machine
machine = record {
  read_file = λ path. some key;
  is_certificate = λ cert key_file. true;
  can_listen = λ endpoint. true;
  io = good_io;
  now = at_second 1000;
  disk = empty_disk;
}

abbrev libraries : Libraries
libraries = record { mac = mac; gcm = gcm; net = net }

abbrev eager : Flags
eager = record flags { heartbeat_check_interval = pos 0 }

abbrev starts : (r : Running) × (boot machine libraries eager ≡ up r)
unfolding boot read_key configure server_options new_file_lease_store load new_grpc_server
    start_metrics start_http starts_http
starts = (_, refl)

boot-IsConsistent_example : (o : Options) × IsConsistent machine libraries eager starts.0 o
boot-IsConsistent_example = boot-IsConsistent machine libraries eager starts.0 starts.1

can_start : CanStart machine eager
unfolding new_file_lease_store load
can_start = record {
  asks = record {
    enabled = refl;
    stored = differs eager.lease_store_path "" refl;
    interval = ground arith;
    lasts = ground arith;
  };
  hmac_key = differs eager.heartbeat_hmac_key "" refl;
  admin_token = differs eager.admin_token "" refl;
  key_path = differs eager.key_path "" refl;
  key = λ e. absurd (ground arith);
  certificate = inr refl;
  api = refl;
  metrics = refl;
  http = refl;
  opens = refl;
}

boot_panics_example :
    (r : Running) × (parts : HttpParts) × (boot machine libraries eager ≡ up r)
    × (r.http ≡ some parts)
    × (start parts.switch.check_interval parts.switch.heartbeat_timeout
          (tick (context_at 1200) ∷ [])
          (one_node alive)
        ≡ none)
boot_panics_example =
    boot_panics machine libraries eager (tick (context_at 1200) ∷ []) (one_node alive) can_start
      (ground arith)

-- Without the admin token.
abbrev tokenless : Flags
tokenless = record flags { admin_token = "" }

abbrev starts_tokenless : (r : Running) × (boot machine libraries tokenless ≡ up r)
unfolding boot read_key configure server_options new_file_lease_store load new_grpc_server
    start_metrics start_http starts_http
starts_tokenless = (_, refl)

abbrev process : Process
process = record {
  server = starts_tokenless.0.server;
  http = handler;
  heartbeat_timeout = seconds 120;
}

abbrev events : List Event
events = unseal_request (call_at 1010) request ∷ grpc_heartbeat (call_at 5000) ∷ []

boot_never_blocks_example :
    (lease_enabled starts_tokenless.0.server ≡ true)
    × IsFree (lookup "n1" (serve process events (one_node alive)).nodes)
unfolding starts_tokenless new_server
boot_never_blocks_example =
    boot_never_blocks machine libraries tokenless starts_tokenless.0 process events (one_node alive)
      "n1" starts_tokenless.1 refl (inr refl) refl (refl, (refl, tt))
      (one_node-IsValid alive alive-IsCoherent) (tt, (peer_not_empty 5000, tt))
      (rw (lookup-one_node alive) refl)

abbrev client_machine : Surroundings
client_machine = record {
  read_file = λ path. some key;
  has_certificates = λ bundle. true;
  can_dial = λ endpoint. true;
}

abbrev client_flags : ClientFlags
client_flags = record default_client_flags { tls_ca_path = "ca.pem" }

runs :
    run client_machine client_flags (success []) (shutdown ∷ []) ≡ looped (tls_with key) (some none)
unfolding run validate_flags transport_credentials beat heartbeat_loop
runs = refl

run-IsSound_example :
    IsSound client_machine client_flags (tls_with key)
    × (some none ≡ heartbeat_loop (success []) (shutdown ∷ []))
run-IsSound_example =
    run-IsSound client_machine client_flags (success []) (shutdown ∷ []) (tls_with key) (some none)
      runs

abbrev first_store : LeaseStore
first_store =
    (new_file_lease_store good_io (at_second 1000) "leases.json" (some new_metrics) empty_disk).0

stores : starts_tokenless.0.store ≡ some first_store
unfolding starts_tokenless new_file_lease_store load
stores = refl

boot-IsValid_example : IsValid (step process (grpc_heartbeat (call_at 1010)) first_store)
unfolding starts_tokenless new_server
boot-IsValid_example =
    boot-IsValid machine libraries tokenless starts_tokenless.0 first_store process
      (record { store = step process (grpc_heartbeat (call_at 1010)) first_store; pending = [] })
      (serves (grpc_heartbeat (call_at 1010)) ∷ []) starts_tokenless.1 refl refl
      (no_file-IsSound empty_disk refl) stores
      (more (served (grpc_heartbeat (call_at 1010)) refl) done) (peer_not_empty 1010, tt)
