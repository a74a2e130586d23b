-- ===== src/System.antt =====
-- The server process of cmd/kms-server/main.go as its clients see it: the gRPC service, the HTTP
-- API and the dead-man's switch over one lease store. An event is one request or one tick; Unseal
-- runs without another call in between (System/Concurrent.antt has the other case).
pub mod Trace
pub mod Steps
pub mod Safety
pub mod Unwatched
pub mod Concurrent
pub mod Alive
pub mod Booted
use kms_client.Prelude.{ℕ, String, Bool, List, [], ◌∷◌, Option}
use kms_client.Clock.{Time, Duration}
use kms_client.Store.State.{LeaseStore}
use kms_client.Store.Calls.{Context}
use kms_client.Server.Config.{Server, Call, Request}
use kms_client.Server.Unseal.{unseal}
use kms_client.Server.Heartbeat.{heartbeat}
use kms_client.Http.Defs.{HttpHandler, HeartbeatRequest}
use kms_client.Http.Node.{handle_heartbeat}
use kms_client.Http.Admin.{handle_unblock_node, handle_set_maintenance}
use kms_client.DeadMan.{check}

pub record Process : Type 0 where
  pub server : Server
  pub http : HttpHandler
  pub heartbeat_timeout : Duration

-- The requests that only read the store are left out.
pub data Event : Type 0 where
  unseal_request : Call → Request → Event
  grpc_heartbeat : Call → Event
  http_heartbeat : Time → Context → Option HeartbeatRequest → List ℕ → Event
  unblock_request : Context → String → String → Event
  maintenance_request : Context → String → String → Option Bool → Event
  switch_tick : Context → Event

unfoldable pub step : Process → Event → LeaseStore → LeaseStore
step p (unseal_request call req) s = (unseal p.server call req s).0
step p (grpc_heartbeat call) s = (heartbeat p.server call s).0
step p (http_heartbeat checked_at c req signature) s =
    (handle_heartbeat p.http checked_at c req signature s).0
step p (unblock_request c authorization uuid) s =
    (handle_unblock_node p.http c authorization uuid s).0
step p (maintenance_request c authorization uuid enabled) s =
    (handle_set_maintenance p.http c authorization uuid enabled s).0
step p (switch_tick c) s = check p.heartbeat_timeout c s

unfoldable pub serve : Process → List Event → LeaseStore → LeaseStore
serve p [] s = s
serve p (e ∷ es) s = serve p es (step p e s)
