-- ===== src/Server/Heartbeat.antt =====
-- Heartbeat of pkg/server/server.go.
use kms_client.Prelude.{String, [], Option, none, some}
use kms_client.Store.State.{StoreError, lease_expired, node_ip_not_found, lease_blocked}
use kms_client.Store.Leases.{heartbeat_by_ip}
use kms_client.Store.Calls.{Context}
use kms_client.Server.Rpc.{
  permission_denied, unauthenticated, failed_precondition, internal, status, Rpc, pure, raise,
  require, ◌>>=◌, ◌>>◌,
}
use kms_client.Server.Labels.{observe_heartbeat}
use kms_client.Server.Peer.{peer_ip_from_context}
use kms_client.Server.Config.{Bytes, Server, lease_enabled, Call, or_raise}

-- The status of an error of HeartbeatByIP.
unfoldable pub heartbeat_error : Option StoreError → Rpc Bytes
heartbeat_error none = pure []
heartbeat_error (some lease_blocked) = raise (status permission_denied "node blocked")
heartbeat_error (some lease_expired) = raise (status permission_denied "heartbeat lease expired")
heartbeat_error (some node_ip_not_found) =
    raise (status permission_denied "heartbeat peer is not registered")
heartbeat_error (some e) = raise (status internal "failed to refresh heartbeat lease: ")

module _ (srv : Server) where
  unfoldable pub refresh : Context → String → Rpc Bytes
  unfolding heartbeat_error
  refresh c ip s =
      let (s', node_uuid, r, err) = heartbeat_by_ip c.range c.io ip c.now srv.lease_window s in
      heartbeat_error err s'

  unfoldable pub heartbeat_body : Call → Rpc Bytes
  unfolding refresh lease_enabled
  heartbeat_body call = do
    require (lease_enabled srv) (status failed_precondition "heartbeat leases are disabled")
    ip ←
        or_raise (peer_ip_from_context srv.net call.peer)
          (status unauthenticated "failed to identify heartbeat peer: ")
    refresh call.at_update ip

  -- The response holds no data.
  unfoldable pub heartbeat : Call → Rpc Bytes
  heartbeat call = observe_heartbeat call.elapsed (heartbeat_body call)
