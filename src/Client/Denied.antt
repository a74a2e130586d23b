-- ===== src/Client/Denied.antt =====
-- The client of cmd/kms-client/main.go against Heartbeat of pkg/server/server.go: when it gives up.
use kms_client.Prelude.{◌≡◌, refl, ◌≢◌, ◌↔◌, String, true, Option, none, some, arith}
use kms_client.Store.State.{
  LeaseStore, StoreError, lease_expired, lease_not_found, node_ip_not_found, lease_blocked,
  file_error,
}
use kms_client.Store.Leases.{heartbeat_by_ip}
use kms_client.Server.Rpc.{Result, success, failure}
use kms_client.Server.Labels.{observe_heartbeat}
use kms_client.Server.Peer.{peer_ip_from_context}
use kms_client.Server.Config.{Bytes, Server, lease_enabled, Call}
use kms_client.Server.Heartbeat.{heartbeat, heartbeat_body, refresh, heartbeat_error}
use kms_client.Client.{classify_heartbeat_error}

-- The client goes on after this answer.
abbrev pub IsKept : Result Bytes → Type 0
IsKept (success r) = Unit
IsKept (failure err) = classify_heartbeat_error err ≡ none

error_iff :
    (err : Option StoreError) (s : LeaseStore)
    → IsKept (heartbeat_error err s).1
      ↔ ((err ≢ some lease_blocked) × (err ≢ some lease_expired) × (err ≢ some node_ip_not_found))
unfolding heartbeat_error classify_heartbeat_error
error_iff none s = (
  λ h. (λ e. absurd (ground arith), λ e. absurd (ground arith), λ e. absurd (ground arith)),
  λ h. tt,
)
error_iff (some lease_expired) s = (λ h. absurd (ground arith), λ h. absurd (h.1 refl))
error_iff (some node_ip_not_found) s = (λ h. absurd (ground arith), λ h. absurd (h.2 refl))
error_iff (some lease_blocked) s = (λ h. absurd (ground arith), λ h. absurd (h.0 refl))
error_iff (some lease_not_found) s = (
  λ h. (λ e. absurd (ground arith), λ e. absurd (ground arith), λ e. absurd (ground arith)),
  λ h. refl,
)
error_iff (some (file_error fault)) s = (
  λ h. (λ e. absurd (ground arith), λ e. absurd (ground arith), λ e. absurd (ground arith)),
  λ h. refl,
)

module _ (srv : Server) (call : Call) (s : LeaseStore) (ip : String) (on : lease_enabled srv ≡ true)
    (known : peer_ip_from_context srv.net call.peer ≡ some ip) where
  -- What HeartbeatByIP answers for the client's address.
  abbrev pub store_error : Option StoreError
  store_error =
      (heartbeat_by_ip call.at_update.range call.at_update.io ip call.at_update.now srv.lease_window
        s).3

  heartbeat_answer : (heartbeat srv call s).1 ≡ (heartbeat_error store_error s).1
  unfolding heartbeat heartbeat_body refresh heartbeat_error observe_heartbeat
  heartbeat_answer = ground arith

  -- Where leases are on and the client's address is known, the server's answer to a heartbeat is
  -- one that the running client outlives exactly if the store's answer is not that the node is
  -- blocked, its lease over or its address not registered: a fault of the server's files is
  -- retried.
  pub heartbeat-IsKept_iff : IsKept (heartbeat srv call s).1 ↔ (
      (store_error ≢ some lease_blocked)
      × (store_error ≢ some lease_expired)
      × (store_error ≢ some node_ip_not_found))
  heartbeat-IsKept_iff = rw heartbeat_answer (error_iff store_error s)
