-- ===== src/Tests/Servers.antt =====
-- The theorems on pkg/server/server.go at a concrete server.
use kms_client.Prelude.{String, ◌≡◌, refl, [], some}
use kms_client.Lease.{LeaseRecord}
use kms_client.Nodes.{lookup}
use kms_client.Store.State.{LeaseStore, persist_locked, update_lease_metrics_locked}
use kms_client.Store.Leases.{validate, bootstrap, persist_and_return, put_record}
use kms_client.Server.Rpc.{failure, success, status, permission_denied}
use kms_client.Server.Peer.{peer_ip_from_context}
use kms_client.Server.Config.{Request, lease_enabled}
use kms_client.Server.Seal.{seal, key_of, check_key}
use kms_client.Server.Unseal.{
  unseal, admit, register, bootstrap_as, unseal_body, open_and_deliver, deliver,
}
use kms_client.Server.Deny.{unseal_blocked, unseal_labels, counted}
use kms_client.Server.Deliver.{IsFresh, unseal_authentic, unseal-seal}
use kms_client.Server.Heartbeat.{heartbeat}
use kms_client.Server.Counted.{counts, and_unseal, and_heartbeat, counts_once}
use kms_client.Server.Labels.{request_labels, observe_unseal}
use kms_client.Tests.{
  at_second, seconds, halted, store_of, one_node, halted-Holds, repeated, key, passphrase, net,
  server, call_at, request, request-IsChecked,
}

unseal_blocked_example :
    ((unseal server (call_at 1210) request (one_node halted)).1
      ≡ failure (status permission_denied "node blocked"))
    × ((unseal server (call_at 1210) request (one_node halted)).0.nodes ≡ (one_node halted).nodes)
    × ((unseal server (call_at 1210) request (one_node halted)).0.disk ≡ (one_node halted).disk)
    × (unseal_labels (unseal server (call_at 1210) request (one_node halted)).0
        ≡ counted ("denied", "node_blocked") (one_node halted))
unseal_blocked_example =
    unseal_blocked server (call_at 1210) request (one_node halted) (request-IsChecked 1210) halted
      halted-Holds

-- A store that is not kept in a file.
abbrev unsaved : LeaseStore → LeaseStore
unsaved t = record t { path = "" }

abbrev store : LeaseStore
store = unsaved (store_of [])

admitted : admit server (call_at 1010) request store ≡ (store, success tt)
unfolding admit validate lookup
admitted = refl

registered :
    (register server (call_at 1010) "n1" (admit server (call_at 1010) request store).0).1
    ≡ success tt
unfolding admit validate lookup register peer_ip_from_context lease_enabled bootstrap_as bootstrap
    persist_and_return persist_locked put_record update_lease_metrics_locked
registered = refl

delivered : (unseal server (call_at 1010) request store).1 ≡ success passphrase
unfolding unseal observe_unseal unseal_body open_and_deliver deliver key_of check_key admit validate
    lookup register peer_ip_from_context lease_enabled bootstrap_as bootstrap persist_and_return
    persist_locked put_record update_lease_metrics_locked
delivered = refl

unseal_authentic_example :
    (passphrase ≡ passphrase)
    × ((ip : String) × (r : LeaseRecord) × (peer_ip_from_context net (call_at 1010).peer ≡ some ip)
        × (lookup "n1" (unseal server (call_at 1010) request store).0.nodes ≡ some r)
        × IsFresh
            (lookup "n1" (admit server (call_at 1010) request store).0.nodes)
            ip
            (at_second 1010)
            (seconds 60)
            r)
unfolding lease_enabled
unseal_authentic_example =
    unseal_authentic server (call_at 1010) request store key refl passphrase passphrase
      (rw admitted tt) refl refl delivered

abbrev sealing : Request
sealing = record { node_uuid = "n1"; content = passphrase }

sealed : (seal server (call_at 1000) sealing store).1 ≡ success request.content
unfolding seal
sealed = refl

unseal-seal_example : (unseal server (call_at 1010) request store).1 ≡ success passphrase
unseal-seal_example =
    unseal-seal server (call_at 1000) (call_at 1010) sealing store store key (repeated 12 3)
      request.content refl refl refl refl refl sealed (rw admitted refl) registered

counts_once_example :
    (counts (unseal server (call_at 1010) request store).0
      ≡ and_unseal
          (request_labels (unseal server (call_at 1010) request store).1)
          (seconds 1)
          (counts store))
    × (counts (heartbeat server (call_at 1010) store).0
        ≡ and_heartbeat
            (request_labels (heartbeat server (call_at 1010) store).1)
            (seconds 1)
            (counts store))
counts_once_example = counts_once server (call_at 1010) request store
