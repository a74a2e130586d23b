-- ===== src/Server/Deliver.antt =====
-- What Unseal of pkg/server/server.go gives out, and to whom it gives a lease; Seal and Unseal
-- against each other.
use kms_client.Prelude.{
  ap, ◌+◌, length, length-append, String, ◌≡◌, refl, true, false, [], ◌∷◌, Option, none, some,
  arith, eq_iff, Option-cases, inl, inr, ◌++◌,
}
use kms_client.Clock.{Time, Duration, zero_time, add}
use kms_client.Lease.{LeaseRecord, active, active_lease}
use kms_client.Nodes.{lookup, Distinct}
use kms_client.Store.State.{LeaseStore}
use kms_client.Store.Leases.{bootstrap_record}
use kms_client.Store.Effects.{lookup-bootstrap}
use kms_client.Server.Rpc.{success}
use kms_client.Server.Labels.{observe_unseal}
use kms_client.Server.Peer.{peer_ip_from_context}
use kms_client.Server.Config.{Bytes, Request, Server, lease_enabled, Call, block_size, nonce_size}
use kms_client.Server.Seal.{seal}
use kms_client.Server.Unseal.{admit, open_and_deliver, unseal_body, unseal, take, drop, register}

take-append : (a b : Bytes) → take (length a) (a ++ b) ≡ a
take-append [] b = refl
take-append (x ∷ a) b = ap (◌∷◌ x) (take-append a b)

drop-append : (a b : Bytes) → drop (length a) (a ++ b) ≡ b
drop-append [] b = refl
drop-append (x ∷ a) b = drop-append a b

-- The data of a request, decrypted under a key.
abbrev pub opened : Server → Bytes → Request → Option Bytes
opened srv key req =
    srv.gcm.open_box key (take nonce_size req.content) (drop nonce_size req.content)

-- What is known of the time when the node was first seen, and of its hostname.
abbrev pub known_since : Time → Option LeaseRecord → Time
known_since now none = now
known_since now (some old) = old.first_seen

abbrev pub known_as : Option LeaseRecord → String
known_as none = ""
known_as (some old) = old.hostname

-- A record that a successful Unseal at `now` from the address `ip` leaves.
pub record IsFresh (old : Option LeaseRecord) (ip : String) (now : Time) (lease_window : Duration)
    (r : LeaseRecord) : Type 0 where
  pub status : r.status ≡ active
  pub unseal_ip : r.last_unseal_ip ≡ ip
  pub node_ip : r.node_ip ≡ ip
  pub unsealed : r.last_unseal_at ≡ now
  pub beaten : r.last_heartbeat_at ≡ now
  pub lease : r.lease_until ≡ add now lease_window
  pub maintenance : r.maintenance ≡ false
  pub reason : r.block_reason ≡ ""
  pub blocked_at : r.blocked_at ≡ zero_time
  pub maintenance_at : r.maintenance_at ≡ zero_time
  pub first_seen : r.first_seen ≡ known_since now old
  pub hostname : r.hostname ≡ known_as old

bootstrap_record-IsFresh :
    (old : Option LeaseRecord) (ip : String) (now : Time) (lease_window : Duration)
    → IsFresh old ip now lease_window (bootstrap_record old ip now lease_window)
unfolding bootstrap_record active_lease
bootstrap_record-IsFresh none ip now lease_window = record {
  status = refl;
  unseal_ip = refl;
  node_ip = refl;
  unsealed = refl;
  beaten = refl;
  lease = refl;
  maintenance = refl;
  reason = refl;
  blocked_at = refl;
  maintenance_at = refl;
  first_seen = refl;
  hostname = refl;
}
bootstrap_record-IsFresh (some old) ip now lease_window = record {
  status = refl;
  unseal_ip = refl;
  node_ip = refl;
  unsealed = refl;
  beaten = refl;
  lease = refl;
  maintenance = refl;
  reason = refl;
  blocked_at = refl;
  maintenance_at = refl;
  first_seen = refl;
  hostname = refl;
}

module _ (srv : Server) (call : Call) (req : Request) (s : LeaseStore) (key : Bytes)
    (held : srv.get_key req.node_uuid ≡ some key) where
  -- Where the node has a key, data that are not authentic under it give no lease: the records are
  -- those that the check of the lease left.
  pub unseal_not_authentic :
      opened srv key req ≡ none → (unseal srv call req s).0.nodes ≡ (admit srv call req s).0.nodes
  unfolding unseal unseal_body observe_unseal open_and_deliver
  unseal_not_authentic bad = ground arith

  -- Where leases are on, the node has a key and the check of the lease leaves one record per node, a
  -- request with authentic data that succeeds returns the decrypted data, the peer has an address, and the node then holds a record that is
  -- active, not under maintenance and without a block, that names this address as the node's own
  -- and as that of its last Unseal, with the time of the call as its last Unseal and heartbeat and
  -- with a lease from then on. A node that had a record keeps the time when it was first seen, and
  -- its hostname.
  pub unseal_authentic :
      (a b : Bytes)
      → Distinct (admit srv call req s).0.nodes
      → lease_enabled srv ≡ true
      → opened srv key req ≡ some b
      → (unseal srv call req s).1 ≡ success a
      → (a ≡ b)
        × ((ip : String) × (r : LeaseRecord) × (peer_ip_from_context srv.net call.peer ≡ some ip)
            × (lookup req.node_uuid (unseal srv call req s).0.nodes ≡ some r)
            × IsFresh
                (lookup req.node_uuid (admit srv call req s).0.nodes)
                ip
                call.at_update.now
                srv.lease_window
                r)
  unfolding unseal unseal_body observe_unseal open_and_deliver register
  unseal_authentic a b d enabled good h =
      elim (Option-cases (peer_ip_from_context srv.net call.peer)) [
        | inl nobody ↦ absurd (ground arith)
        | inr (ip, e) ↦
            let now = call.at_update.now in
            let old = lookup req.node_uuid (admit srv call req s).0.nodes in
            (
              ground arith,
              (
                ip,
                bootstrap_record old ip now srv.lease_window,
                e,
                ground (
                  arith,
                  eq_iff req.node_uuid req.node_uuid,
                  lookup-bootstrap call.at_update.range call.at_update.io req.node_uuid ip now
                      srv.lease_window (admit srv call req s).0 req.node_uuid d,
                ),
                bootstrap_record-IsFresh old ip now srv.lease_window,
              ),
            )
      ]

-- A passphrase that was sealed for a node is returned by Unseal of what Seal answered: with one
-- key for the node, a nonce of 12 bytes, a box that is 16 bytes longer and opens again, once the
-- check of the lease passes and the new lease can be written.
pub unseal-seal :
    (srv : Server) (sealing unsealing : Call) (req : Request) (s t : LeaseStore)
    (key nonce sealed : Bytes)
    → srv.get_key req.node_uuid ≡ some key
    → sealing.random_nonce ≡ some nonce
    → length nonce ≡ nonce_size
    → length (srv.gcm.seal_box key nonce req.content) ≡ length req.content + block_size
    → srv.gcm.open_box key nonce (srv.gcm.seal_box key nonce req.content) ≡ some req.content
    → (seal srv sealing req s).1 ≡ success sealed
    → (admit srv unsealing (record req { content = sealed }) t).1 ≡ success tt
    → (register srv unsealing req.node_uuid
        (admit srv unsealing (record req { content = sealed }) t).0).1
      ≡ success tt
    → (unseal srv unsealing (record req { content = sealed }) t).1 ≡ success req.content
unfolding seal unseal unseal_body observe_unseal open_and_deliver
unseal-seal srv sealing unsealing req s t key nonce sealed held random size tag_size opens done
      admitted registered =
    let box = srv.gcm.seal_box key nonce req.content in
    ground (
      arith,
      eq_iff req.node_uuid "",
      take-append nonce box,
      drop-append nonce box,
      length-append nonce box,
    )
