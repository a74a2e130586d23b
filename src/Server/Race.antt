-- ===== src/Server/Race.antt =====
-- Unseal of pkg/server/server.go between other calls: the store is free between validateLease and
-- Bootstrap.
use kms_client.Prelude.{◌≡◌, true, some, arith, eq_iff, List, Option-cases, inl, inr}
use kms_client.Lease.{LeaseRecord, is_active, active_lease}
use kms_client.Nodes.{lookup, Distinct}
use kms_client.Store.State.{LeaseStore}
use kms_client.Store.Leases.{bootstrap_record}
use kms_client.Store.Effects.{lookup-bootstrap}
use kms_client.Store.Calls.{Op, Context, run}
use kms_client.Server.Rpc.{success, Rpc, ◌>>◌}
use kms_client.Server.Peer.{peer_ip_from_context}
use kms_client.Server.Config.{Bytes, Request, Server, lease_enabled, Call}
use kms_client.Server.Unseal.{admit, open_and_deliver, register}
use kms_client.Server.Deliver.{opened}

-- Unseal with other calls on the store between its two locks.
unfoldable pub interrupted_unseal : Server → Call → Request → List (Context × Op) → Rpc Bytes
interrupted_unseal srv call req others = do
  admit srv call req
  (λ s. (run s others, success tt))
  open_and_deliver srv call req

-- With any calls between the two locks of an Unseal, where the Unseal of authentic data succeeds
-- and leases are on, the client has the key and the node is active, whatever those calls made of
-- its record: a block among them is lifted.
pub interrupted_unseal_unblocks :
    (srv : Server) (call : Call) (req : Request) (s : LeaseStore) (others : List (Context × Op))
    (key a b : Bytes)
    → srv.get_key req.node_uuid ≡ some key
    → Distinct (run (admit srv call req s).0 others).nodes
    → lease_enabled srv ≡ true
    → opened srv key req ≡ some b
    → (interrupted_unseal srv call req others s).1 ≡ success a
    → (a ≡ b)
      × (r : LeaseRecord) × (lookup req.node_uuid (interrupted_unseal srv call req others s).0.nodes
          ≡ some r)
      × (is_active r.status ≡ true)
unfolding interrupted_unseal open_and_deliver register bootstrap_record active_lease
interrupted_unseal_unblocks srv call req s others key a b held d enabled good h =
    elim (Option-cases (peer_ip_from_context srv.net call.peer)) [
      | inl nobody ↦ absurd (ground arith)
      | inr (ip, e) ↦
          let s' = run (admit srv call req s).0 others in
          (
            ground arith,
            bootstrap_record (lookup req.node_uuid s'.nodes) ip call.at_update.now srv.lease_window,
            ground (
              arith,
              eq_iff req.node_uuid req.node_uuid,
              lookup-bootstrap call.at_update.range call.at_update.io req.node_uuid ip
                  call.at_update.now srv.lease_window s' req.node_uuid d,
            ),
            ground arith,
          )
    ]
