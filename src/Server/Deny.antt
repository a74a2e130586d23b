-- ===== src/Server/Deny.antt =====
-- Whom Unseal of pkg/server/server.go refuses, and what the refusal leaves.
use kms_client.Prelude.{
  ◌⊎◌, String, ◌≡◌, refl, ◌≢◌, true, false, List, ◌∷◌, Option, some, arith, eq_iff, All,
}
use mathlib.Core.Option
use kms_client.Lease.{LeaseRecord, is_blocked}
use kms_client.Nodes.{lookup, insert}
use kms_client.Store.State.{LeaseStore}
use kms_client.Store.Leases.{
  validate, validate_found, put_record, is_over, mark_expired, marked_expired,
}
use kms_client.Store.Effects.{persist_locked-IsFileError, nodes-persist_locked, nodes-put_record}
use kms_client.Store.Calls.{Op, Context, run}
use kms_client.Store.Invariant.{IsValid, AllNamed}
use kms_client.Store.Blocked.{readmits, Holds, run-Holds, validate_blocked}
use kms_client.Server.Rpc.{status, permission_denied, internal, failure}
use kms_client.Server.Labels.{observe_unseal, error_labels}
use kms_client.Server.Config.{Request, Server, lease_enabled, Call}
use kms_client.Server.Unseal.{admit, unseal_body, unseal}

module _ (srv : Server) (call : Call) (req : Request) where
  -- The client waited, and named a node; leases are on.
  pub record IsChecked : Type 0 where
    pub waited : call.is_canceled ≡ false
    pub named : req.node_uuid ≢ ""
    pub enabled : lease_enabled srv ≡ true

-- The labels of the counted Unseal requests, newest first.
abbrev pub unseal_labels : LeaseStore → Option (List (String × String))
unseal_labels s = Option.map (λ m. m.unseal_requests) s.metrics

-- One more request of those labels.
abbrev pub counted : String × String → LeaseStore → Option (List (String × String))
counted labels s = Option.map (λ requests. labels ∷ requests) (unseal_labels s)

module _ (srv : Server) (call : Call) (req : Request) (s : LeaseStore)
    (c : IsChecked srv call req) where
  pub admit_blocked :
      (q : LeaseRecord)
      → Holds q (lookup req.node_uuid s.nodes)
      → admit srv call req s ≡ (s, failure (status permission_denied "node blocked"))
  unfolding admit
  admit_blocked q h = ground (
    arith,
    c,
    eq_iff req.node_uuid "",
    validate_blocked call.at_validate.io req.node_uuid call.at_validate.now s q h,
  )

  -- Where leases are on, the request names the node and its client waits, a blocked node gets no
  -- key: whatever data it sends, the answer is "node blocked", no record and no file changes, and
  -- the request is counted as denied.
  pub unseal_blocked :
      (q : LeaseRecord)
      → Holds q (lookup req.node_uuid s.nodes)
      → ((unseal srv call req s).1 ≡ failure (status permission_denied "node blocked"))
        × ((unseal srv call req s).0.nodes ≡ s.nodes)
        × ((unseal srv call req s).0.disk ≡ s.disk)
        × (unseal_labels (unseal srv call req s).0 ≡ counted ("denied", "node_blocked") s)
  unfolding unseal unseal_body observe_unseal error_labels
  unseal_blocked q h = rw (admit_blocked q h, unseal, unseal_body) (refl, refl, refl, ground arith)

  -- Where leases are on, the request names the node and its client waits, a node that is not
  -- blocked but whose lease is over is refused, and marked as expired. If the mark cannot be
  -- written to the file the client sees an internal error instead.
  pub unseal_expired :
      (r : LeaseRecord)
      → lookup req.node_uuid s.nodes ≡ some r
      → is_blocked r.status ≡ false
      → is_over r call.at_validate.now ≡ true
      → (((unseal srv call req s).1 ≡ failure (status permission_denied "heartbeat lease expired"))
          ⊎ ((unseal srv call req s).1
              ≡ failure (status internal "failed to validate heartbeat lease: ")))
        × ((unseal srv call req s).0.nodes ≡ insert req.node_uuid (marked_expired r) s.nodes)
  unfolding unseal unseal_body observe_unseal admit validate validate_found mark_expired
  unseal_expired r held active over =
      let io = call.at_validate.io in
      let now = call.at_validate.now in
      let marked = put_record req.node_uuid (marked_expired r) now s in
      ground (
        arith,
        c,
        eq_iff req.node_uuid "",
        persist_locked-IsFileError io marked,
        nodes-persist_locked io marked,
        nodes-put_record req.node_uuid (marked_expired r) now s,
      )

-- Through any calls that are neither an Unblock nor a Bootstrap of it, a blocked node is refused.
pub unseal_stays_blocked :
    (srv : Server) (call : Call) (req : Request) (s : LeaseStore) (calls : List (Context × Op))
    (q : LeaseRecord)
    → IsChecked srv call req
    → IsValid s
    → AllNamed calls
    → All (λ c. readmits req.node_uuid c.1 ≡ false) calls
    → Holds q (lookup req.node_uuid s.nodes)
    → (unseal srv call req (run s calls)).1 ≡ failure (status permission_denied "node blocked")
unseal_stays_blocked srv call req s calls q c v named n h =
    (unseal_blocked srv call req (run s calls) c q
      (run-Holds s calls req.node_uuid q v named n h)).0
