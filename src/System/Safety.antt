-- ===== src/System/Safety.antt =====
-- What the whole server of cmd/kms-server/main.go promises about a blocked node.
use kms_client.Prelude.{
  String, ◌≡◌, sym, Bool, true, false, ◌&&◌, List, [], ◌∷◌, arith, ◌==◌, eq_iff, Bool-cases, inl,
  inr, All,
}
use kms_client.Lease.{LeaseRecord}
use kms_client.Nodes.{lookup}
use kms_client.Store.State.{LeaseStore}
use kms_client.Store.Invariant.{IsValid, run-IsValid}
use kms_client.Store.Crash.{IsValid-nodes}
use kms_client.Store.Blocked.{Holds, run-Holds}
use kms_client.Server.Config.{Server, Call, Request}
use kms_client.Server.Rpc.{failure, status, permission_denied}
use kms_client.Server.Unseal.{unseal}
use kms_client.Server.Deny.{IsChecked, unseal_blocked}
use kms_client.Http.Admin.{authenticate_admin}
use kms_client.System.{Process, Event, step, serve, unseal_request, unblock_request}
use kms_client.System.Trace.{is_checked, unseal_unchecked}
use kms_client.System.Steps.{lifts, HasPeer, step-Calls}

pub step-IsValid :
    (p : Process) (e : Event) (s : LeaseStore) → HasPeer p e → IsValid s → IsValid (step p e s)
step-IsValid p e s peer v =
    let t = step-Calls p e s peer in IsValid-nodes t.same (run-IsValid s t.calls t.named v)

-- From a valid store, any sequence of requests and ticks leads to a valid store, with clients
-- whose address is not empty.
pub serve-IsValid :
    (p : Process) (events : List Event) (s : LeaseStore)
    → All (HasPeer p) events
    → IsValid s
    → IsValid (serve p events s)
unfolding serve
serve-IsValid p [] s peers v = v
serve-IsValid p (e ∷ es) s peers v =
    serve-IsValid p es (step p e s) peers.1 (step-IsValid p e s peers.0 v)

-- The event is an admin's request to lift the block of node k.
abbrev pub is_admin_unblock : Process → String → Event → Bool
is_admin_unblock p k (unblock_request c authorization uuid) =
    authenticate_admin p.http authorization && uuid == k
is_admin_unblock p k _ = false

unseal-Holds :
    (srv : Server) (call : Call) (req : Request) (s : LeaseStore) (q : LeaseRecord)
    → Holds q (lookup req.node_uuid s.nodes)
    → Holds q (lookup req.node_uuid (unseal srv call req s).0.nodes)
unfolding is_checked
unseal-Holds srv call req s q h = elim (Bool-cases (is_checked srv call req s)) [
  | inl good ↦
      let c : IsChecked srv call req = record {
        waited = ground arith;
        named = ground (arith, eq_iff req.node_uuid "");
        enabled = ground arith;
      } in
      rw (unseal_blocked srv call req s c q h).1 h
  | inr bad ↦ rw (unseal_unchecked srv call req s bad) h
]

lifted-Holds :
    (p : Process) (e : Event) (s : LeaseStore) (k : String) (q : LeaseRecord)
    → lifts p k e ≡ true
    → is_admin_unblock p k e ≡ false
    → Holds q (lookup k s.nodes)
    → Holds q (lookup k (step p e s).nodes)
unfolding step
lifted-Holds p (unseal_request call req) s k q good other h =
    let same : req.node_uuid ≡ k = ground (arith, eq_iff req.node_uuid k) in
    rw (sym same) (unseal-Holds p.server call req s q (rw same h))
lifted-Holds p e s k q good other h = absurd (ground arith)

step-Holds :
    (p : Process) (e : Event) (s : LeaseStore) (k : String) (q : LeaseRecord)
    → IsValid s
    → HasPeer p e
    → is_admin_unblock p k e ≡ false
    → Holds q (lookup k s.nodes)
    → Holds q (lookup k (step p e s).nodes)
step-Holds p e s k q v peer other h = elim (Bool-cases (lifts p k e)) [
  | inr bad ↦
      let t = step-Calls p e s peer in
      rw t.same (run-Holds s t.calls k q v t.named (t.spares k bad) h)
  | inl good ↦ lifted-Holds p e s k q good other h
]

-- In a valid store, and with clients whose address is not empty, a blocked node stays blocked,
-- since the same time and for the same reason, through any sequence of requests and ticks, each
-- run without another in between, until an admin unblocks it with the token. Its own Unseal
-- requests and heartbeats, genuine or not, are among the requests.
pub serve-Holds :
    (p : Process) (events : List Event) (s : LeaseStore) (k : String) (q : LeaseRecord)
    → IsValid s
    → All (HasPeer p) events
    → All (λ e. is_admin_unblock p k e ≡ false) events
    → Holds q (lookup k s.nodes)
    → Holds q (lookup k (serve p events s).nodes)
unfolding serve
serve-Holds p [] s k q v peers others h = h
serve-Holds p (e ∷ es) s k q v peers others h =
    serve-Holds p es (step p e s) k q (step-IsValid p e s peers.0 v) peers.1 others.1
      (step-Holds p e s k q v peers.0 others.0 h)

-- Through such a sequence of requests and ticks, without an admin's unblock of it, a blocked node
-- of a valid store is denied its key with "node blocked", where leases are on, the request names
-- the node and its client waits.
pub serve-unseal :
    (p : Process) (events : List Event) (s : LeaseStore) (q : LeaseRecord) (call : Call)
    (req : Request)
    → IsValid s
    → All (HasPeer p) events
    → All (λ e. is_admin_unblock p req.node_uuid e ≡ false) events
    → Holds q (lookup req.node_uuid s.nodes)
    → IsChecked p.server call req
    → (unseal p.server call req (serve p events s)).1
      ≡ failure (status permission_denied "node blocked")
serve-unseal p events s q call req v peers others h checked =
    (unseal_blocked p.server call req (serve p events s) checked q
      (serve-Holds p events s req.node_uuid q v peers others h)).0
