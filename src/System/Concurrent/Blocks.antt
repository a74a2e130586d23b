-- ===== src/System/Concurrent/Blocks.antt =====
-- What the interleaved server promises about a blocked node.
use kms_client.Prelude.{
  String, ◌≡◌, refl, Bool, true, false, List, [], ◌∷◌, arith, eq_iff, All, ◌==◌, Bool-cases, inl,
  inr,
}
use kms_client.Lease.{LeaseRecord}
use kms_client.Nodes.{lookup}
use kms_client.Store.State.{LeaseStore}
use kms_client.Store.Invariant.{IsValid}
use kms_client.Store.Blocked.{Holds, run-Holds}
use kms_client.Server.Rpc.{success, failure, status, permission_denied}
use kms_client.Server.Config.{Server, Call, Request, lease_enabled}
use kms_client.Server.Unseal.{admit, unseal}
use kms_client.Server.Deny.{IsChecked, admit_blocked, unseal_blocked}
use kms_client.System.{Process, Event, unseal_request, unblock_request}
use kms_client.System.Steps.{lifts}
use kms_client.System.Safety.{is_admin_unblock}
use kms_client.System.Concurrent.{
  World, Act, serves, is_unseal, Move, admitted, denied, finished, served, Moves, done, more,
  All-Removes,
}
use kms_client.System.Concurrent.Writes.{act_lifts, HasPeerAct, Move-Writes, Move-IsValid}

-- The step is an admin's request to lift the block of node k.
abbrev pub is_admin_act : Process → String → Act → Bool
is_admin_act p k (serves e) = is_admin_unblock p k e
is_admin_act p k _ = false

-- The request is an Unseal of another node.
abbrev pub IsOther : String → Call × Request → Type 0
IsOther k x = (x.1.node_uuid == k) ≡ false

admitted-IsChecked :
    (srv : Server) (call : Call) (req : Request) (s : LeaseStore)
    → lease_enabled srv ≡ true
    → (admit srv call req s).1 ≡ success tt
    → IsChecked srv call req
unfolding admit
admitted-IsChecked srv call req s on h = record {
  waited = ground arith;
  named = ground (arith, eq_iff req.node_uuid "");
  enabled = on;
}

-- A blocked node does not pass validateLease.
admitted-IsOther :
    (srv : Server) (call : Call) (req : Request) (s : LeaseStore) (k : String) (q : LeaseRecord)
    → lease_enabled srv ≡ true
    → Holds q (lookup k s.nodes)
    → (admit srv call req s).1 ≡ success tt
    → IsOther k (call, req)
admitted-IsOther srv call req s k q on h good = elim (Bool-cases (req.node_uuid == k)) [
  | inr other ↦ other
  | inl named ↦
      let same : req.node_uuid ≡ k = ground (arith, eq_iff req.node_uuid k) in
      let held : Holds q (lookup req.node_uuid s.nodes) = rw same h in
      let refused =
        admit_blocked srv call req s (admitted-IsChecked srv call req s on good) q held in
      absurd (ground arith)
]

served_lifts :
    (p : Process) (k : String) (e : Event)
    → is_unseal e ≡ false
    → is_admin_unblock p k e ≡ false
    → lifts p k e ≡ false
served_lifts p k (unseal_request call req) h other = absurd (ground arith)
served_lifts p k (unblock_request c authorization uuid) h other = other
served_lifts p k e h other = ground arith

Move-lifts :
    {p : Process} {w u : World} {a : Act}
    → Move p w a u
    → (k : String) → is_admin_act p k a ≡ false
    → All (IsOther k) w.pending
    → act_lifts p k a ≡ false
Move-lifts (admitted call req h) k other pending = refl
Move-lifts (denied call req e h) k other pending = refl
Move-lifts (finished call req rest r) k other pending = (All-Removes (IsOther k) r pending).0
Move-lifts {p} (served e h) k other pending = served_lifts p k e h other

Move-pending :
    {p : Process} {w u : World} {a : Act}
    → Move p w a u
    → (k : String) (q : LeaseRecord) → lease_enabled p.server ≡ true
    → Holds q (lookup k w.store.nodes)
    → All (IsOther k) w.pending
    → All (IsOther k) u.pending
Move-pending {p} {w} (admitted call req good) k q on h pending =
    (admitted-IsOther p.server call req w.store k q on h good, pending)
Move-pending (denied call req e bad) k q on h pending = pending
Move-pending (finished call req rest r) k q on h pending = (All-Removes (IsOther k) r pending).1
Move-pending (served e other) k q on h pending = pending

-- In a valid store with leases on, and with clients whose address is not empty, a blocked node of
-- which no Unseal is between its two halves stays blocked, since the same time and for the same
-- reason, through any interleaving of requests and ticks, until an admin unblocks it with the
-- token; and no Unseal of it passes the check of the lease.
pub Moves-Holds :
    (p : Process) (w u : World) (acts : List Act) (k : String) (q : LeaseRecord)
    → Moves p w acts u
    → lease_enabled p.server ≡ true
    → IsValid w.store
    → All (HasPeerAct p) acts
    → All (λ a. is_admin_act p k a ≡ false) acts
    → All (IsOther k) w.pending
    → Holds q (lookup k w.store.nodes)
    → Holds q (lookup k u.store.nodes) × All (IsOther k) u.pending
Moves-Holds p w u [] k q done on v peers others pending h = (h, pending)
Moves-Holds p w u (a ∷ acts) k q (more m ms) on v peers others pending h =
    let t = Move-Writes m peers.0 in
    Moves-Holds p _ u acts k q ms on (Move-IsValid m peers.0 v) peers.1 others.1
      (Move-pending m k q on h pending)
      (rw t.same
        (run-Holds _ t.calls k q v t.named (t.spares k (Move-lifts m k others.0 pending)) h))

-- After such an interleaving the node is denied its key with "node blocked", where the request
-- names the node and its client waits.
pub Moves-unseal :
    (p : Process) (w u : World) (acts : List Act) (q : LeaseRecord) (call : Call) (req : Request)
    → Moves p w acts u
    → IsChecked p.server call req
    → IsValid w.store
    → All (HasPeerAct p) acts
    → All (λ a. is_admin_act p req.node_uuid a ≡ false) acts
    → All (IsOther req.node_uuid) w.pending
    → Holds q (lookup req.node_uuid w.store.nodes)
    → (unseal p.server call req u.store).1 ≡ failure (status permission_denied "node blocked")
Moves-unseal p w u acts q call req ms checked v peers others pending h =
    (unseal_blocked p.server call req u.store checked q
      (Moves-Holds p w u acts req.node_uuid q ms checked.enabled v peers others pending h).0).0
