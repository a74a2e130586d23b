-- ===== src/System/Concurrent/Overdue.antt =====
-- What the interleaved server promises about a node that falls silent.
use kms_client.Prelude.{
  String, ◌≡◌, refl, inl, inr, true, false, List, ◌∷◌, some, All, Option-cases,
}
use kms_client.Prelude.Int.{leb_ℤ}
use kms_client.Clock.{Time, sub, is_zero}
use kms_client.Lease.{LeaseRecord, is_active}
use kms_client.Nodes.{lookup}
use kms_client.Store.State.{LeaseStore}
use kms_client.Store.Calls.{Context}
use kms_client.Store.Invariant.{IsValid}
use kms_client.Store.Blocked.{SameBlock}
use kms_client.Store.Deadline.{
  IsWaiting, Waits, IsStopped, run-IsWaiting, run-IsStopped, sweep-IsStopped,
}
use kms_client.Server.Rpc.{failure, status, permission_denied}
use kms_client.Server.Config.{Call, Request}
use kms_client.Server.Unseal.{unseal}
use kms_client.Server.Deny.{IsChecked, unseal_blocked}
use kms_client.DeadMan.Silence.{nodes-check}
use kms_client.System.{Process, step, switch_tick}
use kms_client.System.Concurrent.{World, Act, serves, served, Moves, done, more}
use kms_client.System.Concurrent.Writes.{
  HasPeerAct, IsAsideAct, Move-Writes, Move-IsValid, Moves-IsValid,
}

module _ (p : Process) (k ip : String) where
  -- Steps of others, with clients whose address is not empty.
  abbrev pub AreAside : List Act → Type 0
  AreAside acts = All (HasPeerAct p) acts × All (IsAsideAct p k ip) acts

  Moves-IsWaiting :
      (beat : Time) {w u : World} {acts : List Act}
      → Moves p w acts u
      → AreAside acts
      → IsValid w.store
      → IsWaiting ip beat (lookup k w.store.nodes)
      → IsWaiting ip beat (lookup k u.store.nodes)
  Moves-IsWaiting beat done aside v waits = waits
  Moves-IsWaiting beat (more m ms) aside v waits =
      let t = Move-Writes m aside.0.0 in
      Moves-IsWaiting beat ms (aside.0.1, aside.1.1) (Move-IsValid m aside.0.0 v)
        (rw t.same (run-IsWaiting k ip beat t.calls _ v (t.ignores k ip aside.1.0) waits))

  Moves-IsStopped :
      {w u : World} {acts : List Act}
      → Moves p w acts u
      → AreAside acts
      → IsValid w.store
      → IsStopped (lookup k w.store.nodes)
      → IsStopped (lookup k u.store.nodes)
  Moves-IsStopped done aside v stopped = stopped
  Moves-IsStopped (more m ms) aside v stopped =
      let t = Move-Writes m aside.0.0 in
      Moves-IsStopped ms (aside.0.1, aside.1.1) (Move-IsValid m aside.0.0 v)
        (rw t.same (run-IsStopped k ip t.calls _ v (t.ignores k ip aside.1.0) stopped))

  tick-IsStopped :
      (beat : Time) (c : Context) (s : LeaseStore)
      → IsValid s
      → is_zero beat ≡ false
      → leb_ℤ (sub c.now beat) p.heartbeat_timeout ≡ false
      → IsWaiting ip beat (lookup k s.nodes)
      → IsStopped (lookup k (step p (switch_tick c) s).nodes)
  unfolding step
  tick-IsStopped beat c s v seen late waits =
      rw nodes-check (sweep-IsStopped k ip beat c p.heartbeat_timeout s v seen late waits)

  -- The rest of a run from a tick that comes too late for the node.
  overdue-IsStopped :
      (beat : Time) (c : Context) {v u : World} {after : List Act}
      → Moves p v (serves (switch_tick c) ∷ after) u
      → AreAside after
      → IsValid v.store
      → is_zero beat ≡ false
      → leb_ℤ (sub c.now beat) p.heartbeat_timeout ≡ false
      → IsWaiting ip beat (lookup k v.store.nodes)
      → IsStopped (lookup k u.store.nodes)
  overdue-IsStopped beat c {v} (more (served e other) ms) aside valid seen late waits =
      Moves-IsStopped ms aside (Move-IsValid {w = v} (served (switch_tick c) refl) tt valid)
        (tick-IsStopped beat c v.store valid seen late waits)

-- In a valid store, an active node out of maintenance that falls silent loses its key: after any
-- interleaving of requests and ticks of which none is a heartbeat of it or of its address, an Unseal
-- of it or an admin's request for it, and of which a tick comes later than the timeout after its
-- last heartbeat, its Unseal is denied with "node blocked" (with clients whose address is not empty;
-- where leases are on, the request names the node and its client waits).
pub Moves-overdue :
    (p : Process) (w v u : World) (before after : List Act) (c : Context) (r : LeaseRecord)
    (call : Call) (req : Request)
    → Moves p w before v
    → Moves p v (serves (switch_tick c) ∷ after) u
    → AreAside p req.node_uuid r.last_unseal_ip before
    → AreAside p req.node_uuid r.last_unseal_ip after
    → IsValid w.store
    → lookup req.node_uuid w.store.nodes ≡ some r
    → is_active r.status ≡ true
    → r.maintenance ≡ false
    → is_zero r.last_heartbeat_at ≡ false
    → leb_ℤ (sub c.now r.last_heartbeat_at) p.heartbeat_timeout ≡ false
    → IsChecked p.server call req
    → (unseal p.server call req u.store).1 ≡ failure (status permission_denied "node blocked")
Moves-overdue p w v u before after c r call req ms ns aside aside' valid held active working seen
      late checked =
    let k = req.node_uuid in
    let ip = r.last_unseal_ip in
    let beat = r.last_heartbeat_at in
    let waits : Waits ip beat r = record {
      status = inl (active, refl);
      working = working;
      address = inl refl;
    } in
    let stopped =
      overdue-IsStopped p k ip beat c ns aside' (Moves-IsValid p w v before ms aside.0 valid) seen
        late (Moves-IsWaiting p k ip beat ms aside valid (rw held waits)) in
    elim (Option-cases (lookup k u.store.nodes)) [
      | inl absent ↦ absurd (rw absent at stopped)
      | inr (q, found) ↦
          let b : SameBlock q q = record {
            status = rw found at stopped;
            blocked_at = refl;
            reason = refl;
          } in
          (unseal_blocked p.server call req u.store checked q (rw found b)).0
    ]
