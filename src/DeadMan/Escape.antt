-- ===== src/DeadMan/Escape.antt =====
-- A node that pkg/server/server.go refuses before pkg/server/deadman.go blocks it.
use kms_client.Prelude.{String, ◌≡◌, refl, true, false, List, [], ◌∷◌, some, arith, eq_iff}
use kms_client.Clock.{Duration}
use kms_client.Lease.{LeaseRecord, is_blocked, is_active, is_marked_expired}
use kms_client.Nodes.{lookup, Distinct, lookup-insert, insert-Distinct}
use kms_client.Store.State.{LeaseStore}
use kms_client.Store.Leases.{is_over, marked_expired, heartbeat_by_uuid}
use kms_client.Store.Sweep.{is_spared}
use kms_client.Store.Calls.{Context}
use kms_client.Store.Spec.{beaten_by_uuid, lookup-heartbeat_by_uuid}
use kms_client.Server.Config.{Server, Call, Request}
use kms_client.Server.Unseal.{unseal}
use kms_client.Server.Deny.{IsChecked, unseal_expired}
use kms_client.DeadMan.{check, run, Signal, tick, done}
use kms_client.DeadMan.Silence.{check-Distinct, lookup-check}

run_expired :
    (t : Duration) (signals : List Signal) (s : LeaseStore) (k : String) (r : LeaseRecord)
    → Distinct s.nodes
    → lookup k s.nodes ≡ some r
    → is_marked_expired r.status ≡ true
    → lookup k (run t signals s).nodes ≡ some r
unfolding run is_spared
run_expired t [] s k r d held m = held
run_expired t (done ∷ signals) s k r d held m = held
run_expired t (tick c ∷ signals) s k r d held m =
    run_expired t signals (check t c s) k r (check-Distinct t c s d)
      (rw (lookup-check t c s k d) (ground arith)) m

run-Distinct :
    (t : Duration) (signals : List Signal) (s : LeaseStore)
    → Distinct s.nodes
    → Distinct (run t signals s).nodes
unfolding run
run-Distinct t [] s d = d
run-Distinct t (done ∷ signals) s d = d
run-Distinct t (tick c ∷ signals) s d =
    run-Distinct t signals (check t c s) (check-Distinct t c s d)

module _ (srv : Server) (call : Call) (req : Request) (s : LeaseStore) (r : LeaseRecord)
    (c : IsChecked srv call req) (d : Distinct s.nodes)
    (held : lookup req.node_uuid s.nodes ≡ some r) (free : is_blocked r.status ≡ false)
    (over : is_over r call.at_validate.now ≡ true) (t : Duration) (signals : List Signal) where
  abbrev pub afterwards : LeaseStore
  afterwards = run t signals (unseal srv call req s).0

  refused-Distinct : Distinct (unseal srv call req s).0.nodes
  refused-Distinct =
      rw (unseal_expired srv call req s c r held free over).1
        (insert-Distinct req.node_uuid (marked_expired r) s.nodes d)

  expired_nodes : lookup req.node_uuid afterwards.nodes ≡ some (marked_expired r)
  expired_nodes =
      let saved = (unseal_expired srv call req s c r held free over).1 in
      let at_k : lookup req.node_uuid (unseal srv call req s).0.nodes ≡ some (marked_expired r) =
        rw saved (
          ground (
            arith,
            eq_iff req.node_uuid req.node_uuid,
            lookup-insert req.node_uuid req.node_uuid (marked_expired r) s.nodes,
          )) in
      run_expired t signals (unseal srv call req s).0 req.node_uuid (marked_expired r)
        refused-Distinct at_k refl

  -- A node that is not blocked, whose lease is over and that asks for its key (leases on, named,
  -- waiting) is never blocked afterwards: however often the switch checks, its record stays
  -- expired, and one call of HeartbeatByUUID then makes it active again.
  pub unseal_escapes :
      (later : Context) (ip hostname : String)
      → (lookup req.node_uuid afterwards.nodes ≡ some (marked_expired r))
        × ((q : LeaseRecord) × (lookup req.node_uuid
                (heartbeat_by_uuid later.io req.node_uuid ip hostname later.now later.lease_duration
                  afterwards).0.nodes
              ≡ some q)
            × (is_active q.status ≡ true))
  unseal_escapes later ip hostname = (
    expired_nodes,
    (
      beaten_by_uuid later ip hostname (some (marked_expired r)),
      ground (
        arith,
        eq_iff req.node_uuid req.node_uuid,
        expired_nodes,
        lookup-heartbeat_by_uuid later afterwards (run-Distinct t signals _ refused-Distinct)
            req.node_uuid ip hostname req.node_uuid,
      ),
      refl,
    ),
  )
