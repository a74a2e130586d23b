-- ===== src/DeadMan/Silence.antt =====
-- What the switch of pkg/server/deadman.go does to a silent node, and to one under maintenance.
use kms_client.Prelude.{ℕ, zero, suc, String, ◌≡◌, refl, true, false, some, arith, [], ◌∷◌, List}
use mathlib.Core.Option
use kms_client.Prelude.Int.{leb_ℤ}
use kms_client.Clock.{Time, Duration, is_zero, sub}
use kms_client.Lease.{LeaseRecord, is_active}
use kms_client.Nodes.{lookup, Distinct}
use kms_client.Store.State.{LeaseStore}
use kms_client.Store.Sweep.{is_spared, timed_out}
use kms_client.Store.Effects.{lookup-block_expired_nodes, swept}
use kms_client.Store.Calls.{Context, apply, sweeps}
use kms_client.Store.Invariant.{apply-Distinct}
use kms_client.Server.Rpc.{failure, status, permission_denied}
use kms_client.Server.Config.{Server, Call, Request}
use kms_client.Server.Unseal.{unseal}
use kms_client.Server.Deny.{IsChecked, unseal_blocked}
use kms_client.DeadMan.{check, count_blocked, run, Signal, tick, done}

nodes-count_blocked : (n : ℕ) (s : LeaseStore) → (count_blocked n s).nodes ≡ s.nodes
unfolding count_blocked
nodes-count_blocked zero s = refl
nodes-count_blocked (suc n) s = refl

-- A check is the store's sweep.
pub nodes-check :
    (t : Duration) (c : Context) (s : LeaseStore)
    → (check t c s).nodes ≡ (apply c (sweeps t) s).nodes
unfolding check apply
nodes-check t c s = nodes-count_blocked _ _

pub check-Distinct :
    (t : Duration) (c : Context) (s : LeaseStore) → Distinct s.nodes → Distinct (check t c s).nodes
check-Distinct t c s d = rw nodes-check (apply-Distinct c s d (sweeps t))

pub lookup-check :
    (t : Duration) (c : Context) (s : LeaseStore) (k : String)
    → Distinct s.nodes
    → lookup k (check t c s).nodes ≡ Option.map (swept c.now t) (lookup k s.nodes)
unfolding check
lookup-check t c s k d =
    rw nodes-count_blocked (lookup-block_expired_nodes c.now t c.range c.io s k d)

-- The node is active, and its last heartbeat is older than the timeout.
pub record IsSilent (t : Duration) (now : Time) (r : LeaseRecord) : Type 0 where
  pub active : is_active r.status ≡ true
  pub seen : is_zero r.last_heartbeat_at ≡ false
  pub overdue : leb_ℤ (sub now r.last_heartbeat_at) t ≡ false

module _ (t : Duration) (c : Context) (s : LeaseStore) (k : String) (r : LeaseRecord)
    (d : Distinct s.nodes) (held : lookup k s.nodes ≡ some r) where
  -- Where each node is stored once, one check blocks an active node that is out of maintenance and
  -- whose last heartbeat is older than the timeout: the record has the time of the check and the
  -- reason, and is otherwise the same.
  pub check_silent :
      IsSilent t c.now r
      → r.maintenance ≡ false
      → lookup k (check t c s).nodes ≡ some (timed_out c.now r)
  unfolding is_spared
  check_silent silent working = rw (lookup-check t c s k d) (ground arith)

  -- After one check, Unseal refuses an active node that is out of maintenance and whose last
  -- heartbeat is older than the timeout, where leases are on, the request names the node and its
  -- client waits.
  pub unseal-check_silent :
      (srv : Server) (call : Call) (req : Request)
      → req.node_uuid ≡ k
      → IsChecked srv call req
      → IsSilent t c.now r
      → r.maintenance ≡ false
      → (unseal srv call req (check t c s)).1 ≡ failure (status permission_denied "node blocked")
  unseal-check_silent srv call req e checked silent working =
      let q = timed_out c.now r in
      let at_k : lookup req.node_uuid (check t c s).nodes ≡ some q =
        rw e (check_silent silent working) in
      (unseal_blocked srv call req (check t c s) checked q
        (rw at_k (record { status = refl; blocked_at = refl; reason = refl }))).0

-- Where each node is stored once, a node under maintenance keeps its record however often the
-- switch checks.
pub run_maintained :
    (t : Duration) (signals : List Signal) (s : LeaseStore) (k : String) (r : LeaseRecord)
    → Distinct s.nodes
    → lookup k s.nodes ≡ some r
    → r.maintenance ≡ true
    → lookup k (run t signals s).nodes ≡ some r
unfolding run is_spared
run_maintained t [] s k r d held m = held
run_maintained t (done ∷ signals) s k r d held m = held
run_maintained t (tick c ∷ signals) s k r d held m =
    run_maintained t signals (check t c s) k r (check-Distinct t c s d)
      (rw (lookup-check t c s k d) (ground arith)) m
