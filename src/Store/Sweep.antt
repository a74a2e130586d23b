-- ===== src/Store/Sweep.antt =====
-- BlockExpiredNodes and ListAll of pkg/server/lease_store.go.
use kms_client.Prelude.{String, Bool, not, ◌||◌, List, [], ◌∷◌, ◌++◌, if◌then◌else◌}
use kms_client.Prelude.Int.{leb_ℤ}
use kms_client.Clock.{Time, Duration, is_zero, sub}
use kms_client.Lease.{LeaseRecord, blocked, is_active}
use kms_client.Nodes.{Nodes, Range, insert}
use kms_client.Store.State.{Io, LeaseStore, update_lease_metrics_locked, persist_locked}

-- The four tests that skip a node.
unfoldable pub is_spared : LeaseRecord → Time → Duration → Bool
is_spared r now heartbeat_timeout =
    not (is_active r.status)
    || r.maintenance
    || is_zero r.last_heartbeat_at
    || leb_ℤ (sub now r.last_heartbeat_at) heartbeat_timeout

abbrev pub timed_out : Time → LeaseRecord → LeaseRecord
timed_out now r = record r {
  status = blocked;
  blocked_at = now;
  block_reason = "heartbeat_timeout";
}

-- The loop: the nodes, and the blocked ones so far.
unfoldable pub block_loop :
    Time
    → Duration
    → Nodes LeaseRecord
    → Nodes LeaseRecord × List String
    → Nodes LeaseRecord × List String
block_loop now heartbeat_timeout [] acc = acc
block_loop now heartbeat_timeout ((k, r) ∷ visits) (nodes, uuids) =
    block_loop now heartbeat_timeout visits (
      if is_spared r now heartbeat_timeout
      then (nodes, uuids)
      else (insert k (timed_out now r) nodes, uuids ++ k ∷ []))

-- A failing write is ignored.
unfoldable pub save_blocked : Io → Time → List String → LeaseStore → LeaseStore
save_blocked io now [] s = s
save_blocked io now (k ∷ ks) s = (persist_locked io (update_lease_metrics_locked now s)).0

unfoldable pub block_expired_nodes :
    Range LeaseRecord → Io → Time → Duration → LeaseStore → LeaseStore × List String
unfolding save_blocked
block_expired_nodes range io now heartbeat_timeout s =
    let (nodes, uuids) = block_loop now heartbeat_timeout (range.visit s.nodes) (s.nodes, []) in
    (save_blocked io now uuids (record s { nodes = nodes }), uuids)

-- A copy of the map.
unfoldable pub list_all : LeaseStore → Nodes LeaseRecord
list_all s = s.nodes
