-- ===== src/Store/Leases.antt =====
-- The operations on one node of pkg/server/lease_store.go: Bootstrap, HeartbeatByIP, Validate, Get,
-- HeartbeatByUUID, Unblock and SetMaintenance. Each returns the store, and the record and error of
-- the source; `t.UTC()` is the same time. `range` gives the order of a loop over the map.
use kms_client.Prelude.{
  String, Bool, true, false, not, ◌||◌, [], ◌∷◌, Option, none, some, ◌==◌, if◌then◌else◌,
}
use kms_client.Clock.{Time, Duration, zero_time, add}
use kms_client.Lease.{
  LeaseRecord, active, expired, is_blocked, is_marked_expired, is_expired, active_lease,
  empty_record,
}
use kms_client.Nodes.{Nodes, Range, lookup, insert}
use kms_client.Store.State.{
  Io, LeaseStore, StoreError, lease_expired, lease_not_found, node_ip_not_found, lease_blocked,
  update_lease_metrics_locked, persist_locked,
}

abbrev pub Reply : Type 0
Reply = LeaseStore × LeaseRecord × Option StoreError

-- `return record, store.persistLocked()`
unfoldable pub persist_and_return : Io → LeaseRecord → LeaseStore → Reply
persist_and_return io r s = let (s', err) = persist_locked io s in (s', r, err)

-- `store.nodes[nodeUUID] = record; store.updateLeaseMetricsLocked(now)`
unfoldable pub put_record : String → LeaseRecord → Time → LeaseStore → LeaseStore
put_record node_uuid r now s =
    update_lease_metrics_locked now (record s { nodes = insert node_uuid r s.nodes })

-- The loop of Bootstrap: no other node keeps `peerIP` as its last unseal IP.
unfoldable pub release_ip :
    String → String → Nodes LeaseRecord → Nodes LeaseRecord → Nodes LeaseRecord
release_ip node_uuid peer_ip [] nodes = nodes
release_ip node_uuid peer_ip ((k, r) ∷ visits) nodes = release_ip node_uuid peer_ip visits (
    if k == node_uuid || not (r.last_unseal_ip == peer_ip)
    then nodes
    else insert k (record r { last_unseal_ip = "" }) nodes)

-- The record that Bootstrap stores.
unfoldable pub bootstrap_record : Option LeaseRecord → String → Time → Duration → LeaseRecord
bootstrap_record existing peer_ip now lease_duration =
    let r = record (active_lease now lease_duration) {
      last_unseal_at = now;
      last_unseal_ip = peer_ip;
      node_ip = peer_ip;
    } in
    elim existing [
      | none ↦ record r { first_seen = now }
      | some e ↦ record r { first_seen = e.first_seen; hostname = e.hostname }
    ]

unfoldable pub bootstrap :
    Range LeaseRecord → Io → String → String → Time → Duration → LeaseStore → Reply
bootstrap range io node_uuid peer_ip now lease_duration s =
    let r = bootstrap_record (lookup node_uuid s.nodes) peer_ip now lease_duration in
    let nodes = release_ip node_uuid peer_ip (range.visit s.nodes) s.nodes in
    persist_and_return io r (put_record node_uuid r now (record s { nodes = nodes }))

abbrev pub renewed : Time → Duration → LeaseRecord → LeaseRecord
renewed now lease_duration r = record r {
  last_heartbeat_at = now;
  lease_until = add now lease_duration;
  status = active;
}

-- recordByIPLocked: the first visited node whose last unseal IP it is.
unfoldable pub find_by_unseal_ip : String → Nodes LeaseRecord → Option (String × LeaseRecord)
find_by_unseal_ip peer_ip [] = none
find_by_unseal_ip peer_ip ((k, r) ∷ visits) =
    if r.last_unseal_ip == peer_ip then some (k, r) else find_by_unseal_ip peer_ip visits

unfoldable pub find_by_node_ip : String → Nodes LeaseRecord → Option (String × LeaseRecord)
find_by_node_ip ip [] = none
find_by_node_ip ip ((k, r) ∷ visits) =
    if r.node_ip == ip then some (k, r) else find_by_node_ip ip visits

-- Both HeartbeatByIP and Validate mark a lease that is over.
abbrev pub marked_expired : LeaseRecord → LeaseRecord
marked_expired r = record r { status = expired }

unfoldable pub mark_expired :
    Io → String → LeaseRecord → Time → LeaseStore → LeaseStore × Option StoreError
mark_expired io node_uuid r now s =
    persist_locked io (put_record node_uuid (marked_expired r) now s)

abbrev pub is_over : LeaseRecord → Time → Bool
is_over r now = is_expired r now || is_marked_expired r.status

-- What HeartbeatByIP and Validate return then; a failing write hides the record.
abbrev pub heartbeat_of_over :
    String
    → LeaseRecord
    → LeaseStore × Option StoreError
    → LeaseStore × String × LeaseRecord × Option StoreError
heartbeat_of_over node_uuid r (s, none) = (s, node_uuid, marked_expired r, some lease_expired)
heartbeat_of_over node_uuid r (s, some e) = (s, "", empty_record, some e)

abbrev pub validate_of_over : LeaseRecord → LeaseStore × Option StoreError → Reply
validate_of_over r (s, none) = (s, marked_expired r, some lease_expired)
validate_of_over r (s, some e) = (s, empty_record, some e)

-- The rest of HeartbeatByIP, once the node is known.
unfoldable pub heartbeat_found :
    Io
    → String
    → LeaseRecord
    → Time
    → Duration
    → LeaseStore
    → LeaseStore × String × LeaseRecord × Option StoreError
heartbeat_found io node_uuid r now lease_duration s =
    if is_blocked r.status
    then (s, node_uuid, r, some lease_blocked)
    else if is_over r now
    then heartbeat_of_over node_uuid r (mark_expired io node_uuid r now s)
    else let r' = renewed now lease_duration r in
      let (s', err) = persist_locked io (put_record node_uuid r' now s) in (s', node_uuid, r', err)

unfoldable pub heartbeat_by_ip :
    Range LeaseRecord
    → Io
    → String
    → Time
    → Duration
    → LeaseStore
    → LeaseStore × String × LeaseRecord × Option StoreError
heartbeat_by_ip range io peer_ip now lease_duration s =
    elim (find_by_unseal_ip peer_ip (range.visit s.nodes)) [
      | none ↦ (s, "", empty_record, some node_ip_not_found)
      | some (node_uuid, r) ↦ heartbeat_found io node_uuid r now lease_duration s
    ]

unfoldable pub validate_found : Io → String → LeaseRecord → Time → LeaseStore → Reply
validate_found io node_uuid r now s =
    if is_blocked r.status
    then (s, r, some lease_blocked)
    else if is_over r now
    then validate_of_over r (mark_expired io node_uuid r now s)
    else (s, r, none)

unfoldable pub validate : Io → String → Time → LeaseStore → Reply
validate io node_uuid now s = elim (lookup node_uuid s.nodes) [
  | none ↦ (s, empty_record, some lease_not_found)
  | some r ↦ validate_found io node_uuid r now s
]

unfoldable pub get : String → LeaseStore → LeaseRecord × Bool
get node_uuid s = elim (lookup node_uuid s.nodes) [
  | none ↦ (empty_record, false)
  | some r ↦ (r, true)
]

abbrev pub first_heartbeat : String → String → Time → Duration → LeaseRecord
first_heartbeat node_ip hostname now lease_duration = record empty_record {
  first_seen = now;
  node_ip = node_ip;
  hostname = hostname;
  last_heartbeat_at = now;
  lease_until = add now lease_duration;
  status = active;
}

-- The fields that a heartbeat of a known node writes.
abbrev pub next_heartbeat : String → String → Time → Duration → LeaseRecord → LeaseRecord
next_heartbeat node_ip hostname now lease_duration r = record (renewed now lease_duration r) {
  node_ip = node_ip;
  hostname = if hostname == "" then r.hostname else hostname;
}

unfoldable pub heartbeat_by_uuid :
    Io → String → String → String → Time → Duration → LeaseStore → Reply
heartbeat_by_uuid io node_uuid node_ip hostname now lease_duration s =
    elim (lookup node_uuid s.nodes) [
      | none ↦
          let r = first_heartbeat node_ip hostname now lease_duration in
          persist_and_return io r (put_record node_uuid r now s)
      | some r ↦
          let r' = next_heartbeat node_ip hostname now lease_duration r in
          if is_blocked r.status
          then (s, r, some lease_blocked)
          else persist_and_return io r' (put_record node_uuid r' now s)
    ]

abbrev pub unblocked : Time → Duration → LeaseRecord → LeaseRecord
unblocked now lease_duration r = record (renewed now lease_duration r) {
  blocked_at = zero_time;
  block_reason = "";
}

unfoldable pub unblock : Io → String → Time → Duration → LeaseStore → Reply
unblock io node_uuid now lease_duration s = elim (lookup node_uuid s.nodes) [
  | none ↦ (s, empty_record, some lease_not_found)
  | some r ↦
      let r' = unblocked now lease_duration r in
      persist_and_return io r' (put_record node_uuid r' now s)
]

abbrev pub with_maintenance : Bool → Time → Duration → LeaseRecord → LeaseRecord
with_maintenance true now lease_duration r = record r { maintenance = true; maintenance_at = now }
with_maintenance false now lease_duration r = record r {
  maintenance = false;
  maintenance_at = zero_time;
  last_heartbeat_at = now;
  lease_until = add now lease_duration;
}

-- SetMaintenance leaves the lease metrics alone.
unfoldable pub set_maintenance : Io → String → Bool → Time → Duration → LeaseStore → Reply
set_maintenance io node_uuid enabled now lease_duration s = elim (lookup node_uuid s.nodes) [
  | none ↦ (s, empty_record, some lease_not_found)
  | some r ↦
      let r' = with_maintenance enabled now lease_duration r in
      persist_and_return io r' (record s { nodes = insert node_uuid r' s.nodes })
]

-- LookupByIP; the error is ErrNodeIPNotFound.
unfoldable pub lookup_by_ip :
    Range LeaseRecord → Range LeaseRecord → String → LeaseStore → Option (String × LeaseRecord)
lookup_by_ip range range' ip s = elim (find_by_unseal_ip ip (range.visit s.nodes)) [
  | some found ↦ some found
  | none ↦ find_by_node_ip ip (range'.visit s.nodes)
]
