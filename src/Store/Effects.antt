-- ===== src/Store/Effects.antt =====
-- What each operation of the lease store does to the map: the record of any one node afterwards.
use kms_client.Prelude.{
  String, ◌≡◌, refl, Bool, not, ◌||◌, [], ◌∷◌, Option, none, some, arith, ◌==◌, eq_iff,
  if◌then◌else◌, List, ◌++◌,
}
use mathlib.Core.Option
use kms_client.Clock.{Time, Duration}
use kms_client.Lease.{LeaseRecord, is_blocked}
use kms_client.Nodes.{
  Nodes, Range, Distinct, lookup, insert, lookup-insert, lookup_nil, lookup_cons,
}
use kms_client.Store.State.{
  StoreError, file_error, Io, LeaseStore, update_lease_metrics_locked, persist_locked,
}
use kms_client.Store.Sweep.{is_spared, timed_out, block_loop, save_blocked, block_expired_nodes}
use kms_client.Store.Leases.{
  persist_and_return, put_record, release_ip, bootstrap_record, bootstrap, mark_expired,
  marked_expired, is_over, renewed, heartbeat_found, validate_found,
}

pub nodes-persist_locked : (io : Io) (s : LeaseStore) → (persist_locked io s).0.nodes ≡ s.nodes
unfolding persist_locked
nodes-persist_locked io s = ground arith

pub nodes-put_record :
    (k : String) (r : LeaseRecord) (now : Time) (s : LeaseStore)
    → (put_record k r now s).nodes ≡ insert k r s.nodes
unfolding put_record update_lease_metrics_locked
nodes-put_record k r now s = refl

-- What a loop leaves at a key: `old` where the key is not visited, or skipped.
abbrev visited :
    (LeaseRecord → Bool)
    → (LeaseRecord → LeaseRecord)
    → Option LeaseRecord
    → Option LeaseRecord
    → Option LeaseRecord
visited skips change none old = old
visited skips change (some r) old = if skips r then old else some (change r)

abbrev pub keeps_ip : String → String → String → LeaseRecord → Bool
keeps_ip node_uuid peer_ip k r = k == node_uuid || not (r.last_unseal_ip == peer_ip)

abbrev pub without_ip : LeaseRecord → LeaseRecord
without_ip r = record r { last_unseal_ip = "" }

module _ (node_uuid peer_ip j : String) where
  lookup-release_ip_loop :
      (visits nodes : Nodes LeaseRecord)
      → Distinct visits
      → lookup j (release_ip node_uuid peer_ip visits nodes)
        ≡ visited (keeps_ip node_uuid peer_ip j) without_ip (lookup j visits) (lookup j nodes)
  unfolding release_ip
  lookup-release_ip_loop [] nodes d = rw lookup_nil
  lookup-release_ip_loop ((k, r) ∷ visits) nodes d =
      let nodes' =
        if keeps_ip node_uuid peer_ip k r then nodes else insert k (without_ip r) nodes in
      ground (
        arith,
        eq_iff k j,
        lookup_cons j k r visits,
        lookup-insert k j (without_ip r) nodes,
        lookup-release_ip_loop visits nodes' d.1,
      )

abbrev pub moved_ip : String → LeaseRecord → LeaseRecord
moved_ip peer_ip r = if r.last_unseal_ip == peer_ip then without_ip r else r

module _ (range : Range LeaseRecord) (io : Io) (node_uuid peer_ip : String) (now : Time)
    (d : Duration) (s : LeaseStore) where
  -- Bootstrap writes its own node, and takes the IP from any other.
  pub lookup-bootstrap :
      (j : String)
      → Distinct s.nodes
      → lookup j (bootstrap range io node_uuid peer_ip now d s).0.nodes ≡ (
          if node_uuid == j
          then some (bootstrap_record (lookup j s.nodes) peer_ip now d)
          else Option.map (moved_ip peer_ip) (lookup j s.nodes))
  unfolding bootstrap persist_and_return
  lookup-bootstrap j distinct =
      let visits = range.visit s.nodes in
      let r = bootstrap_record (lookup node_uuid s.nodes) peer_ip now d in
      let nodes = release_ip node_uuid peer_ip visits s.nodes in
      let s' = record s { nodes = nodes } in
      rw (nodes-persist_locked, nodes-put_record, lookup-insert)
        (ground (
          arith,
          eq_iff node_uuid j,
          eq_iff j node_uuid,
          range.lookup-visit j s.nodes distinct,
          lookup-release_ip_loop node_uuid peer_ip j visits s.nodes
              (range.visit-Distinct s.nodes distinct),
        ))

module _ (io : Io) (k : String) (r : LeaseRecord) (now : Time) (s : LeaseStore) where
  pub nodes-heartbeat_found :
      (d : Duration)
      → (heartbeat_found io k r now d s).0.nodes ≡ (
          if is_blocked r.status
          then s.nodes
          else if is_over r now
          then insert k (marked_expired r) s.nodes
          else insert k (renewed now d r) s.nodes)
  unfolding heartbeat_found mark_expired
  nodes-heartbeat_found d = ground (
    arith,
    nodes-persist_locked io (put_record k (marked_expired r) now s),
    nodes-put_record k (marked_expired r) now s,
    nodes-persist_locked io (put_record k (renewed now d r) now s),
    nodes-put_record k (renewed now d r) now s,
  )

  pub nodes-validate_found : (validate_found io k r now s).0.nodes ≡ (
      if is_blocked r.status
      then s.nodes
      else if is_over r now
      then insert k (marked_expired r) s.nodes
      else s.nodes)
  unfolding validate_found mark_expired
  nodes-validate_found = ground (
    arith,
    nodes-persist_locked io (put_record k (marked_expired r) now s),
    nodes-put_record k (marked_expired r) now s,
  )

-- The record that the sweep leaves at a node.
abbrev pub swept : Time → Duration → LeaseRecord → LeaseRecord
swept now heartbeat_timeout r = if is_spared r now heartbeat_timeout then r else timed_out now r

module _ (now : Time) (heartbeat_timeout : Duration) where
  pub lookup-block_loop :
      (j : String) (visits : Nodes LeaseRecord) (acc : Nodes LeaseRecord × List String)
      → Distinct visits
      → lookup j (block_loop now heartbeat_timeout visits acc).0
        ≡ visited
            (λ r. is_spared r now heartbeat_timeout)
            (timed_out now)
            (lookup j visits)
            (lookup j acc.0)
  unfolding block_loop
  lookup-block_loop j [] acc d = rw lookup_nil
  lookup-block_loop j ((k, r) ∷ visits) (nodes, uuids) d =
      let acc' : Nodes LeaseRecord × List String =
        if is_spared r now heartbeat_timeout
        then (nodes, uuids)
        else (insert k (timed_out now r) nodes, uuids ++ k ∷ []) in
      ground (
        arith,
        eq_iff k j,
        lookup_cons j k r visits,
        lookup-insert k j (timed_out now r) nodes,
        lookup-block_loop j visits acc' d.1,
      )

  pub nodes-save_blocked :
      (io : Io) (uuids : List String) (s : LeaseStore)
      → (save_blocked io now uuids s).nodes ≡ s.nodes
  unfolding save_blocked update_lease_metrics_locked
  nodes-save_blocked io [] s = refl
  nodes-save_blocked io (k ∷ ks) s = rw nodes-persist_locked

  -- The sweep blocks exactly the nodes that it does not spare.
  pub lookup-block_expired_nodes :
      (range : Range LeaseRecord) (io : Io) (s : LeaseStore) (j : String)
      → Distinct s.nodes
      → lookup j (block_expired_nodes range io now heartbeat_timeout s).0.nodes
        ≡ Option.map (swept now heartbeat_timeout) (lookup j s.nodes)
  unfolding block_expired_nodes
  lookup-block_expired_nodes range io s j d =
      let visits = range.visit s.nodes in
      rw nodes-save_blocked (
        ground (
          arith,
          range.lookup-visit j s.nodes d,
          lookup-block_loop j visits (s.nodes, []) (range.visit-Distinct s.nodes d),
        ))

-- persistLocked returns no error but a wrapped error of a file operation.
abbrev pub IsFileError : Option StoreError → Type 0
IsFileError none = Unit
IsFileError (some (file_error fault)) = Unit
IsFileError (some _) = ⊥

pub persist_locked-IsFileError : (io : Io) (s : LeaseStore) → IsFileError (persist_locked io s).1
unfolding persist_locked
persist_locked-IsFileError io s = ground arith
