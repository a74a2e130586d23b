-- ===== src/Store/Spec.antt =====
-- The specification of a lease store, one node at a time: the record that a call leaves at a node,
-- from the record that it found there.
use kms_client.Prelude.{
  String, ◌≡◌, ◌≢◌, Bool, Option, none, some, arith, ◌==◌, eq_iff, if◌then◌else◌, Option-cases, inl,
  inr,
}
use mathlib.Core.Option
use kms_client.Clock.{Time}
use kms_client.Lease.{LeaseRecord, is_blocked}
use kms_client.Nodes.{Nodes, Distinct, lookup, lookup-insert}
use kms_client.Store.State.{LeaseStore}
use kms_client.Store.Leases.{
  persist_and_return, put_record, bootstrap_record, marked_expired, is_over, renewed,
  find_by_unseal_ip, heartbeat_found, heartbeat_by_ip, validate, first_heartbeat, next_heartbeat,
  heartbeat_by_uuid, unblocked, unblock, with_maintenance, set_maintenance,
}
use kms_client.Store.Effects.{
  nodes-persist_locked, nodes-put_record, moved_ip, lookup-bootstrap, nodes-heartbeat_found,
  nodes-validate_found, lookup-block_expired_nodes, swept,
}
use kms_client.Store.Calls.{
  Op, bootstraps, heartbeats_by_ip, validates, heartbeats_by_uuid, unblocks, maintains, sweeps,
  Context, apply,
}
use kms_client.Store.Find.{find_by_unseal_ip-Finds}

-- A lease that is over is marked so; a blocked one is left alone.
abbrev pub checked : Time → LeaseRecord → LeaseRecord
checked now r = if is_blocked r.status then r else if is_over r now then marked_expired r else r

abbrev pub beaten : Context → LeaseRecord → LeaseRecord
beaten c r =
    if is_blocked r.status
    then r
    else if is_over r c.now
    then marked_expired r
    else renewed c.now c.lease_duration r

abbrev pub beaten_by_uuid : Context → String → String → Option LeaseRecord → LeaseRecord
beaten_by_uuid c ip hostname none = first_heartbeat ip hostname c.now c.lease_duration
beaten_by_uuid c ip hostname (some r) =
    if is_blocked r.status then r else next_heartbeat ip hostname c.now c.lease_duration r

abbrev on_match :
    String
    → String
    → (Option LeaseRecord → Option LeaseRecord)
    → Option LeaseRecord
    → Option LeaseRecord
on_match u k f o = if u == k then f o else o

unfoldable pub effect : Context → Op → String → Option LeaseRecord → Option LeaseRecord
effect c (bootstraps u ip) k o =
    if u == k
    then some (bootstrap_record o ip c.now c.lease_duration)
    else Option.map (moved_ip ip) o
effect c (heartbeats_by_ip ip) k o =
    Option.map (λ r. if r.last_unseal_ip == ip then beaten c r else r) o
effect c (validates u) k o = on_match u k (Option.map (checked c.now)) o
effect c (heartbeats_by_uuid u ip hostname) k o =
    on_match u k (λ p. some (beaten_by_uuid c ip hostname p)) o
effect c (unblocks u) k o = on_match u k (Option.map (unblocked c.now c.lease_duration)) o
effect c (maintains u enabled) k o =
    on_match u k (Option.map (with_maintenance enabled c.now c.lease_duration)) o
effect c (sweeps heartbeat_timeout) k o = Option.map (swept c.now heartbeat_timeout) o

-- The address of the last Unseal, or "".
abbrev pub unseal_ip : Option LeaseRecord → String
unseal_ip none = ""
unseal_ip (some r) = r.last_unseal_ip

-- At most one node holds an IP that is not empty.
abbrev pub HasUniqueIps : Nodes LeaseRecord → Type 0
HasUniqueIps m =
    (j k : String)
    → unseal_ip (lookup j m) ≡ unseal_ip (lookup k m)
    → unseal_ip (lookup k m) ≢ ""
    → j ≡ k

-- Calls by IP give one: the handlers take it from the peer's address.
abbrev pub NamesIp : Op → Type 0
NamesIp (heartbeats_by_ip ip) = ip ≢ ""
NamesIp _ = Unit

module _ (c : Context) (s : LeaseStore) (d : Distinct s.nodes) where
  lookup-heartbeat_found :
      (u k : String) (r : LeaseRecord)
      → lookup u s.nodes ≡ some r
      → lookup k (heartbeat_found c.io u r c.now c.lease_duration s).0.nodes
        ≡ on_match u k (Option.map (beaten c)) (lookup k s.nodes)
  lookup-heartbeat_found u k r found = rw nodes-heartbeat_found (
      ground (
        arith,
        eq_iff u k,
        lookup-insert u k (marked_expired r) s.nodes,
        lookup-insert u k (renewed c.now c.lease_duration r) s.nodes,
      ))

  lookup-heartbeat_by_ip :
      (ip k : String)
      → HasUniqueIps s.nodes
      → ip ≢ ""
      → lookup k (heartbeat_by_ip c.range c.io ip c.now c.lease_duration s).0.nodes
        ≡ Option.map (λ r. if r.last_unseal_ip == ip then beaten c r else r) (lookup k s.nodes)
  unfolding heartbeat_by_ip
  lookup-heartbeat_by_ip ip k unique named =
      let finds = find_by_unseal_ip-Finds ip c.range s.nodes d in
      elim (Option-cases (find_by_unseal_ip ip (c.range.visit s.nodes))) [
        | inl missing ↦ elim (Option-cases (lookup k s.nodes)) [
          | inl absent ↦ rw (missing, heartbeat_by_ip, absent)
          | inr (q, held) ↦
              rw (missing, heartbeat_by_ip, held)
                (ground (arith, eq_iff q.last_unseal_ip ip, finds.complete k q missing held))
        ]
        | inr ((u, r), found) ↦ elim (Option-cases (lookup k s.nodes)) [
          | inl absent ↦
              rw (found, heartbeat_by_ip)
                (ground (arith, lookup-heartbeat_found u k r (finds.sound u r found).0))
          | inr (q, held) ↦
              rw (found, heartbeat_by_ip)
                (ground (
                  arith,
                  eq_iff u k,
                  eq_iff q.last_unseal_ip ip,
                  finds.sound u r found,
                  lookup-heartbeat_found u k r (finds.sound u r found).0,
                  unique u k,
                ))
        ]
      ]

  lookup-persist_put :
      (u k : String) (r : LeaseRecord)
      → lookup k (persist_and_return c.io r (put_record u r c.now s)).0.nodes
        ≡ (if u == k then some r else lookup k s.nodes)
  unfolding persist_and_return
  lookup-persist_put u k r =
      rw (nodes-persist_locked, nodes-put_record) (lookup-insert u k r s.nodes)

  lookup-validate :
      (u k : String)
      → lookup k (validate c.io u c.now s).0.nodes
        ≡ on_match u k (Option.map (checked c.now)) (lookup k s.nodes)
  unfolding validate
  lookup-validate u k = elim (Option-cases (lookup u s.nodes)) [
    | inl absent ↦ rw (absent, validate) (ground (arith, eq_iff u k))
    | inr (r, held) ↦
        rw (held, validate, nodes-validate_found)
          (ground (arith, eq_iff u k, lookup-insert u k (marked_expired r) s.nodes))
  ]

  pub lookup-heartbeat_by_uuid :
      (u ip hostname k : String)
      → lookup k (heartbeat_by_uuid c.io u ip hostname c.now c.lease_duration s).0.nodes
        ≡ on_match u k (λ p. some (beaten_by_uuid c ip hostname p)) (lookup k s.nodes)
  unfolding heartbeat_by_uuid
  lookup-heartbeat_by_uuid u ip hostname k = elim (Option-cases (lookup u s.nodes)) [
    | inl absent ↦
        let r = first_heartbeat ip hostname c.now c.lease_duration in
        rw (absent, heartbeat_by_uuid) (ground (arith, eq_iff u k, lookup-persist_put u k r))
    | inr (r, held) ↦
        let r' = next_heartbeat ip hostname c.now c.lease_duration r in
        rw (held, heartbeat_by_uuid) (ground (arith, eq_iff u k, lookup-persist_put u k r'))
  ]

  pub lookup-unblock :
      (u k : String)
      → lookup k (unblock c.io u c.now c.lease_duration s).0.nodes
        ≡ on_match u k (Option.map (unblocked c.now c.lease_duration)) (lookup k s.nodes)
  unfolding unblock
  lookup-unblock u k = elim (Option-cases (lookup u s.nodes)) [
    | inl absent ↦ rw (absent, unblock) (ground (arith, eq_iff u k))
    | inr (r, held) ↦
        let r' = unblocked c.now c.lease_duration r in
        rw (held, unblock) (ground (arith, eq_iff u k, lookup-persist_put u k r'))
  ]

  lookup-set_maintenance :
      (u : String) (enabled : Bool) (k : String)
      → lookup k (set_maintenance c.io u enabled c.now c.lease_duration s).0.nodes
        ≡ on_match u k
            (Option.map (with_maintenance enabled c.now c.lease_duration))
            (lookup k s.nodes)
  unfolding set_maintenance persist_and_return
  lookup-set_maintenance u enabled k = elim (Option-cases (lookup u s.nodes)) [
    | inl absent ↦ rw (absent, set_maintenance) (ground (arith, eq_iff u k))
    | inr (r, held) ↦
        let r' = with_maintenance enabled c.now c.lease_duration r in
        rw (held, set_maintenance, nodes-persist_locked)
          (ground (arith, eq_iff u k, lookup-insert u k r' s.nodes))
  ]

  -- In a store with one entry per node and one node per unseal IP, a call (by an IP that is not
  -- empty) acts on each node by itself as the specification `effect` says, whatever the order of
  -- the loops and the answers of the file system.
  pub lookup-apply :
      (op : Op) (k : String)
      → HasUniqueIps s.nodes
      → NamesIp op
      → lookup k (apply c op s).nodes ≡ effect c op k (lookup k s.nodes)
  unfolding apply effect persist_and_return
  lookup-apply (bootstraps u ip) k unique named =
      lookup-bootstrap c.range c.io u ip c.now c.lease_duration s k d
  lookup-apply (heartbeats_by_ip ip) k unique named = lookup-heartbeat_by_ip ip k unique named
  lookup-apply (validates u) k unique named = lookup-validate u k
  lookup-apply (heartbeats_by_uuid u ip hostname) k unique named =
      lookup-heartbeat_by_uuid u ip hostname k
  lookup-apply (unblocks u) k unique named = lookup-unblock u k
  lookup-apply (maintains u enabled) k unique named = lookup-set_maintenance u enabled k
  lookup-apply (sweeps t) k unique named = lookup-block_expired_nodes c.now t c.range c.io s k d
