-- ===== src/Store/Invariant.antt =====
-- The invariant of the lease store, kept by every call.
use kms_client.Prelude.{
  ap, ◌∙◌, String, ◌≡◌, refl, true, false, List, [], ◌∷◌, Option, none, some, arith, ◌==◌, eq_iff,
  if◌then◌else◌, Option-cases, inl, inr, All,
}
use kms_client.Clock.{Time, Duration, zero_time}
use kms_client.Lease.{
  LeaseRecord, is_blocked, active_lease, parse_status, status_text, parse_status_active,
  parse_status_expired, parse_status_blocked,
}
use kms_client.Nodes.{Nodes, Distinct, lookup, insert, insert-Distinct}
use kms_client.Store.State.{LeaseStore}
use kms_client.Store.Leases.{
  persist_and_return, put_record, release_ip, bootstrap_record, bootstrap, marked_expired, renewed,
  find_by_unseal_ip, heartbeat_found, heartbeat_by_ip, validate_found, validate, next_heartbeat,
  heartbeat_by_uuid, unblock, set_maintenance,
}
use kms_client.Store.Sweep.{is_spared, timed_out, block_loop, block_expired_nodes}
use kms_client.Store.Effects.{
  nodes-persist_locked, nodes-put_record, nodes-heartbeat_found, nodes-validate_found,
  nodes-save_blocked, without_ip,
}
use kms_client.Store.Calls.{
  Op, bootstraps, heartbeats_by_ip, validates, heartbeats_by_uuid, unblocks, maintains, sweeps,
  Context, apply, run,
}
use kms_client.Store.Spec.{effect, HasUniqueIps, unseal_ip, NamesIp, lookup-apply}

-- A block reason and a block time stand in blocked records only, and a maintenance time in records
-- under maintenance.
pub record IsCoherent (r : LeaseRecord) : Type 0 where
  pub reason : r.block_reason ≡ (if is_blocked r.status then "heartbeat_timeout" else "")
  pub canonical : parse_status (status_text r.status) ≡ r.status
  pub blocked_at : is_blocked r.status ≡ false → r.blocked_at ≡ zero_time
  pub maintenance_at : r.maintenance ≡ false → r.maintenance_at ≡ zero_time

pub record IsValid (s : LeaseStore) : Type 0 where
  pub distinct : Distinct s.nodes
  pub unique_ips : HasUniqueIps s.nodes
  pub coherent : (k : String) (r : LeaseRecord) → lookup k s.nodes ≡ some r → IsCoherent r

release_ip-Distinct :
    (u ip : String) (visits m : Nodes LeaseRecord)
    → Distinct m
    → Distinct (release_ip u ip visits m)
unfolding release_ip
release_ip-Distinct u ip [] m d = d
release_ip-Distinct u ip ((k, r) ∷ visits) m d =
    release_ip-Distinct u ip visits _ (ground (arith, insert-Distinct k (without_ip r) m d))

block_loop-Distinct :
    (now : Time) (t : Duration) (visits : Nodes LeaseRecord) (acc : Nodes LeaseRecord × List String)
    → Distinct acc.0
    → Distinct (block_loop now t visits acc).0
unfolding block_loop
block_loop-Distinct now t [] acc d = d
block_loop-Distinct now t ((k, r) ∷ visits) (m, uuids) d =
    block_loop-Distinct now t visits _ (ground (arith, insert-Distinct k (timed_out now r) m d))

module _ (c : Context) (s : LeaseStore) (d : Distinct s.nodes) where
  put-Distinct :
      (u : String) (r : LeaseRecord)
      → Distinct (persist_and_return c.io r (put_record u r c.now s)).0.nodes
  unfolding persist_and_return
  put-Distinct u r = rw (nodes-persist_locked, nodes-put_record) (insert-Distinct u r s.nodes d)

  heartbeat_found-Distinct :
      (u : String) (r : LeaseRecord)
      → Distinct (heartbeat_found c.io u r c.now c.lease_duration s).0.nodes
  heartbeat_found-Distinct u r = rw nodes-heartbeat_found (
      ground (
        arith,
        d,
        insert-Distinct u (marked_expired r) s.nodes d,
        insert-Distinct u (renewed c.now c.lease_duration r) s.nodes d,
      ))

  validate_found-Distinct :
      (u : String) (r : LeaseRecord) → Distinct (validate_found c.io u r c.now s).0.nodes
  validate_found-Distinct u r =
      rw nodes-validate_found (ground (arith, d, insert-Distinct u (marked_expired r) s.nodes d))

  maintain-Distinct :
      (u : String) (r : LeaseRecord)
      → Distinct (persist_and_return c.io r (record s { nodes = insert u r s.nodes })).0.nodes
  unfolding persist_and_return
  maintain-Distinct u r = rw nodes-persist_locked (insert-Distinct u r s.nodes d)

  pub apply-Distinct : (op : Op) → Distinct (apply c op s).nodes
  unfolding apply bootstrap heartbeat_by_ip validate heartbeat_by_uuid unblock set_maintenance
      block_expired_nodes persist_and_return
  apply-Distinct (bootstraps u ip) =
      rw (nodes-persist_locked, nodes-put_record)
        (insert-Distinct u _ _ (release_ip-Distinct u ip (c.range.visit s.nodes) s.nodes d))
  apply-Distinct (heartbeats_by_ip ip) =
      elim (Option-cases (find_by_unseal_ip ip (c.range.visit s.nodes))) [
        | inl e ↦ rw (e, apply, heartbeat_by_ip) d
        | inr ((u, r), e) ↦ rw (e, apply, heartbeat_by_ip) (heartbeat_found-Distinct u r)
      ]
  apply-Distinct (validates u) = elim (Option-cases (lookup u s.nodes)) [
    | inl e ↦ rw (e, apply, validate) d
    | inr (r, e) ↦ rw (e, apply, validate) (validate_found-Distinct u r)
  ]
  apply-Distinct (heartbeats_by_uuid u ip hostname) = elim (Option-cases (lookup u s.nodes)) [
    | inl e ↦ rw (e, apply, heartbeat_by_uuid) (put-Distinct u _)
    | inr (r, e) ↦
        rw (e, apply, heartbeat_by_uuid)
          (ground (arith, d, put-Distinct u (next_heartbeat ip hostname c.now c.lease_duration r)))
  ]
  apply-Distinct (unblocks u) = elim (Option-cases (lookup u s.nodes)) [
    | inl e ↦ rw (e, apply, unblock) d
    | inr (r, e) ↦ rw (e, apply, unblock) (put-Distinct u _)
  ]
  apply-Distinct (maintains u enabled) = elim (Option-cases (lookup u s.nodes)) [
    | inl e ↦ rw (e, apply, set_maintenance) d
    | inr (r, e) ↦ rw (e, apply, set_maintenance) (maintain-Distinct u _)
  ]
  apply-Distinct (sweeps t) =
      rw nodes-save_blocked (block_loop-Distinct c.now t (c.range.visit s.nodes) (s.nodes, []) d)

-- Only Bootstrap writes the address of the last Unseal.
abbrev ip_after : Op → String → String → String
ip_after (bootstraps u ip) k old = if u == k then ip else if old == ip then "" else old
ip_after _ k old = old

unseal_ip-effect :
    (c : Context) (op : Op) (k : String) (o : Option LeaseRecord)
    → unseal_ip (effect c op k o) ≡ ip_after op k (unseal_ip o)
unfolding effect bootstrap_record active_lease
unseal_ip-effect c (bootstraps u ip) k o = ground (arith, eq_iff "" ip)
unseal_ip-effect c (maintains u true) k o = ground arith
unseal_ip-effect c (maintains u false) k o = ground arith
unseal_ip-effect c op k o = ground arith

module _ (c : Context) (s : LeaseStore) (v : IsValid s) where
  unseal_ip-apply :
      (op : Op) (k : String)
      → NamesIp op
      → unseal_ip (lookup k (apply c op s).nodes) ≡ ip_after op k (unseal_ip (lookup k s.nodes))
  unseal_ip-apply op k named =
      ap unseal_ip (lookup-apply c s v.distinct op k v.unique_ips named)
      ∙ unseal_ip-effect c op k (lookup k s.nodes)

  apply-HasUniqueIps : (op : Op) → NamesIp op → HasUniqueIps (apply c op s).nodes
  apply-HasUniqueIps (bootstraps u ip) named j k =
      rw (unseal_ip-apply (bootstraps u ip) j named, unseal_ip-apply (bootstraps u ip) k named)
        λ same held. ground (
          arith,
          eq_iff u j,
          eq_iff u k,
          eq_iff (unseal_ip (lookup j s.nodes)) ip,
          eq_iff (unseal_ip (lookup k s.nodes)) ip,
          v.unique_ips j k,
        )
  apply-HasUniqueIps op named j k =
      rw (unseal_ip-apply op j named, unseal_ip-apply op k named) (v.unique_ips j k)

-- Each record that a call leaves is coherent.
effect-IsCoherent :
    (c : Context) (op : Op) (k : String) (o : Option LeaseRecord) (r : LeaseRecord)
    → ((q : LeaseRecord) → o ≡ some q → IsCoherent q)
    → effect c op k o ≡ some r
    → IsCoherent r
unfolding effect bootstrap_record active_lease is_spared
effect-IsCoherent c (bootstraps u ip) k none r v h =
    ground (arith, parse_status_active, parse_status_expired, parse_status_blocked)
effect-IsCoherent c (bootstraps u ip) k (some q) r v h =
    ground (arith, v q refl, parse_status_active, parse_status_expired, parse_status_blocked)
effect-IsCoherent c (heartbeats_by_ip ip) k (some q) r v h =
    ground (arith, v q refl, parse_status_active, parse_status_expired, parse_status_blocked)
effect-IsCoherent c (validates u) k (some q) r v h =
    ground (arith, v q refl, parse_status_active, parse_status_expired, parse_status_blocked)
effect-IsCoherent c (heartbeats_by_uuid u ip hostname) k none r v h =
    ground (arith, parse_status_active, parse_status_expired, parse_status_blocked)
effect-IsCoherent c (heartbeats_by_uuid u ip hostname) k (some q) r v h =
    ground (arith, v q refl, parse_status_active, parse_status_expired, parse_status_blocked)
effect-IsCoherent c (unblocks u) k (some q) r v h =
    ground (arith, v q refl, parse_status_active, parse_status_expired, parse_status_blocked)
effect-IsCoherent c (maintains u true) k (some q) r v h =
    ground (arith, v q refl, parse_status_active, parse_status_expired, parse_status_blocked)
effect-IsCoherent c (maintains u false) k (some q) r v h =
    ground (arith, v q refl, parse_status_active, parse_status_expired, parse_status_blocked)
effect-IsCoherent c (sweeps t) k (some q) r v h =
    ground (arith, v q refl, parse_status_active, parse_status_expired, parse_status_blocked)
effect-IsCoherent c op k none r v h =
    ground (arith, parse_status_active, parse_status_expired, parse_status_blocked)

-- Every call keeps the invariant.
pub apply-IsValid :
    (c : Context) (op : Op) (s : LeaseStore) → NamesIp op → IsValid s → IsValid (apply c op s)
apply-IsValid c op s named v = record {
  distinct = apply-Distinct c s v.distinct op;
  unique_ips = apply-HasUniqueIps c s v op named;
  coherent = λ k r h.
      effect-IsCoherent c op k (lookup k s.nodes) r (v.coherent k)
        (rw (lookup-apply c s v.distinct op k v.unique_ips named) at h);
}

abbrev pub AllNamed : List (Context × Op) → Type 0
AllNamed = All (λ call. NamesIp call.1)

-- From a valid store, any calls (those by IP with an IP that is not empty) lead to a valid store,
-- in any order of the loops and with any answers of the file system: no node is stored twice, no
-- two nodes hold one IP of a last Unseal, and block and maintenance fields agree with the status.
pub run-IsValid :
    (s : LeaseStore) (calls : List (Context × Op))
    → AllNamed calls
    → IsValid s
    → IsValid (run s calls)
unfolding run
run-IsValid s [] named v = v
run-IsValid s ((c, op) ∷ rest) named v =
    run-IsValid (apply c op s) rest named.1 (apply-IsValid c op s named.0 v)
