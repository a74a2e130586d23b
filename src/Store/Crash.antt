-- ===== src/Store/Crash.antt =====
-- The lease file through any calls of pkg/server/lease_store.go and any failures of the file system.
use kms_client.Prelude.{
  ◌⊎◌, String, ◌≡◌, refl, ◌≢◌, not, ◌&&◌, List, [], ◌∷◌, Option, none, some, arith, Option-cases,
  Bool-cases, inl, inr,
}
use kms_client.Clock.{Time}
use kms_client.Lease.{LeaseRecord, is_blocked}
use kms_client.Nodes.{Nodes, lookup}
use kms_client.Store.State.{
  LeaseStore, Io, Content, empty_file, undecodable, document, persist_locked,
  update_lease_metrics_locked,
}
use kms_client.Store.Json.{unmarshal}
use kms_client.Store.Leases.{
  persist_and_return, put_record, bootstrap, mark_expired, find_by_unseal_ip, heartbeat_found,
  heartbeat_by_ip, is_over, validate_found, validate, heartbeat_by_uuid, unblock, set_maintenance,
  marked_expired, renewed, next_heartbeat,
}
use kms_client.Store.Sweep.{save_blocked, block_expired_nodes}
use kms_client.Store.Effects.{nodes-persist_locked}
use kms_client.Store.Calls.{
  Op, bootstraps, heartbeats_by_ip, validates, heartbeats_by_uuid, unblocks, maintains, sweeps,
  Context, apply, run,
}
use kms_client.Store.Spec.{NamesIp}
use kms_client.Store.Invariant.{IsValid, AllNamed, apply-IsValid}
use kms_client.Store.Durable.{unmarshal-marshal, persist_locked_atomic}

-- A call left the disk alone, or ended in persistLocked with the nodes that it returns.
abbrev pub Persisted : Io → LeaseStore → LeaseStore → Type 0
Persisted io s t =
    (t.disk ≡ s.disk) ⊎ ((u : LeaseStore) × (u.disk ≡ s.disk) × (t ≡ (persist_locked io u).0))

module _ (c : Context) (s : LeaseStore) where
  disk-put_record :
      (k : String) (r : LeaseRecord) (now : Time) → (put_record k r now s).disk ≡ s.disk
  unfolding put_record update_lease_metrics_locked
  disk-put_record k r now = refl

  heartbeat_found-Persisted :
      (k : String) (r : LeaseRecord)
      → Persisted c.io s (heartbeat_found c.io k r c.now c.lease_duration s).0
  unfolding heartbeat_found mark_expired
  heartbeat_found-Persisted k r = elim (Bool-cases (is_blocked r.status)) [
    | inl b ↦ inl (ground arith)
    | inr n ↦ elim (Bool-cases (is_over r c.now)) [
      | inl over ↦
          inr (put_record k (marked_expired r) c.now s, disk-put_record _ _ _, ground arith)
      | inr lasts ↦ inr (
        put_record k (renewed c.now c.lease_duration r) c.now s,
        disk-put_record _ _ _,
        ground arith,
      )
    ]
  ]

  validate_found-Persisted :
      (k : String) (r : LeaseRecord) → Persisted c.io s (validate_found c.io k r c.now s).0
  unfolding validate_found mark_expired
  validate_found-Persisted k r = elim (Bool-cases (not (is_blocked r.status) && is_over r c.now)) [
    | inl over ↦ inr (put_record k (marked_expired r) c.now s, disk-put_record _ _ _, ground arith)
    | inr n ↦ inl (ground arith)
  ]

  heartbeat_by_uuid-Persisted :
      (k ip hostname : String) (r : LeaseRecord)
      → lookup k s.nodes ≡ some r
      → Persisted c.io s (heartbeat_by_uuid c.io k ip hostname c.now c.lease_duration s).0
  unfolding heartbeat_by_uuid persist_and_return
  heartbeat_by_uuid-Persisted k ip hostname r e =
      let r' = next_heartbeat ip hostname c.now c.lease_duration r in
      elim (Bool-cases (is_blocked r.status)) [
        | inl b ↦ inl (ground arith)
        | inr n ↦ inr (put_record k r' c.now s, disk-put_record _ _ _, ground arith)
      ]

  save_blocked-Persisted :
      (m : Nodes LeaseRecord) (uuids : List String)
      → Persisted c.io s (save_blocked c.io c.now uuids (record s { nodes = m }))
  unfolding save_blocked update_lease_metrics_locked
  save_blocked-Persisted m [] = inl refl
  save_blocked-Persisted m (k ∷ ks) = inr (_, refl, refl)

  pub apply-Persisted : (op : Op) → Persisted c.io s (apply c op s)
  unfolding apply bootstrap heartbeat_by_ip validate heartbeat_by_uuid unblock set_maintenance
      block_expired_nodes persist_and_return put_record update_lease_metrics_locked
  apply-Persisted (bootstraps u ip) = inr (_, refl, refl)
  apply-Persisted (heartbeats_by_ip ip) =
      elim (Option-cases (find_by_unseal_ip ip (c.range.visit s.nodes))) [
        | inl e ↦ rw (e, apply, heartbeat_by_ip) (inl refl)
        | inr ((u, r), e) ↦ rw (e, apply, heartbeat_by_ip) (heartbeat_found-Persisted u r)
      ]
  apply-Persisted (validates u) = elim (Option-cases (lookup u s.nodes)) [
    | inl e ↦ rw (e, apply, validate) (inl refl)
    | inr (r, e) ↦ rw (e, apply, validate) (validate_found-Persisted u r)
  ]
  apply-Persisted (heartbeats_by_uuid u ip hostname) = elim (Option-cases (lookup u s.nodes)) [
    | inl e ↦ rw (e, apply, heartbeat_by_uuid) (inr (_, refl, refl))
    | inr (r, e) ↦ heartbeat_by_uuid-Persisted u ip hostname r e
  ]
  apply-Persisted (unblocks u) = elim (Option-cases (lookup u s.nodes)) [
    | inl e ↦ rw (e, apply, unblock) (inl refl)
    | inr (r, e) ↦ rw (e, apply, unblock) (inr (_, refl, refl))
  ]
  apply-Persisted (maintains u enabled) = elim (Option-cases (lookup u s.nodes)) [
    | inl e ↦ rw (e, apply, set_maintenance) (inl refl)
    | inr (r, e) ↦ rw (e, apply, set_maintenance) (inr (_, refl, refl))
  ]
  apply-Persisted (sweeps t) = save_blocked-Persisted _ _

-- load finds no file, an empty one, or one that it can decode.
abbrev pub IsLoadable : Option Content → Type 0
IsLoadable none = Unit
IsLoadable (some empty_file) = Unit
IsLoadable (some undecodable) = ⊥
IsLoadable (some (document d)) = unmarshal d ≢ none

pub IsValid-nodes : {s t : LeaseStore} → t.nodes ≡ s.nodes → IsValid s → IsValid t
IsValid-nodes e v = record {
  distinct = rw e v.distinct;
  unique_ips = rw e v.unique_ips;
  coherent = rw e v.coherent;
}

persist_locked-IsLoadable :
    (io : Io) (s : LeaseStore)
    → IsValid s
    → IsLoadable s.disk.main
    → IsLoadable (persist_locked io s).0.disk.main
persist_locked-IsLoadable io s v h = elim (persist_locked_atomic io s) [
  | inl kept ↦ rw kept h
  | inr (d, e, new) ↦ rw new (λ bad. cc (bad, unmarshal-marshal s {d = d} v e))
]

apply-IsLoadable :
    (c : Context) (op : Op) (s : LeaseStore)
    → NamesIp op
    → IsValid s
    → IsLoadable s.disk.main
    → IsLoadable (apply c op s).disk.main
apply-IsLoadable c op s named v h = elim (apply-Persisted c s op) [
  | inl e ↦ rw e h
  | inr (u, e, last) ↦
      let same : u.nodes ≡ (apply c op s).nodes = rw (last, nodes-persist_locked) in
      rw last (
        persist_locked-IsLoadable c.io u (IsValid-nodes same (apply-IsValid c op s named v))
          (rw e h))
]

-- From a valid store whose file can be loaded, any calls (those by IP with an IP that is not
-- empty), with any failures of the file system, leave at the path a file that a restart can load.
pub run-IsLoadable :
    (s : LeaseStore) (calls : List (Context × Op))
    → AllNamed calls
    → IsValid s
    → IsLoadable s.disk.main
    → IsLoadable (run s calls).disk.main
unfolding run
run-IsLoadable s [] named v h = h
run-IsLoadable s ((c, op) ∷ rest) named v h =
    run-IsLoadable (apply c op s) rest named.1 (apply-IsValid c op s named.0 v)
      (apply-IsLoadable c op s named.0 v h)
