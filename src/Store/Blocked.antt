-- ===== src/Store/Blocked.antt =====
-- The block of a node in pkg/server/lease_store.go: how long it lasts, and what it refuses.
use kms_client.Prelude.{
  String, ◌≡◌, Bool, true, false, not, ◌||◌, List, [], ◌∷◌, Option, none, some, arith, ◌==◌, eq_iff,
  if◌then◌else◌, Option-cases, inl, inr, ◌++◌, All,
}
use kms_client.Clock.{Time, Duration}
use kms_client.Lease.{LeaseRecord, is_blocked}
use kms_client.Nodes.{Nodes, Range, Distinct, lookup, insert, lookup_nil, lookup_cons}
use kms_client.Store.State.{LeaseStore, Io, lease_blocked}
use kms_client.Store.Leases.{validate, validate_found, heartbeat_by_uuid}
use kms_client.Store.Sweep.{is_spared, timed_out, block_loop, block_expired_nodes}
use kms_client.Store.Calls.{Op, bootstraps, unblocks, maintains, Context, apply, run}
use kms_client.Store.Spec.{effect, NamesIp, lookup-apply}
use kms_client.Store.Invariant.{IsValid, AllNamed, apply-IsValid}

-- The call lifts a block of the node.
abbrev pub readmits : String → Op → Bool
readmits k (unblocks u) = u == k
readmits k (bootstraps u ip) = u == k
readmits k _ = false

-- `r` is blocked since the time, and for the reason, of the blocked record `q`.
pub record SameBlock (q r : LeaseRecord) : Type 0 where
  pub status : is_blocked r.status ≡ true
  pub blocked_at : r.blocked_at ≡ q.blocked_at
  pub reason : r.block_reason ≡ q.block_reason

-- The node is stored, under that block.
abbrev pub Holds : LeaseRecord → Option LeaseRecord → Type 0
Holds q none = ⊥
Holds q (some r) = SameBlock q r

effect-Holds :
    (c : Context) (op : Op) (k : String) (q r : LeaseRecord)
    → readmits k op ≡ false
    → SameBlock q r
    → Holds q (effect c op k (some r))
unfolding effect is_spared
effect-Holds c (maintains u true) k q r n b = ground arith
effect-Holds c (maintains u false) k q r n b = ground arith
effect-Holds c op k q r n b = ground arith

Holds-apply :
    (c : Context) (op : Op) (k : String) (q : LeaseRecord) (s : LeaseStore)
    → IsValid s
    → NamesIp op
    → readmits k op ≡ false
    → Holds q (lookup k s.nodes)
    → Holds q (lookup k (apply c op s).nodes)
Holds-apply c op k q s v named n h =
    rw (lookup-apply c s v.distinct op k v.unique_ips named)
      (elim (Option-cases (lookup k s.nodes)) [
        | inl e ↦ absurd (rw e at h)
        | inr (r, e) ↦ rw e (effect-Holds c op k q r n (rw e at h))
      ])

-- In a valid store, a blocked node stays blocked, since the same time and for the same reason,
-- through any calls (those by IP with an IP that is not empty) that are neither an Unblock nor a
-- Bootstrap of that node.
pub run-Holds :
    (s : LeaseStore) (calls : List (Context × Op)) (k : String) (q : LeaseRecord)
    → IsValid s
    → AllNamed calls
    → All (λ call. readmits k call.1 ≡ false) calls
    → Holds q (lookup k s.nodes)
    → Holds q (lookup k (run s calls).nodes)
unfolding run
run-Holds s [] k q v named n h = h
run-Holds s ((c, op) ∷ rest) k q v named n h =
    run-Holds (apply c op s) rest k q (apply-IsValid c op s named.0 v) named.1 n.1
      (Holds-apply c op k q s v named.0 n.0 h)

module _ (io : Io) (k : String) (now : Time) (s : LeaseStore) (q : LeaseRecord)
    (h : Holds q (lookup k s.nodes)) where
  -- A blocked node is refused by Validate, and the store is left alone.
  pub validate_blocked :
      ((validate io k now s).2 ≡ some lease_blocked)
      × ((validate io k now s).0 ≡ s)
      × ((validate io k now s).1.block_reason ≡ q.block_reason)
  unfolding validate validate_found
  validate_blocked = ground arith

  -- So is its heartbeat over HTTP.
  pub heartbeat_by_uuid_blocked :
      (ip hostname : String) (d : Duration)
      → ((heartbeat_by_uuid io k ip hostname now d s).2 ≡ some lease_blocked)
        × ((heartbeat_by_uuid io k ip hostname now d s).0 ≡ s)
        × ((heartbeat_by_uuid io k ip hostname now d s).1.block_reason ≡ q.block_reason)
  unfolding heartbeat_by_uuid
  heartbeat_by_uuid_blocked ip hostname d = ground arith

abbrev pub contains : String → List String → Bool
contains k [] = false
contains k (j ∷ ks) = j == k || contains k ks

contains-append :
    (k j : String) (ks : List String) → contains k (ks ++ j ∷ []) ≡ (contains k ks || j == k)
contains-append k j [] = ground arith
contains-append k j (i ∷ ks) = ground (arith, contains-append k j ks)

-- The sweep has to block the record of this node.
abbrev pub is_due : Time → Duration → Option LeaseRecord → Bool
is_due now t none = false
is_due now t (some r) = not (is_spared r now t)

contains-block_loop :
    (now : Time) (t : Duration) (k : String) (visits : Nodes LeaseRecord)
    (acc : Nodes LeaseRecord × List String)
    → Distinct visits
    → contains k (block_loop now t visits acc).1
      ≡ (contains k acc.1 || is_due now t (lookup k visits))
unfolding block_loop
contains-block_loop now t k [] acc d = rw lookup_nil (ground arith)
contains-block_loop now t k ((j, r) ∷ visits) (m, uuids) d =
    let acc' : Nodes LeaseRecord × List String =
      if is_spared r now t then (m, uuids) else (insert j (timed_out now r) m, uuids ++ j ∷ []) in
    ground (
      arith,
      eq_iff j k,
      lookup_cons k j r visits,
      contains-append k j uuids,
      contains-block_loop now t k visits acc' d.1,
    )

-- Where each node is stored once, the sweep reports exactly the nodes that it has to block: those
-- that are active, out of maintenance, have sent a heartbeat, and have been silent for longer than
-- the timeout.
pub contains-block_expired_nodes :
    (range : Range LeaseRecord) (io : Io) (now : Time) (t : Duration) (s : LeaseStore) (k : String)
    → Distinct s.nodes
    → contains k (block_expired_nodes range io now t s).1 ≡ is_due now t (lookup k s.nodes)
unfolding block_expired_nodes
contains-block_expired_nodes range io now t s k d = ground (
  arith,
  range.lookup-visit k s.nodes d,
  contains-block_loop now t k (range.visit s.nodes) (s.nodes, []) (range.visit-Distinct s.nodes d),
)
