-- ===== src/Store/Gauges.antt =====
-- The gauges of leases in pkg/server/metrics.go, as the calls of pkg/server/lease_store.go set them.
use kms_client.Prelude.{
  ℕ, suc, ◌+◌, ◌≤◌, ap, length, length-append, String, ◌≡◌, refl, ◌⊎◌, Bool, true, false, not, ◌&&◌,
  ◌||◌, List, [], ◌∷◌, ◌++◌, Option, some, arith, Option-cases, Bool-cases, inl, inr, if◌then◌else◌,
}
use mathlib.Core.Option
use kms_client.Clock.{Time, Duration}
use kms_client.Lease.{LeaseRecord, is_blocked, is_marked_expired, is_expired}
use kms_client.Nodes.{Nodes, lookup, insert}
use kms_client.Metrics.{set_lease_counts, inc_lease_store_error}
use kms_client.Store.State.{
  LeaseStore, Io, persist_locked, update_lease_metrics_locked, count_leases, write_and_rename,
}
use kms_client.Store.Leases.{
  persist_and_return, put_record, bootstrap, mark_expired, find_by_unseal_ip, heartbeat_found,
  heartbeat_by_ip, is_over, validate_found, validate, heartbeat_by_uuid, unblock, marked_expired,
  renewed, next_heartbeat,
}
use kms_client.Store.Sweep.{save_blocked, block_expired_nodes, block_loop, is_spared, timed_out}
use kms_client.Store.Calls.{
  Op, bootstraps, heartbeats_by_ip, validates, heartbeats_by_uuid, unblocks, maintains, sweeps,
  Context, apply,
}

-- A lease that counts as active: not blocked, not marked as expired, and not over at that time.
abbrev pub counts_as_active : Time → LeaseRecord → Bool
counts_as_active now r = not (is_blocked r.status || is_marked_expired r.status || is_expired r now)

-- How many nodes have a record that passes the test.
abbrev pub number : (LeaseRecord → Bool) → Nodes LeaseRecord → ℕ
number test [] = 0
number test ((k, r) ∷ m) = if test r then suc (number test m) else number test m

-- The values of the two gauges.
abbrev pub gauges : LeaseStore → Option (ℕ × ℕ)
gauges s = Option.map (λ m. (m.active_leases, m.expired_leases)) s.metrics

abbrev pub counted_at : Time → LeaseStore → Option (ℕ × ℕ)
counted_at now s =
    Option.map
      (λ m.
        (number (counts_as_active now) s.nodes, number (λ r. not (counts_as_active now r)) s.nodes))
      s.metrics

count_leases-number :
    (now : Time) (m : Nodes LeaseRecord) (a b : ℕ)
    → count_leases now m (a, b)
      ≡ (a + number (counts_as_active now) m, b + number (λ r. not (counts_as_active now r)) m)
unfolding count_leases
count_leases-number now [] a b = ground arith
count_leases-number now ((k, r) ∷ m) a b =
    ground (arith, count_leases-number now m a (b + 1), count_leases-number now m (a + 1) b)

gauges-update :
    (now : Time) (s : LeaseStore)
    → gauges (update_lease_metrics_locked now s)
      ≡ counted_at now (update_lease_metrics_locked now s)
unfolding update_lease_metrics_locked set_lease_counts
gauges-update now s = ground (arith, count_leases-number now s.nodes 0 0)

gauges-persist_locked :
    (io : Io) (s : LeaseStore) (now : Time)
    → gauges s ≡ counted_at now s
    → gauges (persist_locked io s).0 ≡ counted_at now (persist_locked io s).0
unfolding persist_locked write_and_rename inc_lease_store_error
gauges-persist_locked io s now h = ground arith

-- The call left the store alone, or the gauges count its records.
abbrev IsFresh : Time → LeaseStore → LeaseStore → Type 0
IsFresh now s t = (t ≡ s) ⊎ (gauges t ≡ counted_at now t)

updated :
    (io : Io) (now : Time) (s u : LeaseStore)
    → IsFresh now s (persist_locked io (update_lease_metrics_locked now u)).0
updated io now s u = inr (gauges-persist_locked io _ now (gauges-update now u))

-- The loop adds to the reported nodes.
length-block_loop :
    (now : Time) (t : Duration) (visits : Nodes LeaseRecord) (acc : Nodes LeaseRecord × List String)
    → length acc.1 ≤ length (block_loop now t visits acc).1
unfolding block_loop
length-block_loop now t [] acc = omega arith
length-block_loop now t ((k, r) ∷ visits) (m, uuids) = elim (Bool-cases (is_spared r now t)) [
  | inl spared ↦ ground (arith, length-block_loop now t visits (m, uuids))
  | inr due ↦ ground (
    arith,
    length-append uuids (k ∷ []),
    length-block_loop now t visits (insert k (timed_out now r) m, uuids ++ k ∷ []),
  )
]

-- Where it reports nothing it changes nothing.
block_loop-nil :
    (now : Time) (t : Duration) (visits m : Nodes LeaseRecord)
    → (block_loop now t visits (m, [])).1 ≡ []
    → (block_loop now t visits (m, [])).0 ≡ m
unfolding block_loop
block_loop-nil now t [] m h = refl
block_loop-nil now t ((k, r) ∷ visits) m h = elim (Bool-cases (is_spared r now t)) [
  | inl spared ↦ ground (arith, block_loop-nil now t visits m)
  | inr due ↦
      absurd (ground (arith, length-block_loop now t visits (insert k (timed_out now r) m, k ∷ [])))
]

module _ (c : Context) (s : LeaseStore) where
  heartbeat_found-IsFresh :
      (k : String) (r : LeaseRecord)
      → IsFresh c.now s (heartbeat_found c.io k r c.now c.lease_duration s).0
  unfolding heartbeat_found mark_expired put_record
  heartbeat_found-IsFresh k r = elim (Bool-cases (is_blocked r.status)) [
    | inl b ↦ inl (ground arith)
    | inr n ↦ elim (Bool-cases (is_over r c.now)) [
      | inl over ↦
          ground
            (arith, updated c.io c.now s (record s { nodes = insert k (marked_expired r) s.nodes }))
      | inr lasts ↦ ground (
        arith,
        updated c.io c.now s
            (record s { nodes = insert k (renewed c.now c.lease_duration r) s.nodes }),
      )
    ]
  ]

  validate_found-IsFresh :
      (k : String) (r : LeaseRecord) → IsFresh c.now s (validate_found c.io k r c.now s).0
  unfolding validate_found mark_expired put_record
  validate_found-IsFresh k r = elim (Bool-cases (not (is_blocked r.status) && is_over r c.now)) [
    | inl over ↦
        ground
          (arith, updated c.io c.now s (record s { nodes = insert k (marked_expired r) s.nodes }))
    | inr n ↦ inl (ground arith)
  ]

  heartbeat_by_uuid-IsFresh :
      (k ip hostname : String) (r : LeaseRecord)
      → lookup k s.nodes ≡ some r
      → IsFresh c.now s (heartbeat_by_uuid c.io k ip hostname c.now c.lease_duration s).0
  unfolding heartbeat_by_uuid persist_and_return put_record
  heartbeat_by_uuid-IsFresh k ip hostname r e =
      let r' = next_heartbeat ip hostname c.now c.lease_duration r in
      ground (arith, updated c.io c.now s (record s { nodes = insert k r' s.nodes }))

  save_blocked-IsFresh :
      (m : Nodes LeaseRecord) (uuids : List String)
      → (uuids ≡ [] → m ≡ s.nodes)
      → IsFresh c.now s (save_blocked c.io c.now uuids (record s { nodes = m }))
  unfolding save_blocked
  save_blocked-IsFresh m [] same = inl (ap (λ n. record s { nodes = n }) (same refl))
  save_blocked-IsFresh m (k ∷ ks) same = updated c.io c.now s (record s { nodes = m })

  abbrev pub is_maintains : Op → Bool
  is_maintains (maintains u enabled) = true
  is_maintains _ = false

  -- Every call but SetMaintenance leaves the store alone, or the two gauges at the numbers of
  -- records that are active, and that are not, at the time of the call, whatever the answers of the
  -- file system.
  pub gauges-apply :
      (op : Op)
      → is_maintains op ≡ false
      → (apply c op s ≡ s) ⊎ (gauges (apply c op s) ≡ counted_at c.now (apply c op s))
  unfolding apply bootstrap heartbeat_by_ip validate heartbeat_by_uuid unblock block_expired_nodes
      persist_and_return put_record
  gauges-apply (bootstraps u ip) h = updated c.io c.now s _
  gauges-apply (heartbeats_by_ip ip) h =
      elim (Option-cases (find_by_unseal_ip ip (c.range.visit s.nodes))) [
        | inl e ↦ rw (e, apply, heartbeat_by_ip) (inl refl)
        | inr ((u, r), e) ↦ rw (e, apply, heartbeat_by_ip) (heartbeat_found-IsFresh u r)
      ]
  gauges-apply (validates u) h = elim (Option-cases (lookup u s.nodes)) [
    | inl e ↦ rw (e, apply, validate) (inl refl)
    | inr (r, e) ↦ rw (e, apply, validate) (validate_found-IsFresh u r)
  ]
  gauges-apply (heartbeats_by_uuid u ip hostname) h = elim (Option-cases (lookup u s.nodes)) [
    | inl e ↦ rw (e, apply, heartbeat_by_uuid) (updated c.io c.now s _)
    | inr (r, e) ↦ heartbeat_by_uuid-IsFresh u ip hostname r e
  ]
  gauges-apply (unblocks u) h = elim (Option-cases (lookup u s.nodes)) [
    | inl e ↦ rw (e, apply, unblock) (inl refl)
    | inr (r, e) ↦ rw (e, apply, unblock) (updated c.io c.now s _)
  ]
  gauges-apply (maintains u enabled) h = absurd (ground arith)
  gauges-apply (sweeps t) h =
      save_blocked-IsFresh _ _ (block_loop-nil c.now t (c.range.visit s.nodes) s.nodes)
