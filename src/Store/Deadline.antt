-- ===== src/Store/Deadline.antt =====
-- A node that stays silent past the deadline of the dead-man's switch, in pkg/server/lease_store.go.
use kms_client.Prelude.{
  refl, String, ◌≡◌, ◌≢◌, ◌⊎◌, true, false, List, [], ◌∷◌, ◌++◌, Option, none, some, arith, eq_iff,
  Option-cases, inl, inr,
}
use kms_client.Prelude.Int.{leb_ℤ}
use kms_client.Clock.{Time, Duration, sub, is_zero}
use kms_client.Lease.{LeaseRecord, is_active, is_blocked}
use kms_client.Nodes.{lookup}
use kms_client.Store.State.{LeaseStore, Io, lease_blocked}
use kms_client.Store.Leases.{validate, validate_found}
use kms_client.Store.Sweep.{is_spared}
use kms_client.Store.Calls.{
  Op, bootstraps, heartbeats_by_ip, validates, heartbeats_by_uuid, unblocks, maintains, sweeps,
  Context, apply, run,
}
use kms_client.Store.Spec.{effect, NamesIp, lookup-apply}
use kms_client.Store.Invariant.{IsValid, apply-IsValid}

-- The call is neither a heartbeat of node k, whose address is `ip`, nor an Unseal or an admin's
-- request for it.
abbrev pub Ignores : String → String → Op → Type 0
Ignores k ip (bootstraps u ip') = u ≢ k
Ignores k ip (heartbeats_by_ip ip') = (ip' ≢ "") × (ip' ≢ ip)
Ignores k ip (validates u) = u ≢ k
Ignores k ip (heartbeats_by_uuid u ip' hostname) = u ≢ k
Ignores k ip (unblocks u) = u ≢ k
Ignores k ip (maintains u enabled) = u ≢ k
Ignores k ip (sweeps t) = Unit

abbrev pub AllIgnore : String → String → List (Context × Op) → Type 0
AllIgnore k ip [] = Unit
AllIgnore k ip ((c, op) ∷ rest) = Ignores k ip op × AllIgnore k ip rest

-- Out of maintenance, active with its last heartbeat at that time, or blocked by the switch; the
-- address is still the node's, or another's by now.
pub record Waits (ip : String) (beat : Time) (r : LeaseRecord) : Type 0 where
  pub status :
      ((is_active r.status ≡ true) × (r.last_heartbeat_at ≡ beat)) ⊎ (is_blocked r.status ≡ true)
  pub working : r.maintenance ≡ false
  pub address : (r.last_unseal_ip ≡ ip) ⊎ (r.last_unseal_ip ≡ "")

abbrev pub IsWaiting : String → Time → Option LeaseRecord → Type 0
IsWaiting ip beat none = ⊥
IsWaiting ip beat (some r) = Waits ip beat r

abbrev pub IsStopped : Option LeaseRecord → Type 0
IsStopped none = ⊥
IsStopped (some r) = is_blocked r.status ≡ true

module _ (k ip : String) where
  Ignores-NamesIp : (op : Op) → Ignores k ip op → NamesIp op
  Ignores-NamesIp (heartbeats_by_ip ip') h = h.0
  Ignores-NamesIp (bootstraps u ip') h = tt
  Ignores-NamesIp (validates u) h = tt
  Ignores-NamesIp (heartbeats_by_uuid u ip' hostname) h = tt
  Ignores-NamesIp (unblocks u) h = tt
  Ignores-NamesIp (maintains u enabled) h = tt
  Ignores-NamesIp (sweeps t) h = tt

  effect-Waits :
      (beat : Time) (c : Context) (op : Op) (r : LeaseRecord)
      → Ignores k ip op
      → Waits ip beat r
      → IsWaiting ip beat (effect c op k (some r))
  unfolding effect is_spared
  effect-Waits beat c (bootstraps u ip') r h w = ground (arith, eq_iff u k)
  effect-Waits beat c (heartbeats_by_ip ip') r h w = ground (arith, eq_iff r.last_unseal_ip ip')
  effect-Waits beat c (validates u) r h w = ground (arith, eq_iff u k)
  effect-Waits beat c (heartbeats_by_uuid u ip' hostname) r h w = ground (arith, eq_iff u k)
  effect-Waits beat c (unblocks u) r h w = ground (arith, eq_iff u k)
  effect-Waits beat c (maintains u enabled) r h w = ground (arith, eq_iff u k)
  effect-Waits beat c (sweeps t) r h w = ground arith

  -- Once blocked, it stays so.
  effect-IsStopped :
      (c : Context) (op : Op) (r : LeaseRecord)
      → Ignores k ip op
      → is_blocked r.status ≡ true
      → IsStopped (effect c op k (some r))
  unfolding effect is_spared
  effect-IsStopped c (bootstraps u ip') r h w = ground (arith, eq_iff u k)
  effect-IsStopped c (heartbeats_by_ip ip') r h w = ground arith
  effect-IsStopped c (validates u) r h w = ground (arith, eq_iff u k)
  effect-IsStopped c (heartbeats_by_uuid u ip' hostname) r h w = ground (arith, eq_iff u k)
  effect-IsStopped c (unblocks u) r h w = ground (arith, eq_iff u k)
  effect-IsStopped c (maintains u enabled) r h w = ground (arith, eq_iff u k)
  effect-IsStopped c (sweeps t) r h w = ground arith

  effect-overdue :
      (beat : Time) (c : Context) (t : Duration) (r : LeaseRecord)
      → Waits ip beat r
      → is_zero beat ≡ false
      → leb_ℤ (sub c.now beat) t ≡ false
      → IsStopped (effect c (sweeps t) k (some r))
  unfolding effect is_spared
  effect-overdue beat c t r w seen late = ground (arith, w.status)

  module _ (c : Context) (op : Op) (s : LeaseStore) (v : IsValid s) (h : Ignores k ip op) where
    at_node :
        (P : Option LeaseRecord → Type 0) (Q : Option LeaseRecord → Type 0)
        → (Q none → ⊥)
        → ((r : LeaseRecord) → Q (some r) → P (effect c op k (some r)))
        → Q (lookup k s.nodes)
        → P (lookup k (apply c op s).nodes)
    at_node P Q absent step w =
        rw (lookup-apply c s v.distinct op k v.unique_ips (Ignores-NamesIp op h))
          (elim (Option-cases (lookup k s.nodes)) [
            | inl e ↦ absurd (absent (rw e at w))
            | inr (r, e) ↦ rw e (step r (rw e at w))
          ])

    apply-IsValid_lem : IsValid (apply c op s)
    apply-IsValid_lem = apply-IsValid c op s (Ignores-NamesIp op h) v

  pub run-IsWaiting :
      (beat : Time) (calls : List (Context × Op)) (s : LeaseStore)
      → IsValid s
      → AllIgnore k ip calls
      → IsWaiting ip beat (lookup k s.nodes)
      → IsWaiting ip beat (lookup k (run s calls).nodes)
  unfolding run
  run-IsWaiting beat [] s v h w = w
  run-IsWaiting beat ((c, op) ∷ rest) s v h w =
      run-IsWaiting beat rest (apply c op s) (apply-IsValid_lem c op s v h.0) h.1 (
        at_node c op s v h.0 (IsWaiting ip beat) (IsWaiting ip beat) (λ b. b)
          (λ r b. effect-Waits beat c op r h.0 b) w)

  -- The sweep that comes too late for the node.
  pub sweep-IsStopped :
      (beat : Time) (c : Context) (t : Duration) (s : LeaseStore)
      → IsValid s
      → is_zero beat ≡ false
      → leb_ℤ (sub c.now beat) t ≡ false
      → IsWaiting ip beat (lookup k s.nodes)
      → IsStopped (lookup k (apply c (sweeps t) s).nodes)
  sweep-IsStopped beat c t s v seen late w =
      at_node c (sweeps t) s v tt IsStopped (IsWaiting ip beat) (λ b. b)
        (λ r b. effect-overdue beat c t r b seen late) w

  pub run-IsStopped :
      (calls : List (Context × Op)) (s : LeaseStore)
      → IsValid s
      → AllIgnore k ip calls
      → IsStopped (lookup k s.nodes)
      → IsStopped (lookup k (run s calls).nodes)
  unfolding run
  run-IsStopped [] s v h w = w
  run-IsStopped ((c, op) ∷ rest) s v h w =
      run-IsStopped rest (apply c op s) (apply-IsValid_lem c op s v h.0) h.1
        (at_node c op s v h.0 IsStopped IsStopped (λ b. b) (λ r b. effect-IsStopped c op r h.0 b) w)

  run_overdue :
      (beat : Time) (c : Context) (t : Duration) (before after : List (Context × Op))
      (s : LeaseStore)
      → IsValid s
      → AllIgnore k ip before
      → AllIgnore k ip after
      → is_zero beat ≡ false
      → leb_ℤ (sub c.now beat) t ≡ false
      → IsWaiting ip beat (lookup k s.nodes)
      → IsStopped (lookup k (run s (before ++ (c, sweeps t) ∷ after)).nodes)
  unfolding run
  run_overdue beat c t [] after s v h h' seen late w =
      run-IsStopped after (apply c (sweeps t) s) (apply-IsValid_lem c (sweeps t) s v tt) h'
        (sweep-IsStopped beat c t s v seen late w)
  run_overdue beat c t ((c', op) ∷ before) after s v h h' seen late w =
      run_overdue beat c t before after (apply c' op s) (apply-IsValid_lem c' op s v h.0) h.1 h'
        seen late
        (at_node c' op s v h.0 (IsWaiting ip beat) (IsWaiting ip beat) (λ b. b)
          (λ r b. effect-Waits beat c' op r h.0 b) w)

  -- In a valid store, an active node out of maintenance that falls silent is blocked: through any
  -- calls that are no heartbeat of it or of its address, no Unseal and no admin's request for it,
  -- among which a sweep comes more than its timeout after the node's last heartbeat, Validate then
  -- refuses the node as blocked, at any time.
  pub validate_overdue :
      (r : LeaseRecord) (c : Context) (t : Duration) (before after : List (Context × Op))
      (s : LeaseStore) (io : Io) (now : Time)
      → IsValid s
      → lookup k s.nodes ≡ some r
      → is_active r.status ≡ true
      → r.maintenance ≡ false
      → r.last_unseal_ip ≡ ip
      → is_zero r.last_heartbeat_at ≡ false
      → AllIgnore k ip before
      → AllIgnore k ip after
      → leb_ℤ (sub c.now r.last_heartbeat_at) t ≡ false
      → (validate io k now (run s (before ++ (c, sweeps t) ∷ after))).2 ≡ some lease_blocked
  unfolding validate validate_found
  validate_overdue r c t before after s io now v held active working address seen h h' late =
      let w : Waits ip r.last_heartbeat_at r = record {
        status = inl (active, refl);
        working = working;
        address = inl address;
      } in
      let b = run_overdue r.last_heartbeat_at c t before after s v h h' seen late (rw held w) in
      elim (Option-cases (lookup k (run s (before ++ (c, sweeps t) ∷ after)).nodes)) [
        | inl e ↦ absurd (rw e at b)
        | inr (q, e) ↦ ground (arith, rw e at b)
      ]
