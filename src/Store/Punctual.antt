-- ===== src/Store/Punctual.antt =====
-- A node whose heartbeats reach pkg/server/lease_store.go in time.
use kms_client.Prelude.{
  String, ◌≢◌, ◌⊎◌, ◌≡◌, true, false, List, [], ◌∷◌, Option, none, some, arith, ◌==◌, eq_iff,
  if◌then◌else◌, Option-cases, inl, inr,
}
use kms_client.Prelude.Int.{leb_ℤ}
use kms_client.Clock.{Time, add, after, sub}
use kms_client.Lease.{LeaseRecord, is_active, is_expired, active_lease}
use kms_client.Nodes.{lookup}
use kms_client.Store.State.{LeaseStore, Io}
use kms_client.Store.Leases.{bootstrap_record, validate, validate_found}
use kms_client.Store.Sweep.{is_spared}
use kms_client.Store.Calls.{
  Op, bootstraps, heartbeats_by_ip, validates, heartbeats_by_uuid, unblocks, maintains, sweeps,
  Context, apply, run,
}
use kms_client.Store.Spec.{effect, NamesIp, lookup-apply}
use kms_client.Store.Invariant.{IsValid, apply-IsValid}

-- A node's last heartbeat, the end of its lease, and the address of its last Unseal.
pub record Beat : Type 0 where
  pub at : Time
  pub until : Time
  pub ip : String

-- The node is stored as active, with that beat; another node may have its address by now.
abbrev pub Beats : Beat → Option LeaseRecord → Type 0
Beats b none = ⊥
Beats b (some r) =
    (is_active r.status ≡ true)
    × (r.last_heartbeat_at ≡ b.at)
    × (r.lease_until ≡ b.until)
    × ((r.last_unseal_ip ≡ b.ip) ⊎ (r.last_unseal_ip ≡ ""))

abbrev pub beat_at : Context → String → Beat
beat_at c ip = record { at = c.now; until = add c.now c.lease_duration; ip = ip }

-- The beat of node k after a call.
abbrev pub next_beat : String → Beat → Context → Op → Beat
next_beat k b c (bootstraps u ip) = if u == k then beat_at c ip else b
next_beat k b c (heartbeats_by_uuid u ip hostname) = if u == k then beat_at c b.ip else b
next_beat k b c (unblocks u) = if u == k then beat_at c b.ip else b
next_beat k b c (maintains u false) = if u == k then beat_at c b.ip else b
next_beat k b c _ = b

-- The call is in time for a node with that beat: a sweep comes at most the timeout after the last
-- heartbeat, the node asks for its key within its lease, and heartbeats by IP are of other nodes.
abbrev pub IsInTime : String → Beat → Context → Op → Type 0
IsInTime k b c (sweeps t) = leb_ℤ (sub c.now b.at) t ≡ true
IsInTime k b c (validates u) = (u ≡ k) → after c.now b.until ≡ false
IsInTime k b c (heartbeats_by_ip ip) = (ip ≢ "") × (ip ≢ b.ip)
IsInTime k b c _ = Unit

abbrev pub AreInTime : String → Beat → List (Context × Op) → Type 0
AreInTime k b [] = Unit
AreInTime k b ((c, op) ∷ rest) = IsInTime k b c op × AreInTime k (next_beat k b c op) rest

effect-Beats :
    (k : String) (b : Beat) (c : Context) (op : Op) (r : LeaseRecord)
    → IsInTime k b c op
    → Beats b (some r)
    → Beats (next_beat k b c op) (effect c op k (some r))
unfolding effect is_spared is_expired bootstrap_record active_lease
effect-Beats k b c (bootstraps u ip) r h beats = ground (arith, eq_iff u k)
effect-Beats k b c (heartbeats_by_ip ip) r h beats = ground (arith, eq_iff r.last_unseal_ip ip)
effect-Beats k b c (validates u) r h beats = ground (arith, eq_iff u k)
effect-Beats k b c (heartbeats_by_uuid u ip hostname) r h beats = ground (arith, eq_iff u k)
effect-Beats k b c (unblocks u) r h beats = ground (arith, eq_iff u k)
effect-Beats k b c (maintains u true) r h beats = ground (arith, eq_iff u k)
effect-Beats k b c (maintains u false) r h beats = ground (arith, eq_iff u k)
effect-Beats k b c (sweeps t) r h beats = ground (arith)

abbrev pub last_beat : String → Beat → List (Context × Op) → Beat
last_beat k b [] = b
last_beat k b ((c, op) ∷ rest) = last_beat k (next_beat k b c op) rest

IsInTime-NamesIp : (k : String) (b : Beat) (c : Context) (op : Op) → IsInTime k b c op → NamesIp op
IsInTime-NamesIp k b c (heartbeats_by_ip ip) h = h.0
IsInTime-NamesIp k b c (bootstraps u ip) h = tt
IsInTime-NamesIp k b c (validates u) h = tt
IsInTime-NamesIp k b c (heartbeats_by_uuid u ip hostname) h = tt
IsInTime-NamesIp k b c (unblocks u) h = tt
IsInTime-NamesIp k b c (maintains u enabled) h = tt
IsInTime-NamesIp k b c (sweeps t) h = tt

apply-Beats :
    (k : String) (b : Beat) (c : Context) (op : Op) (s : LeaseStore)
    → IsValid s
    → IsInTime k b c op
    → Beats b (lookup k s.nodes)
    → Beats (next_beat k b c op) (lookup k (apply c op s).nodes)
apply-Beats k b c op s v h beats =
    rw (lookup-apply c s v.distinct op k v.unique_ips (IsInTime-NamesIp k b c op h))
      (elim (Option-cases (lookup k s.nodes)) [
        | inl e ↦ absurd (rw e at beats)
        | inr (r, e) ↦ rw e (effect-Beats k b c op r h (rw e at beats))
      ])

run-Beats :
    (k : String) (b : Beat) (calls : List (Context × Op)) (s : LeaseStore)
    → IsValid s
    → AreInTime k b calls
    → Beats b (lookup k s.nodes)
    → Beats (last_beat k b calls) (lookup k (run s calls).nodes)
unfolding run
run-Beats k b [] s v h beats = beats
run-Beats k b ((c, op) ∷ rest) s v h beats =
    run-Beats k (next_beat k b c op) rest (apply c op s)
      (apply-IsValid c op s (IsInTime-NamesIp k b c op h.0) v) h.1
      (apply-Beats k b c op s v h.0 beats)

-- In a valid store, an active node whose heartbeats come in time is never blocked and never marked
-- as expired: through any calls of which every sweep comes at most its timeout after the node's last
-- heartbeat, and every Validate of the node within its lease, and in which every HeartbeatByIP is of
-- another address, the node stays active, and Validate accepts it at any time until the end of its
-- last lease.
pub validate_in_time :
    (k : String) (b : Beat) (calls : List (Context × Op)) (s : LeaseStore) (io : Io) (now : Time)
    → IsValid s
    → AreInTime k b calls
    → Beats b (lookup k s.nodes)
    → after now (last_beat k b calls).until ≡ false
    → Beats (last_beat k b calls) (lookup k (run s calls).nodes)
      × ((validate io k now (run s calls)).2 ≡ none)
unfolding validate validate_found is_expired
validate_in_time k b calls s io now v h beats lasts =
    let later = run-Beats k b calls s v h beats in
    (
      later,
      elim (Option-cases (lookup k (run s calls).nodes)) [
        | inl e ↦ absurd (rw e at later)
        | inr (r, e) ↦ ground (arith, rw e at later)
      ],
    )
