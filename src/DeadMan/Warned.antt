-- ===== src/DeadMan/Warned.antt =====
-- What the warnings of Check in pkg/server/deadman.go report.
use kms_client.Prelude.{
  String, ap, sym, subst, ◌∙◌, ◌≡◌, refl, true, false, List, [], ◌∷◌, some, arith, eq_iff,
  Option-cases, inl, inr, All,
}
use kms_client.Prelude.Int.{leb_ℤ, -ℤ_parts}
use kms_client.Clock.{Time, Duration, sub}
use kms_client.Lease.{LeaseRecord, is_active}
use kms_client.Nodes.{lookup, Distinct}
use kms_client.Store.State.{LeaseStore}
use kms_client.Store.Sweep.{block_expired_nodes, list_all, is_spared, timed_out}
use kms_client.Store.Effects.{lookup-block_expired_nodes}
use kms_client.Store.Blocked.{contains, is_due, contains-block_expired_nodes}
use kms_client.Store.Calls.{Context}
use kms_client.DeadMan.{check, record_at, Warning, warn, check_warnings}
use kms_client.DeadMan.Silence.{lookup-check}

sub_later :
    (now later beat : Time) (t : Duration)
    → leb_ℤ now later ≡ true
    → leb_ℤ (sub now beat) t ≡ false
    → leb_ℤ (sub later beat) t ≡ false
unfolding sub
sub_later now later beat t h overdue = ground (arith, -ℤ_parts now beat, -ℤ_parts later beat)

module _ (t : Duration) (clock : String → Time) (c : Context) (s : LeaseStore) where
  -- The warned node was active and out of maintenance; the check blocked it, and the warning has
  -- its address, and a silence longer than the timeout.
  pub record IsDeserved (w : Warning) : Type 0 where
    pub before : LeaseRecord
    pub held : lookup w.node_uuid s.nodes ≡ some before
    pub active : is_active before.status ≡ true
    pub working : before.maintenance ≡ false
    pub blocked : lookup w.node_uuid (check t c s).nodes ≡ some (timed_out c.now before)
    pub address : w.node_ip ≡ before.node_ip
    pub overdue : leb_ℤ w.silence t ≡ false

  abbrev swept_store : LeaseStore
  swept_store = (block_expired_nodes c.range c.io c.now t s).0

  deserved :
      (k : String)
      → Distinct s.nodes
      → leb_ℤ c.now (clock k) ≡ true
      → is_due c.now t (lookup k s.nodes) ≡ true
      → (w : Warning)
      → w ≡ record {
        node_uuid = k;
        node_ip = (record_at k swept_store.nodes).node_ip;
        silence = sub (clock k) (record_at k swept_store.nodes).last_heartbeat_at;
      }
      → IsDeserved w
  unfolding is_spared
  deserved k d later due w e = elim (Option-cases (lookup k s.nodes)) [
    | inl absent ↦ absurd (ground arith)
    | inr (r, held) ↦
        let after : lookup k swept_store.nodes ≡ some (timed_out c.now r) =
          ground (arith, lookup-block_expired_nodes c.now t c.range c.io s k d) in
        let found : record_at k swept_store.nodes ≡ timed_out c.now r = ground (arith, after) in
        let late = sub_later c.now (clock k) r.last_heartbeat_at t later (ground arith) in
        subst IsDeserved (sym e) (record {
          before = r;
          held = held;
          active = ground arith;
          working = ground arith;
          blocked = rw (lookup-check t c s k d) (ground arith);
          address = ap (λ x. x.node_ip) found;
          overdue =
              subst (λ x. leb_ℤ (sub (clock k) x) t ≡ false)
                (sym (ap (λ x. x.last_heartbeat_at) found)) late;
        })
  ]

  warnings-AreDeserved :
      (uuids : List String)
      → Distinct s.nodes
      → ((k : String) → leb_ℤ c.now (clock k) ≡ true)
      → ((k : String) → contains k uuids ≡ true → is_due c.now t (lookup k s.nodes) ≡ true)
      → All IsDeserved (warn clock (list_all swept_store) uuids)
  unfolding warn list_all
  warnings-AreDeserved [] d later due = tt
  warnings-AreDeserved (k ∷ uuids) d later due = (
    deserved k d (later k) (due k (ground (arith, eq_iff k k))) _ refl,
    warnings-AreDeserved uuids d later (λ j h. due j (ground arith)),
  )

  -- Where each node is stored once, and the clock does not go back, every warning of a check is
  -- deserved: its node was active and out of maintenance, the check blocked it, and the warning has
  -- its address, and a silence longer than the timeout.
  pub check_warnings-AreDeserved :
      Distinct s.nodes
      → ((k : String) → leb_ℤ c.now (clock k) ≡ true)
      → All IsDeserved (check_warnings t clock c s)
  unfolding check_warnings
  check_warnings-AreDeserved d later =
      warnings-AreDeserved (block_expired_nodes c.range c.io c.now t s).1 d later
        (λ k h. sym (contains-block_expired_nodes c.range c.io c.now t s k d) ∙ h)
