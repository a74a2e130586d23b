-- ===== src/Store/Durable.antt =====
-- The lease file of pkg/server/lease_store.go: what persistLocked leaves on the disk, and what load
-- reads back after a restart.
use kms_client.Prelude.{
  ap, ◌∙◌, ◌⊎◌, String, ◌≡◌, ◌≢◌, true, ◌&&◌, [], ◌∷◌, Option, none, some, arith, ◌==◌, eq_iff,
  Option-cases, Bool-cases, inl, inr, ◌++◌,
}
use mathlib.Core.List.{append-nil, append_assoc}
use kms_client.Clock.{Time}
use kms_client.Metrics.{Metrics}
use kms_client.Lease.{LeaseRecord, parse_status, status_text}
use kms_client.Nodes.{
  Nodes, Distinct, lookup, insert, lookup_nil, lookup_cons, lookup-insert, insert_new,
}
use kms_client.Store.State.{
  LeaseStore, Io, Disk, document, persist_locked, update_lease_metrics_locked, new_file_lease_store,
}
use kms_client.Store.Json.{
  Fields, Document, encode_record, encode_nodes, decode_nodes, marshal, unmarshal,
}
use kms_client.Store.RoundTrip.{decode-encode_record}
use kms_client.Store.Invariant.{IsValid}

abbrev AllCanonical : Nodes LeaseRecord → Type 0
AllCanonical m =
    (k : String) (r : LeaseRecord)
    → lookup k m ≡ some r
    → parse_status (status_text r.status) ≡ r.status

-- No key of one map is a key of the other.
abbrev AreDisjoint : Nodes LeaseRecord → Nodes LeaseRecord → Type 0
AreDisjoint a b = (k : String) → (lookup k a ≡ none) ⊎ (lookup k b ≡ none)

insert-AreDisjoint :
    (k : String) (r : LeaseRecord) (m acc : Nodes LeaseRecord)
    → lookup k m ≡ none
    → AreDisjoint acc ((k, r) ∷ m)
    → AreDisjoint (insert k r acc) m
insert-AreDisjoint k r m acc fresh apart j =
    rw lookup-insert (ground (arith, eq_iff k j, lookup_cons j k r m, apart j))

tail-AllCanonical :
    (k : String) (r : LeaseRecord) (m : Nodes LeaseRecord)
    → lookup k m ≡ none
    → AllCanonical ((k, r) ∷ m)
    → AllCanonical m
tail-AllCanonical k r m fresh canonical j q h =
    canonical j q (ground (arith, eq_iff k j, lookup_cons j k r m))

decode_nodes-encode_nodes :
    (m acc : Nodes LeaseRecord) {fs : Nodes Fields}
    → Distinct m
    → AreDisjoint acc m
    → AllCanonical m
    → encode_nodes m ≡ some fs
    → decode_nodes fs acc ≡ some (acc ++ m)
unfolding encode_nodes decode_nodes
decode_nodes-encode_nodes [] acc {fs} d apart canonical h =
    let e : fs ≡ [] = ground arith in rw (e, append-nil)
decode_nodes-encode_nodes ((k, r) ∷ m) acc {fs} d apart canonical h =
    elim (Option-cases (encode_record r)) [
      | inl bad ↦ absurd (ground arith)
      | inr (f, e) ↦ elim (Option-cases (encode_nodes m)) [
        | inl bad ↦ absurd (ground arith)
        | inr (gs, e') ↦
            let split : fs ≡ (k, f) ∷ gs = ground arith in
            let head : lookup k ((k, r) ∷ m) ≡ some r =
              ground (arith, eq_iff k k, lookup_cons k k r m) in
            let fresh : lookup k acc ≡ none = ground (arith, apart k) in
            rw (split, decode_nodes, decode-encode_record r (canonical k r head) e)
              (decode_nodes-encode_nodes m (insert k r acc) d.1
                  (insert-AreDisjoint k r m acc d.0 apart) (tail-AllCanonical k r m d.0 canonical)
                  e'
                ∙ ap (λ a. some (a ++ m)) (insert_new k r acc fresh)
                ∙ ap some (append_assoc acc ((k, r) ∷ []) m))
      ]
    ]

-- The file of a valid store is read back as the same map.
pub unmarshal-marshal :
    (s : LeaseStore) {d : Document}
    → IsValid s
    → marshal s.nodes ≡ some d
    → unmarshal d ≡ some s.nodes
unfolding marshal unmarshal
unmarshal-marshal s {d} v h = elim (Option-cases (encode_nodes s.nodes)) [
  | inl bad ↦ absurd (ground arith)
  | inr (fs, e) ↦
      let split : d ≡ record { nodes = some fs } = ground arith in
      rw split (
        decode_nodes-encode_nodes s.nodes [] v.distinct (λ k. inl (lookup_nil k))
          (λ k r held. (v.coherent k r held).canonical) e)
]

-- What load finds in the file of a path, when it can be read.
abbrev pub Restarts : Io → Time → String → Option Metrics → Disk → Nodes LeaseRecord → Type 0
Restarts io now path metrics disk m =
    ((new_file_lease_store io now path metrics disk).1 ≡ none)
    × ((new_file_lease_store io now path metrics disk).0.nodes ≡ m)

-- Where persistLocked of a valid store with a path reports success, NewFileLeaseStore on that
-- file, if it can be read, has no error and finds exactly the nodes of the store.
pub persist_locked-Restarts :
    (io io' : Io) (now : Time) (metrics : Option Metrics) (s : LeaseStore)
    → IsValid s
    → s.path ≢ ""
    → io'.can_read ≡ true
    → (persist_locked io s).1 ≡ none
    → Restarts io' now s.path metrics (persist_locked io s).0.disk s.nodes
unfolding persist_locked new_file_lease_store update_lease_metrics_locked
persist_locked-Restarts io io' now metrics s v named readable h =
    elim (Option-cases (marshal s.nodes)) [
      | inl bad ↦ absurd (ground (arith, eq_iff s.path ""))
      | inr (d, e) ↦ ground (arith, eq_iff s.path "", unmarshal-marshal s {d = d} v e)
    ]

-- Whatever fails in persistLocked, the file at the path afterwards is the old one, or the whole
-- document of the store's nodes.
pub persist_locked_atomic :
    (io : Io) (s : LeaseStore)
    → ((persist_locked io s).0.disk.main ≡ s.disk.main)
      ⊎ ((d : Document) × (marshal s.nodes ≡ some d)
          × ((persist_locked io s).0.disk.main ≡ some (document d)))
unfolding persist_locked
persist_locked_atomic io s = elim (Option-cases (marshal s.nodes)) [
  | inl bad ↦ inl (ground arith)
  | inr (d, e) ↦ elim (Bool-cases (s.path == "")) [
    | inl p ↦ inl (ground arith)
    | inr p ↦ elim (Bool-cases (io.can_mkdir && io.can_write && io.can_rename)) [
      | inl ok ↦ inr (d, e, ground arith)
      | inr no' ↦ inl (ground arith)
    ]
  ]
]
