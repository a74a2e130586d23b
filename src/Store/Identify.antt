-- ===== src/Store/Identify.antt =====
-- LookupByIP of pkg/server/lease_store.go: which node an address names.
use kms_client.Prelude.{
  ◌↔◌, String, ◌≡◌, refl, ◌≢◌, none, some, arith, eq_iff, Option-cases, inl, inr,
}
use kms_client.Lease.{LeaseRecord}
use kms_client.Nodes.{Range, lookup}
use kms_client.Nodes.Orders.{first_visits, visit-first_visits}
use kms_client.Store.State.{LeaseStore}
use kms_client.Store.Leases.{lookup_by_ip, find_by_unseal_ip, find_by_node_ip, bootstrap_record}
use kms_client.Store.Calls.{Context, bootstraps, apply}
use kms_client.Store.Find.{find_by_unseal_ip-Finds, find_by_node_ip-Finds}
use kms_client.Store.Spec.{effect, lookup-apply}
use kms_client.Store.Invariant.{IsValid, apply-IsValid}

find_by_unseal_ip_unique :
    (range : Range LeaseRecord) (s : LeaseStore) (k : String) (r : LeaseRecord)
    → IsValid s
    → lookup k s.nodes ≡ some r
    → r.last_unseal_ip ≢ ""
    → find_by_unseal_ip r.last_unseal_ip (range.visit s.nodes) ≡ some (k, r)
find_by_unseal_ip_unique range s k r v held named =
    let ip = r.last_unseal_ip in
    let finds = find_by_unseal_ip-Finds ip range s.nodes v.distinct in
    elim (Option-cases (find_by_unseal_ip ip (range.visit s.nodes))) [
      | inl missing ↦ absurd (finds.complete k r missing held refl)
      | inr ((u, q), found) ↦ ground (arith, finds.sound u q found, v.unique_ips u k)
    ]

-- An address of a last Unseal names one node, whatever the order of the loops.
pub lookup_by_ip_unique :
    (range range' : Range LeaseRecord) (s : LeaseStore) (k : String) (r : LeaseRecord)
    → IsValid s
    → lookup k s.nodes ≡ some r
    → r.last_unseal_ip ≢ ""
    → lookup_by_ip range range' r.last_unseal_ip s ≡ some (k, r)
unfolding lookup_by_ip
lookup_by_ip_unique range range' s k r v held named =
    rw (find_by_unseal_ip_unique range s k r v held named, lookup_by_ip)

-- In a valid store LookupByIP fails exactly where no node has the address in either field,
-- whatever the order of the loops.
pub lookup_by_ip-eq-none_iff :
    (range range' : Range LeaseRecord) (ip : String) (s : LeaseStore)
    → IsValid s
    → (lookup_by_ip range range' ip s ≡ none) ↔ (
        (k : String) (r : LeaseRecord)
        → lookup k s.nodes ≡ some r
        → (r.last_unseal_ip ≢ ip) × (r.node_ip ≢ ip))
unfolding lookup_by_ip
lookup_by_ip-eq-none_iff range range' ip s v =
    let by_unseal = find_by_unseal_ip-Finds ip range s.nodes v.distinct in
    let by_node = find_by_node_ip-Finds ip range' s.nodes v.distinct in
    elim (Option-cases (find_by_unseal_ip ip (range.visit s.nodes))) [
      | inr ((u, q), found) ↦ (
        λ h. absurd (ground arith),
        λ h. absurd ((h u q (by_unseal.sound u q found).0).0 (by_unseal.sound u q found).1),
      )
      | inl missing ↦ elim (Option-cases (find_by_node_ip ip (range'.visit s.nodes))) [
        | inr ((u, q), found) ↦ (
          λ h. absurd (ground arith),
          λ h. absurd ((h u q (by_node.sound u q found).0).1 (by_node.sound u q found).1),
        )
        | inl missing' ↦ (
          λ h k r held. (by_unseal.complete k r missing held, by_node.complete k r missing' held),
          λ h. rw (missing, lookup_by_ip, missing'),
        )
      ]
    ]

-- A node is found at the address of its Unseal, from the very next lookup.
pub lookup_by_ip-bootstrap :
    (c : Context) (range range' : Range LeaseRecord) (u ip : String) (s : LeaseStore)
    → IsValid s
    → ip ≢ ""
    → lookup_by_ip range range' ip (apply c (bootstraps u ip) s)
      ≡ some (u, bootstrap_record (lookup u s.nodes) ip c.now c.lease_duration)
unfolding effect bootstrap_record
lookup_by_ip-bootstrap c range range' u ip s v named =
    let r = bootstrap_record (lookup u s.nodes) ip c.now c.lease_duration in
    let held : lookup u (apply c (bootstraps u ip) s).nodes ≡ some r =
      rw (lookup-apply c s v.distinct (bootstraps u ip) u v.unique_ips tt)
        (ground (arith, eq_iff u u)) in
    let at_ip : r.last_unseal_ip ≡ ip = ground arith in
    rw at_ip at (
      lookup_by_ip_unique range range' (apply c (bootstraps u ip) s) u r
        (apply-IsValid c (bootstraps u ip) s tt v) held (rw at_ip named))

-- Where no node was unsealed at an address, each node that reported it as its own is the answer of
-- LookupByIP in some order of the loop.
pub lookup_by_ip_ambiguous :
    (range : Range LeaseRecord) (s : LeaseStore) (k : String) (r : LeaseRecord)
    → find_by_unseal_ip r.node_ip (range.visit s.nodes) ≡ none
    → lookup k s.nodes ≡ some r
    → lookup_by_ip range (first_visits k) r.node_ip s ≡ some (k, r)
unfolding lookup_by_ip find_by_node_ip
lookup_by_ip_ambiguous range s k r missing held =
    let (rest, e) = visit-first_visits k r s.nodes held in
    rw (missing, lookup_by_ip, e) (ground (arith, eq_iff r.node_ip r.node_ip))
