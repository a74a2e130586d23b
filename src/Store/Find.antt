-- ===== src/Store/Find.antt =====
-- The searches by IP of pkg/server/lease_store.go: what they find in any order of visits.
use kms_client.Prelude.{String, ◌≡◌, ◌≢◌, [], ◌∷◌, Option, none, some, arith, eq_iff}
use kms_client.Lease.{LeaseRecord}
use kms_client.Nodes.{Nodes, Range, Distinct, lookup, lookup_nil, lookup_cons}
use kms_client.Store.Leases.{find_by_unseal_ip, find_by_node_ip}

-- What a search for a record with a given address says: the record found is stored and has the
-- address, and no stored record has it if none is found.
pub record Finds (address : LeaseRecord → String) (ip : String) (m : Nodes LeaseRecord)
    (o : Option (String × LeaseRecord)) : Type 0 where
  pub sound :
      (k : String) (r : LeaseRecord) → o ≡ some (k, r) → (lookup k m ≡ some r) × (address r ≡ ip)
  pub complete : (k : String) (r : LeaseRecord) → o ≡ none → lookup k m ≡ some r → address r ≢ ip

module _ (ip : String) where
  find_by_unseal_ip_sound :
      (visits : Nodes LeaseRecord) (k : String) (r : LeaseRecord)
      → Distinct visits
      → find_by_unseal_ip ip visits ≡ some (k, r)
      → (lookup k visits ≡ some r) × (r.last_unseal_ip ≡ ip)
  unfolding find_by_unseal_ip
  find_by_unseal_ip_sound [] k r d h = ground arith
  find_by_unseal_ip_sound ((j, q) ∷ visits) k r d h = ground (
    arith,
    eq_iff q.last_unseal_ip ip,
    eq_iff j k,
    lookup_cons k j q visits,
    find_by_unseal_ip_sound visits k r d.1,
  )

  find_by_unseal_ip_complete :
      (visits : Nodes LeaseRecord) (k : String) (r : LeaseRecord)
      → find_by_unseal_ip ip visits ≡ none
      → lookup k visits ≡ some r
      → r.last_unseal_ip ≢ ip
  unfolding find_by_unseal_ip
  find_by_unseal_ip_complete [] k r h e = ground (arith, lookup_nil {V = LeaseRecord} k)
  find_by_unseal_ip_complete ((j, q) ∷ visits) k r h e = ground (
    arith,
    eq_iff q.last_unseal_ip ip,
    lookup_cons k j q visits,
    find_by_unseal_ip_complete visits k r,
  )

  find_by_node_ip_sound :
      (visits : Nodes LeaseRecord) (k : String) (r : LeaseRecord)
      → Distinct visits
      → find_by_node_ip ip visits ≡ some (k, r)
      → (lookup k visits ≡ some r) × (r.node_ip ≡ ip)
  unfolding find_by_node_ip
  find_by_node_ip_sound [] k r d h = ground arith
  find_by_node_ip_sound ((j, q) ∷ visits) k r d h = ground (
    arith,
    eq_iff q.node_ip ip,
    eq_iff j k,
    lookup_cons k j q visits,
    find_by_node_ip_sound visits k r d.1,
  )

  find_by_node_ip_complete :
      (visits : Nodes LeaseRecord) (k : String) (r : LeaseRecord)
      → find_by_node_ip ip visits ≡ none
      → lookup k visits ≡ some r
      → r.node_ip ≢ ip
  unfolding find_by_node_ip
  find_by_node_ip_complete [] k r h e = ground (arith, lookup_nil {V = LeaseRecord} k)
  find_by_node_ip_complete ((j, q) ∷ visits) k r h e =
      ground
        (arith, eq_iff q.node_ip ip, lookup_cons k j q visits, find_by_node_ip_complete visits k r)

  module _ (range : Range LeaseRecord) (m : Nodes LeaseRecord) (d : Distinct m) where
    pub find_by_unseal_ip-Finds :
        Finds (λ r. r.last_unseal_ip) ip m (find_by_unseal_ip ip (range.visit m))
    find_by_unseal_ip-Finds = record {
      sound = λ k r h.
          rw (range.lookup-visit k m d) at
            (find_by_unseal_ip_sound (range.visit m) k r (range.visit-Distinct m d) h);
      complete = λ k r h e.
          find_by_unseal_ip_complete (range.visit m) k r h (rw (range.lookup-visit k m d) e);
    }

    pub find_by_node_ip-Finds : Finds (λ r. r.node_ip) ip m (find_by_node_ip ip (range.visit m))
    find_by_node_ip-Finds = record {
      sound = λ k r h.
          rw (range.lookup-visit k m d) at
            (find_by_node_ip_sound (range.visit m) k r (range.visit-Distinct m d) h);
      complete = λ k r h e.
          find_by_node_ip_complete (range.visit m) k r h (rw (range.lookup-visit k m d) e);
    }
