-- ===== src/Nodes/Orders.antt =====
-- Orders of visits that the runtime may choose for a map: as stored, and one key first.
use kms_client.Prelude.{
  String, ◌≡◌, refl, [], ◌∷◌, Option, none, some, arith, ◌==◌, eq_iff, if◌then◌else◌,
}
use kms_client.Nodes.{Nodes, Range, Distinct, lookup, lookup_cons}

module _ {ℓ} {V : Type ℓ} where
  abbrev pub as_stored : Range V
  as_stored = record { visit = λ m. m; visit-Distinct = λ m d. d; lookup-visit = λ k m d. refl }

  without : String → Nodes V → Nodes V
  without k [] = []
  without k ((j, v) ∷ m) = if j == k then m else (j, v) ∷ without k m

  lookup-without :
      (k j : String) (m : Nodes V)
      → Distinct m
      → lookup j (without k m) ≡ (if k == j then none else lookup j m)
  unfolding without lookup
  lookup-without k j [] d = ground arith
  lookup-without k j ((i, v) ∷ m) d =
      ground (arith, eq_iff k j, eq_iff i k, eq_iff i j, lookup-without k j m d.1)

  without-Distinct : (k : String) (m : Nodes V) → Distinct m → Distinct (without k m)
  unfolding without lookup
  without-Distinct k [] d = tt
  without-Distinct k ((i, v) ∷ m) d =
      ground (arith, eq_iff i k, eq_iff k i, lookup-without k i m d.1, without-Distinct k m d.1)

  bring_forward : String → Option V → Nodes V → Nodes V
  bring_forward k none m = m
  bring_forward k (some v) m = (k, v) ∷ without k m

  bring_forward-Distinct :
      (k : String) (o : Option V) (m : Nodes V) → Distinct m → Distinct (bring_forward k o m)
  unfolding bring_forward
  bring_forward-Distinct k none m d = d
  bring_forward-Distinct k (some v) m d =
      (ground (arith, eq_iff k k, lookup-without k k m d), without-Distinct k m d)

  lookup-bring_forward :
      (k j : String) (o : Option V) (m : Nodes V)
      → Distinct m
      → lookup k m ≡ o
      → lookup j (bring_forward k o m) ≡ lookup j m
  unfolding bring_forward
  lookup-bring_forward k j none m d e = refl
  lookup-bring_forward k j (some v) m d e =
      ground (arith, eq_iff k j, lookup_cons j k v (without k m), lookup-without k j m d)

  -- The entry of `k` first, if there is one.
  pub first_visits : String → Range V
  unfolding bring_forward
  first_visits k = record {
    visit = λ m. bring_forward k (lookup k m) m;
    visit-Distinct = λ m d. bring_forward-Distinct k (lookup k m) m d;
    lookup-visit = λ j m d. lookup-bring_forward k j (lookup k m) m d refl;
  }

  pub visit-first_visits :
      (k : String) (v : V) (m : Nodes V)
      → lookup k m ≡ some v
      → (rest : Nodes V) × ((first_visits k).visit m ≡ (k, v) ∷ rest)
  unfolding first_visits
  visit-first_visits k v m e = (without k m, rw (e, bring_forward))
