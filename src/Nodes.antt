-- ===== src/Nodes.antt =====
-- Go's `map[string]V`, as an association list. The order in which `range` visits a map is not
-- specified: a loop takes it as a `Range`, and nothing else of the representation shows.
pub mod Orders
use kms_client.Prelude.{
  String, ◌≡◌, refl, List, [], ◌∷◌, ◌++◌, Option, none, some, arith, ◌==◌, eq_iff, if◌then◌else◌,
}

abbrev pub Nodes {ℓ} : Type ℓ → Type ℓ
Nodes V = List (String × V)

module _ {ℓ} {V : Type ℓ} where
  -- v, ok := m[key]
  unfoldable pub lookup : String → Nodes V → Option V
  lookup key [] = none
  lookup key (entry ∷ rest) = if entry.0 == key then some entry.1 else lookup key rest

  -- m[key] = value
  unfoldable pub insert : String → V → Nodes V → Nodes V
  insert key value [] = (key, value) ∷ []
  insert key value (entry ∷ rest) =
      if entry.0 == key then (key, value) ∷ rest else entry ∷ insert key value rest

  -- No key stands twice.
  abbrev pub Distinct : Nodes V → Type ℓ
  Distinct [] = Unit
  Distinct ((k, v) ∷ m) = (lookup k m ≡ none) × Distinct m

  pub lookup-insert :
      (key other : String) (value : V) (nodes : Nodes V)
      → lookup other (insert key value nodes)
        ≡ (if key == other then some value else lookup other nodes)
  unfolding insert lookup
  lookup-insert key other value [] = refl
  lookup-insert key other value (entry ∷ rest) = ground (
    arith,
    lookup-insert key other value rest,
    eq_iff entry.0 other,
    eq_iff entry.0 key,
    eq_iff key other,
  )

  pub insert-Distinct : (k : String) (v : V) (m : Nodes V) → Distinct m → Distinct (insert k v m)
  unfolding lookup insert
  insert-Distinct k v [] d = (refl, tt)
  insert-Distinct k v ((i, w) ∷ m) d =
      ground (arith, eq_iff i k, eq_iff k i, lookup-insert k i v m, insert-Distinct k v m d.1)

  pub lookup_nil : (k : String) → lookup k [] ≡ none
  unfolding lookup
  lookup_nil k = refl

  pub lookup_cons :
      (k j : String) (v : V) (m : Nodes V)
      → lookup k ((j, v) ∷ m) ≡ (if j == k then some v else lookup k m)
  unfolding lookup
  lookup_cons k j v m = refl

pub insert_new {ℓ} :
    {V : Type ℓ} (k : String) (v : V) (m : Nodes V)
    → lookup k m ≡ none
    → insert k v m ≡ m ++ (k, v) ∷ []
unfolding lookup insert
insert_new k v [] h = refl
insert_new k v ((j, w) ∷ m) h = ground (arith, insert_new k v m)

-- One order of visits: each key once, with the value that the map holds.
pub record Range {ℓ} (V : Type ℓ) : Type ℓ where
  pub visit : Nodes V → Nodes V
  pub visit-Distinct : (m : Nodes V) → Distinct m → Distinct (visit m)
  pub lookup-visit : (k : String) (m : Nodes V) → Distinct m → lookup k (visit m) ≡ lookup k m
