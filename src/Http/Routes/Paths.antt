-- ===== src/Http/Routes/Paths.antt =====
-- Which requests reach which handler of pkg/server/http.go.
use kms_client.Prelude.{
  String, ◌≡◌, ◌≢◌, Option-cases, refl, ◌⊎◌, inl, inr, true, List, [], ◌∷◌, some, arith, eq_iff,
}
use kms_client.Http.Routes.{
  Endpoint, Segment, Route, literal, wildcard, serves_method, node_pattern, unblock_endpoint,
  maintenance_endpoint, found, register_routes, find_route, match_path,
}

-- A route that is found matches the request.
found_route :
    (r : Route) (routes : List Route) (method : String) (path values : List String) (e : Endpoint)
    → find_route (r ∷ routes) method path ≡ found e values
    → ((r.endpoint ≡ e)
        × (serves_method r.method method ≡ true)
        × (match_path r.pattern path ≡ some values))
      ⊎ (find_route routes method path ≡ found e values)
unfolding find_route
found_route r routes method path values e h = ground arith

match_literal :
    (text : String) (ps : List Segment) (path values : List String)
    → match_path (literal text ∷ ps) path ≡ some values
    → (rest : List String) × (path ≡ text ∷ rest) × (match_path ps rest ≡ some values)
unfolding match_path
match_literal text ps [] values h = absurd (ground arith)
match_literal text ps (x ∷ xs) values h = (xs, ground (arith, eq_iff x text), ground arith)

match_wildcard :
    (ps : List Segment) (path values : List String)
    → match_path (wildcard ∷ ps) path ≡ some values
    → (k : String) × (rest vs : List String) × (path ≡ k ∷ rest)
      × (values ≡ k ∷ vs)
      × (match_path ps rest ≡ some vs)
unfolding match_path
match_wildcard ps [] values h = absurd (ground arith)
match_wildcard ps (x ∷ xs) values h = elim (Option-cases (match_path ps xs)) [
  | inl n ↦ absurd (ground arith)
  | inr (vs, e) ↦ (x, xs, vs, refl, ground arith, e)
]

match_end :
    (path values : List String) → match_path [] path ≡ some values → (path ≡ []) × (values ≡ [])
unfolding match_path
match_end [] values h = (refl, ground arith)
match_end (x ∷ xs) values h = absurd (ground arith)

match_node :
    (action : String) (path values : List String)
    → match_path (node_pattern action) path ≡ some values
    → (k : String) × (values ≡ k ∷ []) × (path ≡ "admin" ∷ "nodes" ∷ k ∷ action ∷ [])
match_node action path values h =
    let (p1, e1, h1) = match_literal "admin" _ path values h in
    let (p2, e2, h2) = match_literal "nodes" _ p1 values h1 in
    let (k, p3, vs, e3, e, h3) = match_wildcard _ p2 values h2 in
    let (p4, e4, h4) = match_literal action _ p3 vs h3 in
    let (e5, e6) = match_end p4 vs h4 in (k, cc, cc)

module _ (method : String) (path values : List String) where
  -- The request of a route that serves one action on a node.
  abbrev pub IsNodePost : String → Type 0
  IsNodePost action =
      (k : String) × (method ≡ "POST")
      × (values ≡ k ∷ [])
      × (path ≡ "admin" ∷ "nodes" ∷ k ∷ action ∷ [])

module _ (method : String) (path values : List String) (e : Endpoint) where
  skipped :
      (r : Route) (routes : List Route)
      → r.endpoint ≢ e
      → find_route (r ∷ routes) method path ≡ found e values
      → find_route routes method path ≡ found e values
  skipped r routes other h = elim (found_route r routes method path values e h) [
    | inl here ↦ absurd (other here.0)
    | inr there ↦ there
  ]

  none_left : find_route [] method path ≢ found e values
  unfolding find_route
  none_left h = absurd (ground arith)

  matched :
      (action : String)
      → serves_method "POST" method ≡ true
      → match_path (node_pattern action) path ≡ some values
      → IsNodePost method path values action
  matched action m p =
      let (k, one, at_path) = match_node action path values p in
      (k, ground (arith, eq_iff "POST" method), one, at_path)

module _ (method : String) (path values : List String) where
  -- An Unblock is reached by POST only, at the node's path.
  pub found_unblock :
      find_route register_routes method path ≡ found unblock_endpoint values
      → IsNodePost method path values "unblock"
  found_unblock h =
      let e = unblock_endpoint in
      let h1 = skipped method path values e _ _ (λ x. absurd (ground arith)) h in
      let h2 = skipped method path values e _ _ (λ x. absurd (ground arith)) h1 in
      let h3 = skipped method path values e _ _ (λ x. absurd (ground arith)) h2 in
      elim (found_route _ _ method path values e h3) [
        | inl here ↦ matched method path values e "unblock" here.1 here.2
        | inr there ↦ absurd (
            none_left method path values e
              (skipped method path values e _ _ (λ x. absurd (ground arith)) there))
      ]

  -- So is a change of maintenance.
  pub found_maintenance :
      find_route register_routes method path ≡ found maintenance_endpoint values
      → IsNodePost method path values "maintenance"
  found_maintenance h =
      let e = maintenance_endpoint in
      let h1 = skipped method path values e _ _ (λ x. absurd (ground arith)) h in
      let h2 = skipped method path values e _ _ (λ x. absurd (ground arith)) h1 in
      let h3 = skipped method path values e _ _ (λ x. absurd (ground arith)) h2 in
      let h4 = skipped method path values e _ _ (λ x. absurd (ground arith)) h3 in
      elim (found_route _ _ method path values e h4) [
        | inl here ↦ matched method path values e "maintenance" here.1 here.2
        | inr there ↦ absurd (none_left method path values e there)
      ]
