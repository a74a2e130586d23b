-- ===== src/Http/Routes/Guard.antt =====
-- What a request to the HTTP API of pkg/server/http.go may change.
use kms_client.Prelude.{
  String, ◌≡◌, refl, ◌≢◌, ◌⊎◌, inl, inr, Bool, true, [], ◌∷◌, Option, none, some, arith, eq_iff,
}
use kms_client.Lease.{LeaseRecord}
use kms_client.Nodes.{lookup}
use kms_client.Store.State.{LeaseStore}
use kms_client.Store.Calls.{
  Context, Op, with_duration, apply, heartbeats_by_uuid, unblocks, maintains,
}
use kms_client.Store.Spec.{lookup-apply, effect, NamesIp}
use kms_client.Store.Invariant.{IsValid}
use kms_client.Http.Defs.{HttpHandler, HeartbeatRequest}
use kms_client.Http.Node.{handle_heartbeat}
use kms_client.Http.Admin.{authenticate_admin, handle_unblock_node, handle_set_maintenance}
use kms_client.Http.Access.{IsGenuine, handle_heartbeat_guard}
use kms_client.Http.Effects.{
  http_heartbeat_cases, heartbeat_undecoded, unblock_cases, maintenance_cases,
  maintenance_undecoded,
}
use kms_client.Http.Routes.Paths.{found_unblock, found_maintenance}
use kms_client.Http.Routes.{
  heartbeat_endpoint, identify_endpoint, list_nodes_endpoint, unblock_endpoint,
  maintenance_endpoint, Routed, found, no_path, no_method, register_routes, find_route, HttpRequest,
  Surroundings, dispatch, serve_http,
}

module _ (h : HttpHandler) (e : Surroundings) (r : HttpRequest) (s : LeaseStore) where
  -- The request may write the record of node k: it is a genuine heartbeat of it, or has the admin
  -- token and names the node in its path.
  pub data MayWrite (k : String) : Type 0 where
    by_node :
        (req : HeartbeatRequest)
        → r.as_heartbeat ≡ some req
        → req.node_uuid ≡ k
        → IsGenuine h e.checked_at e.context req r.signature s
        → MayWrite k
    by_admin :
        (action : String)
        → authenticate_admin h r.authorization ≡ true
        → r.method ≡ "POST"
        → r.path ≡ "admin" ∷ "nodes" ∷ k ∷ action ∷ []
        → MayWrite k

  -- The records of all other nodes are the same.
  abbrev pub KeepsOthers : String → LeaseStore → Type 0
  KeepsOthers k t = (j : String) → j ≢ k → lookup j t.nodes ≡ lookup j s.nodes

  abbrev Guarded : LeaseStore → Type 0
  Guarded t = (t ≡ s) ⊎ ((k : String) × MayWrite k × KeepsOthers k t)

  kept_by :
      (c : Context) (op : Op) (k : String)
      → IsValid s
      → NamesIp op
      → ((j : String) (o : Option LeaseRecord) → j ≢ k → effect c op j o ≡ o)
      → KeepsOthers k (apply c op s)
  kept_by c op k v named local j other =
      rw (lookup-apply c s v.distinct op j v.unique_ips named) (local j (lookup j s.nodes) other)

  heartbeat-Guarded :
      IsValid s
      → (o : Option HeartbeatRequest) → r.as_heartbeat ≡ o
      → Guarded (handle_heartbeat h e.checked_at e.context o r.signature s).0
  unfolding effect
  heartbeat-Guarded v none body = inl (heartbeat_undecoded h e.checked_at e.context r.signature s)
  heartbeat-Guarded v (some req) body =
      elim (handle_heartbeat_guard h e.checked_at e.context req r.signature s) [
        | inr denied ↦ inl denied.0
        | inl genuine ↦ elim (http_heartbeat_cases h e.checked_at e.context req r.signature s) [
          | inl u ↦ inl u
          | inr u ↦ inr (
            req.node_uuid,
            by_node req body refl genuine,
            rw u (
                kept_by (with_duration h.lease_duration e.context)
                  (heartbeats_by_uuid req.node_uuid req.node_ip req.hostname) req.node_uuid v tt
                  (λ j o other. ground (arith, eq_iff req.node_uuid j))),
          )
        ]
      ]

  unblock-Guarded :
      IsValid s
      → (uuid : String) → r.method ≡ "POST"
      → r.path ≡ "admin" ∷ "nodes" ∷ uuid ∷ "unblock" ∷ []
      → Guarded (handle_unblock_node h e.context r.authorization uuid s).0
  unfolding effect
  unblock-Guarded v uuid post at_path = elim (unblock_cases h e.context r.authorization uuid s) [
    | inl u ↦ inl u
    | inr (good, u) ↦ inr (
      uuid,
      by_admin "unblock" good post at_path,
      rw u (
          kept_by (with_duration h.lease_duration e.context) (unblocks uuid) uuid v tt
            (λ j o other. ground (arith, eq_iff uuid j))),
    )
  ]

  maintenance-Guarded :
      IsValid s
      → (uuid : String) (o : Option Bool) → r.method ≡ "POST"
      → r.path ≡ "admin" ∷ "nodes" ∷ uuid ∷ "maintenance" ∷ []
      → Guarded (handle_set_maintenance h e.context r.authorization uuid o s).0
  unfolding effect
  maintenance-Guarded v uuid none post at_path =
      inl (maintenance_undecoded h e.context r.authorization uuid s)
  maintenance-Guarded v uuid (some on) post at_path =
      elim (maintenance_cases h e.context r.authorization uuid s on) [
        | inl u ↦ inl u
        | inr (good, u) ↦ inr (
          uuid,
          by_admin "maintenance" good post at_path,
          rw u (
              kept_by (with_duration h.lease_duration e.context) (maintains uuid on) uuid v tt
                (λ j o other. ground (arith, eq_iff uuid j))),
        )
      ]

  dispatch-Guarded :
      IsValid s
      → (d : Routed) → find_route register_routes r.method r.path ≡ d
      → Guarded (dispatch h e r d s).0
  unfolding dispatch
  dispatch-Guarded v no_path at_route = inl refl
  dispatch-Guarded v no_method at_route = inl refl
  dispatch-Guarded v (found heartbeat_endpoint values) at_route =
      heartbeat-Guarded v r.as_heartbeat refl
  dispatch-Guarded v (found identify_endpoint values) at_route = inl refl
  dispatch-Guarded v (found list_nodes_endpoint values) at_route = inl refl
  dispatch-Guarded v (found unblock_endpoint values) at_route =
      let (k, post, same, at_path) = found_unblock r.method r.path values at_route in
      rw same (unblock-Guarded v k post at_path)
  dispatch-Guarded v (found maintenance_endpoint values) at_route =
      let (k, post, same, at_path) = found_maintenance r.method r.path values at_route in
      rw same (maintenance-Guarded v k r.as_maintenance post at_path)

  -- Whatever its method, path, headers and body, a request to the HTTP API of a valid store leaves
  -- the store alone, or it writes the record of one node only, and then it is a genuine heartbeat
  -- of that node, or a POST with the admin token to the path of that node.
  pub serve_http_guard :
      IsValid s
      → ((serve_http h e r s).0 ≡ s)
        ⊎ ((k : String) × MayWrite k × KeepsOthers k (serve_http h e r s).0)
  unfolding serve_http
  serve_http_guard v = dispatch-Guarded v (find_route register_routes r.method r.path) refl
