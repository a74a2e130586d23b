-- ===== src/Http/Routes/Refusal.antt =====
-- What a request to the HTTP API of pkg/server/http.go leaves in the store and in its file, by its
-- answer.
use kms_client.Prelude.{
  ℕ, String, ◌≡◌, ◌≢◌, false, eq_iff, refl, ◌⊎◌, inl, inr, Bool, List, Option, none, some, arith,
  Option-cases,
}
use mathlib.Core.Option
use kms_client.Clock.{Time}
use kms_client.Nodes.{lookup, insert}
use kms_client.Store.Json.{marshal}
use kms_client.Store.State.{
  LeaseStore, Io, StoreError, file_error, document, persist_locked, write_and_rename,
}
use kms_client.Store.Leases.{
  heartbeat_by_uuid, unblock, unblocked, with_maintenance, set_maintenance, persist_and_return,
  first_heartbeat, next_heartbeat, put_record,
}
use kms_client.Store.Calls.{Context}
use kms_client.Http.Defs.{HttpHandler, HeartbeatRequest, Response}
use kms_client.Http.Node.{handle_heartbeat, accept_heartbeat}
use kms_client.Http.Admin.{handle_unblock_node, handle_set_maintenance}
use kms_client.Http.Routes.{
  heartbeat_endpoint, identify_endpoint, list_nodes_endpoint, unblock_endpoint,
  maintenance_endpoint, Routed, found, no_path, no_method, register_routes, find_route, HttpRequest,
  Surroundings, Answer, answered, by_net_http, path_value, dispatch, serve_http,
}

abbrev pub answer_code : Answer → ℕ
answer_code (answered r) = r.code
answer_code (by_net_http code) = code

-- The file holds the nodes of the store, or the store has no file.
abbrev pub IsSaved : LeaseStore → Type 0
IsSaved t =
    (t.path ≡ "")
    ⊎ ((marshal t.nodes ≢ none) × (t.disk.main ≡ Option.map document (marshal t.nodes)))

-- The store has a file, and one of the steps of its writing fails.
abbrev pub CannotSave : Io → LeaseStore → Type 0
CannotSave io t =
    (t.path ≢ "")
    × ((io.can_mkdir ≡ false)
        ⊎ (marshal t.nodes ≡ none)
        ⊎ (io.can_write ≡ false)
        ⊎ (io.can_rename ≡ false))

-- The store is left alone, or the answer says whether its nodes have been saved.
abbrev pub IsSettled : Io → LeaseStore → LeaseStore → ℕ → Type 0
IsSettled io s t code = (t ≡ s) ⊎ ((code ≡ 200) × IsSaved t) ⊎ ((code ≡ 500) × CannotSave io t)

abbrev HasWritten : Io → LeaseStore × Option StoreError → Type 0
HasWritten io (t, none) = IsSaved t
HasWritten io (t, some (file_error fault)) = CannotSave io t
HasWritten io (t, some _) = ⊥

persist_locked-HasWritten : (io : Io) (s : LeaseStore) → HasWritten io (persist_locked io s)
unfolding persist_locked write_and_rename
persist_locked-HasWritten io s = elim (Option-cases (marshal s.nodes)) [
  | inl unwritable ↦ ground (arith, eq_iff s.path "")
  | inr (d, e) ↦ ground (arith, eq_iff s.path "")
]

module _ (h : HttpHandler) (c : Context) (s : LeaseStore) where
  abbrev Settled : LeaseStore × Response → Type 0
  Settled (t, r) = IsSettled c.io s t r.code

  accept-IsSettled : (req : HeartbeatRequest) → Settled (accept_heartbeat h c req s)
  unfolding accept_heartbeat heartbeat_by_uuid persist_and_return
  accept-IsSettled req = elim (Option-cases (lookup req.node_uuid s.nodes)) [
    | inl absent ↦
        let first = first_heartbeat req.node_ip req.hostname c.now h.lease_duration in
        ground (arith, persist_locked-HasWritten c.io (put_record req.node_uuid first c.now s))
    | inr (r, held) ↦
        let next = next_heartbeat req.node_ip req.hostname c.now h.lease_duration r in
        ground (arith, persist_locked-HasWritten c.io (put_record req.node_uuid next c.now s))
  ]

  heartbeat-IsSettled :
      (checked_at : Time) (o : Option HeartbeatRequest) (signature : List ℕ)
      → Settled (handle_heartbeat h checked_at c o signature s)
  unfolding handle_heartbeat
  heartbeat-IsSettled checked_at none signature = inl refl
  heartbeat-IsSettled checked_at (some req) signature = ground (arith, accept-IsSettled req)

  unblock-IsSettled :
      (authorization uuid : String) → Settled (handle_unblock_node h c authorization uuid s)
  unfolding handle_unblock_node unblock persist_and_return
  unblock-IsSettled authorization uuid = elim (Option-cases (lookup uuid s.nodes)) [
    | inl absent ↦ ground arith
    | inr (r, held) ↦ ground (
      arith,
      persist_locked-HasWritten c.io (put_record uuid (unblocked c.now h.lease_duration r) c.now s),
    )
  ]

  maintenance-IsSettled :
      (authorization uuid : String) (o : Option Bool)
      → Settled (handle_set_maintenance h c authorization uuid o s)
  unfolding handle_set_maintenance set_maintenance persist_and_return
  maintenance-IsSettled authorization uuid none = ground arith
  maintenance-IsSettled authorization uuid (some on) = elim (Option-cases (lookup uuid s.nodes)) [
    | inl absent ↦ ground arith
    | inr (r, held) ↦
        let r' = with_maintenance on c.now h.lease_duration r in
        ground (arith, persist_locked-HasWritten c.io (record s { nodes = insert uuid r' s.nodes }))
  ]

module _ (h : HttpHandler) (e : Surroundings) (r : HttpRequest) (s : LeaseStore) where
  dispatch-IsSettled :
      (d : Routed)
      → IsSettled e.context.io s (dispatch h e r d s).0 (answer_code (dispatch h e r d s).1)
  unfolding dispatch
  dispatch-IsSettled no_path = inl refl
  dispatch-IsSettled no_method = inl refl
  dispatch-IsSettled (found heartbeat_endpoint values) =
      heartbeat-IsSettled h e.context s e.checked_at r.as_heartbeat r.signature
  dispatch-IsSettled (found identify_endpoint values) = inl refl
  dispatch-IsSettled (found list_nodes_endpoint values) = inl refl
  dispatch-IsSettled (found unblock_endpoint values) =
      unblock-IsSettled h e.context s r.authorization (path_value values)
  dispatch-IsSettled (found maintenance_endpoint values) =
      maintenance-IsSettled h e.context s r.authorization (path_value values) r.as_maintenance

  -- A request to the HTTP API leaves the store alone, or is answered by a 200 and the file, if there
  -- is one, then holds the nodes of the store, or is answered by a 500 and a step of the writing of
  -- the file fails: creating its directory, the encoding, the write or the rename.
  pub serve_http-IsSettled :
      IsSettled e.context.io s (serve_http h e r s).0 (answer_code (serve_http h e r s).1)
  unfolding serve_http
  serve_http-IsSettled = dispatch-IsSettled (find_route register_routes r.method r.path)
