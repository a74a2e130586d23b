-- ===== src/Http/Effects.antt =====
-- What the handlers of pkg/server/http.go that write do to the store: one call, or none.
use kms_client.Prelude.{ℕ, String, ◌≡◌, refl, ◌⊎◌, Bool, true, none, some, arith, List}
use kms_client.Clock.{Time}
use kms_client.Store.State.{LeaseStore}
use kms_client.Store.Calls.{Context, with_duration, apply, heartbeats_by_uuid, unblocks, maintains}
use kms_client.Http.Defs.{HttpHandler, HeartbeatRequest}
use kms_client.Http.Node.{handle_heartbeat, accept_heartbeat}
use kms_client.Http.Admin.{handle_unblock_node, handle_set_maintenance, authenticate_admin}

pub http_heartbeat_cases :
    (h : HttpHandler) (checked_at : Time) (c : Context) (req : HeartbeatRequest)
    (signature : List ℕ) (s : LeaseStore)
    → ((handle_heartbeat h checked_at c (some req) signature s).0 ≡ s)
      ⊎ ((handle_heartbeat h checked_at c (some req) signature s).0
          ≡ apply
              (with_duration h.lease_duration c)
              (heartbeats_by_uuid req.node_uuid req.node_ip req.hostname)
              s)
unfolding handle_heartbeat accept_heartbeat apply
http_heartbeat_cases h checked_at c req signature s = ground arith

pub heartbeat_undecoded :
    (h : HttpHandler) (checked_at : Time) (c : Context) (signature : List ℕ) (s : LeaseStore)
    → (handle_heartbeat h checked_at c none signature s).0 ≡ s
unfolding handle_heartbeat
heartbeat_undecoded h checked_at c signature s = refl

module _ (h : HttpHandler) (c : Context) (authorization uuid : String) (s : LeaseStore) where
  pub unblock_cases :
      ((handle_unblock_node h c authorization uuid s).0 ≡ s)
      ⊎ ((authenticate_admin h authorization ≡ true)
          × ((handle_unblock_node h c authorization uuid s).0
              ≡ apply (with_duration h.lease_duration c) (unblocks uuid) s))
  unfolding handle_unblock_node apply
  unblock_cases = ground arith

  pub maintenance_cases :
      (on : Bool)
      → ((handle_set_maintenance h c authorization uuid (some on) s).0 ≡ s)
        ⊎ ((authenticate_admin h authorization ≡ true)
            × ((handle_set_maintenance h c authorization uuid (some on) s).0
                ≡ apply (with_duration h.lease_duration c) (maintains uuid on) s))
  unfolding handle_set_maintenance apply
  maintenance_cases on = ground arith

  pub maintenance_undecoded : (handle_set_maintenance h c authorization uuid none s).0 ≡ s
  unfolding handle_set_maintenance
  maintenance_undecoded = ground arith
