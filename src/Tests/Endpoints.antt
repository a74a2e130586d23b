-- ===== src/Tests/Endpoints.antt =====
-- The theorems on pkg/server/http.go at concrete requests.
use kms_client.Prelude.{String, [], ◌∷◌, ℕ, ◌≡◌, refl, ◌≢◌, ◌⊎◌, ◌↔◌, true, List, none, some}
use kms_client.Prelude.Int.{pos, ◌+ℤ◌, ◌-ℤ◌}
use kms_client.Prelude.Texts.{after_prefix, trim_prefix}
use kms_client.Clock.{add, after, unix}
use kms_client.Lease.{LeaseRecord, is_active}
use kms_client.Nodes.{lookup}
use kms_client.Nodes.Orders.{as_stored}
use kms_client.Store.State.{LeaseStore, persist_locked, update_lease_metrics_locked}
use kms_client.Store.Leases.{validate, heartbeat_by_uuid, unblock, persist_and_return, put_record}
use kms_client.Hmac.Auth.{sign}
use kms_client.Http.Defs.{HeartbeatRequest, Response}
use kms_client.Http.Node.{handle_heartbeat, accept_heartbeat}
use kms_client.Http.Admin.{authenticate_admin, handle_unblock_node}
use kms_client.Http.Access.{
  IsGenuine, handle_heartbeat_accepted, authenticate_admin_iff, handle_unblock_node-validate,
}
use kms_client.Http.Routes.{
  HttpRequest, Surroundings, serve_http, find_route, register_routes, found, no_method, no_path,
  unblock_endpoint, list_nodes_endpoint,
}
use kms_client.Http.Routes.Guard.{MayWrite, KeepsOthers, serve_http_guard}
use kms_client.Http.Routes.Refusal.{answer_code, IsSettled, serve_http-IsSettled}
use kms_client.Agent.{heartbeat_request}
use kms_client.Agent.Honest.{handle_heartbeat-heartbeat_request}
use kms_client.Tests.{
  differs, at_second, seconds, alive, halted, one_node, good_io, context_at, one_node-Distinct,
  one_node-IsValid, halted-IsCoherent, handler, mac, key, config, mac-IsMac, clocks,
}

-- The heartbeat of the agent at second 1050.
abbrev beat : HeartbeatRequest
beat = record { node_uuid = "n1"; node_ip = "10.0.0.1"; hostname = "first"; timestamp = pos 1050 }

abbrev signature : List ℕ
signature = sign mac key "n1" "10.0.0.1" (pos 1050)

abbrev answer : LeaseStore → LeaseStore × Response
answer s = handle_heartbeat handler (at_second 1080) (context_at 1080) (some beat) signature s

abbrev unsaved : LeaseStore
unsaved = record (one_node alive) { path = "" }

accepted : (accept_heartbeat handler (context_at 1080) beat unsaved).1.code ≡ 200
unfolding accept_heartbeat heartbeat_by_uuid lookup persist_and_return persist_locked put_record
    update_lease_metrics_locked
accepted = refl

answered : (answer unsaved).1.code ≡ 200
unfolding heartbeat_request unix ◌-ℤ◌
answered =
    let same : answer unsaved ≡ accept_heartbeat handler (context_at 1080) beat unsaved =
      handle_heartbeat-heartbeat_request handler mac-IsMac config (at_second 1050) (at_second 1080)
        clocks unsaved (context_at 1080) (differs "n1" "" refl) (differs "10.0.0.1" "" refl) in
    rw same accepted

handle_heartbeat_accepted_example :
    IsGenuine handler (at_second 1080) (context_at 1080) beat signature unsaved
    × ((r : LeaseRecord) × (lookup "n1" (answer unsaved).0.nodes ≡ some r)
        × (is_active r.status ≡ true)
        × (r.lease_until ≡ add (at_second 1080) (seconds 60))
        × (r.node_ip ≡ "10.0.0.1"))
handle_heartbeat_accepted_example =
    handle_heartbeat_accepted handler (at_second 1080) (context_at 1080) beat signature unsaved
      (one_node-Distinct alive) answered

authenticate_admin_iff_example : (authenticate_admin handler "secret" ≡ true) ↔ (
    (handler.admin_token ≢ "")
    × ((after_prefix "Bearer " "secret" ≡ some handler.admin_token)
        ⊎ ((after_prefix "Bearer " "secret" ≡ none) × ("secret" ≡ handler.admin_token))))
authenticate_admin_iff_example = authenticate_admin_iff handler "secret"

abbrev stopped : LeaseStore
stopped = record (one_node halted) { path = "" }

lifted : (handle_unblock_node handler (context_at 1300) "Bearer secret" "n1" stopped).1.code ≡ 200
unfolding handle_unblock_node authenticate_admin trim_prefix unblock lookup persist_and_return
    persist_locked put_record update_lease_metrics_locked
lifted = refl

handle_unblock_node-validate_example :
    (validate good_io "n1"
      (at_second 1350)
      (handle_unblock_node handler (context_at 1300) "Bearer secret" "n1" stopped).0).2
    ≡ none
unfolding after add ◌+ℤ◌
handle_unblock_node-validate_example =
    handle_unblock_node-validate handler (context_at 1300) "Bearer secret" "n1" stopped good_io
      (at_second 1350) (one_node-Distinct halted) lifted refl

abbrev lift_request : HttpRequest
lift_request = record {
  method = "POST";
  path = "admin" ∷ "nodes" ∷ "n1" ∷ "unblock" ∷ [];
  authorization = "Bearer secret";
  signature = [];
  as_heartbeat = none;
  as_identify = none;
  as_maintenance = none;
}

abbrev around : Surroundings
around = record {
  checked_at = at_second 1300;
  range = as_stored;
  range' = as_stored;
  context = context_at 1300;
}

serve_http_guard_example :
    ((serve_http handler around lift_request (one_node halted)).0 ≡ one_node halted)
    ⊎ ((k : String) × MayWrite handler around lift_request (one_node halted) k
        × KeepsOthers handler around lift_request
            (one_node halted)
            k
            (serve_http handler around lift_request (one_node halted)).0)
serve_http_guard_example =
    serve_http_guard handler around lift_request (one_node halted)
      (one_node-IsValid halted halted-IsCoherent)

-- A path that has another method's route is no 404.
find_route_test :
    (find_route register_routes "POST" ("admin" ∷ "nodes" ∷ "n1" ∷ "unblock" ∷ [])
      ≡ found unblock_endpoint ("n1" ∷ []))
    × (find_route register_routes "GET" ("admin" ∷ "nodes" ∷ "n1" ∷ "unblock" ∷ []) ≡ no_method)
    × (find_route register_routes "HEAD" ("admin" ∷ "nodes" ∷ []) ≡ found list_nodes_endpoint [])
    × (find_route register_routes "POST" ("admin" ∷ "n1" ∷ []) ≡ no_path)
unfolding find_route
find_route_test = (refl, refl, refl, refl)

serve_http-IsSettled_example :
    IsSettled around.context.io
      (one_node halted)
      (serve_http handler around lift_request (one_node halted)).0
      (answer_code (serve_http handler around lift_request (one_node halted)).1)
serve_http-IsSettled_example = serve_http-IsSettled handler around lift_request (one_node halted)
