-- ===== src/Http/Routes.antt =====
-- RegisterRoutes of pkg/server/http.go, and how net/http picks a handler among those routes.
pub mod Paths
pub mod Guard
pub mod Refusal
use kms_client.Prelude.{
  ℕ, String, Bool, true, false, ◌&&◌, ◌||◌, List, [], ◌∷◌, ◌++◌, Option, none, some, ◌==◌,
  if◌then◌else◌,
}
use kms_client.Clock.{Time}
use kms_client.Lease.{LeaseRecord}
use kms_client.Nodes.{Range}
use kms_client.Store.State.{LeaseStore}
use kms_client.Store.Calls.{Context}
use kms_client.Http.Defs.{HttpHandler, IdentifyRequest, HeartbeatRequest, Response, not_found}
use kms_client.Http.Node.{handle_identify, handle_heartbeat}
use kms_client.Http.Admin.{handle_list_nodes, handle_unblock_node, handle_set_maintenance}

-- A handler of a route.
pub data Endpoint : Type 0 where
  heartbeat_endpoint identify_endpoint list_nodes_endpoint unblock_endpoint maintenance_endpoint :
      Endpoint

-- A segment of a pattern: a text, or a wildcard `{name}`.
pub data Segment : Type 0 where
  literal : String → Segment
  wildcard : Segment

pub record Route : Type 0 where
  pub method : String
  pub pattern : List Segment
  pub endpoint : Endpoint

abbrev route : String → List Segment → Endpoint → Route
route method pattern endpoint = record { method = method; pattern = pattern; endpoint = endpoint }

abbrev pub node_pattern : String → List Segment
node_pattern action = literal "admin" ∷ literal "nodes" ∷ wildcard ∷ literal action ∷ []

abbrev pub register_routes : List Route
register_routes =
    route "POST" (literal "heartbeat" ∷ []) heartbeat_endpoint
    ∷ route "POST" (literal "node" ∷ literal "identify" ∷ []) identify_endpoint
    ∷ route "GET" (literal "admin" ∷ literal "nodes" ∷ []) list_nodes_endpoint
    ∷ route "POST" (node_pattern "unblock") unblock_endpoint
    ∷ route "POST" (node_pattern "maintenance") maintenance_endpoint
    ∷ []

-- The wildcards' values, where the segments of a path match a pattern.
unfoldable pub match_path : List Segment → List String → Option (List String)
match_path [] [] = some []
match_path [] (x ∷ xs) = none
match_path (p ∷ ps) [] = none
match_path (literal text ∷ ps) (x ∷ xs) =
    let rest = match_path ps xs in if x == text then rest else none
match_path (wildcard ∷ ps) (x ∷ xs) =
    let rest = match_path ps xs in elim rest [ none ↦ none | some values ↦ some (x ∷ values) ]

-- A pattern with GET also serves HEAD.
abbrev pub serves_method : String → String → Bool
serves_method registered method = registered == method || (registered == "GET" && method == "HEAD")

-- The handler and the value of its wildcard; another answer is net/http's.
pub data Routed : Type 0 where
  found : Endpoint → List String → Routed
  no_path no_method : Routed

-- No two of the patterns match one request, so the order does not matter. A path that only a route
-- of another method matches is answered by 405.
unfoldable pub find_route : List Route → String → List String → Routed
unfolding match_path
find_route [] method path = no_path
find_route (r ∷ routes) method path =
    let rest = find_route routes method path in
    elim (match_path r.pattern path) [
      | none ↦ rest
      | some values ↦
          if serves_method r.method method
          then found r.endpoint values
          else elim rest [ no_path ↦ no_method | no_method ↦ no_method | found e vs ↦ found e vs ]
    ]

-- A request: the segments of its cleaned path, the two headers that the handlers read ("" and []
-- without them), and what encoding/json makes of the body for each of the three request types.
pub record HttpRequest : Type 0 where
  pub method : String
  pub path : List String
  pub authorization : String
  pub signature : List ℕ
  pub as_heartbeat : Option HeartbeatRequest
  pub as_identify : Option IdentifyRequest
  pub as_maintenance : Option Bool

-- The surroundings of a request: the clock at the check of a timestamp, the orders of the loops, and
-- the surroundings of the store's call.
pub record Surroundings : Type 0 where
  pub checked_at : Time
  pub range : Range LeaseRecord
  pub range' : Range LeaseRecord
  pub context : Context

pub data Answer : Type 0 where
  answered : Response → Answer
  by_net_http : ℕ → Answer

abbrev reading : LeaseStore → Response → LeaseStore × Answer
reading s response = (s, answered response)

abbrev writing : LeaseStore × Response → LeaseStore × Answer
writing (s, response) = (s, answered response)

-- r.PathValue("uuid")
abbrev pub path_value : List String → String
path_value [] = ""
path_value (x ∷ xs) = x

module _ (h : HttpHandler) (e : Surroundings) (r : HttpRequest) where
  unfoldable pub dispatch : Routed → LeaseStore → LeaseStore × Answer
  dispatch no_path s = (s, by_net_http not_found)
  dispatch no_method s = (s, by_net_http 405)
  dispatch (found heartbeat_endpoint values) s =
      writing (handle_heartbeat h e.checked_at e.context r.as_heartbeat r.signature s)
  dispatch (found identify_endpoint values) s =
      reading s (handle_identify h e.range e.range' e.checked_at r.as_identify r.signature s)
  dispatch (found list_nodes_endpoint values) s =
      reading s (handle_list_nodes h e.range r.authorization s)
  dispatch (found unblock_endpoint values) s =
      writing (handle_unblock_node h e.context r.authorization (path_value values) s)
  dispatch (found maintenance_endpoint values) s =
      writing
        (handle_set_maintenance h e.context r.authorization (path_value values) r.as_maintenance s)

  unfoldable pub serve_http : LeaseStore → LeaseStore × Answer
  unfolding dispatch
  serve_http s = dispatch (find_route register_routes r.method r.path) s
