-- ===== src/Http/Node.antt =====
-- handleIdentify and handleHeartbeat of pkg/server/http.go. `request` is the decoded body, `none` if
-- it cannot be decoded; `signature` is the value of X-Hmac-Signature; `checked_at` is the clock's
-- answer for the check of the timestamp.
use kms_client.Prelude.{
  ℕ, String, Bool, true, false, not, ◌||◌, List, [], ◌∷◌, Option, none, some, ◌==◌, if◌then◌else◌,
}
use kms_client.Prelude.Int.{ℤ, pos, eq_ℤ, quot}
use kms_client.Clock.{Time, second}
use kms_client.Lease.{LeaseRecord, status_text}
use kms_client.Nodes.{Range}
use kms_client.Store.State.{LeaseStore, StoreError, lease_blocked}
use kms_client.Store.Leases.{lookup_by_ip, heartbeat_by_uuid}
use kms_client.Store.Calls.{Context}
use kms_client.Hmac.Auth.{verify, verify_identify}
use kms_client.Hmac.Timestamp.{validate_timestamp}
use kms_client.Http.Defs.{
  HttpHandler, IdentifyRequest, HeartbeatRequest, Response, identify_response, heartbeat_response,
  error_response, reply, refuse, status_ok, bad_request, unauthorized, forbidden, not_found,
  internal_server_error,
}

abbrev pub is_empty : List ℕ → Bool
is_empty [] = true
is_empty (c ∷ cs) = false

module _ (h : HttpHandler) where
  identified : Option (String × LeaseRecord) → Response
  identified none = refuse not_found "node_not_found"
  identified (some (node_uuid, r)) =
      reply status_ok (identify_response node_uuid (status_text r.status))

  -- The handler changes nothing.
  unfoldable pub handle_identify :
      Range LeaseRecord
      → Range LeaseRecord
      → Time
      → Option IdentifyRequest
      → List ℕ
      → LeaseStore
      → Response
  unfolding identified
  handle_identify range range' checked_at none signature s = refuse bad_request "invalid_request"
  handle_identify range range' checked_at (some req) signature s =
      if req.node_ip == "" || eq_ℤ req.timestamp (pos 0)
      then refuse bad_request "missing_fields"
      else if not (validate_timestamp req.timestamp checked_at)
      then refuse bad_request "timestamp_out_of_range"
      else if is_empty signature
          || not (verify_identify h.mac h.key req.node_ip req.timestamp signature)
      then refuse unauthorized "invalid_signature"
      else identified (lookup_by_ip range range' req.node_ip s)

  -- int(h.heartbeatInterval.Seconds()), for intervals whose seconds a float64 tells apart.
  abbrev pub next_heartbeat_in : ℤ
  next_heartbeat_in = quot h.heartbeat_interval second

  answer_heartbeat : LeaseRecord → Option StoreError → Response
  answer_heartbeat r none = reply status_ok (heartbeat_response "ok" next_heartbeat_in)
  answer_heartbeat r (some lease_blocked) =
      reply forbidden (error_response "node_blocked" r.block_reason)
  answer_heartbeat r (some e) = refuse internal_server_error "internal_error"

  unfoldable pub accept_heartbeat : Context → HeartbeatRequest → LeaseStore → LeaseStore × Response
  unfolding answer_heartbeat
  accept_heartbeat c req s =
      let (s', r, err) =
        heartbeat_by_uuid c.io req.node_uuid req.node_ip req.hostname c.now h.lease_duration s in
      (s', answer_heartbeat r err)

  unfoldable pub handle_heartbeat :
      Time → Context → Option HeartbeatRequest → List ℕ → LeaseStore → LeaseStore × Response
  handle_heartbeat checked_at c none signature s = (s, refuse bad_request "invalid_request")
  handle_heartbeat checked_at c (some req) signature s =
      if req.node_uuid == "" || req.node_ip == "" || eq_ℤ req.timestamp (pos 0)
      then (s, refuse bad_request "missing_fields")
      else if not (validate_timestamp req.timestamp checked_at)
      then (s, refuse bad_request "timestamp_out_of_range")
      else if is_empty signature
          || not (verify h.mac h.key req.node_uuid req.node_ip req.timestamp signature)
      then (s, refuse unauthorized "invalid_signature")
      else accept_heartbeat c req s
