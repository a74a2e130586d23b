-- ===== src/Http/Admin.antt =====
-- The admin endpoints of pkg/server/http.go. `authorization` is the value of that header, "" if the
-- request has none; `uuid` is the path's parameter; `enabled` is the decoded body, `none` if it
-- cannot be decoded.
use kms_client.Prelude.{String, Bool, not, ◌&&◌, Option, none, some, ◌==◌, if◌then◌else◌, map}
use kms_client.Prelude.Texts.{trim_prefix}
use kms_client.Clock.{Time, is_zero}
use kms_client.Lease.{LeaseRecord, status_text}
use kms_client.Nodes.{Range}
use kms_client.Store.State.{LeaseStore, StoreError, lease_not_found}
use kms_client.Store.Leases.{unblock, set_maintenance}
use kms_client.Store.Sweep.{list_all}
use kms_client.Store.Calls.{Context}
use kms_client.Http.Defs.{
  HttpHandler, NodeResponse, Response, Body, node_list, unblock_response, maintenance_response,
  reply, refuse, status_ok, bad_request, unauthorized, not_found, internal_server_error,
}

-- `if !t.IsZero() { field = &t }`
abbrev pub unless_zero : Time → Option Time
unless_zero t = if is_zero t then none else some t

unfoldable pub node_response : String × LeaseRecord → NodeResponse
node_response (uuid, r) = record {
  first_seen = unless_zero r.first_seen;
  last_heartbeat = unless_zero r.last_heartbeat_at;
  blocked_at = unless_zero r.blocked_at;
  maintenance_at = unless_zero r.maintenance_at;
  uuid = uuid;
  ip = r.node_ip;
  hostname = r.hostname;
  status = status_text r.status;
  block_reason = r.block_reason;
  maintenance = r.maintenance;
}

module _ (h : HttpHandler) where
  unfoldable pub authenticate_admin : String → Bool
  authenticate_admin authorization =
      let token = trim_prefix authorization "Bearer " in not (token == "") && token == h.admin_token

  unfoldable pub handle_list_nodes : Range LeaseRecord → String → LeaseStore → Response
  handle_list_nodes range authorization s =
      if authenticate_admin authorization
      then reply status_ok (node_list (map node_response (range.visit (list_all s))))
      else refuse unauthorized "invalid_admin_token"

  answer_admin : Body → Option StoreError → Response
  answer_admin body none = reply status_ok body
  answer_admin body (some lease_not_found) = refuse not_found "node_not_found"
  answer_admin body (some e) = refuse internal_server_error "internal_error"

  lift_block : Context → String → LeaseStore → LeaseStore × Response
  unfolding answer_admin
  lift_block c uuid s =
      let (s', r, err) = unblock c.io uuid c.now h.lease_duration s in
      (s', answer_admin (unblock_response "unblocked" uuid) err)

  unfoldable pub handle_unblock_node :
      Context → String → String → LeaseStore → LeaseStore × Response
  unfolding lift_block
  handle_unblock_node c authorization uuid s =
      if not (authenticate_admin authorization)
      then (s, refuse unauthorized "invalid_admin_token")
      else if uuid == ""
      then (s, refuse bad_request "missing_uuid")
      else lift_block c uuid s

  maintain : Context → String → Bool → LeaseStore → LeaseStore × Response
  unfolding answer_admin
  maintain c uuid enabled s =
      let (s', r, err) = set_maintenance c.io uuid enabled c.now h.lease_duration s in
      (s', answer_admin (maintenance_response uuid r.maintenance) err)

  unfoldable pub handle_set_maintenance :
      Context → String → String → Option Bool → LeaseStore → LeaseStore × Response
  unfolding maintain
  handle_set_maintenance c authorization uuid enabled s =
      if not (authenticate_admin authorization)
      then (s, refuse unauthorized "invalid_admin_token")
      else if uuid == ""
      then (s, refuse bad_request "missing_uuid")
      else elim enabled [
        | none ↦ (s, refuse bad_request "invalid_request")
        | some on ↦ maintain c uuid on s
      ]
