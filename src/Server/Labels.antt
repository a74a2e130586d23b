-- ===== src/Server/Labels.antt =====
-- requestLabels, observeUnseal and observeHeartbeat of pkg/server/metrics.go.
use kms_client.Prelude.{String, ◌∷◌, Option, none, some, if◌then◌else◌}
use kms_client.Prelude.Texts.{contains_text}
use kms_client.Clock.{Duration}
use kms_client.Metrics.{Metrics}
use kms_client.Server.Rpc.{
  ok, permission_denied, unauthenticated, failed_precondition, invalid_argument, internal,
  other_code, RpcError, status, plain, Result, success, failure, Rpc,
}

denied_reason : String → String
denied_reason message =
    if contains_text message "blocked"
    then "node_blocked"
    else if contains_text message "expired"
    then "lease_expired"
    else if contains_text message "missing"
    then "lease_missing"
    else if contains_text message "registered"
    then "unknown_peer_ip"
    else "permission_denied"

-- The labels `result` and `reason` of an error.
unfoldable pub error_labels : RpcError → String × String
unfolding denied_reason contains_text
error_labels (plain message) = ("error", "internal")
error_labels (status permission_denied message) = ("denied", denied_reason message)
error_labels (status invalid_argument message) = ("error", "invalid_argument")
error_labels (status unauthenticated message) = ("denied", "unauthenticated")
error_labels (status failed_precondition message) = ("denied", "failed_precondition")
error_labels (status internal message) = ("error", "internal")
error_labels (status ok message) = ("error", "ok")
error_labels (status (other_code name) message) = ("error", name)

abbrev pub request_labels : {A : Type 0} → Result A → String × String
request_labels (success a) = ("success", "ok")
request_labels (failure e) = error_labels e

abbrev count_unseal : String × String → Duration → Option Metrics → Option Metrics
count_unseal labels elapsed none = none
count_unseal labels elapsed (some m) = some (record m {
  unseal_requests = labels ∷ m.unseal_requests;
  request_durations = ("unseal", elapsed) ∷ m.request_durations;
})

abbrev count_heartbeat : String × String → Duration → Option Metrics → Option Metrics
count_heartbeat labels elapsed none = none
count_heartbeat labels elapsed (some m) = some (record m {
  heartbeat_requests = labels ∷ m.heartbeat_requests;
  request_durations = ("heartbeat", elapsed) ∷ m.request_durations;
})

-- `defer srv.metrics.observeUnseal(err, …)` around a handler's body.
unfoldable pub observe_unseal : {A : Type 0} → Duration → Rpc A → Rpc A
observe_unseal elapsed body s =
    let (s', r) = body s in
    (record s' { metrics = count_unseal (request_labels r) elapsed s'.metrics }, r)

unfoldable pub observe_heartbeat : {A : Type 0} → Duration → Rpc A → Rpc A
observe_heartbeat elapsed body s =
    let (s', r) = body s in
    (record s' { metrics = count_heartbeat (request_labels r) elapsed s'.metrics }, r)
