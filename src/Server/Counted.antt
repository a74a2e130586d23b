-- ===== src/Server/Counted.antt =====
-- How the requests of pkg/server/server.go are counted in the metrics of pkg/server/metrics.go.
use kms_client.Prelude.{String, ◌∙◌, ◌≡◌, List, ◌∷◌, Option, arith, Option-cases, inl, inr}
use mathlib.Core.Option
use kms_client.Clock.{Time, Duration}
use kms_client.Lease.{LeaseRecord}
use kms_client.Nodes.{lookup}
use kms_client.Metrics.{set_lease_counts, inc_lease_store_error}
use kms_client.Store.State.{
  LeaseStore, Io, persist_locked, write_and_rename, update_lease_metrics_locked,
}
use kms_client.Store.Leases.{
  put_record, persist_and_return, bootstrap, validate, validate_found, mark_expired, marked_expired,
  find_by_unseal_ip, heartbeat_by_ip, heartbeat_found, renewed,
}
use kms_client.Server.Labels.{request_labels, observe_unseal, observe_heartbeat}
use kms_client.Server.Peer.{peer_ip_from_context}
use kms_client.Server.Config.{Server, Call, Request}
use kms_client.Server.Unseal.{
  unseal, unseal_body, admit, validate_lease, lease_error, open_and_deliver, register, bootstrap_as,
}
use kms_client.Server.Heartbeat.{heartbeat, heartbeat_body, refresh, heartbeat_error}

-- The labels of all counted requests, newest first: of Unseal, and of Heartbeat; and the method and
-- the time of each request.
abbrev pub Counts : Type 0
Counts = List (String × String) × List (String × String) × List (String × Duration)

abbrev pub counts : LeaseStore → Option Counts
counts s =
    Option.map (λ m. (m.unseal_requests, m.heartbeat_requests, m.request_durations)) s.metrics

-- One more Unseal, or Heartbeat, with those labels and that time.
abbrev pub and_unseal : String × String → Duration → Option Counts → Option Counts
and_unseal labels elapsed = Option.map (λ x. (labels ∷ x.0, x.1, ("unseal", elapsed) ∷ x.2))

abbrev pub and_heartbeat : String × String → Duration → Option Counts → Option Counts
and_heartbeat labels elapsed = Option.map (λ x. (x.0, labels ∷ x.1, ("heartbeat", elapsed) ∷ x.2))

counts-persist_locked : (io : Io) (s : LeaseStore) → counts (persist_locked io s).0 ≡ counts s
unfolding persist_locked write_and_rename inc_lease_store_error
counts-persist_locked io s = ground arith

counts-put_record :
    (k : String) (r : LeaseRecord) (now : Time) (s : LeaseStore)
    → counts (put_record k r now s) ≡ counts s
unfolding put_record update_lease_metrics_locked set_lease_counts
counts-put_record k r now s = ground arith

counts-validate :
    (io : Io) (k : String) (now : Time) (s : LeaseStore) → counts (validate io k now s).0 ≡ counts s
unfolding validate validate_found mark_expired
counts-validate io k now s = elim (Option-cases (lookup k s.nodes)) [
  | inl absent ↦ ground arith
  | inr (r, held) ↦
      let marked = put_record k (marked_expired r) now s in
      ground (arith, counts-persist_locked io marked, counts-put_record k (marked_expired r) now s)
]

module _ (srv : Server) (call : Call) where
  counts-admit : (req : Request) (s : LeaseStore) → counts (admit srv call req s).0 ≡ counts s
  unfolding admit validate_lease lease_error
  counts-admit req s =
      ground (arith, counts-validate call.at_validate.io req.node_uuid call.at_validate.now s)

  counts-bootstrap_as :
      (k ip : String) (s : LeaseStore)
      → counts (bootstrap_as srv k ip call.at_update s).0 ≡ counts s
  unfolding bootstrap_as bootstrap persist_and_return
  counts-bootstrap_as k ip s = counts-persist_locked _ _ ∙ counts-put_record _ _ _ _

  counts-open_and_deliver :
      (req : Request) (s : LeaseStore) → counts (open_and_deliver srv call req s).0 ≡ counts s
  unfolding open_and_deliver register
  counts-open_and_deliver req s = elim (Option-cases (peer_ip_from_context srv.net call.peer)) [
    | inl nobody ↦ ground arith
    | inr (ip, known) ↦ ground (arith, counts-bootstrap_as req.node_uuid ip s)
  ]

  counts-unseal_body :
      (req : Request) (s : LeaseStore) → counts (unseal_body srv call req s).0 ≡ counts s
  unfolding unseal_body
  counts-unseal_body req s =
      ground (arith, counts-admit req s, counts-open_and_deliver req (admit srv call req s).0)

  counts-heartbeat_found :
      (k : String) (r : LeaseRecord) (s : LeaseStore)
      → counts (heartbeat_found call.at_update.io k r call.at_update.now srv.lease_window s).0
        ≡ counts s
  unfolding heartbeat_found mark_expired
  counts-heartbeat_found k r s =
      let io = call.at_update.io in
      let now = call.at_update.now in
      let beaten = renewed now srv.lease_window r in
      ground (
        arith,
        counts-persist_locked io (put_record k (marked_expired r) now s),
        counts-put_record k (marked_expired r) now s,
        counts-persist_locked io (put_record k beaten now s),
        counts-put_record k beaten now s,
      )

  counts-refresh :
      (ip : String) (s : LeaseStore) → counts (refresh srv call.at_update ip s).0 ≡ counts s
  unfolding refresh heartbeat_by_ip heartbeat_error
  counts-refresh ip s =
      elim (Option-cases (find_by_unseal_ip ip (call.at_update.range.visit s.nodes))) [
        | inl unknown ↦ ground arith
        | inr ((k, r), known) ↦ ground (arith, counts-heartbeat_found k r s)
      ]

  counts-heartbeat_body : (s : LeaseStore) → counts (heartbeat_body srv call s).0 ≡ counts s
  unfolding heartbeat_body
  counts-heartbeat_body s = elim (Option-cases (peer_ip_from_context srv.net call.peer)) [
    | inl nobody ↦ ground arith
    | inr (ip, known) ↦ ground (arith, counts-refresh ip s)
  ]

  -- Every Unseal and every Heartbeat, however it ends and whatever fails in between, is counted
  -- exactly once, in its own counter, with the labels of the result that the client gets, and its
  -- time is observed once under its method's name.
  pub counts_once :
      (req : Request) (s : LeaseStore)
      → (counts (unseal srv call req s).0
          ≡ and_unseal (request_labels (unseal srv call req s).1) call.elapsed (counts s))
        × (counts (heartbeat srv call s).0
            ≡ and_heartbeat (request_labels (heartbeat srv call s).1) call.elapsed (counts s))
  unfolding unseal heartbeat observe_unseal observe_heartbeat
  counts_once req s =
      (ground (arith, counts-unseal_body req s), ground (arith, counts-heartbeat_body s))
