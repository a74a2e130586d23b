-- ===== src/Tests/Sweeps.antt =====
-- The theorems on pkg/server/deadman.go, and on the whole server, at concrete stores.
use kms_client.Prelude.{All, ◌≡◌, refl, true, List, [], ◌∷◌, some}
use kms_client.Prelude.Int.{◌-ℤ◌}
use kms_client.Clock.{is_zero, sub, after}
use kms_client.Lease.{is_active, is_expired, LeaseRecord}
use kms_client.Nodes.{lookup}
use kms_client.Server.Unseal.{unseal}
use kms_client.Http.Admin.{authenticate_admin}
use kms_client.Prelude.Texts.{trim_prefix}
use kms_client.Store.State.{LeaseStore}
use kms_client.Store.Leases.{is_over, marked_expired, heartbeat_by_uuid}
use kms_client.DeadMan.Escape.{unseal_escapes}
use kms_client.DeadMan.{check, Signal, tick, done, Warning, check_warnings}
use kms_client.DeadMan.Warned.{IsDeserved, check_warnings-AreDeserved}
use kms_client.DeadMan.Silence.{IsSilent, run_maintained}
use kms_client.System.{
  Process, Event, unseal_request, grpc_heartbeat, unblock_request, maintenance_request, switch_tick,
}
use kms_client.Tests.{
  good_io, at_second, seconds, alive, one_node, context_at, lookup-one_node, one_node-Distinct,
  server, handler, call_at, request, request-IsChecked,
}

alive-IsSilent : IsSilent (seconds 120) (at_second 1200) alive
unfolding is_zero sub ◌-ℤ◌
alive-IsSilent = record { active = refl; seen = refl; overdue = refl }

abbrev kept : LeaseRecord
kept = record alive { maintenance = true; maintenance_at = at_second 1050 }

run_maintained_example :
    lookup "n1"
      (kms_client.DeadMan.run
        (seconds 120)
        (tick (context_at 1200) ∷ tick (context_at 1230) ∷ done ∷ [])
        (one_node kept)).nodes
    ≡ some kept
run_maintained_example =
    run_maintained (seconds 120) (tick (context_at 1200) ∷ tick (context_at 1230) ∷ done ∷ [])
      (one_node kept) "n1" kept (one_node-Distinct kept) (lookup-one_node kept) refl

abbrev process : Process
process = record { server = server; http = handler; heartbeat_timeout = seconds 120 }

abbrev events : List Event
events =
    unseal_request (call_at 1210) request
    ∷ grpc_heartbeat (call_at 1220)
    ∷ switch_tick (context_at 1230)
    ∷ maintenance_request (context_at 1240) "Bearer secret" "n1" (some true)
    ∷ unblock_request (context_at 1250) "Bearer secret" "n2"
    ∷ []

others : authenticate_admin handler "Bearer secret" ≡ true
unfolding authenticate_admin trim_prefix
others = refl

late : is_over alive (at_second 1100) ≡ true
unfolding is_expired is_zero after
late = refl

abbrev checked_later : LeaseStore
checked_later =
    kms_client.DeadMan.run (seconds 120) (tick (context_at 1200) ∷ [])
      (unseal server (call_at 1100) request (one_node alive)).0

unseal_escapes_example :
    (lookup "n1" checked_later.nodes ≡ some (marked_expired alive))
    × ((q : LeaseRecord) × (lookup "n1"
            (heartbeat_by_uuid good_io "n1" "10.0.0.9" "moved"
              (at_second 2000)
              (seconds 60)
              checked_later).0.nodes
          ≡ some q)
        × (is_active q.status ≡ true))
unseal_escapes_example =
    unseal_escapes server (call_at 1100) request (one_node alive) alive (request-IsChecked 1100)
      (one_node-Distinct alive) (lookup-one_node alive) refl late (seconds 120)
      (tick (context_at 1200) ∷ []) (context_at 2000) "10.0.0.9" "moved"

check_warnings-AreDeserved_example :
    All
      (IsDeserved (seconds 120) (λ k. at_second 1201) (context_at 1200) (one_node alive))
      (check_warnings (seconds 120) (λ k. at_second 1201) (context_at 1200) (one_node alive))
check_warnings-AreDeserved_example =
    check_warnings-AreDeserved (seconds 120) (λ k. at_second 1201) (context_at 1200)
      (one_node alive) (one_node-Distinct alive) (λ k. refl)
