-- ===== src/Tests/Concurrency.antt =====
-- The theorems on the interleaved server of cmd/kms-server/main.go, on one run.
use kms_client.Prelude.{◌≡◌, refl, true, List, [], ◌∷◌, arith, All}
use kms_client.Prelude.Int.{◌-ℤ◌}
use kms_client.Clock.{is_zero, sub}
use kms_client.Nodes.{lookup}
use kms_client.Store.Leases.{validate}
use kms_client.Store.Invariant.{IsValid}
use kms_client.Store.Blocked.{Holds}
use kms_client.Server.Config.{Request, lease_enabled}
use kms_client.Server.Rpc.{success, failure, status, permission_denied}
use kms_client.Server.Unseal.{admit, unseal}
use kms_client.System.{Process, unblock_request, switch_tick}
use kms_client.System.Concurrent.{
  World, Act, begins, finishes, serves, first, Moves, done, more, admitted, finished, served,
}
use kms_client.System.Concurrent.Writes.{Moves-IsValid}
use kms_client.System.Concurrent.Blocks.{IsOther, Moves-Holds}
use kms_client.System.Concurrent.Overdue.{Moves-overdue}
use kms_client.System.Concurrent.Passed.{Passed, IsAllowed, Moves-Passed}
use kms_client.Tests.{
  differs, alive-IsCoherent, lookup-one_node, request-IsChecked, at_second, seconds, alive, halted,
  one_node, context_at, one_node-IsValid, halted-IsCoherent, halted-Holds, server, handler, call_at,
  request,
}

abbrev process : Process
process = record { server = server; http = handler; heartbeat_timeout = seconds 120 }

-- Another node asks for its key.
abbrev other : Request
other = record request { node_uuid = "n2" }

abbrev from : World
from = record { store = one_node halted; pending = [] }

abbrev halfway : World
halfway = record {
  store = (admit server (call_at 1210) other (one_node halted)).0;
  pending = (call_at 1210, other) ∷ [];
}

let_in : (admit server (call_at 1210) other (one_node halted)).1 ≡ success tt
unfolding admit validate lookup
let_in = refl

-- A tick, and an admin's request for the other node, between the halves of its Unseal.
abbrev acts : List Act
acts =
    begins (call_at 1210) other
    ∷ serves (switch_tick (context_at 1211))
    ∷ serves (unblock_request (context_at 1212) "Bearer secret" "n2")
    ∷ finishes (call_at 1210) other
    ∷ []

abbrev interleaved : (u : World) × Moves process from acts u
interleaved = (
  _,
  more (admitted (call_at 1210) other let_in) (
      more (served (switch_tick (context_at 1211)) refl) (
        more (served (unblock_request (context_at 1212) "Bearer secret" "n2") refl)
          (more (finished (call_at 1210) other [] first) done))),
)

Moves-IsValid_example : IsValid interleaved.0.store
Moves-IsValid_example =
    Moves-IsValid process from interleaved.0 acts interleaved.1 (tt, (tt, (tt, (tt, tt))))
      (one_node-IsValid halted halted-IsCoherent)

enabled : lease_enabled server ≡ true
unfolding lease_enabled
enabled = refl

Moves-Holds_example :
    Holds halted (lookup "n1" interleaved.0.store.nodes) × All (IsOther "n1") interleaved.0.pending
Moves-Holds_example =
    Moves-Holds process from interleaved.0 acts "n1" halted interleaved.1 enabled
      (one_node-IsValid halted halted-IsCoherent) (tt, (tt, (tt, (tt, tt))))
      (refl, (refl, (ground arith, (refl, tt)))) tt halted-Holds

Moves-Passed_example :
    (passed : Passed process from halfway (call_at 1210) other) × IsAllowed
      (at_second 1210)
      (lookup "n2" passed.moment.store.nodes)
Moves-Passed_example =
    Moves-Passed process (one_node halted) halfway (begins (call_at 1210) other ∷ []) (call_at 1210)
      other [] (more (admitted (call_at 1210) other let_in) done) first enabled

-- Another node comes while this one is silent.
abbrev silent : World
silent = record { store = one_node alive; pending = [] }

abbrev meanwhile : World
meanwhile = record {
  store = (admit server (call_at 1100) other (one_node alive)).0;
  pending = (call_at 1100, other) ∷ [];
}

welcome : (admit server (call_at 1100) other (one_node alive)).1 ≡ success tt
unfolding admit validate lookup
welcome = refl

abbrev tick_to_end : List Act
tick_to_end = serves (switch_tick (context_at 1200)) ∷ finishes (call_at 1100) other ∷ []

abbrev ends : (u : World) × Moves process meanwhile tick_to_end u
ends = (
  _,
  more (served (switch_tick (context_at 1200)) refl)
      (more (finished (call_at 1100) other [] first) done),
)

Moves-overdue_example :
    (unseal server (call_at 1300) request ends.0.store).1
    ≡ failure (status permission_denied "node blocked")
unfolding is_zero sub ◌-ℤ◌
Moves-overdue_example =
    Moves-overdue process silent meanwhile ends.0 (begins (call_at 1100) other ∷ [])
      (finishes (call_at 1100) other ∷ []) (context_at 1200) alive (call_at 1300) request
      (more (admitted (call_at 1100) other welcome) done) ends.1
      ((tt, tt), (differs "n2" "n1" refl, tt)) ((tt, tt), (differs "n2" "n1" refl, tt))
      (one_node-IsValid alive alive-IsCoherent) (lookup-one_node alive) refl refl refl refl
      (request-IsChecked 1300)
