-- ===== src/Tests/Stores.antt =====
-- The theorems on pkg/server/lease_store.go at concrete stores.
use kms_client.Prelude.{false, ℕ, inl, arith, ◌++◌, ◌≡◌, refl, ◌⊎◌, List, [], ◌∷◌, none, some}
use kms_client.Clock.{is_zero, after}
use kms_client.Lease.{is_expired, LeaseRecord}
use kms_client.Nodes.{lookup, lookup_nil, lookup_cons}
use kms_client.Nodes.Orders.{as_stored, first_visits}
use kms_client.Store.State.{Fault, lease_expired, file_error, LeaseStore}
use kms_client.Store.Leases.{validate, lookup_by_ip, find_by_unseal_ip, find_by_node_ip}
use kms_client.Store.Calls.{
  Op, Context, apply, run, bootstraps, heartbeats_by_ip, heartbeats_by_uuid, sweeps,
}
use kms_client.Store.Invariant.{IsValid}
use kms_client.Store.Identify.{lookup_by_ip_ambiguous}
use kms_client.Store.Durable.{Restarts}
use kms_client.Store.Recovery.{run-Restarts}
use kms_client.Store.Abstract.{view, spec_run, view-run, view-run_alike}
use kms_client.Store.Lives.{Life, live_on, no_file-IsSound, live_on-IsValid}
use kms_client.Store.Grace.{check_and_end, validate_ended}
use kms_client.Store.Gauges.{gauges, counted_at, gauges-apply}
use kms_client.Tests.{
  lookup-one_node, empty_disk, differs, at_second, seconds, alive, store_of, one_node, good_io,
  context_at, one_node-IsValid, alive-IsCoherent,
}

abbrev valid : IsValid (one_node alive)
valid = one_node-IsValid alive alive-IsCoherent

abbrev some_calls : List (Context × Op)
some_calls =
    (context_at 1010, heartbeats_by_ip "10.0.0.1")
    ∷ (context_at 1020, bootstraps "n2" "10.0.0.1")
    ∷ (context_at 1200, sweeps (seconds 120))
    ∷ (context_at 1210, heartbeats_by_uuid "n1" "10.0.0.9" "host")
    ∷ []

-- A node that was moved: it reports the address of another one.
abbrev moved : LeaseRecord
moved = record alive { last_unseal_ip = ""; node_ip = "10.0.0.9" }

abbrev two_moved : LeaseStore
two_moved = store_of (("n1", moved) ∷ ("n2", record moved { hostname = "second" }) ∷ [])

lookup-two_moved : lookup "n2" two_moved.nodes ≡ some (record moved { hostname = "second" })
lookup-two_moved = rw (lookup_cons, lookup_cons) refl

found_nowhere : find_by_unseal_ip "10.0.0.9" two_moved.nodes ≡ none
unfolding find_by_unseal_ip
found_nowhere = refl

lookup_by_ip_ambiguous_example :
    lookup_by_ip as_stored (first_visits "n2") "10.0.0.9" two_moved
    ≡ some ("n2", record moved { hostname = "second" })
lookup_by_ip_ambiguous_example =
    lookup_by_ip_ambiguous as_stored two_moved "n2" (record moved { hostname = "second" })
      found_nowhere lookup-two_moved

-- The other order of the loop gives the other node.
lookup_by_ip_test : lookup_by_ip as_stored as_stored "10.0.0.9" two_moved ≡ some ("n1", moved)
unfolding lookup_by_ip find_by_unseal_ip find_by_node_ip
lookup_by_ip_test = refl

gauges-apply_example :
    (apply (context_at 1200) (sweeps (seconds 120)) (one_node alive) ≡ one_node alive)
    ⊎ (gauges (apply (context_at 1200) (sweeps (seconds 120)) (one_node alive))
        ≡ counted_at
            (at_second 1200)
            (apply (context_at 1200) (sweeps (seconds 120)) (one_node alive)))
gauges-apply_example = gauges-apply (context_at 1200) (one_node alive) (sweeps (seconds 120)) refl

-- The store of a path without a file.
abbrev new_store : LeaseStore
new_store = store_of []

new_store-IsValid : IsValid new_store
new_store-IsValid = record {
  distinct = tt;
  unique_ips = λ j k e named. absurd (named (rw lookup_nil refl));
  coherent = λ k r h. absurd (ground (arith, lookup_nil {V = LeaseRecord} k));
}

run-Restarts_example :
    (before after : List (Context × Op)) × (some_calls ≡ before ++ after)
    × Restarts good_io
        (at_second 1300)
        "leases.json"
        none
        (run new_store some_calls).disk
        (run new_store before).nodes
run-Restarts_example =
    run-Restarts new_store some_calls good_io (at_second 1300) "leases.json" none
      (differs "10.0.0.1" "" refl, (tt, (tt, (tt, tt)))) new_store-IsValid (inl (inl refl, refl))
      (differs "leases.json" "" refl) refl

abbrev life : Life
life = record { io = good_io; now = at_second 1000; metrics = none; calls = some_calls }

live_on-IsValid_example :
    (s : LeaseStore) × (live_on "leases.json" life (life ∷ []) empty_disk ≡ some s) × IsValid s
live_on-IsValid_example =
    live_on-IsValid "leases.json" (differs "leases.json" "" refl) life (life ∷ []) empty_disk
      (refl, (differs "10.0.0.1" "" refl, (tt, (tt, (tt, tt)))))
      ((refl, (differs "10.0.0.1" "" refl, (tt, (tt, (tt, tt))))), tt)
      (no_file-IsSound empty_disk refl)

view-run_example :
    view (run (one_node alive) some_calls).nodes ≡ spec_run (view (one_node alive).nodes) some_calls
view-run_example =
    view-run (one_node alive) some_calls valid (differs "10.0.0.1" "" refl, (tt, (tt, (tt, tt))))

-- The same calls, with another order of the loops and a disk that fails.
abbrev elsewhere : ℕ → Context
elsewhere n = record (context_at n) {
  range = first_visits "n2";
  io = record good_io { can_write = false };
}

abbrev same_calls : List (Context × Op)
same_calls =
    (elsewhere 1010, heartbeats_by_ip "10.0.0.1")
    ∷ (elsewhere 1020, bootstraps "n2" "10.0.0.1")
    ∷ (elsewhere 1200, sweeps (seconds 120))
    ∷ (elsewhere 1210, heartbeats_by_uuid "n1" "10.0.0.9" "host")
    ∷ []

view-run_alike_example :
    view (run (one_node alive) some_calls).nodes ≡ view (run (one_node alive) same_calls).nodes
view-run_alike_example =
    view-run_alike (one_node alive) (one_node alive) some_calls same_calls valid valid
      (differs "10.0.0.1" "" refl, (tt, (tt, (tt, tt))))
      (refl, refl, refl, (refl, refl, refl, (refl, refl, refl, (refl, refl, refl, tt)))) refl

validate_ended_example :
    ((validate good_io "n1"
        (at_second 1310)
        (run (one_node alive) (check_and_end "n1" (context_at 1100) (context_at 1300)))).2
      ≡ some lease_expired)
    ⊎ ((fault : Fault) × ((validate good_io "n1"
            (at_second 1310)
            (run (one_node alive) (check_and_end "n1" (context_at 1100) (context_at 1300)))).2
          ≡ some (file_error fault)))
unfolding is_expired is_zero after
validate_ended_example =
    validate_ended "n1" (context_at 1100) (context_at 1300) (one_node alive) alive valid good_io
      (at_second 1310) (lookup-one_node alive) refl refl
