-- ===== src/Tests/Races.antt =====
-- The theorem on an Unseal of pkg/server/server.go that the dead-man's switch interrupts, on one run.
use kms_client.Prelude.{◌≡◌, refl, true, List, [], ◌∷◌, some}
use kms_client.Clock.{after, is_zero, sub}
use kms_client.Lease.{LeaseRecord, is_active, is_expired}
use kms_client.Nodes.{lookup, insert, Distinct}
use kms_client.Store.State.{LeaseStore, persist_locked, update_lease_metrics_locked}
use kms_client.Store.Leases.{validate, validate_found, bootstrap, persist_and_return, put_record}
use kms_client.Store.Calls.{Op, Context, run, sweeps, apply}
use kms_client.Server.Rpc.{success}
use kms_client.Server.Peer.{peer_ip_from_context}
use kms_client.Server.Config.{lease_enabled}
use kms_client.Server.Seal.{key_of, check_key}
use kms_client.Server.Unseal.{admit, register, bootstrap_as, open_and_deliver, deliver}
use kms_client.Server.Race.{interrupted_unseal, interrupted_unseal_unblocks}
use kms_client.Tests.{
  seconds, alive, one_node, context_at, key, passphrase, server, call_at, request,
}
use kms_client.Prelude.Int.{◌-ℤ◌}
use kms_client.Store.Sweep.{block_expired_nodes, block_loop, is_spared, save_blocked}

-- The switch blocks the node between the two halves of its Unseal.
abbrev meanwhile : List (Context × Op)
meanwhile = (context_at 1050, sweeps (seconds 20)) ∷ []

abbrev running : LeaseStore
running = record (one_node alive) { path = "" }

interrupted :
    (interrupted_unseal server (call_at 1050) request meanwhile running).1 ≡ success passphrase
unfolding interrupted_unseal open_and_deliver deliver key_of check_key admit validate lookup
    register peer_ip_from_context lease_enabled bootstrap_as bootstrap persist_and_return
    persist_locked put_record update_lease_metrics_locked run apply block_expired_nodes block_loop
    is_spared save_blocked insert is_expired is_zero after sub ◌-ℤ◌ validate_found
interrupted = refl

meanwhile-Distinct : Distinct (run (admit server (call_at 1050) request running).0 meanwhile).nodes
unfolding admit validate lookup run apply block_expired_nodes block_loop is_spared save_blocked
    insert is_expired is_zero after sub ◌-ℤ◌ validate_found persist_locked
    update_lease_metrics_locked
meanwhile-Distinct = (refl, tt)

interrupted_unseal_unblocks_example :
    (passphrase ≡ passphrase)
    × (r : LeaseRecord) × (lookup "n1"
          (interrupted_unseal server (call_at 1050) request meanwhile running).0.nodes
        ≡ some r)
    × (is_active r.status ≡ true)
unfolding lease_enabled
interrupted_unseal_unblocks_example =
    interrupted_unseal_unblocks server (call_at 1050) request running meanwhile key passphrase
      passphrase refl meanwhile-Distinct refl refl interrupted
