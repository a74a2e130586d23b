-- ===== src/Options/Boot/Sound.antt =====
-- The server from the start by run of cmd/kms-server/main.go on: its store is valid.
use kms_client.Prelude.{sym, ◌≡◌, ◌≢◌, true, List, [], Option, some, arith, eq_iff, All, ◌∙◌, ap}
use kms_client.Clock.{Time}
use kms_client.Metrics.{Metrics, new_metrics}
use kms_client.Store.State.{LeaseStore, Io, Disk, new_file_lease_store}
use kms_client.Store.Invariant.{IsValid}
use kms_client.Store.Crash.{IsValid-nodes}
use kms_client.Store.Durable.{Restarts}
use kms_client.Store.Recovery.{Finds-Restarts}
use kms_client.Store.Lives.{IsSound}
use kms_client.Options.{Flags, Options, configured, server_options}
use kms_client.Options.Boot.{Machine, Libraries, up, Running, boot}
use kms_client.Options.Boot.Parts.{boot-IsConsistent}
use kms_client.System.{Process}
use kms_client.System.Concurrent.{World, Act, Moves}
use kms_client.System.Concurrent.Writes.{HasPeerAct, Moves-IsValid}

some_injective {ℓ} : {A : Type ℓ} {a b : A} → some a ≡ some b → a ≡ b
some_injective e = ground arith

opened_store :
    (io : Io) (now : Time) (disk : Disk) (metrics : Option Metrics) (f : Flags) (o : Options)
    → server_options io now disk metrics f ≡ configured o
    → f.heartbeat_enable ≡ true
    → (f.lease_store_path ≢ "")
      × (o.lease_store ≡ some (new_file_lease_store io now f.lease_store_path metrics disk).0)
unfolding server_options
opened_store io now disk metrics f o e on =
    (ground (arith, eq_iff f.lease_store_path ""), ground arith)

-- A server that starts with leases on, from a file that holds the nodes of a valid store (no file
-- holds none) and can be read, keeps a valid store through any interleaving of requests and ticks,
-- with clients whose address is not empty.
pub boot-IsValid :
    (machine : Machine) (libraries : Libraries) (f : Flags) (r : Running) (s : LeaseStore)
    (p : Process) (u : World) (acts : List Act)
    → boot machine libraries f ≡ up r
    → f.heartbeat_enable ≡ true
    → machine.io.can_read ≡ true
    → IsSound machine.disk
    → r.store ≡ some s
    → Moves p (record { store = s; pending = [] }) acts u
    → All (HasPeerAct p) acts
    → IsValid u.store
boot-IsValid machine libraries f r s p u acts booted on readable sound stored moves peers =
    let (o, parts) = boot-IsConsistent machine libraries f r booted in
    let (at_path, opened) =
      opened_store machine.io machine.now machine.disk (some new_metrics) f o parts.options on in
    let back : Restarts machine.io machine.now f.lease_store_path (some new_metrics) machine.disk
        sound.stored.nodes =
      Finds-Restarts machine.io machine.now f.lease_store_path (some new_metrics) machine.disk
        sound.stored.nodes at_path readable sound.found in
    let t =
      (new_file_lease_store machine.io machine.now f.lease_store_path (some new_metrics)
        machine.disk).0 in
    let same : s ≡ t = some_injective (sym stored ∙ parts.store ∙ opened) in
    Moves-IsValid p (record { store = s; pending = [] }) u acts moves peers
      (IsValid-nodes (ap (λ x. x.nodes) same ∙ back.1) sound.valid)
