-- ===== src/Options/Enabled.antt =====
-- Which flags cmd/kms-server/main.go starts with, and what they enable.
use kms_client.Prelude.{◌≡◌, ◌≢◌, ◌⊎◌, true, false, Option, none, some, arith, eq_iff}
use kms_client.Prelude.Int.{pos, ◌<ℤ◌}
use kms_client.Clock.{Time}
use kms_client.Metrics.{Metrics}
use kms_client.Store.State.{LeaseStore, Io, Disk, new_file_lease_store, persist_locked}
use kms_client.Store.Invariant.{IsValid}
use kms_client.Store.Durable.{persist_locked-Restarts, Restarts}
use kms_client.Server.Peer.{Net}
use kms_client.Server.Config.{Bytes, Gcm, lease_enabled}
use kms_client.Options.{Flags, Options, configured, server_options, new_server}

module _ (io : Io) (now : Time) (disk : Disk) (metrics : Option Metrics) (f : Flags) where
  -- A server that starts enforces leases exactly if --heartbeat-enable is set, and then a lease
  -- outlasts the interval of the heartbeats, which is positive.
  pub lease_enabled-server_options :
      (o : Options) (key : Bytes) (gcm : Gcm) (net : Net)
      → server_options io now disk metrics f ≡ configured o
      → (lease_enabled (new_server key gcm net o) ≡ f.heartbeat_enable)
        × ((f.heartbeat_enable ≡ false)
            ⊎ ((pos 0 <ℤ f.heartbeat_interval) × (f.heartbeat_interval <ℤ o.lease_duration)))
  unfolding server_options new_server lease_enabled
  lease_enabled-server_options o key gcm net e = ground arith

-- The flags ask for leases, with durations that fit.
pub record AsksForLeases (f : Flags) : Type 0 where
  pub enabled : f.heartbeat_enable ≡ true
  pub stored : f.lease_store_path ≢ ""
  pub interval : pos 0 <ℤ f.heartbeat_interval
  pub lasts : f.heartbeat_interval <ℤ f.lease_duration

pub opens_store :
    (io : Io) (now : Time) (disk : Disk) (metrics : Option Metrics) (f : Flags)
    → AsksForLeases f
    → (new_file_lease_store io now f.lease_store_path metrics disk).1 ≡ none
    → server_options io now disk metrics f
      ≡ configured (record {
        lease_store = some (new_file_lease_store io now f.lease_store_path metrics disk).0;
        lease_duration = f.lease_duration;
      })
unfolding server_options
opens_store io now disk metrics f asks good =
    ground
      (arith, eq_iff f.lease_store_path "", asks.enabled, asks.stored, asks.interval, asks.lasts)

-- A server whose flags ask for leases with durations that fit starts on the file of a valid store
-- that was saved without an error, if the file can be read, and serves the same nodes.
pub server_options-Restarts :
    (io io' : Io) (now : Time) (metrics : Option Metrics) (f : Flags) (s : LeaseStore)
    → IsValid s
    → s.path ≡ f.lease_store_path
    → AsksForLeases f
    → io'.can_read ≡ true
    → (persist_locked io s).1 ≡ none
    → (t : LeaseStore) × (server_options io' now (persist_locked io s).0.disk metrics f
        ≡ configured (record { lease_store = some t; lease_duration = f.lease_duration }))
      × (t.nodes ≡ s.nodes)
server_options-Restarts io io' now metrics f s v same asks readable saved =
    let disk = (persist_locked io s).0.disk in
    let back : Restarts io' now f.lease_store_path metrics disk s.nodes =
      rw (← same)
        (persist_locked-Restarts io io' now metrics s v (rw same asks.stored) readable saved) in
    (
      (new_file_lease_store io' now f.lease_store_path metrics disk).0,
      opens_store io' now disk metrics f asks back.0,
      back.1,
    )
