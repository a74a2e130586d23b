-- ===== src/Store/Calls.antt =====
-- The calls that change a lease store, as data, and runs of them. Every method holds the store's
-- mutex from its first line to its last, so what several callers do is one sequence of calls.
use kms_client.Prelude.{String, Bool, List, [], ◌∷◌}
use kms_client.Clock.{Time, Duration}
use kms_client.Lease.{LeaseRecord}
use kms_client.Nodes.{Range}
use kms_client.Store.State.{Io, LeaseStore}
use kms_client.Store.Leases.{
  bootstrap, heartbeat_by_ip, validate, heartbeat_by_uuid, unblock, set_maintenance,
}
use kms_client.Store.Sweep.{block_expired_nodes}

pub data Op : Type 0 where
  bootstraps : String → String → Op
  heartbeats_by_ip : String → Op
  validates : String → Op
  heartbeats_by_uuid : String → String → String → Op
  unblocks : String → Op
  maintains : String → Bool → Op
  sweeps : Duration → Op

-- The surroundings of a call: the order of a loop, the file system's answers, the clock, and the
-- configured duration of a lease.
pub record Context : Type 0 where
  pub range : Range LeaseRecord
  pub io : Io
  pub now : Time
  pub lease_duration : Duration

-- A context with the configured duration of a lease.
abbrev pub with_duration : Duration → Context → Context
with_duration d c = record c { lease_duration = d }

unfoldable pub apply : Context → Op → LeaseStore → LeaseStore
apply c (bootstraps node_uuid peer_ip) s =
    (bootstrap c.range c.io node_uuid peer_ip c.now c.lease_duration s).0
apply c (heartbeats_by_ip peer_ip) s =
    (heartbeat_by_ip c.range c.io peer_ip c.now c.lease_duration s).0
apply c (validates node_uuid) s = (validate c.io node_uuid c.now s).0
apply c (heartbeats_by_uuid node_uuid node_ip hostname) s =
    (heartbeat_by_uuid c.io node_uuid node_ip hostname c.now c.lease_duration s).0
apply c (unblocks node_uuid) s = (unblock c.io node_uuid c.now c.lease_duration s).0
apply c (maintains node_uuid enabled) s =
    (set_maintenance c.io node_uuid enabled c.now c.lease_duration s).0
apply c (sweeps heartbeat_timeout) s =
    (block_expired_nodes c.range c.io c.now heartbeat_timeout s).0

unfoldable pub run : LeaseStore → List (Context × Op) → LeaseStore
run s [] = s
run s ((c, op) ∷ rest) = run (apply c op s) rest
