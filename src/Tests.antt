-- ===== src/Tests.antt =====
-- Concrete stores, servers and requests for the tests, which run the theorems on them.
pub mod Stores
pub mod Sweeps
pub mod Servers
pub mod Races
pub mod Concurrency
pub mod Endpoints
pub mod Signatures
pub mod Programs
pub mod Starts
pub mod Alive
use kms_client.Prelude.{
  ℕ, ◌+◌, ◌*◌, String, ◌≡◌, refl, ◌≢◌, Bool, true, false, List, [], ◌∷◌, Option, none, some, arith,
  ◌==◌, eq_iff, if◌then◌else◌, Option-cases, inl, inr, ◌++◌, nat_eq,
}
use kms_client.Prelude.Int.{ℤ, pos, ◌-ℤ◌}
use kms_client.Clock.{Time, Duration, zero_time, second, unix_epoch, unix}
use kms_client.Lease.{
  LeaseRecord, active, blocked, is_blocked, empty_record, parse_status_active, parse_status_blocked,
}
use kms_client.Nodes.{Nodes, Range, Distinct, lookup, lookup_nil, lookup_cons}
use kms_client.Nodes.Orders.{as_stored}
use kms_client.Metrics.{new_metrics}
use kms_client.Store.State.{LeaseStore, Io, Disk}
use kms_client.Store.Sweep.{timed_out}
use kms_client.Store.Calls.{Context}
use kms_client.Store.Spec.{HasUniqueIps}
use kms_client.Store.Invariant.{IsValid, IsCoherent}
use kms_client.Store.Blocked.{Holds, SameBlock}
use kms_client.Server.Peer.{Net, PeerContext, peer_ip_from_context}
use kms_client.Server.Config.{Bytes, Gcm, Server, Call, Request, lease_enabled}
use kms_client.Server.Deny.{IsChecked}
use kms_client.Http.Defs.{HttpHandler}
use kms_client.Agent.{AgentConfig}
use kms_client.Agent.Honest.{IsMac, AreNear}

-- Seconds after the Unix epoch.
abbrev pub at_second : ℕ → Time
at_second n = pos ((unix_epoch + n) * second)

abbrev pub seconds : ℕ → Duration
seconds n = pos (n * second)

-- A node that was unsealed at second 1000.
abbrev pub alive : LeaseRecord
alive = record empty_record {
  last_heartbeat_at = at_second 1000;
  lease_until = at_second 1060;
  last_unseal_at = at_second 1000;
  first_seen = at_second 1000;
  last_unseal_ip = "10.0.0.1";
  status = active;
  node_ip = "10.0.0.1";
}

-- The same node, blocked at second 1200.
abbrev pub halted : LeaseRecord
halted = timed_out (at_second 1200) alive

abbrev pub empty_disk : Disk
empty_disk = record { main = none; temporary = none }

abbrev pub store_of : Nodes LeaseRecord → LeaseStore
store_of nodes = record {
  nodes = nodes;
  metrics = some new_metrics;
  path = "leases.json";
  disk = empty_disk;
}

abbrev pub one_node : LeaseRecord → LeaseStore
one_node r = store_of (("n1", r) ∷ [])

abbrev pub good_io : Io
good_io = record {
  can_read = true;
  can_mkdir = true;
  can_write = true;
  can_rename = true;
  left_behind = none;
}

abbrev pub context_at : ℕ → Context
context_at n = record {
  range = as_stored;
  io = good_io;
  now = at_second n;
  lease_duration = seconds 60;
}

pub lookup-one_node : (r : LeaseRecord) → lookup "n1" (one_node r).nodes ≡ some r
lookup-one_node r = ground (arith, lookup_cons "n1" "n1" r [])

pub one_node-Distinct : (r : LeaseRecord) → Distinct (one_node r).nodes
one_node-Distinct r = (lookup_nil "n1", tt)

one_node-eq :
    (r q : LeaseRecord) (k : String) → lookup k (one_node r).nodes ≡ some q → (k ≡ "n1") × (q ≡ r)
one_node-eq r q k h =
    ground (arith, lookup_cons k "n1" r [], lookup_nil {V = LeaseRecord} k, eq_iff "n1" k)

one_node-HasUniqueIps : (r : LeaseRecord) → HasUniqueIps (one_node r).nodes
one_node-HasUniqueIps r j k e named = ground (
  arith,
  lookup_cons j "n1" r [],
  lookup_cons k "n1" r [],
  lookup_nil {V = LeaseRecord} j,
  lookup_nil {V = LeaseRecord} k,
  eq_iff "n1" j,
  eq_iff "n1" k,
)

pub one_node-IsValid : (r : LeaseRecord) → IsCoherent r → IsValid (one_node r)
one_node-IsValid r c = record {
  distinct = one_node-Distinct r;
  unique_ips = one_node-HasUniqueIps r;
  coherent = λ k q h. rw (one_node-eq r q k h).1 c;
}

pub alive-IsCoherent : IsCoherent alive
alive-IsCoherent = record {
  reason = refl;
  canonical = parse_status_active;
  blocked_at = λ h. refl;
  maintenance_at = λ h. refl;
}

pub halted-IsCoherent : IsCoherent halted
halted-IsCoherent = record {
  reason = refl;
  canonical = parse_status_blocked;
  blocked_at = λ h. absurd (ground arith);
  maintenance_at = λ h. refl;
}

pub halted-Holds : Holds halted (lookup "n1" (one_node halted).nodes)
halted-Holds =
    rw (lookup-one_node halted) (record { status = refl; blocked_at = refl; reason = refl })

pub differs : (a b : String) → (a == b) ≡ false → a ≢ b
differs a b h e = absurd (ground (arith, eq_iff a b))

abbrev pub repeated : ℕ → ℕ → List ℕ
repeated ℕ.zero b = []
repeated (ℕ.suc n) b = b ∷ repeated n b

abbrev pub key : Bytes
key = repeated 32 7

abbrev pub passphrase : Bytes
passphrase = repeated 32 9

abbrev drop_tag : ℕ → Bytes → Bytes
drop_tag ℕ.zero bs = bs
drop_tag (ℕ.suc n) [] = []
drop_tag (ℕ.suc n) (b ∷ bs) = drop_tag n bs

abbrev without_tag : Bytes → Option Bytes
without_tag [] = none
without_tag (b ∷ bs) = if nat_eq b 0 then some (drop_tag 15 bs) else none

-- A box that puts a tag of 16 zeros before the data.
abbrev pub gcm : Gcm
gcm = record {
  seal_box = λ k nonce data'. repeated 16 0 ++ data';
  open_box = λ k nonce box. without_tag box;
}

abbrev pub net : Net
net = record { parse_ip = λ text. some text; split_host = λ text. some "10.0.0.1" }

abbrev pub server : Server
server = record {
  get_key = λ node_uuid. some key;
  has_lease_store = true;
  lease_window = seconds 60;
  gcm = gcm;
  net = net;
}

abbrev pub call_at : ℕ → Call
call_at n = record {
  peer = record { metadata = none; peer_address = some "10.0.0.1:4050" };
  is_canceled = false;
  random_key = some key;
  random_nonce = some (repeated 12 3);
  random_passphrase = some (repeated 32 4);
  at_validate = context_at n;
  at_update = context_at n;
  elapsed = seconds 1;
}

-- The passphrase, sealed.
abbrev pub request : Request
request = record { node_uuid = "n1"; content = repeated 12 3 ++ (repeated 16 0 ++ passphrase) }

pub request-IsChecked : (n : ℕ) → IsChecked server (call_at n) request
unfolding lease_enabled
request-IsChecked n = record { waited = refl; named = differs "n1" "" refl; enabled = refl }

pub peer_not_empty : (n : ℕ) → peer_ip_from_context net (call_at n).peer ≢ some ""
unfolding peer_ip_from_context
peer_not_empty n e = absurd (ground (arith, eq_iff "10.0.0.1" ""))

-- 32 bytes, as a MAC.
abbrev pub mac : List ℕ → List ℕ → List ℕ
mac k text = repeated 32 5

abbrev pub handler : HttpHandler
handler = record {
  mac = mac;
  key = key;
  admin_token = "secret";
  lease_duration = seconds 60;
  heartbeat_interval = seconds 30;
}

pub mac-IsMac : IsMac mac
mac-IsMac k text = (ground arith, refl)

abbrev pub config : AgentConfig
config = record {
  node_uuid = "n1";
  node_ip = "10.0.0.1";
  hostname = "first";
  kms_server_url = "http://kms";
  hmac_key = "secret";
  heartbeat_interval = seconds 30;
  heartbeat_timeout = seconds 5;
}

pub clocks : AreNear (at_second 1050) (at_second 1080)
unfolding unix ◌-ℤ◌
clocks = record {
  sent_seconds = 1050;
  checked_seconds = 1080;
  sent_unix = refl;
  checked_unix = refl;
  not_zero = ground arith;
  sent_bound = ground arith;
  checked_bound = ground arith;
  late = ground arith;
  early = ground arith;
}
