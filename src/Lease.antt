-- ===== src/Lease.antt =====
-- The record of one node: LeaseStatus, LeaseRecord, isExpired and activeLease of
-- pkg/server/lease_store.go.
use kms_client.Prelude.{String, ◌≡◌, refl, Bool, true, false, not, ◌&&◌, ◌==◌, if◌then◌else◌}
use kms_client.Clock.{Time, Duration, zero_time, is_zero, after, add}

-- The source's type is a string: a loaded file may hold any other text, and `LeaseRecord{}` holds "".
pub data LeaseStatus : Type 0 where
  active expired blocked : LeaseStatus
  other : String → LeaseStatus

pub record LeaseRecord : Type 0 where
  pub last_heartbeat_at : Time
  pub lease_until : Time
  pub last_unseal_at : Time
  pub first_seen : Time
  pub blocked_at : Time
  pub maintenance_at : Time
  pub last_unseal_ip : String
  pub status : LeaseStatus
  pub node_ip : String
  pub hostname : String
  pub block_reason : String
  pub maintenance : Bool

-- string(status)
abbrev pub status_text : LeaseStatus → String
status_text active = "active"
status_text expired = "expired"
status_text blocked = "blocked"
status_text (other s) = s

-- LeaseStatus(s); `other` stands for the texts that are none of the three.
unfoldable pub parse_status : String → LeaseStatus
parse_status s =
    if s == "active"
    then active
    else if s == "expired"
    then expired
    else if s == "blocked"
    then blocked
    else other s

-- record.Status == LeaseStatusActive, and likewise below
abbrev pub is_active : LeaseStatus → Bool
is_active active = true
is_active _ = false

abbrev pub is_marked_expired : LeaseStatus → Bool
is_marked_expired expired = true
is_marked_expired _ = false

abbrev pub is_blocked : LeaseStatus → Bool
is_blocked blocked = true
is_blocked _ = false

-- record.isExpired(now)
unfoldable pub is_expired : LeaseRecord → Time → Bool
is_expired r now = not (is_zero r.lease_until) && after now r.lease_until

-- LeaseRecord{}
abbrev pub empty_record : LeaseRecord
empty_record = record {
  last_heartbeat_at = zero_time;
  lease_until = zero_time;
  last_unseal_at = zero_time;
  first_seen = zero_time;
  blocked_at = zero_time;
  maintenance_at = zero_time;
  last_unseal_ip = "";
  status = other "";
  node_ip = "";
  hostname = "";
  block_reason = "";
  maintenance = false;
}

-- activeLease(now, leaseDuration)
unfoldable pub active_lease : Time → Duration → LeaseRecord
active_lease now lease_duration = record empty_record {
  last_heartbeat_at = now;
  lease_until = add now lease_duration;
  status = active;
}

pub parse_status_active : parse_status "active" ≡ active
unfolding parse_status
parse_status_active = refl

pub parse_status_expired : parse_status "expired" ≡ expired
unfolding parse_status
parse_status_expired = refl

pub parse_status_blocked : parse_status "blocked" ≡ blocked
unfolding parse_status
parse_status_blocked = refl
