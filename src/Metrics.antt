-- ===== src/Metrics.antt =====
-- The Prometheus metrics of pkg/server/metrics.go, as far as the program writes them: the gauges'
-- values, and for each counter and for the histogram of durations the labels of its entries, newest
-- first. A method on a nil `*Metrics` does nothing: `none`.
use kms_client.Prelude.{ℕ, ◌+◌, String, List, [], ◌∷◌, Option, none, some}
use kms_client.Clock.{Duration}

pub record Metrics : Type 0 where
  pub unseal_requests : List (String × String)
  pub heartbeat_requests : List (String × String)
  -- The method and the time of each request.
  pub request_durations : List (String × Duration)
  pub active_leases : ℕ
  pub expired_leases : ℕ
  pub lease_store_errors : List String
  pub heartbeat_timeouts : ℕ

-- NewMetrics
abbrev pub new_metrics : Metrics
new_metrics = record {
  unseal_requests = [];
  heartbeat_requests = [];
  request_durations = [];
  active_leases = 0;
  expired_leases = 0;
  lease_store_errors = [];
  heartbeat_timeouts = 0;
}

unfoldable pub set_lease_counts : ℕ → ℕ → Option Metrics → Option Metrics
set_lease_counts active expired none = none
set_lease_counts active expired (some m) =
    some (record m { active_leases = active; expired_leases = expired })

unfoldable pub inc_heartbeat_timeouts : ℕ → Option Metrics → Option Metrics
inc_heartbeat_timeouts count none = none
inc_heartbeat_timeouts count (some m) =
    some (record m { heartbeat_timeouts = m.heartbeat_timeouts + count })

unfoldable pub inc_lease_store_error : String → Option Metrics → Option Metrics
inc_lease_store_error operation none = none
inc_lease_store_error operation (some m) =
    some (record m { lease_store_errors = operation ∷ m.lease_store_errors })
