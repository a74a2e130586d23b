-- ===== src/DeadMan.antt =====
-- The dead-man's switch of pkg/server/deadman.go: Check with its warnings, and the loop of Run.
pub mod Silence
pub mod Escape
pub mod Warned
use kms_client.Prelude.{ℕ, String, List, [], ◌∷◌, length, Option, none, some, if◌then◌else◌}
use kms_client.Prelude.Int.{pos, leb_ℤ}
use kms_client.Clock.{Time, Duration, sub}
use kms_client.Lease.{LeaseRecord, empty_record}
use kms_client.Nodes.{Nodes, lookup}
use kms_client.Metrics.{inc_heartbeat_timeouts}
use kms_client.Store.State.{LeaseStore}
use kms_client.Store.Sweep.{block_expired_nodes, list_all}
use kms_client.Store.Calls.{Context}

-- `if len(blocked) == 0 { return }`
unfoldable pub count_blocked : ℕ → LeaseStore → LeaseStore
count_blocked ℕ.zero s = s
count_blocked n s = record s { metrics = inc_heartbeat_timeouts n s.metrics }

unfoldable pub check : Duration → Context → LeaseStore → LeaseStore
unfolding count_blocked
check heartbeat_timeout c s =
    let (s', blocked) = block_expired_nodes c.range c.io c.now heartbeat_timeout s in
    count_blocked (length blocked) s'

-- A warning of Check: a node that it blocked.
pub record Warning : Type 0 where
  pub node_uuid : String
  pub node_ip : String
  pub silence : Duration

-- `nodes[nodeUUID]`; a missing key gives the empty record.
abbrev pub record_at : String → Nodes LeaseRecord → LeaseRecord
record_at node_uuid nodes = elim (lookup node_uuid nodes) [ none ↦ empty_record | some r ↦ r ]

-- The clock is read again for each warning.
unfoldable pub warn : (String → Time) → Nodes LeaseRecord → List String → List Warning
warn clock nodes [] = []
warn clock nodes (node_uuid ∷ blocked) =
    let r = record_at node_uuid nodes in
    record {
      node_uuid = node_uuid;
      node_ip = r.node_ip;
      silence = sub (clock node_uuid) r.last_heartbeat_at;
    }
    ∷ warn clock nodes blocked

-- The warnings of a check, where no other call comes between BlockExpiredNodes and ListAll.
unfoldable pub check_warnings : Duration → (String → Time) → Context → LeaseStore → List Warning
unfolding warn
check_warnings heartbeat_timeout clock c s =
    let (s', blocked) = block_expired_nodes c.range c.io c.now heartbeat_timeout s in
    warn clock (list_all s') blocked

-- What the `select` of Run receives: a tick, or the end of the context.
pub data Signal : Type 0 where
  tick : Context → Signal
  done : Signal

unfoldable pub run : Duration → List Signal → LeaseStore → LeaseStore
run heartbeat_timeout [] s = s
run heartbeat_timeout (done ∷ signals) s = s
run heartbeat_timeout (tick c ∷ signals) s =
    run heartbeat_timeout signals (check heartbeat_timeout c s)

-- Run from its start: `none` is the panic of time.NewTicker, which wants a positive interval.
unfoldable pub start : Duration → Duration → List Signal → LeaseStore → Option LeaseStore
unfolding run
start check_interval heartbeat_timeout signals s =
    if leb_ℤ check_interval (pos 0) then none else some (run heartbeat_timeout signals s)
