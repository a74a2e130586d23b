-- ===== src/Tests/Programs.antt =====
-- The theorems on cmd/kms-agent/main.go, cmd/kms-client/main.go and cmd/kms-server/main.go at concrete
-- configurations.
use kms_client.Prelude.{
  ◌-◌, ◌*◌, String, ◌≡◌, refl, ◌≢◌, ◌↔◌, Bool, true, false, List, [], ◌∷◌, Option, none, some,
  arith, ◌==◌, if◌then◌else◌, All,
}
use kms_client.Prelude.Int.{ℤ, pos, negsuc, ◌<ℤ◌, two_63}
use kms_client.Clock.{Duration, second}
use kms_client.Metrics.{new_metrics}
use kms_client.Store.State.{
  lease_blocked, lease_expired, node_ip_not_found, new_file_lease_store, load,
}
use kms_client.Server.Peer.{peer_ip_from_context}
use kms_client.Server.Config.{lease_enabled}
use kms_client.Server.Heartbeat.{heartbeat}
use kms_client.Agent.{
  Environment, AgentConfig, loaded, load_config, Round, ticked, identify_loop, heartbeat_rounds,
  heartbeat_loop,
}
use kms_client.Agent.Backoff.{IsBounded, heartbeat_rounds-IsBounded, identify_loop_busy}
use kms_client.Agent.Start.{load_config_panics}
use kms_client.Client.Denied.{IsKept, store_error, heartbeat-IsKept_iff}
use kms_client.Options.{default_flags, Flags, Options, configured, server_options}
use kms_client.Tests.{
  differs, at_second, seconds, alive, one_node, good_io, empty_disk, net, server, call_at,
}

-- The conversion of arm64, and that of amd64.
abbrev saturating : ℤ → Duration
saturating z = pos (two_63 - 1)

abbrev wrapping : ℤ → Duration
wrapping z = negsuc (two_63 - 1)

abbrev rounds : List Round
rounds = ticked false false ∷ ticked false false ∷ ticked true false ∷ ticked false true ∷ []

heartbeat_rounds-IsBounded_example :
    All (IsBounded (30 * second)) (heartbeat_rounds saturating (seconds 30) 0 rounds)
heartbeat_rounds-IsBounded_example =
    heartbeat_rounds-IsBounded saturating (30 * second) 0 rounds (λ n h. refl) (ground arith)

abbrev attempts : List (Option String × Bool)
attempts = (none, false) ∷ (none, false) ∷ (some "n1", false) ∷ []

-- After 29 failures of an agent with the default interval.
identify_loop_busy_example :
    All (λ w. w <ℤ pos 0) (identify_loop wrapping (seconds 30) 29 attempts).1
identify_loop_busy_example =
    identify_loop_busy wrapping (30 * second) 29 attempts (λ n h. refl) (ground arith)
      (ground arith)

abbrev variable : String → String
variable name =
    if name == "NODE_IP"
    then "10.0.0.1"
    else if name == "KMS_SERVER_URL"
    then "http://kms"
    else if name == "HEARTBEAT_HMAC_KEY"
    then "secret"
    else if name == "HEARTBEAT_INTERVAL"
    then "0s"
    else ""

abbrev environment : Environment
environment = record {
  getenv = variable;
  os_hostname = some "first";
  parse_duration = λ text. some (pos 0);
}

abbrev never : AgentConfig
never = record {
  node_uuid = "";
  node_ip = "10.0.0.1";
  hostname = "first";
  kms_server_url = "http://kms";
  hmac_key = "secret";
  heartbeat_interval = pos 0;
  heartbeat_timeout = seconds 5;
}

loads : load_config environment ≡ loaded never
unfolding load_config
loads = refl

load_config_panics_example : heartbeat_loop wrapping (pos 0) true rounds ≡ none
load_config_panics_example =
    load_config_panics environment never (pos 0) wrapping true rounds loads (differs "0s" "" refl)
      refl (ground arith)

known : peer_ip_from_context net (call_at 1010).peer ≡ some "10.0.0.1"
unfolding peer_ip_from_context
known = refl

enabled : lease_enabled server ≡ true
unfolding lease_enabled
enabled = refl

heartbeat-IsKept_iff_example : IsKept (heartbeat server (call_at 1010) (one_node alive)).1 ↔ (
    (store_error server (call_at 1010) (one_node alive) "10.0.0.1" enabled known
      ≢ some lease_blocked)
    × (store_error server (call_at 1010) (one_node alive) "10.0.0.1" enabled known
        ≢ some lease_expired)
    × (store_error server (call_at 1010) (one_node alive) "10.0.0.1" enabled known
        ≢ some node_ip_not_found))
heartbeat-IsKept_iff_example =
    heartbeat-IsKept_iff server (call_at 1010) (one_node alive) "10.0.0.1" enabled known

abbrev pub flags : Flags
flags = record default_flags {
  key_path = "master.key";
  lease_store_path = "leases.json";
  heartbeat_hmac_key = "secret";
  admin_token = "token";
  lease_duration = seconds 60;
  heartbeat_enable = true;
}

abbrev options : Options
options = record {
  lease_store =
      some (record {
        nodes = [];
        metrics = some new_metrics;
        path = "leases.json";
        disk = empty_disk;
      });
  lease_duration = seconds 60;
}

starts :
    server_options good_io (at_second 1000) empty_disk (some new_metrics) flags ≡ configured options
unfolding server_options new_file_lease_store load
starts = refl
