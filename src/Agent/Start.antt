-- ===== src/Agent/Start.antt =====
-- Which environments loadConfig of cmd/kms-agent/main.go accepts.
use kms_client.Prelude.{◌*◌, ◌≡◌, ◌≢◌, ◌⊎◌, Bool, List, none, some, arith, eq_iff}
use kms_client.Prelude.Int.{ℤ, pos, ◌≤ℤ◌}
use kms_client.Clock.{Duration, second}
use kms_client.Agent.{Environment, AgentConfig, loaded, load_config, heartbeat_loop, Round}

module _ (env : Environment) where
  -- The host has a name, the required variables are set, and the durations that are set can be
  -- read.
  pub record IsComplete (cfg : AgentConfig) : Type 0 where
    pub hostname :
        (cfg.hostname ≡ env.getenv "NODE_HOSTNAME") ⊎ (env.os_hostname ≡ some cfg.hostname)
    pub placed : cfg.node_ip ≢ ""
    pub server_known : cfg.kms_server_url ≢ ""
    pub keyed : cfg.hmac_key ≢ ""
    pub interval :
        ((env.getenv "HEARTBEAT_INTERVAL" ≡ "") × (cfg.heartbeat_interval ≡ pos (30 * second)))
        ⊎ (env.parse_duration (env.getenv "HEARTBEAT_INTERVAL") ≡ some cfg.heartbeat_interval)
    pub timeout :
        ((env.getenv "HEARTBEAT_TIMEOUT" ≡ "") × (cfg.heartbeat_timeout ≡ pos (5 * second)))
        ⊎ (env.parse_duration (env.getenv "HEARTBEAT_TIMEOUT") ≡ some cfg.heartbeat_timeout)

  -- A configuration that is loaded names the node's address, the server and the key, takes its host
  -- name from NODE_HOSTNAME or else from the host, and has the durations that were set, or 30 and 5
  -- seconds.
  pub load_config-IsComplete : (cfg : AgentConfig) → load_config env ≡ loaded cfg → IsComplete cfg
  unfolding load_config
  load_config-IsComplete cfg e = record {
    hostname = ground (arith, eq_iff (env.getenv "NODE_HOSTNAME") "");
    placed = ground (arith, eq_iff (env.getenv "NODE_IP") "");
    server_known = ground (arith, eq_iff (env.getenv "KMS_SERVER_URL") "");
    keyed = ground (arith, eq_iff (env.getenv "HEARTBEAT_HMAC_KEY") "");
    interval = ground (arith, eq_iff (env.getenv "HEARTBEAT_INTERVAL") "");
    timeout = ground (arith, eq_iff (env.getenv "HEARTBEAT_TIMEOUT") "");
  }

  -- An interval that is not positive, set in HEARTBEAT_INTERVAL of a configuration that loads,
  -- makes the heartbeat loop panic.
  pub load_config_panics :
      (cfg : AgentConfig) (d : Duration) (out_of_range : ℤ → Duration) (first_accepted : Bool)
      (rounds : List Round)
      → load_config env ≡ loaded cfg
      → env.getenv "HEARTBEAT_INTERVAL" ≢ ""
      → env.parse_duration (env.getenv "HEARTBEAT_INTERVAL") ≡ some d
      → d ≤ℤ pos 0
      → heartbeat_loop out_of_range cfg.heartbeat_interval first_accepted rounds ≡ none
  unfolding heartbeat_loop
  load_config_panics cfg d out_of_range first_accepted rounds e set parsed low =
      let c = load_config-IsComplete cfg e in
      let same : cfg.heartbeat_interval ≡ d = ground (arith, c.interval) in rw same (ground arith)
