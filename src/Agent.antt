-- ===== src/Agent.antt =====
-- The heartbeat agent of cmd/kms-agent/main.go: loadConfig, backoffDuration, what a request to the
-- server carries, and the two loops. Log lines and the TCP connection are not modelled.
pub mod Backoff
pub mod Honest
pub mod Start
pub mod Run
pub mod Joins
use kms_client.Prelude.{
  ℕ, suc, ◌-◌, ◌*◌, ◌^◌, String, Bool, true, false, List, [], ◌∷◌, Option, none, some, ◌==◌, leb,
  nat_eq, if◌then◌else◌,
}
use kms_client.Prelude.Int.{ℤ, pos, ◌*ℤ◌, ltb_ℤ, leb_ℤ, two_63, pos_part, neg_part}
use kms_client.Clock.{Time, Duration, second, unix}
use kms_client.Hmac.Auth.{sign, sign_identify}
use kms_client.Http.Defs.{
  HeartbeatRequest, IdentifyRequest, Response, Body, identify_response, status_ok, not_found,
}

pub record AgentConfig : Type 0 where
  pub node_uuid : String
  pub node_ip : String
  pub hostname : String
  pub kms_server_url : String
  pub hmac_key : String
  pub heartbeat_interval : Duration
  pub heartbeat_timeout : Duration

-- What the agent finds when it starts: os.Getenv ("" if it is not set), os.Hostname (`none` is an
-- error), and time.ParseDuration (`none` is an error).
pub record Environment : Type 0 where
  pub getenv : String → String
  pub os_hostname : Option String
  pub parse_duration : String → Option Duration

-- A value, or the text of an error up to the first verb of its format.
pub data Loaded {ℓ} (A : Type ℓ) : Type ℓ where
  loaded : A → Loaded A
  rejected : String → Loaded A

module _ (env : Environment) where
  pub host : Option String
  host = let name = env.getenv "NODE_HOSTNAME" in if name == "" then env.os_hostname else some name

  -- `if text := os.Getenv(name); text != "" { d, err := time.ParseDuration(text) ... }`
  pub duration_or : String → Duration → Option Duration
  duration_or name default =
      let text = env.getenv name in if text == "" then some default else env.parse_duration text

  with_durations : AgentConfig → Loaded AgentConfig
  unfolding duration_or
  with_durations cfg = elim (duration_or "HEARTBEAT_INTERVAL" cfg.heartbeat_interval) [
    | none ↦ rejected "invalid HEARTBEAT_INTERVAL: "
    | some interval ↦ elim (duration_or "HEARTBEAT_TIMEOUT" cfg.heartbeat_timeout) [
      | none ↦ rejected "invalid HEARTBEAT_TIMEOUT: "
      | some timeout ↦
          loaded (record cfg { heartbeat_interval = interval; heartbeat_timeout = timeout })
    ]
  ]

  unfoldable pub load_config : Loaded AgentConfig
  unfolding host with_durations
  load_config = elim host [
    | none ↦ rejected "failed to get hostname: "
    | some name ↦
        let cfg : AgentConfig = record {
          node_uuid = env.getenv "NODE_UUID";
          node_ip = env.getenv "NODE_IP";
          hostname = name;
          kms_server_url = env.getenv "KMS_SERVER_URL";
          hmac_key = env.getenv "HEARTBEAT_HMAC_KEY";
          heartbeat_interval = pos (30 * second);
          heartbeat_timeout = pos (5 * second);
        } in
        if cfg.node_ip == ""
        then rejected "NODE_IP environment variable is required"
        else if cfg.kms_server_url == ""
        then rejected "KMS_SERVER_URL environment variable is required"
        else if cfg.hmac_key == ""
        then rejected "HEARTBEAT_HMAC_KEY environment variable is required"
        else with_durations cfg
  ]

-- 5 * time.Minute
abbrev pub max_backoff : Duration
max_backoff = pos (300 * second)

-- The float64 `float64(base) * math.Pow(2, ...)` is exact for a base below 2 ^ 53 nanoseconds.
-- time.Duration(x) of a float64 that no `int64` holds is left to the implementation by Go:
-- `out_of_range` is that choice.
abbrev pub to_duration : (ℤ → Duration) → ℤ → Duration
to_duration out_of_range z =
    if ltb_ℤ z (pos two_63)
    then (if leb_ℤ (ℤ.negsuc (two_63 - 1)) z then z else out_of_range z)
    else out_of_range z

unfoldable pub backoff_duration : (ℤ → Duration) → ℕ → Duration → Duration
backoff_duration out_of_range failures base_interval =
    if leb failures 1
    then base_interval
    else (let backoff = to_duration out_of_range (base_interval *ℤ pos (2 ^ (failures - 1))) in
        if ltb_ℤ max_backoff backoff then max_backoff else backoff)

-- sendHeartbeat: the request and its X-Hmac-Signature, at the time `now`.
unfoldable pub heartbeat_request :
    (List ℕ → List ℕ → List ℕ) → List ℕ → AgentConfig → Time → HeartbeatRequest × List ℕ
heartbeat_request mac key cfg now = (
  record {
    node_uuid = cfg.node_uuid;
    node_ip = cfg.node_ip;
    hostname = cfg.hostname;
    timestamp = unix now;
  },
  sign mac key cfg.node_uuid cfg.node_ip (unix now),
)

-- sendIdentify: the request and its X-Hmac-Signature.
unfoldable pub identify_request :
    (List ℕ → List ℕ → List ℕ) → List ℕ → AgentConfig → Time → IdentifyRequest × List ℕ
identify_request mac key cfg now = (
  record { node_ip = cfg.node_ip; timestamp = unix now },
  sign_identify mac key cfg.node_ip (unix now),
)

-- sendHeartbeat: whether the answer is an acceptance.
unfoldable pub is_accepted : Response → Bool
is_accepted resp = nat_eq resp.code status_ok

-- A body of another shape has no "node_uuid", which the decoder reads as "".
abbrev body_uuid : Body → String
body_uuid (identify_response node_uuid status) = node_uuid
body_uuid _ = ""

-- sendIdentify: the UUID in the answer, or an error.
unfoldable pub identified_uuid : Response → Option String
identified_uuid resp =
    if nat_eq resp.code not_found
    then none
    else if nat_eq resp.code status_ok
    then (let uuid = body_uuid resp.body in if uuid == "" then none else some uuid)
    else none

-- The rounds of heartbeatLoop: the context ends in the first `select`, or a tick is followed by
-- a heartbeat, accepted or not, and by a wait in which the context may end.
pub data Round : Type 0 where
  shutdown : Round
  ticked : Bool → Bool → Round

module _ (out_of_range : ℤ → Duration) (interval : Duration) where
  -- identifyLoop over the answers of sendIdentify; `wait_canceled` says whether the context ends
  -- in the wait after an answer. It returns the UUID, `none` for an end without one, and the waits.
  unfoldable pub identify_loop : ℕ → List (Option String × Bool) → Option String × List Duration
  identify_loop failures [] = (none, [])
  identify_loop failures ((some uuid, wait_canceled) ∷ attempts) = (some uuid, [])
  identify_loop failures ((none, true) ∷ attempts) =
      (none, backoff_duration out_of_range (suc failures) interval ∷ [])
  identify_loop failures ((none, false) ∷ attempts) =
      let (uuid, waits) = identify_loop (suc failures) attempts in
      (uuid, backoff_duration out_of_range (suc failures) interval ∷ waits)

  -- The waits after failed heartbeats.
  unfoldable pub heartbeat_rounds : ℕ → List Round → List Duration
  heartbeat_rounds failures [] = []
  heartbeat_rounds failures (shutdown ∷ rounds) = []
  heartbeat_rounds failures (ticked true wait_canceled ∷ rounds) = heartbeat_rounds 0 rounds
  heartbeat_rounds failures (ticked false true ∷ rounds) =
      backoff_duration out_of_range (suc failures) interval ∷ []
  heartbeat_rounds failures (ticked false false ∷ rounds) =
      backoff_duration out_of_range (suc failures) interval ∷ heartbeat_rounds (suc failures) rounds

  -- `none` is the panic of time.NewTicker, which wants a positive interval.
  unfoldable pub heartbeat_loop : Bool → List Round → Option (List Duration)
  unfolding heartbeat_rounds
  heartbeat_loop first_accepted rounds =
      if leb_ℤ interval (pos 0)
      then none
      else some (heartbeat_rounds (if first_accepted then 0 else 1) rounds)
