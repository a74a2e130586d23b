-- ===== src/Http/Defs.antt =====
-- HTTPHandler of pkg/server/http.go: its fields, its requests and its answers.
use kms_client.Prelude.{ℕ, String, Bool, List, Option}
use kms_client.Prelude.Int.{ℤ}
use kms_client.Clock.{Time, Duration}

-- The fields of the handler; `mac` is HMAC-SHA256, and `key` the key of its HMACAuth.
pub record HttpHandler : Type 0 where
  pub mac : List ℕ → List ℕ → List ℕ
  pub key : List ℕ
  pub admin_token : String
  pub lease_duration : Duration
  pub heartbeat_interval : Duration

pub record IdentifyRequest : Type 0 where
  pub node_ip : String
  pub timestamp : ℤ

pub record HeartbeatRequest : Type 0 where
  pub node_uuid : String
  pub node_ip : String
  pub hostname : String
  pub timestamp : ℤ

-- An element of the list of nodes; a time that is zero is left out.
pub record NodeResponse : Type 0 where
  pub first_seen : Option Time
  pub last_heartbeat : Option Time
  pub blocked_at : Option Time
  pub maintenance_at : Option Time
  pub uuid : String
  pub ip : String
  pub hostname : String
  pub status : String
  pub block_reason : String
  pub maintenance : Bool

pub data Body : Type 0 where
  error_response : String → String → Body
  identify_response : String → String → Body
  heartbeat_response : String → ℤ → Body
  node_list : List NodeResponse → Body
  unblock_response : String → String → Body
  maintenance_response : String → Bool → Body

-- writeJSON
pub record Response : Type 0 where
  pub code : ℕ
  pub body : Body

-- The status codes of net/http.
abbrev pub status_ok : ℕ
status_ok = 200

abbrev pub bad_request : ℕ
bad_request = 400

abbrev pub unauthorized : ℕ
unauthorized = 401

abbrev pub forbidden : ℕ
forbidden = 403

abbrev pub not_found : ℕ
not_found = 404

abbrev pub internal_server_error : ℕ
internal_server_error = 500

abbrev pub reply : ℕ → Body → Response
reply code body = record { code = code; body = body }

-- errorResponse{Error: e}
abbrev pub refuse : ℕ → String → Response
refuse code e = reply code (error_response e "")
