-- ===== src/Client.antt =====
-- The heartbeat client of cmd/kms-client/main.go: validateFlags, classifyHeartbeatError and
-- heartbeatLoop.
pub mod Denied
pub mod Flags
pub mod Run
use kms_client.Prelude.{
  ◌*◌, String, Bool, true, false, not, List, [], ◌∷◌, Option, none, some, ◌==◌, if◌then◌else◌,
}
use kms_client.Prelude.Int.{ℤ, pos, leb_ℤ}
use kms_client.Clock.{Duration, second}
use kms_client.Server.Rpc.{
  Code, ok, permission_denied, unauthenticated, failed_precondition, invalid_argument, other_code,
  RpcError, status, plain, Result, success, failure,
}
use kms_client.Server.Config.{Bytes}

pub record ClientFlags : Type 0 where
  pub kms_endpoint : String
  pub heartbeat_interval : Duration
  pub heartbeat_timeout : Duration
  pub tls_enable : Bool
  pub tls_ca_path : String

-- The flags of main, without any on the command line.
abbrev pub default_client_flags : ClientFlags
default_client_flags = record {
  kms_endpoint = "127.0.0.1:4050";
  tls_enable = true;
  tls_ca_path = "";
  heartbeat_interval = pos (30 * second);
  heartbeat_timeout = pos (5 * second);
}

-- `none` is acceptance, `some` the text of the error.
unfoldable pub validate_flags : ClientFlags → Option String
validate_flags f =
    if leb_ℤ f.heartbeat_interval (pos 0)
    then some "--heartbeat-interval must be greater than zero"
    else if leb_ℤ f.heartbeat_timeout (pos 0)
    then some "--heartbeat-timeout must be greater than zero"
    else if leb_ℤ f.heartbeat_interval f.heartbeat_timeout
    then some "--heartbeat-timeout must be less than --heartbeat-interval"
    else if not f.tls_enable
    then (if not (f.tls_ca_path == "") then some "TLS file flags require --tls-enable" else none)
    else if f.tls_ca_path == ""
    then some "--tls-ca-path is not set"
    else none

-- status.Code: an error without a status has the code Unknown.
unfoldable pub code_of : RpcError → Code
code_of (status code text) = code
code_of (plain text) = other_code "unknown"

is_rejection : Code → Bool
is_rejection permission_denied = true
is_rejection unauthenticated = true
is_rejection failed_precondition = true
is_rejection invalid_argument = true
is_rejection _ = false

-- `none` is a nil error.
unfoldable pub classify_heartbeat_error : RpcError → Option RpcError
unfolding is_rejection code_of
classify_heartbeat_error err = if is_rejection (code_of err) then some err else none

-- What one round of the loop receives: the end of the context, or the answer to a heartbeat after a
-- tick.
pub data Round : Type 0 where
  shutdown : Round
  ticked : Result Bytes → Round

-- The loop after the first heartbeat: how it ends, and `none` where it has not.
unfoldable pub rounds_end : List Round → Option (Option RpcError)
rounds_end [] = none
rounds_end (shutdown ∷ rounds) = some none
rounds_end (ticked (success r) ∷ rounds) = rounds_end rounds
rounds_end (ticked (failure err) ∷ rounds) =
    let rest = rounds_end rounds in
    elim (classify_heartbeat_error err) [ some e ↦ some (some e) | none ↦ rest ]

-- A first heartbeat that fails ends the loop at once, with whatever classifyHeartbeatError returns.
unfoldable pub heartbeat_loop : Result Bytes → List Round → Option (Option RpcError)
unfolding rounds_end
heartbeat_loop (success r) rounds = rounds_end rounds
heartbeat_loop (failure err) rounds = some (classify_heartbeat_error err)
