-- ===== src/Server/Config.antt =====
-- The Server of pkg/server/server.go: its fields, its requests, and the surroundings of a call.
use kms_client.Prelude.{ℕ, String, Bool, not, ◌&&◌, List, Option, none, some, ◌==◌}
use kms_client.Prelude.Int.{pos, ltb_ℤ}
use kms_client.Clock.{Duration}
use kms_client.Store.Calls.{Context}
use kms_client.Server.Rpc.{invalid_argument, RpcError, status, Rpc, pure, raise, require}
use kms_client.Server.Peer.{PeerContext, Net}

abbrev pub Bytes : Type 0
Bytes = List ℕ

-- pkg/constants/constants.go
abbrev pub passphrase_size : ℕ
passphrase_size = 32

-- crypto/aes and the NonceSize of crypto/cipher's GCM.
abbrev pub block_size : ℕ
block_size = 16

abbrev pub nonce_size : ℕ
nonce_size = 12

pub record Request : Type 0 where
  pub node_uuid : String
  pub content : Bytes

-- AES-GCM under a key, a nonce and no additional data. `open_box` fails where the data are not
-- authentic.
pub record Gcm : Type 0 where
  pub seal_box : Bytes → Bytes → Bytes → Bytes
  pub open_box : Bytes → Bytes → Bytes → Option Bytes

-- The fields of a Server that do not change; `get_key` is the key handler, and `none` its error.
pub record Server : Type 0 where
  pub get_key : String → Option Bytes
  pub has_lease_store : Bool
  pub lease_window : Duration
  pub gcm : Gcm
  pub net : Net

-- NewServer
unfoldable pub lease_enabled : Server → Bool
lease_enabled srv = srv.has_lease_store && ltb_ℤ (pos 0) srv.lease_window

-- What a call takes from its surroundings: the peer, whether the client gave up in the first second,
-- the answers of crypto/rand (`none` is an error), and the surroundings of the store's two calls,
-- Validate and the one that writes a lease.
pub record Call : Type 0 where
  pub peer : PeerContext
  pub is_canceled : Bool
  pub random_key : Option Bytes
  pub random_nonce : Option Bytes
  pub random_passphrase : Option Bytes
  pub at_validate : Context
  pub at_update : Context
  -- From the handler's start to its end.
  pub elapsed : Duration

abbrev pub or_raise : {A : Type 0} → Option A → RpcError → Rpc A
or_raise none e = raise e
or_raise (some a) e = pure a

unfoldable pub validate_node_uuid : Request → Rpc (Unit {0})
validate_node_uuid req =
    require (not (req.node_uuid == "")) (status invalid_argument "node UUID is required")
