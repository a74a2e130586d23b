-- ===== src/Server/Unseal.antt =====
-- Unseal and validateLease of pkg/server/server.go.
use kms_client.Prelude.{
  ℕ, ◌+◌, String, not, [], ◌∷◌, Option, none, some, nat_eq, if◌then◌else◌, length,
}
use kms_client.Store.State.{StoreError, lease_expired, lease_not_found, lease_blocked}
use kms_client.Store.Leases.{bootstrap, validate}
use kms_client.Store.Calls.{Context}
use kms_client.Server.Rpc.{
  permission_denied, unauthenticated, invalid_argument, internal, status, plain, success, failure,
  Rpc, pure, raise, require, ◌>>=◌, ◌>>◌,
}
use kms_client.Server.Labels.{observe_unseal}
use kms_client.Server.Peer.{peer_ip_from_context}
use kms_client.Server.Config.{
  Bytes, passphrase_size, block_size, nonce_size, Request, Server, lease_enabled, Call, or_raise,
  validate_node_uuid,
}
use kms_client.Server.Seal.{key_of, check_key}

abbrev pub take : ℕ → Bytes → Bytes
take ℕ.zero bs = []
take (ℕ.suc n) [] = []
take (ℕ.suc n) (b ∷ bs) = b ∷ take n bs

abbrev pub drop : ℕ → Bytes → Bytes
drop ℕ.zero bs = bs
drop (ℕ.suc n) [] = []
drop (ℕ.suc n) (b ∷ bs) = drop n bs

-- validateLease, by the answer of Validate.
unfoldable pub lease_error : Option StoreError → Rpc (Unit {0})
lease_error none = pure tt
lease_error (some lease_blocked) = raise (status permission_denied "node blocked")
lease_error (some lease_not_found) = pure tt
lease_error (some lease_expired) = raise (status permission_denied "heartbeat lease expired")
lease_error (some e) = raise (status internal "failed to validate heartbeat lease: ")

module _ (srv : Server) where
  unfoldable pub validate_lease : Context → String → Rpc (Unit {0})
  unfolding lease_error lease_enabled
  validate_lease c node_uuid s =
      if lease_enabled srv
      then (let (s', r, err) = validate c.io node_uuid c.now s in lease_error err s')
      else (s, success tt)

  unfoldable pub bootstrap_as : String → String → Context → Rpc (Unit {0})
  bootstrap_as node_uuid ip c s =
      let (s', r, err) = bootstrap c.range c.io node_uuid ip c.now srv.lease_window s in
      (
        s',
        elim err [
          | none ↦ success tt
          | some e ↦ failure (status internal "failed to persist heartbeat lease: ")
        ],
      )

  -- The lease of a node whose data were authentic.
  unfoldable pub register : Call → String → Rpc (Unit {0})
  unfolding lease_enabled bootstrap_as
  register call node_uuid =
      if lease_enabled srv
      then (do
        ip ←
            or_raise (peer_ip_from_context srv.net call.peer)
              (status unauthenticated "failed to identify unseal peer: ")
        bootstrap_as node_uuid ip call.at_update)
      else pure tt

  -- Data that are not authentic are answered by random data, and give no lease.
  unfoldable pub deliver : Call → String → Option Bytes → Rpc Bytes
  deliver call node_uuid none = or_raise call.random_passphrase (plain "random source")
  deliver call node_uuid (some decrypted) = do register call node_uuid; pure decrypted

  -- From the handler's start to validateLease, which lets go of the store.
  unfoldable pub admit : Call → Request → Rpc (Unit {0})
  unfolding validate_node_uuid validate_lease
  admit call req = do
    require (not call.is_canceled) (plain "context done")
    validate_node_uuid req
    validate_lease call.at_validate req.node_uuid

  -- The rest, up to Bootstrap.
  unfoldable pub open_and_deliver : Call → Request → Rpc Bytes
  unfolding key_of check_key deliver
  open_and_deliver call req = do
    key ← key_of srv call req.node_uuid
    check_key srv key
    require (nat_eq (length req.content) (block_size + passphrase_size + nonce_size))
        (status invalid_argument "incorrect data length")
    deliver call req.node_uuid
        (srv.gcm.open_box key (take nonce_size req.content) (drop nonce_size req.content))

  unfoldable pub unseal_body : Call → Request → Rpc Bytes
  unfolding admit open_and_deliver
  unseal_body call req = do admit call req; open_and_deliver call req

  unfoldable pub unseal : Call → Request → Rpc Bytes
  unseal call req = observe_unseal call.elapsed (unseal_body call req)
