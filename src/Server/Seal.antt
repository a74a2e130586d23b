-- ===== src/Server/Seal.antt =====
-- Seal of pkg/server/server.go, and the key that Seal and Unseal share.
use kms_client.Prelude.{String, ◌||◌, ◌++◌, none, some, nat_eq, length}
use kms_client.Server.Rpc.{invalid_argument, status, plain, Rpc, pure, require, ◌>>=◌, ◌>>◌}
use kms_client.Server.Config.{
  Bytes, passphrase_size, Request, Server, Call, or_raise, validate_node_uuid,
}

module _ (srv : Server) where
  -- The key of the node, or a random one.
  unfoldable pub key_of : Call → String → Rpc Bytes
  key_of call node_uuid = elim (srv.get_key node_uuid) [
    | some key ↦ pure key
    | none ↦ or_raise call.random_key (plain "random source")
  ]

  -- aes.NewCipher, and cipher.NewGCM, which does not fail on a block of 16 bytes.
  unfoldable pub check_key : Bytes → Rpc (Unit {0})
  check_key key =
      require (nat_eq (length key) 16 || nat_eq (length key) 24 || nat_eq (length key) 32)
        (plain "invalid key size")

  unfoldable pub seal : Call → Request → Rpc Bytes
  unfolding validate_node_uuid key_of check_key
  seal call req = do
    validate_node_uuid req
    key ← key_of call req.node_uuid
    check_key key
    nonce ← or_raise call.random_nonce (plain "random source")
    require (nat_eq (length req.content) passphrase_size)
        (status invalid_argument "incorrect data length")
    pure (nonce ++ srv.gcm.seal_box key nonce req.content)
