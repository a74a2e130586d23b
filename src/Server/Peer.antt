-- ===== src/Server/Peer.antt =====
-- peerIPFromContext of pkg/server/server.go. Go's parsers of addresses are parameters.
use kms_client.Prelude.{String, List, [], ◌∷◌, Option, none, some}

-- What a request's context holds: the metadata of an incoming call with its values of "x-real-ip",
-- and the text of the peer's address, if there is one.
pub record PeerContext : Type 0 where
  pub metadata : Option (List String)
  pub peer_address : Option String

-- package net: `parse_ip` is ParseIP with the String method of its result, and `split_host` the
-- host of SplitHostPort.
pub record Net : Type 0 where
  pub parse_ip : String → Option String
  pub split_host : String → Option String

module _ (net : Net) where
  real_ip : Option (List String) → Option String
  real_ip none = none
  real_ip (some []) = none
  real_ip (some (v ∷ vs)) = net.parse_ip v

  address_ip : Option String → Option String
  address_ip none = none
  address_ip (some address) = elim (net.split_host address) [
    | some host ↦ some host
    | none ↦ net.parse_ip address
  ]

  -- `none` is the error.
  unfoldable pub peer_ip_from_context : PeerContext → Option String
  unfolding real_ip address_ip
  peer_ip_from_context ctx = elim (real_ip ctx.metadata) [
    | some ip ↦ some ip
    | none ↦ address_ip ctx.peer_address
  ]
