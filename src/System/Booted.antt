-- ===== src/System/Booted.antt =====
-- The server that run of cmd/kms-server/main.go leaves without its HTTP part.
use kms_client.Prelude.{
  String, ◌≡◌, ◌⊎◌, Bool, true, false, List, [], ◌∷◌, Option, none, some, arith, All,
}
use kms_client.Nodes.{lookup}
use kms_client.Store.State.{LeaseStore}
use kms_client.Store.Invariant.{IsValid}
use kms_client.Server.Config.{lease_enabled}
use kms_client.Options.{Flags}
use kms_client.Options.Boot.{Machine, Libraries, up, Running, HttpParts, boot}
use kms_client.Options.Boot.Parts.{boot_without_switch}
use kms_client.System.{Process, Event, serve, unseal_request, grpc_heartbeat}
use kms_client.System.Steps.{HasPeer, is_tick}
use kms_client.System.Unwatched.{IsFree, serve-IsFree}

-- Only the gRPC requests come to a server without its HTTP part.
abbrev pub can_serve : Option HttpParts → Event → Bool
can_serve (some parts) e = true
can_serve none (unseal_request call req) = true
can_serve none (grpc_heartbeat call) = true
can_serve none _ = false

no_tick : (e : Event) → can_serve none e ≡ true → is_tick e ≡ false
no_tick (unseal_request call req) h = ground arith
no_tick (grpc_heartbeat call) h = ground arith
no_tick e h = absurd (ground arith)

no_ticks :
    (events : List Event)
    → All (λ e. can_serve none e ≡ true) events
    → All (λ e. is_tick e ≡ false) events
no_ticks [] h = tt
no_ticks (e ∷ es) h = (no_tick e h.0, no_ticks es h.1)

-- A server that starts with leases on but one of the two secrets missing enforces leases, and never
-- blocks a node: from a valid store, through any requests that its parts can serve, with clients
-- whose address is not empty, a node that is not blocked never becomes so, however long it is
-- silent.
pub boot_never_blocks :
    (machine : Machine) (libraries : Libraries) (f : Flags) (r : Running) (p : Process)
    (events : List Event) (s : LeaseStore) (k : String)
    → boot machine libraries f ≡ up r
    → f.heartbeat_enable ≡ true
    → (f.heartbeat_hmac_key ≡ "") ⊎ (f.admin_token ≡ "")
    → p.server ≡ r.server
    → All (λ e. can_serve r.http e ≡ true) events
    → IsValid s
    → All (HasPeer p) events
    → IsFree (lookup k s.nodes)
    → (lease_enabled p.server ≡ true) × IsFree (lookup k (serve p events s).nodes)
boot_never_blocks machine libraries f r p events s k booted on missing same served v peers free =
    let (leases, no_http) = boot_without_switch machine libraries f r booted on missing in
    (
      rw same leases,
      serve-IsFree p events s k v peers (no_ticks events (rw no_http at served)) free,
    )
