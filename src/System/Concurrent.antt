-- ===== src/System/Concurrent.antt =====
-- The server process of cmd/kms-server/main.go with its requests interleaved. Every handler takes
-- the store's mutex at most once, and is one step, but for Unseal of pkg/server/server.go, which
-- takes it in validateLease and again in Bootstrap: other requests may run in between.
pub mod Writes
pub mod Blocks
pub mod Passed
pub mod Overdue
pub mod Sequential
use kms_client.Prelude.{◌≡◌, Bool, true, false, List, [], ◌∷◌, All}
use kms_client.Store.State.{LeaseStore}
use kms_client.Server.Rpc.{RpcError, success, failure}
use kms_client.Server.Labels.{observe_unseal}
use kms_client.Server.Config.{Call, Request}
use kms_client.Server.Unseal.{admit, open_and_deliver, unseal}
use kms_client.System.{Process, Event, step, unseal_request}

-- The store, and the Unseal requests that passed validateLease and have not ended.
pub record World : Type 0 where
  pub store : LeaseStore
  pub pending : List (Call × Request)

pub data Act : Type 0 where
  begins finishes : Call → Request → Act
  serves : Event → Act

-- `ys` is `xs` without one `a`.
pub data Removes {ℓ} {A : Type ℓ} (a : A) : List A → List A → Type ℓ where
  first : {xs : List A} → Removes a (a ∷ xs) xs
  later : {b : A} {xs ys : List A} → Removes a xs ys → Removes a (b ∷ xs) (b ∷ ys)

abbrev pub is_unseal : Event → Bool
is_unseal (unseal_request call req) = true
is_unseal _ = false

pub data Move (p : Process) (w : World) : Act → World → Type 0 where
  admitted :
      (call : Call) (req : Request)
      → (admit p.server call req w.store).1 ≡ success tt
      → Move p w (begins call req) (record {
        store = (admit p.server call req w.store).0;
        pending = (call, req) ∷ w.pending;
      })
  denied :
      (call : Call) (req : Request) (e : RpcError)
      → (admit p.server call req w.store).1 ≡ failure e
      → Move p w (begins call req) (record w { store = (unseal p.server call req w.store).0 })
  finished :
      (call : Call) (req : Request) (rest : List (Call × Request))
      → Removes (call, req) w.pending rest
      → Move p w (finishes call req) (record {
        store = (observe_unseal call.elapsed (open_and_deliver p.server call req) w.store).0;
        pending = rest;
      })
  served :
      (e : Event)
      → is_unseal e ≡ false
      → Move p w (serves e) (record w { store = step p e w.store })

pub data Moves (p : Process) : World → List Act → World → Type 0 where
  done : {w : World} → Moves p w [] w
  more :
      {w u v : World} {a : Act} {rest : List Act}
      → Move p w a u
      → Moves p u rest v
      → Moves p w (a ∷ rest) v

pub All-Removes {ℓ κ} :
    {A : Type ℓ} (P : A → Type κ) {a : A} {xs ys : List A}
    → Removes a xs ys
    → All P xs
    → P a × All P ys
All-Removes P first h = h
All-Removes P (later r) h = let (pa, rest) = All-Removes P r h.1 in (pa, (h.0, rest))
