-- ===== src/System/Concurrent/Sequential.antt =====
-- The server that runs each Unseal at one go is one of the runs of the interleaved server.
use kms_client.Prelude.{◌++◌, ◌≡◌, refl, subst, ◌⊎◌, inl, inr, List, [], ◌∷◌, arith}
use kms_client.Store.State.{LeaseStore}
use kms_client.Server.Rpc.{Result, RpcError, success, failure}
use kms_client.Server.Labels.{observe_unseal}
use kms_client.Server.Config.{Call, Request}
use kms_client.Server.Unseal.{admit, open_and_deliver, unseal, unseal_body}
use kms_client.System.{Process, Event, step, serve, unseal_request}
use kms_client.System.Concurrent.{
  World, Act, begins, finishes, serves, first, admitted, denied, finished, served, Moves, done,
  more,
}

Result-cases : (r : Result (Unit {0})) → (r ≡ success tt) ⊎ ((e : RpcError) × (r ≡ failure e))
Result-cases (success t) = inl refl
Result-cases (failure e) = inr (e, refl)

Moves-append :
    {p : Process} {w u v : World} {acts rest : List Act}
    → Moves p w acts u
    → Moves p u rest v
    → Moves p w (acts ++ rest) v
Moves-append done ns = ns
Moves-append (more m ms) ns = more m (Moves-append ms ns)

module _ (p : Process) (pending : List (Call × Request)) where
  abbrev world : LeaseStore → World
  world s = record { store = s; pending = pending }

  unseal_halves :
      (call : Call) (req : Request) (s : LeaseStore)
      → (admit p.server call req s).1 ≡ success tt
      → (observe_unseal call.elapsed
          (open_and_deliver p.server call req)
          (admit p.server call req s).0).0
        ≡ (unseal p.server call req s).0
  unfolding unseal unseal_body observe_unseal
  unseal_halves call req s good = ground arith

  unseal-Moves :
      (call : Call) (req : Request) (s : LeaseStore)
      → (acts : List Act) × Moves p (world s) acts (world (unseal p.server call req s).0)
  unseal-Moves call req s = elim (Result-cases (admit p.server call req s).1) [
    | inl good ↦ (
      begins call req ∷ finishes call req ∷ [],
      subst (λ t. Moves p (world s) (begins call req ∷ finishes call req ∷ []) (world t))
          (unseal_halves call req s good)
          (more (admitted call req good) (more (finished call req pending first) done)),
    )
    | inr (e, bad) ↦ (begins call req ∷ [], more (denied call req e bad) done)
  ]

  step-Moves :
      (e : Event) (s : LeaseStore) → (acts : List Act) × Moves p (world s) acts (world (step p e s))
  unfolding step
  step-Moves (unseal_request call req) s = unseal-Moves call req s
  step-Moves e s = (serves e ∷ [], more (served e refl) done)

  -- Any sequence of requests and ticks, each run at one go, is a run of the interleaved server, with
  -- whatever Unseals between their two halves meanwhile: some steps lead from the one store to the
  -- other.
  pub serve-Moves :
      (events : List Event) (s : LeaseStore)
      → (acts : List Act) × Moves p (world s) acts (world (serve p events s))
  unfolding serve
  serve-Moves [] s = ([], done)
  serve-Moves (e ∷ es) s =
      let (acts, ms) = step-Moves e s in
      let (rest, ns) = serve-Moves es (step p e s) in (acts ++ rest, Moves-append ms ns)
