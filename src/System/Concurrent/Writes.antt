-- ===== src/System/Concurrent/Writes.antt =====
-- Each step of the interleaved server is a short run of the lease store's calls.
use kms_client.Prelude.{
  String, ap, ◌∙◌, ◌≡◌, ◌≢◌, refl, Bool, false, List, [], ◌∷◌, inl, inr, arith, All, ◌==◌,
}
use kms_client.Store.State.{LeaseStore}
use kms_client.Store.Calls.{Op, Context, run}
use kms_client.Store.Invariant.{IsValid, AllNamed, run-IsValid}
use kms_client.Store.Crash.{IsValid-nodes}
use kms_client.Store.Blocked.{readmits}
use kms_client.Store.Deadline.{AllIgnore}
use kms_client.Server.Rpc.{RpcError, failure}
use kms_client.Server.Labels.{observe_unseal}
use kms_client.Server.Config.{Call, Request}
use kms_client.Server.Unseal.{admit, open_and_deliver, unseal, unseal_body}
use kms_client.System.{Process}
use kms_client.System.Trace.{admit-Trace, registers, open-Trace, checks}
use kms_client.System.Steps.{lifts, IsAside, HasPeer, step-Calls}
use kms_client.System.Concurrent.{
  World, Act, begins, finishes, serves, Move, admitted, denied, finished, served, Moves, done, more,
}

-- The step lifts a block of node k: an admin's Unblock, or the second half of an Unseal of it.
abbrev pub act_lifts : Process → String → Act → Bool
act_lifts p k (begins call req) = false
act_lifts p k (finishes call req) = req.node_uuid == k
act_lifts p k (serves e) = lifts p k e

-- The address of a client is not empty.
abbrev pub HasPeerAct : Process → Act → Type 0
HasPeerAct p (serves e) = HasPeer p e
HasPeerAct p _ = Unit

-- The step is of no heartbeat of node k or its address, no Unseal and no admin's request for it.
abbrev pub IsAsideAct : Process → String → String → Act → Type 0
IsAsideAct p k ip (begins call req) = req.node_uuid ≢ k
IsAsideAct p k ip (finishes call req) = req.node_uuid ≢ k
IsAsideAct p k ip (serves e) = IsAside p k ip e

-- Calls of the store that make the records of `t` of those of `s`.
pub record Writes (p : Process) (a : Act) (s t : LeaseStore) : Type 0 where
  pub calls : List (Context × Op)
  pub same : t.nodes ≡ (run s calls).nodes
  pub named : AllNamed calls
  pub spares :
      (k : String) → act_lifts p k a ≡ false → All (λ call. readmits k call.1 ≡ false) calls
  pub ignores : (k ip : String) → IsAsideAct p k ip a → AllIgnore k ip calls

module _ (p : Process) (call : Call) (req : Request) (s : LeaseStore) where
  nothing : (a : Act) (t : LeaseStore) → t.nodes ≡ s.nodes → Writes p a s t
  unfolding run
  nothing a t same = record {
    calls = [];
    same = same;
    named = tt;
    spares = λ k h. tt;
    ignores = λ k ip h. tt;
  }

  nodes-observe_unseal :
      (observe_unseal call.elapsed (open_and_deliver p.server call req) s).0.nodes
      ≡ (open_and_deliver p.server call req s).0.nodes
  unfolding observe_unseal
  nodes-observe_unseal = refl

  admit-Writes :
      (t : LeaseStore)
      → t.nodes ≡ (admit p.server call req s).0.nodes
      → Writes p (begins call req) s t
  admit-Writes t same = elim (admit-Trace p.server call req s) [
    | inl u ↦ nothing _ t (same ∙ ap (λ x. x.nodes) u)
    | inr u ↦ record {
      calls = checks p.server call req s ∷ [];
      same = same ∙ ap (λ x. x.nodes) u;
      named = (tt, tt);
      spares = λ k h. (refl, tt);
      ignores = λ k ip h. (h, tt);
    }
  ]

  nodes-denied :
      (e : RpcError)
      → (admit p.server call req s).1 ≡ failure e
      → (unseal p.server call req s).0.nodes ≡ (admit p.server call req s).0.nodes
  unfolding unseal unseal_body observe_unseal
  nodes-denied e h = ground arith

  open-Writes :
      Writes p
        (finishes call req)
        s
        (observe_unseal call.elapsed (open_and_deliver p.server call req) s).0
  open-Writes = elim (open-Trace p.server call req s) [
    | inl u ↦ nothing _ _ (nodes-observe_unseal ∙ ap (λ x. x.nodes) u)
    | inr (ip, u) ↦ record {
      calls = registers p.server call req s ip ∷ [];
      same = nodes-observe_unseal ∙ ap (λ x. x.nodes) u;
      named = (tt, tt);
      spares = λ k h. (h, tt);
      ignores = λ k ip h. (h, tt);
    }
  ]

pub Move-Writes :
    {p : Process} {w u : World} {a : Act}
    → Move p w a u
    → HasPeerAct p a
    → Writes p a w.store u.store
Move-Writes {p} {w} (admitted call req h) peer = admit-Writes p call req w.store _ refl
Move-Writes {p} {w} (denied call req e h) peer =
    admit-Writes p call req w.store _ (nodes-denied p call req w.store e h)
Move-Writes {p} {w} (finished call req rest r) peer = open-Writes p call req w.store
Move-Writes {p} {w} (served e h) peer =
    let t = step-Calls p e w.store peer in
    record {
      calls = t.calls;
      same = t.same;
      named = t.named;
      spares = t.spares;
      ignores = t.ignores;
    }

pub Move-IsValid :
    {p : Process} {w u : World} {a : Act}
    → Move p w a u
    → HasPeerAct p a
    → IsValid w.store
    → IsValid u.store
Move-IsValid m peer v =
    let t = Move-Writes m peer in IsValid-nodes t.same (run-IsValid _ t.calls t.named v)

-- From a valid store, any interleaving of requests and ticks, Unseal's two halves included, leads
-- to a valid store, with clients whose address is not empty.
pub Moves-IsValid :
    (p : Process) (w u : World) (acts : List Act)
    → Moves p w acts u
    → All (HasPeerAct p) acts
    → IsValid w.store
    → IsValid u.store
Moves-IsValid p w u [] done peers v = v
Moves-IsValid p w u (a ∷ acts) (more m ms) peers v =
    Moves-IsValid p _ u acts ms peers.1 (Move-IsValid m peers.0 v)
