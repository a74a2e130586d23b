-- ===== src/System/Concurrent/Passed.antt =====
-- Whom the second half of an Unseal serves, in the interleaved server.
use kms_client.Prelude.{
  ◌≡◌, ◌⊎◌, inl, inr, true, false, List, [], ◌∷◌, Option, none, some, arith, Option-cases,
}
use kms_client.Clock.{Time}
use kms_client.Lease.{LeaseRecord, is_blocked}
use kms_client.Nodes.{lookup}
use kms_client.Store.State.{LeaseStore}
use kms_client.Store.Leases.{
  is_over, validate, validate_found, mark_expired, put_record, marked_expired,
}
use kms_client.Store.Effects.{persist_locked-IsFileError}
use kms_client.Server.Rpc.{success}
use kms_client.Server.Config.{Server, Call, Request, lease_enabled}
use kms_client.Server.Unseal.{admit}
use kms_client.System.{Process}
use kms_client.System.Concurrent.{
  World, Act, Removes, first, later, Move, admitted, denied, finished, served, Moves, done, more,
}

-- The node is unknown, or neither blocked nor with a lease that is over.
abbrev pub IsAllowed : Time → Option LeaseRecord → Type 0
IsAllowed now none = Unit
IsAllowed now (some r) = (is_blocked r.status ≡ false) × (is_over r now ≡ false)

-- At some moment of the run the request passed the check of the lease.
pub record Passed (p : Process) (w u : World) (call : Call) (req : Request) : Type 0 where
  pub moment : World
  pub before : List Act
  pub after : List Act
  pub reached : Moves p w before moment
  pub went_on : Moves p moment after u
  pub good : (admit p.server call req moment.store).1 ≡ success tt

admitted-IsAllowed :
    (srv : Server) (call : Call) (req : Request) (s : LeaseStore)
    → lease_enabled srv ≡ true
    → (admit srv call req s).1 ≡ success tt
    → IsAllowed call.at_validate.now (lookup req.node_uuid s.nodes)
unfolding admit validate validate_found mark_expired
admitted-IsAllowed srv call req s on good = elim (Option-cases (lookup req.node_uuid s.nodes)) [
  | inl absent ↦ ground arith
  | inr (r, held) ↦
      let marked = put_record req.node_uuid (marked_expired r) call.at_validate.now s in
      rw held (
        ground (arith, persist_locked-IsFileError call.at_validate.io marked),
        ground (arith, persist_locked-IsFileError call.at_validate.io marked),
      )
]

Removes-nil : {A : Type 0} {a : A} {ys : List A} → ¬ Removes a [] ys
Removes-nil r = elim r [ ]

Removes-more :
    {A : Type 0} {a b : A} {xs ys zs : List A}
    → Removes a xs ys
    → Removes b ys zs
    → (rest : List A) × Removes b xs rest
Removes-more first r = (_, later r)
Removes-more (later q) first = (_, first)
Removes-more (later q) (later r) = let (rest, r') = Removes-more q r in (_, later r')

module _ (p : Process) (call : Call) (req : Request) where
  -- What is between its halves after a step was so before it, or has just passed the check.
  Move-pending :
      {w u : World} {a : Act} {rest : List (Call × Request)}
      → Move p w a u
      → Removes (call, req) u.pending rest
      → ((kept : List (Call × Request)) × Removes (call, req) w.pending kept)
        ⊎ ((admit p.server call req w.store).1 ≡ success tt)
  Move-pending (admitted c r good) first = inr good
  Move-pending (admitted c r good) (later q) = inl (_, q)
  Move-pending (denied c r e bad) q = inl (_, q)
  Move-pending (finished c r ended gone) q = inl (Removes-more gone q)
  Move-pending (served e other) q = inl (_, q)

  later-Passed :
      {w v u : World} {a : Act} → Move p w a v → Passed p v u call req → Passed p w u call req
  later-Passed {a = a} m passed = record {
    moment = passed.moment;
    before = a ∷ passed.before;
    after = passed.after;
    reached = more m passed.reached;
    went_on = passed.went_on;
    good = passed.good;
  }

  Moves-pending :
      {w u : World} {acts : List Act} {rest : List (Call × Request)}
      → Moves p w acts u
      → Removes (call, req) u.pending rest
      → ((kept : List (Call × Request)) × Removes (call, req) w.pending kept)
        ⊎ Passed p w u call req
  Moves-pending done q = inl (_, q)
  Moves-pending (more m ms) q = elim (Moves-pending ms q) [
    | inr passed ↦ inr (later-Passed m passed)
    | inl (kept, r) ↦ elim (Move-pending m r) [
      | inl earlier ↦ inl earlier
      | inr good ↦ inr (record {
        moment = _;
        before = [];
        after = _;
        reached = done;
        went_on = more m ms;
        good = good;
      })
    ]
  ]

-- In any interleaving that starts with no Unseal between its halves, and with leases on, an Unseal
-- that has come to its second half, in which it may give out the key, passed the check at some
-- moment of the run: its node was then unknown, or neither blocked nor with a lease that was over.
pub Moves-Passed :
    (p : Process) (s : LeaseStore) (u : World) (acts : List Act) (call : Call) (req : Request)
    (rest : List (Call × Request))
    → Moves p (record { store = s; pending = [] }) acts u
    → Removes (call, req) u.pending rest
    → lease_enabled p.server ≡ true
    → (passed : Passed p (record { store = s; pending = [] }) u call req) × IsAllowed
        call.at_validate.now
        (lookup req.node_uuid passed.moment.store.nodes)
Moves-Passed p s u acts call req rest moves q on = elim (Moves-pending p call req moves q) [
  | inl (kept, r) ↦ absurd (Removes-nil r)
  | inr passed ↦ (passed, admitted-IsAllowed p.server call req passed.moment.store on passed.good)
]
