-- ===== src/System/Unwatched.antt =====
-- The server of cmd/kms-server/main.go without its dead-man's switch: whom it blocks.
use kms_client.Prelude.{String, ◌≡◌, true, false, List, [], ◌∷◌, Option, none, some, arith, All}
use kms_client.Lease.{LeaseRecord, is_blocked, active_lease}
use kms_client.Nodes.{lookup}
use kms_client.Store.State.{LeaseStore}
use kms_client.Store.Leases.{bootstrap_record}
use kms_client.Store.Calls.{Op, Context, apply, run, maintains}
use kms_client.Store.Spec.{effect, lookup-apply}
use kms_client.Store.Invariant.{IsValid, AllNamed, apply-IsValid}
use kms_client.System.{Process, Event, step, serve}
use kms_client.System.Steps.{HasPeer, is_tick, is_sweep, step-Calls}
use kms_client.System.Safety.{step-IsValid}

-- The node is not blocked.
abbrev pub IsFree : Option LeaseRecord → Type 0
IsFree none = Unit
IsFree (some r) = is_blocked r.status ≡ false

effect-IsFree :
    (c : Context) (op : Op) (k : String) (o : Option LeaseRecord)
    → is_sweep op ≡ false
    → IsFree o
    → IsFree (effect c op k o)
unfolding effect bootstrap_record active_lease
effect-IsFree c (maintains u true) k none h free = ground arith
effect-IsFree c (maintains u true) k (some r) h free = ground arith
effect-IsFree c (maintains u false) k none h free = ground arith
effect-IsFree c (maintains u false) k (some r) h free = ground arith
effect-IsFree c op k none h free = ground arith
effect-IsFree c op k (some r) h free = ground arith

run-IsFree :
    (s : LeaseStore) (calls : List (Context × Op)) (k : String)
    → IsValid s
    → AllNamed calls
    → All (λ call. is_sweep call.1 ≡ false) calls
    → IsFree (lookup k s.nodes)
    → IsFree (lookup k (run s calls).nodes)
unfolding run
run-IsFree s [] k v named h free = free
run-IsFree s ((c, op) ∷ rest) k v named h free =
    run-IsFree (apply c op s) rest k (apply-IsValid c op s named.0 v) named.1 h.1 (
      rw (lookup-apply c s v.distinct op k v.unique_ips named.0)
        (effect-IsFree c op k (lookup k s.nodes) h.0 free))

pub serve-IsFree :
    (p : Process) (events : List Event) (s : LeaseStore) (k : String)
    → IsValid s
    → All (HasPeer p) events
    → All (λ e. is_tick e ≡ false) events
    → IsFree (lookup k s.nodes)
    → IsFree (lookup k (serve p events s).nodes)
unfolding serve
serve-IsFree p [] s k v peers h free = free
serve-IsFree p (e ∷ es) s k v peers h free =
    let t = step-Calls p e s peers.0 in
    serve-IsFree p es (step p e s) k (step-IsValid p e s peers.0 v) peers.1 h.1
      (rw t.same (run-IsFree s t.calls k v t.named (t.unwatched h.0) free))
