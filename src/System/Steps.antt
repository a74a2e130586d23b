-- ===== src/System/Steps.antt =====
-- Each event of the server process is a short run of the lease store's calls.
use kms_client.Prelude.{
  ap, ◌∙◌, String, ◌≡◌, refl, ◌≢◌, ◌⊎◌, Bool, true, false, none, some, arith, ◌==◌, [], ◌∷◌, List,
  ◌&&◌, Option-cases, inl, inr, All,
}
use kms_client.Store.State.{LeaseStore}
use kms_client.Store.Calls.{
  Op, Context, with_duration, apply, run, heartbeats_by_ip, validates, heartbeats_by_uuid, unblocks,
  maintains, sweeps,
}
use kms_client.Server.Labels.{observe_heartbeat}
use kms_client.Server.Peer.{peer_ip_from_context}
use kms_client.Server.Config.{Server, Call}
use kms_client.Server.Heartbeat.{heartbeat, heartbeat_body, refresh, heartbeat_error}
use kms_client.Http.Admin.{authenticate_admin}
use kms_client.Http.Effects.{
  http_heartbeat_cases, heartbeat_undecoded, unblock_cases, maintenance_cases,
  maintenance_undecoded,
}
use kms_client.Store.Spec.{NamesIp}
use kms_client.Store.Invariant.{AllNamed}
use kms_client.Store.Blocked.{readmits}
use kms_client.Store.Deadline.{Ignores, AllIgnore}
use kms_client.System.{
  Process, Event, step, unseal_request, grpc_heartbeat, http_heartbeat, unblock_request,
  maintenance_request, switch_tick,
}
use kms_client.DeadMan.Silence.{nodes-check}
use kms_client.System.Trace.{checks, registers, untouched, checked, registered, unseal-UnsealTrace}

-- The event lifts a block of node k: an admin's Unblock or an Unseal of that node.
abbrev pub lifts : Process → String → Event → Bool
lifts p k (unseal_request call req) = req.node_uuid == k
lifts p k (unblock_request c authorization uuid) =
    authenticate_admin p.http authorization && uuid == k
lifts p k _ = false

-- The address of a client is not empty.
abbrev pub HasPeer : Process → Event → Type 0
HasPeer p (grpc_heartbeat call) = peer_ip_from_context p.server.net call.peer ≢ some ""
HasPeer p _ = Unit

-- A tick of the switch, and the call that it makes.
abbrev pub is_tick : Event → Bool
is_tick (switch_tick c) = true
is_tick _ = false

abbrev pub is_sweep : Op → Bool
is_sweep (sweeps t) = true
is_sweep _ = false

-- The event is neither a heartbeat of node k, whose address is `ip`, nor an Unseal or an admin's
-- request for it.
abbrev pub IsAside : Process → String → String → Event → Type 0
IsAside p k ip (unseal_request call req) = req.node_uuid ≢ k
IsAside p k ip (grpc_heartbeat call) = peer_ip_from_context p.server.net call.peer ≢ some ip
IsAside p k ip (http_heartbeat checked_at c none signature) = Unit
IsAside p k ip (http_heartbeat checked_at c (some req) signature) = req.node_uuid ≢ k
IsAside p k ip (unblock_request c authorization uuid) = uuid ≢ k
IsAside p k ip (maintenance_request c authorization uuid enabled) = uuid ≢ k
IsAside p k ip (switch_tick c) = Unit

-- Calls of the store that do what the event does to the records.
pub record Calls (p : Process) (e : Event) (s : LeaseStore) : Type 0 where
  pub calls : List (Context × Op)
  pub same : (step p e s).nodes ≡ (run s calls).nodes
  pub named : AllNamed calls
  pub spares : (k : String) → lifts p k e ≡ false → All (λ call. readmits k call.1 ≡ false) calls
  pub unwatched : is_tick e ≡ false → All (λ call. is_sweep call.1 ≡ false) calls
  pub ignores : (k ip : String) → IsAside p k ip e → AllIgnore k ip calls

one_call :
    (p : Process) (e : Event) (s : LeaseStore) (c : Context) (op : Op)
    → (step p e s).nodes ≡ (apply c op s).nodes
    → NamesIp op
    → ((k : String) → lifts p k e ≡ false → readmits k op ≡ false)
    → (is_tick e ≡ false → is_sweep op ≡ false)
    → ((k ip : String) → IsAside p k ip e → Ignores k ip op)
    → Calls p e s
unfolding run
one_call p e s c op same named spares unwatched ignores = record {
  calls = (c, op) ∷ [];
  same = same;
  named = (named, tt);
  spares = λ k h. (spares k h, tt);
  unwatched = λ h. (unwatched h, tt);
  ignores = λ k ip h. (ignores k ip h, tt);
}

no_call : (p : Process) (e : Event) (s : LeaseStore) → (step p e s).nodes ≡ s.nodes → Calls p e s
unfolding run
no_call p e s same = record {
  calls = [];
  same = same;
  named = tt;
  spares = λ k h. tt;
  unwatched = λ h. tt;
  ignores = λ k ip h. tt;
}

heartbeat_cases :
    (srv : Server) (call : Call) (s : LeaseStore) (ip : String)
    → peer_ip_from_context srv.net call.peer ≡ some ip
    → ((heartbeat srv call s).0.nodes ≡ s.nodes)
      ⊎ ((heartbeat srv call s).0.nodes
          ≡ (apply (with_duration srv.lease_window call.at_update) (heartbeats_by_ip ip) s).nodes)
unfolding heartbeat heartbeat_body refresh heartbeat_error observe_heartbeat apply
heartbeat_cases srv call s ip e = ground arith

heartbeat_nobody :
    (srv : Server) (call : Call) (s : LeaseStore)
    → peer_ip_from_context srv.net call.peer ≡ none
    → (heartbeat srv call s).0.nodes ≡ s.nodes
unfolding heartbeat heartbeat_body refresh observe_heartbeat
heartbeat_nobody srv call s e = ground arith

pub step-Calls : (p : Process) (e : Event) (s : LeaseStore) → HasPeer p e → Calls p e s
unfolding step run apply
step-Calls p (unseal_request call req) s peer = elim (unseal-UnsealTrace p.server call req s) [
  | untouched u ↦ no_call _ _ s u
  | checked u ↦
      one_call _ _ s call.at_validate (validates req.node_uuid) u tt (λ k h. refl) (λ h. refl)
        (λ k ip h. h)
  | registered ip _ u ↦ record {
    calls = checks p.server call req s ∷ registers p.server call req s ip ∷ [];
    same = u;
    named = (tt, (tt, tt));
    spares = λ k h. (refl, (h, tt));
    unwatched = λ h. (refl, (refl, tt));
    ignores = λ k ip h. (h, (h, tt));
  }
]
step-Calls p (grpc_heartbeat call) s peer =
    elim (Option-cases (peer_ip_from_context p.server.net call.peer)) [
      | inl n ↦ no_call _ _ s (heartbeat_nobody p.server call s n)
      | inr (ip, e) ↦ elim (heartbeat_cases p.server call s ip e) [
        | inl u ↦ no_call _ _ s u
        | inr u ↦
            one_call _ _ s (with_duration p.server.lease_window call.at_update)
              (heartbeats_by_ip ip) u (λ n. peer (e ∙ ap some n)) (λ k h. refl) (λ h. refl)
              (λ k i h. (λ n. peer (e ∙ ap some n), λ n. h (e ∙ ap some n)))
      ]
    ]
step-Calls p (http_heartbeat checked_at c none signature) s peer =
    no_call _ _ s (ap (λ t. t.nodes) (heartbeat_undecoded p.http checked_at c signature s))
step-Calls p (http_heartbeat checked_at c (some req) signature) s peer =
    elim (http_heartbeat_cases p.http checked_at c req signature s) [
      | inl u ↦ no_call _ _ s (ap (λ t. t.nodes) u)
      | inr u ↦
          one_call _ _ s (with_duration p.http.lease_duration c)
            (heartbeats_by_uuid req.node_uuid req.node_ip req.hostname) (ap (λ t. t.nodes) u) tt
            (λ k h. refl) (λ h. refl) (λ k ip h. h)
    ]
step-Calls p (unblock_request c authorization uuid) s peer =
    elim (unblock_cases p.http c authorization uuid s) [
      | inl u ↦ no_call _ _ s (ap (λ t. t.nodes) u)
      | inr (good, u) ↦
          one_call _ _ s (with_duration p.http.lease_duration c) (unblocks uuid)
            (ap (λ t. t.nodes) u) tt (λ k h. ground arith) (λ h. refl) (λ k ip h. h)
    ]
step-Calls p (maintenance_request c authorization uuid none) s peer =
    no_call _ _ s (ap (λ t. t.nodes) (maintenance_undecoded p.http c authorization uuid s))
step-Calls p (maintenance_request c authorization uuid (some on)) s peer =
    elim (maintenance_cases p.http c authorization uuid s on) [
      | inl u ↦ no_call _ _ s (ap (λ t. t.nodes) u)
      | inr (good, u) ↦
          one_call _ _ s (with_duration p.http.lease_duration c) (maintains uuid on)
            (ap (λ t. t.nodes) u) tt (λ k h. refl) (λ h. refl) (λ k ip h. h)
    ]
step-Calls p (switch_tick c) s peer =
    one_call _ _ s c (sweeps p.heartbeat_timeout) (nodes-check p.heartbeat_timeout c s) tt
      (λ k h. refl) (λ h. cc) (λ k ip h. tt)
