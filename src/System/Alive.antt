-- ===== src/System/Alive.antt =====
-- The agent of cmd/kms-agent/main.go and the server of cmd/kms-server/main.go together: the agent
-- sends a heartbeat now and then, and the server runs these, its switch and other calls.
use kms_client.Prelude.{ap, ◌≡◌, refl, ◌≢◌, List, [], ◌∷◌, some, none, false}
use kms_client.Clock.{Time, after}
use kms_client.Nodes.{lookup}
use kms_client.Store.State.{LeaseStore, Io}
use kms_client.Store.Leases.{validate}
use kms_client.Store.Calls.{Op, Context, with_duration, apply, run, heartbeats_by_uuid}
use kms_client.Store.Invariant.{IsValid}
use kms_client.Store.Punctual.{Beat, Beats, AreInTime, last_beat, validate_in_time}
use kms_client.Http.Defs.{HttpHandler}
use kms_client.Http.Node.{handle_heartbeat, accept_heartbeat}
use kms_client.Agent.{AgentConfig, heartbeat_request}
use kms_client.Agent.Honest.{IsMac, AreNear, handle_heartbeat-heartbeat_request}

-- A heartbeat, with the agent's time at which it is made, the server's time of the check and the
-- surroundings of the store's call; or a call of the store for another request, or a tick.
pub data Happening : Type 0 where
  beats : Time → Time → Context → Happening
  calls : Context → Op → Happening

module _ (h : HttpHandler) (cfg : AgentConfig) where
  unfoldable pub happen : Happening → LeaseStore → LeaseStore
  happen (beats sent checked_at c) s =
      let (req, signature) = heartbeat_request h.mac h.key cfg sent in
      (handle_heartbeat h checked_at c (some req) signature s).0
  happen (calls c op) s = apply c op s

  unfoldable pub live : List Happening → LeaseStore → LeaseStore
  live [] s = s
  live (x ∷ xs) s = live xs (happen x s)

  abbrev pub call_of : Happening → Context × Op
  call_of (beats sent checked_at c) =
      (with_duration h.lease_duration c, heartbeats_by_uuid cfg.node_uuid cfg.node_ip cfg.hostname)
  call_of (calls c op) = (c, op)

  abbrev pub calls_of : List Happening → List (Context × Op)
  calls_of [] = []
  calls_of (x ∷ xs) = call_of x ∷ calls_of xs

  -- The clocks of agent and server agree well enough at each heartbeat.
  abbrev pub AllNear : List Happening → Type 0
  AllNear [] = Unit
  AllNear (beats sent checked_at c ∷ xs) = AreNear sent checked_at × AllNear xs
  AllNear (calls c op ∷ xs) = AllNear xs

  module _ (mac : IsMac h.mac) (named : cfg.node_uuid ≢ "") (at_ip : cfg.node_ip ≢ "") where
    happen-beats :
        (sent checked_at : Time) (c : Context) (s : LeaseStore)
        → AreNear sent checked_at
        → happen (beats sent checked_at c) s
          ≡ apply
              (with_duration h.lease_duration c)
              (heartbeats_by_uuid cfg.node_uuid cfg.node_ip cfg.hostname)
              s
    unfolding happen apply accept_heartbeat heartbeat_request
    happen-beats sent checked_at c s near =
        ap (λ a. a.0)
          (handle_heartbeat-heartbeat_request h mac cfg sent checked_at near s c named at_ip)

    live-run : (xs : List Happening) (s : LeaseStore) → AllNear xs → live xs s ≡ run s (calls_of xs)
    unfolding live run happen
    live-run [] s near = refl
    live-run (beats sent checked_at c ∷ xs) s near =
        rw (happen-beats sent checked_at c s near.0) (live-run xs _ near.1)
    live-run (calls c op ∷ xs) s near = live-run xs (apply c op s) near

    -- In a valid store, an active node whose agent's heartbeats arrive, signed with the server's
    -- key and with clocks that agree, is kept alive by them: if between them every sweep comes at
    -- most its timeout after the last one, every Validate of the node within its lease, and every
    -- HeartbeatByIP is of another address, then the node stays active, and Validate accepts it until
    -- its last lease ends.
    pub live_validates :
        (b : Beat) (xs : List Happening) (s : LeaseStore) (io : Io) (now : Time)
        → IsValid s
        → AllNear xs
        → AreInTime cfg.node_uuid b (calls_of xs)
        → Beats b (lookup cfg.node_uuid s.nodes)
        → after now (last_beat cfg.node_uuid b (calls_of xs)).until ≡ false
        → Beats (last_beat cfg.node_uuid b (calls_of xs)) (lookup cfg.node_uuid (live xs s).nodes)
          × ((validate io cfg.node_uuid now (live xs s)).2 ≡ none)
    live_validates b xs s io now v near in_time alive lasts =
        rw (live-run xs s near)
          (validate_in_time cfg.node_uuid b (calls_of xs) s io now v in_time alive lasts)
