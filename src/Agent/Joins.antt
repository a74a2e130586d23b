-- ===== src/Agent/Joins.antt =====
-- An agent of cmd/kms-agent/main.go without NODE_UUID, at a server that has just unsealed its node.
use kms_client.Prelude.{
  ℕ, subst, String, ◌≡◌, refl, ◌≢◌, Bool, false, List, [], ◌∷◌, ◌++◌, Option, none, some, arith,
  if◌then◌else◌, map,
}
use kms_client.Prelude.Int.{ℤ, pos, ◌<ℤ◌}
use kms_client.Prelude.Texts.{codes}
use kms_client.Clock.{Time, Duration}
use kms_client.Lease.{LeaseRecord}
use kms_client.Nodes.{Range}
use kms_client.Store.State.{LeaseStore}
use kms_client.Store.Calls.{Context, apply, bootstraps}
use kms_client.Store.Invariant.{IsValid}
use kms_client.Http.Defs.{HttpHandler, Response}
use kms_client.Http.Node.{handle_identify}
use kms_client.Agent.{
  AgentConfig, Environment, loaded, load_config, identify_request, identified_uuid, identify_loop,
  Round, heartbeat_loop, heartbeat_rounds,
}
use kms_client.Agent.Honest.{IsMac, AreNear, identified_uuid-bootstrap}
use kms_client.Agent.Start.{load_config-IsComplete}
use kms_client.Agent.Run.{beaten, sent_identify, beat, identify, run}

-- Attempts that do not identify the node, after which the agent goes on.
abbrev pub AllFail : List (Option Response × Bool) → Type 0
AllFail [] = Unit
AllFail (x ∷ xs) = (sent_identify x ≡ (none, false)) × AllFail xs

module _ (out_of_range : ℤ → Duration) (interval : Duration) where
  identify_loop-joined :
      (n : ℕ) (xs rest : List (Option Response × Bool)) (resp : Response) (canceled : Bool)
      (u : String)
      → AllFail xs
      → identified_uuid resp ≡ some u
      → (identify_loop out_of_range interval n
          (map sent_identify (xs ++ (some resp, canceled) ∷ rest))).0
        ≡ some u
  unfolding identify_loop
  identify_loop-joined n [] rest resp canceled u fail known = rw known refl
  identify_loop-joined n (x ∷ xs) rest resp canceled u fail known =
      rw fail.0 (identify_loop-joined (ℕ.suc n) xs rest resp canceled u fail.1 known)

module _ (env : Environment) (out_of_range : ℤ → Duration) (cfg : AgentConfig) where
  identify-joined :
      (xs rest : List (Option Response × Bool)) (resp : Response) (canceled : Bool) (u : String)
      → cfg.node_uuid ≡ ""
      → AllFail xs
      → identified_uuid resp ≡ some u
      → identify env out_of_range cfg (xs ++ (some resp, canceled) ∷ rest)
        ≡ some (record cfg { node_uuid = u })
  unfolding identify
  identify-joined xs rest resp canceled u unset fail known =
      rw
        (
          unset,
          identify_loop-joined out_of_range cfg.heartbeat_interval 0 xs rest resp canceled u fail
              known,
        )
        refl

  -- An agent that starts without NODE_UUID at the address where its node was just unsealed comes to
  -- send heartbeats under the node's UUID, whatever its first attempts to be identified met, once
  -- one of them reaches a server that has its key and a valid store, with clocks, after the epoch,
  -- that are at most a minute apart, if the UUID is not empty and the interval is positive.
  pub run-joined :
      (h : HttpHandler) (s : LeaseStore) (c : Context) (range range' : Range LeaseRecord)
      (sent checked_at : Time) (u : String) (xs rest : List (Option Response × Bool))
      (canceled first_accepted : Bool) (rounds : List Round)
      → load_config env ≡ loaded cfg
      → cfg.node_uuid ≡ ""
      → pos 0 <ℤ cfg.heartbeat_interval
      → IsMac h.mac
      → h.key ≡ codes cfg.hmac_key
      → AreNear sent checked_at
      → IsValid s
      → u ≢ ""
      → AllFail xs
      → (waits : List Duration) × (run env out_of_range
            (xs
              ++ (
                some (
                    handle_identify h range range' checked_at
                      (some (identify_request h.mac (codes cfg.hmac_key) cfg sent).0)
                      (identify_request h.mac (codes cfg.hmac_key) cfg sent).1
                      (apply c (bootstraps u cfg.node_ip) s)),
                canceled,
              )
                ∷ rest)
            first_accepted
            rounds
          ≡ beaten (record cfg { node_uuid = u }) waits)
  unfolding run beat heartbeat_loop
  run-joined h s c range range' sent checked_at u xs rest canceled first_accepted rounds loads unset
        ticking mac keyed near valid named fail =
      let placed = (load_config-IsComplete env cfg loads).placed in
      let known =
        identified_uuid-bootstrap h mac cfg sent checked_at near s c range range' u valid named
          placed in
      let signed =
        subst
          (λ key.
            identified_uuid (
              handle_identify h range range' checked_at
                (some (identify_request h.mac key cfg sent).0)
                (identify_request h.mac key cfg sent).1 (apply c (bootstraps u cfg.node_ip) s))
            ≡ some u)
          keyed known in
      let joined = identify-joined xs rest _ canceled u unset fail signed in
      (
        heartbeat_rounds out_of_range cfg.heartbeat_interval (if first_accepted then 0 else 1)
            rounds,
        ground (arith, loads, joined),
      )
