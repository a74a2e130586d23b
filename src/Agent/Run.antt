-- ===== src/Agent/Run.antt =====
-- run of cmd/kms-agent/main.go: what a started agent sends.
use kms_client.Prelude.{
  ℕ, ◌⊎◌, sym, ap, ◌∙◌, String, ◌≡◌, refl, ◌≢◌, Bool, true, false, List, [], ◌∷◌, Option, none,
  some, arith, ◌==◌, eq_iff, if◌then◌else◌, Option-cases, Bool-cases, inl, inr, map,
}
use kms_client.Prelude.Int.{ℤ, pos, ◌<ℤ◌}
use kms_client.Prelude.Texts.{codes}
use kms_client.Clock.{Time, Duration}
use kms_client.Store.State.{LeaseStore}
use kms_client.Store.Calls.{Context}
use kms_client.Http.Defs.{HttpHandler, Response}
use kms_client.Http.Node.{handle_heartbeat, accept_heartbeat}
use kms_client.Agent.{
  AgentConfig, Environment, Loaded, loaded, rejected, load_config, identified_uuid, identify_loop,
  Round, heartbeat_loop, heartbeat_request,
}
use kms_client.Agent.Start.{load_config-IsComplete, IsComplete}
use kms_client.Agent.Honest.{IsMac, AreNear, handle_heartbeat-heartbeat_request}

-- How run ends: an error of the configuration, the end of the context before the node is identified,
-- the panic of time.NewTicker, or the end of the loop, whose heartbeats have this configuration.
pub data Ended : Type 0 where
  misconfigured : String → Ended
  unidentified panicked : Ended
  beaten : AgentConfig → List Duration → Ended

-- sendIdentify of an answer; `none` is one that did not come.
abbrev pub sent_identify : Option Response × Bool → Option String × Bool
sent_identify (none, wait_canceled) = (none, wait_canceled)
sent_identify (some resp, wait_canceled) = (identified_uuid resp, wait_canceled)

module _ (env : Environment) (out_of_range : ℤ → Duration) where
  unfoldable pub beat : AgentConfig → Bool → List Round → Ended
  beat cfg first_accepted rounds =
      elim (heartbeat_loop out_of_range cfg.heartbeat_interval first_accepted rounds) [
        | none ↦ panicked
        | some waits ↦ beaten cfg waits
      ]

  unfoldable pub identify : AgentConfig → List (Option Response × Bool) → Option AgentConfig
  identify cfg attempts =
      if cfg.node_uuid == ""
      then elim (identify_loop out_of_range cfg.heartbeat_interval 0
          (map sent_identify attempts)).0 [
            | none ↦ none
            | some uuid ↦ some (record cfg { node_uuid = uuid })
          ]
      else some cfg

  unfoldable pub run : List (Option Response × Bool) → Bool → List Round → Ended
  unfolding identify beat
  run attempts first_accepted rounds = elim (load_config env) [
    | rejected text ↦ misconfigured text
    | loaded cfg ↦ elim (identify cfg attempts) [
      | none ↦ unidentified
      | some cfg' ↦ beat cfg' first_accepted rounds
    ]
  ]

  -- An identified node has a UUID.
  identified_uuid-IsNamed :
      (resp : Response) (uuid : String) → identified_uuid resp ≡ some uuid → uuid ≢ ""
  unfolding identified_uuid
  identified_uuid-IsNamed resp uuid h e = absurd (ground (arith, eq_iff uuid ""))

  identify_loop-IsNamed :
      (interval : Duration) (failures : ℕ) (attempts : List (Option Response × Bool))
      (uuid : String)
      → (identify_loop out_of_range interval failures (map sent_identify attempts)).0 ≡ some uuid
      → uuid ≢ ""
  unfolding identify_loop
  identify_loop-IsNamed interval failures [] uuid h e = absurd (ground arith)
  identify_loop-IsNamed interval failures ((none, true) ∷ attempts) uuid h e = absurd (ground arith)
  identify_loop-IsNamed interval failures ((none, false) ∷ attempts) uuid h e =
      identify_loop-IsNamed interval (ℕ.suc failures) attempts uuid h e
  identify_loop-IsNamed interval failures ((some resp, true) ∷ attempts) uuid h e =
      elim (Option-cases (identified_uuid resp)) [
        | inl unknown ↦ absurd (ground arith)
        | inr (found, known) ↦ identified_uuid-IsNamed resp found known (ground arith)
      ]
  identify_loop-IsNamed interval failures ((some resp, false) ∷ attempts) uuid h e =
      elim (Option-cases (identified_uuid resp)) [
        | inl unknown ↦
            identify_loop-IsNamed interval (ℕ.suc failures) attempts uuid (ground arith) e
        | inr (found, known) ↦ identified_uuid-IsNamed resp found known (ground arith)
      ]

  identify-IsNamed :
      (cfg cfg' : AgentConfig) (attempts : List (Option Response × Bool))
      → identify cfg attempts ≡ some cfg'
      → (cfg' ≡ record cfg { node_uuid = cfg'.node_uuid }) × (cfg'.node_uuid ≢ "")
  unfolding identify
  identify-IsNamed cfg cfg' attempts h = elim (Bool-cases (cfg.node_uuid == "")) [
    | inr named ↦ (ground arith, ground (arith, eq_iff cfg.node_uuid ""))
    | inl nameless ↦
        let loop =
          identify_loop out_of_range cfg.heartbeat_interval 0 (map sent_identify attempts) in
        elim (Option-cases loop.0) [
          | inl unknown ↦ absurd (ground arith)
          | inr (uuid, found) ↦ (
            ground arith,
            λ e. identify_loop-IsNamed cfg.heartbeat_interval 0 attempts uuid found (ground arith),
          )
        ]
  ]

  Loaded-cases :
      (l : Loaded AgentConfig)
      → ((cfg : AgentConfig) × (l ≡ loaded cfg)) ⊎ ((text : String) × (l ≡ rejected text))
  Loaded-cases (loaded cfg) = inl (cfg, refl)
  Loaded-cases (rejected text) = inr (text, refl)

  -- The configuration of the heartbeats: the environment's, with the node's UUID.
  pub record IsIdentified (cfg : AgentConfig) : Type 0 where
    pub base : AgentConfig
    pub complete : IsComplete env base
    pub same : cfg ≡ record base { node_uuid = cfg.node_uuid }
    pub named : cfg.node_uuid ≢ ""
    pub ticking : pos 0 <ℤ cfg.heartbeat_interval

  beat-beaten :
      (cfg cfg' : AgentConfig) (first_accepted : Bool) (rounds : List Round) (waits : List Duration)
      → beat cfg first_accepted rounds ≡ beaten cfg' waits
      → (cfg ≡ cfg') × (pos 0 <ℤ cfg.heartbeat_interval)
  unfolding beat heartbeat_loop
  beat-beaten cfg cfg' first_accepted rounds waits h = (ground arith, ground arith)

  run-IsIdentified :
      (attempts : List (Option Response × Bool)) (first_accepted : Bool) (rounds : List Round)
      (cfg : AgentConfig) (waits : List Duration)
      → run attempts first_accepted rounds ≡ beaten cfg waits
      → IsIdentified cfg
  unfolding run
  run-IsIdentified attempts first_accepted rounds cfg waits h =
      elim (Loaded-cases (load_config env)) [
        | inr (text, bad) ↦ absurd (ground arith)
        | inl (base, good) ↦ elim (Option-cases (identify base attempts)) [
          | inl unknown ↦ absurd (ground arith)
          | inr (cfg', known) ↦
              let (same, ticking) =
                beat-beaten cfg' cfg first_accepted rounds waits (ground arith) in
              let (kept, named) = identify-IsNamed base cfg' attempts known in
              rw (← same) (record {
                base = base;
                complete = load_config-IsComplete env base good;
                same = kept;
                named = named;
                ticking = ticking;
              })
        ]
      ]

  -- Every heartbeat that a started agent sends, whether its UUID was set or identified, passes all
  -- checks of a server that has its key, while the two clocks, after the epoch, are at most a minute
  -- apart: the handler goes on to accept it.
  pub run-accepted :
      (attempts : List (Option Response × Bool)) (first_accepted : Bool) (rounds : List Round)
      (cfg : AgentConfig) (waits : List Duration) (h : HttpHandler) (sent checked_at : Time)
      (c : Context) (s : LeaseStore)
      → run attempts first_accepted rounds ≡ beaten cfg waits
      → IsMac h.mac
      → h.key ≡ codes cfg.hmac_key
      → AreNear sent checked_at
      → handle_heartbeat h checked_at c
          (some (heartbeat_request h.mac (codes cfg.hmac_key) cfg sent).0)
          (heartbeat_request h.mac (codes cfg.hmac_key) cfg sent).1
          s
        ≡ accept_heartbeat h c (heartbeat_request h.mac (codes cfg.hmac_key) cfg sent).0 s
  run-accepted attempts first_accepted rounds cfg waits h sent checked_at c s e mac keyed near =
      let i = run-IsIdentified attempts first_accepted rounds cfg waits e in
      let placed : cfg.node_ip ≢ "" =
        λ none_set. i.complete.placed (sym (ap (λ x. x.node_ip) i.same) ∙ none_set) in
      rw (← keyed)
        (handle_heartbeat-heartbeat_request h mac cfg sent checked_at near s c i.named placed)
