-- ===== src/Tests/Alive.antt =====
-- The theorems on agent and server together, on one run.
use kms_client.Prelude.{
  arith, inl, String, Bool, true, false, ◌≡◌, refl, ◌==◌, if◌then◌else◌, List, [], ◌∷◌, Option,
  none, some,
}
use kms_client.Prelude.Int.{◌-ℤ◌, ◌+ℤ◌, pos}
use kms_client.Prelude.Texts.{codes}
use kms_client.Clock.{Duration, sub, add, after}
use kms_client.Nodes.{lookup}
use kms_client.Store.Leases.{validate}
use kms_client.Store.Calls.{sweeps, validates, heartbeats_by_ip, bootstraps, apply}
use kms_client.Store.Punctual.{Beat, Beats, AreInTime, last_beat}
use kms_client.Http.Defs.{HttpHandler, Response, reply, identify_response, refuse}
use kms_client.Http.Node.{handle_heartbeat, accept_heartbeat, handle_identify}
use kms_client.Agent.{
  identify_request, AgentConfig, loaded, Environment, load_config, identified_uuid, identify_loop,
  heartbeat_loop, ticked, shutdown, heartbeat_request,
}
use kms_client.Nodes.Orders.{as_stored}
use kms_client.Agent.Joins.{run-joined}
use kms_client.Agent.Run.{beaten, run, identify, beat, run-accepted}
use kms_client.System.Alive.{Happening, beats, calls, calls_of, live, live_validates}
use kms_client.Tests.{
  differs, at_second, seconds, alive, one_node, good_io, context_at, lookup-one_node,
  one_node-IsValid, alive-IsCoherent, handler, config, mac-IsMac, clocks,
}

abbrev happenings : List Happening
happenings =
    calls (context_at 1040) (sweeps (seconds 120))
    ∷ beats (at_second 1050) (at_second 1080) (context_at 1080)
    ∷ calls (context_at 1110) (heartbeats_by_ip "10.0.0.2")
    ∷ calls (context_at 1120) (validates "n1")
    ∷ calls (context_at 1190) (sweeps (seconds 120))
    ∷ []

abbrev first_beat : Beat
first_beat = record { at = at_second 1000; until = at_second 1060; ip = "10.0.0.1" }

in_time : AreInTime "n1" first_beat (calls_of handler config happenings)
unfolding sub ◌-ℤ◌ add ◌+ℤ◌ after
in_time = (
  refl,
  (
    tt,
    ((differs "10.0.0.2" "" refl, differs "10.0.0.2" "10.0.0.1" refl), (λ same. refl, (refl, tt))),
  ),
)

live_validates_example :
    Beats
      (last_beat "n1" first_beat (calls_of handler config happenings))
      (lookup "n1" (live handler config happenings (one_node alive)).nodes)
    × ((validate good_io "n1" (at_second 1140) (live handler config happenings (one_node alive))).2
        ≡ none)
unfolding after add ◌+ℤ◌
live_validates_example =
    live_validates handler config mac-IsMac (differs "n1" "" refl) (differs "10.0.0.1" "" refl)
      first_beat happenings (one_node alive) good_io (at_second 1140)
      (one_node-IsValid alive alive-IsCoherent) (clocks, tt) in_time
      (rw (lookup-one_node alive) (refl, refl, refl, inl refl)) refl

abbrev variable : String → String
variable name =
    if name == "NODE_IP"
    then "10.0.0.1"
    else if name == "KMS_SERVER_URL"
    then "http://kms"
    else if name == "HEARTBEAT_HMAC_KEY"
    then "secret"
    else ""

abbrev environment : Environment
environment = record {
  getenv = variable;
  os_hostname = some "first";
  parse_duration = λ text. none;
}

-- The server does not know the address at first.
abbrev attempts : List (Option Response × Bool)
attempts =
    (none, false)
    ∷ (some (refuse 404 "node_not_found"), false)
    ∷ (some (reply 200 (identify_response "n1" "active")), false)
    ∷ []

runs :
    run environment (λ z. pos 0) attempts true (ticked true false ∷ shutdown ∷ [])
    ≡ beaten config []
unfolding run load_config identify identify_loop identified_uuid beat heartbeat_loop
runs = refl

abbrev keyed : HttpHandler
keyed = record handler { key = codes "secret" }

run-accepted_example :
    handle_heartbeat keyed
      (at_second 1080)
      (context_at 1080)
      (some (heartbeat_request keyed.mac (codes "secret") config (at_second 1050)).0)
      (heartbeat_request keyed.mac (codes "secret") config (at_second 1050)).1
      (one_node alive)
    ≡ accept_heartbeat keyed
        (context_at 1080)
        (heartbeat_request keyed.mac (codes "secret") config (at_second 1050)).0
        (one_node alive)
run-accepted_example =
    run-accepted environment (λ z. pos 0) attempts true (ticked true false ∷ shutdown ∷ []) config
      [] keyed (at_second 1050) (at_second 1080) (context_at 1080) (one_node alive) runs mac-IsMac
      refl clocks

abbrev unset : AgentConfig
unset = record config { node_uuid = "" }

loads : load_config environment ≡ loaded unset
unfolding load_config
loads = refl

-- The first attempt fails, and the second one comes after the node's Unseal.
run-joined_example :
    (waits : List Duration) × (run environment
        (λ z. pos 0)
        ((none, false)
          ∷ (
            some (
                handle_identify keyed as_stored as_stored
                  (at_second 1080)
                  (some (identify_request keyed.mac (codes "secret") unset (at_second 1050)).0)
                  (identify_request keyed.mac (codes "secret") unset (at_second 1050)).1
                  (apply (context_at 1040) (bootstraps "n2" "10.0.0.1") (one_node alive))),
            false,
          )
          ∷ [])
        true
        (shutdown ∷ [])
      ≡ beaten (record unset { node_uuid = "n2" }) waits)
run-joined_example =
    run-joined environment (λ z. pos 0) unset keyed (one_node alive) (context_at 1040) as_stored
      as_stored (at_second 1050) (at_second 1080) "n2" ((none, false) ∷ []) [] false true
      (shutdown ∷ []) loads refl (ground arith) mac-IsMac refl clocks
      (one_node-IsValid alive alive-IsCoherent) (differs "n2" "" refl) (refl, tt)
