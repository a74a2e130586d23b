-- ===== src/Http/Access.antt =====
-- Who may change a lease through pkg/server/http.go, and what the change is.
use kms_client.Prelude.{
  ℕ, String, ◌≡◌, ◌≢◌, ◌⊎◌, ◌↔◌, Bool, true, false, Option, none, some, arith, ◌==◌, eq_iff, List,
  Option-cases, Bool-cases, inl, inr,
}
use kms_client.Prelude.Texts.{after_prefix, trim_prefix}
use kms_client.Clock.{Time, add, after}
use kms_client.Lease.{LeaseRecord, is_active, is_expired}
use kms_client.Nodes.{lookup, Distinct}
use kms_client.Store.State.{LeaseStore, Io}
use kms_client.Store.Leases.{heartbeat_by_uuid, unblock, validate, validate_found, unblocked}
use kms_client.Store.Calls.{Context}
use kms_client.Store.Spec.{beaten_by_uuid, lookup-heartbeat_by_uuid, lookup-unblock}
use kms_client.Store.Blocked.{Holds, heartbeat_by_uuid_blocked}
use kms_client.Hmac.Auth.{verify, message}
use kms_client.Hmac.Verify.{Signs, verify_iff}
use kms_client.Hmac.Timestamp.{validate_timestamp}
use kms_client.Http.Defs.{
  HttpHandler, HeartbeatRequest, Response, reply, refuse, error_response, status_ok, forbidden,
  unauthorized,
}
use kms_client.Http.Node.{handle_heartbeat, accept_heartbeat}
use kms_client.Http.Admin.{authenticate_admin, handle_unblock_node, handle_set_maintenance}

module _ (h : HttpHandler) (checked_at : Time) (c : Context) (req : HeartbeatRequest)
    (signature : List ℕ) (s : LeaseStore) where
  -- The checks of a heartbeat: the timestamp is in range, and the signature is of the node, the
  -- address and a window of the timestamp.
  pub record IsGenuine : Type 0 where
    pub named : req.node_uuid ≢ ""
    pub in_range : validate_timestamp req.timestamp checked_at ≡ true
    pub signed : Signs h.mac h.key (message req.node_uuid req.node_ip) req.timestamp signature

  abbrev outcome : LeaseStore × Response
  outcome = handle_heartbeat h checked_at c (some req) signature s

  -- A heartbeat request that can be decoded is genuine (a node is named, the timestamp is in
  -- range, and the signature is of the node, the address and a window of the timestamp), or it is
  -- answered by 400 or 401 and leaves the store alone.
  pub handle_heartbeat_guard :
      IsGenuine ⊎ ((outcome.0 ≡ s) × ((outcome.1.code ≡ 400) ⊎ (outcome.1.code ≡ 401)))
  unfolding handle_heartbeat
  handle_heartbeat_guard =
      elim (Bool-cases (verify h.mac h.key req.node_uuid req.node_ip req.timestamp signature)) [
        | inr bad ↦ inr (ground arith)
        | inl good ↦ elim (Bool-cases (validate_timestamp req.timestamp checked_at)) [
          | inr bad ↦ inr (ground arith)
          | inl near ↦ elim (Bool-cases (req.node_uuid == "")) [
            | inl nameless ↦ inr (ground arith)
            | inr named ↦ inl (record {
              named = ground (arith, eq_iff req.node_uuid "");
              in_range = near;
              signed =
                  (verify_iff h.mac h.key req.node_uuid req.node_ip req.timestamp signature).0 good;
            })
          ]
        ]
      ]

  -- Where each node is stored once, a heartbeat that is answered by 200 is genuine, and leaves the
  -- node active, at the address that it reported and with a lease from now on.
  pub handle_heartbeat_accepted :
      Distinct s.nodes
      → outcome.1.code ≡ status_ok
      → IsGenuine
        × ((r : LeaseRecord) × (lookup req.node_uuid outcome.0.nodes ≡ some r)
            × (is_active r.status ≡ true)
            × (r.lease_until ≡ add c.now h.lease_duration)
            × (r.node_ip ≡ req.node_ip))
  unfolding handle_heartbeat accept_heartbeat heartbeat_by_uuid
  handle_heartbeat_accepted d good = elim handle_heartbeat_guard [
    | inr denied ↦ absurd (ground arith)
    | inl genuine ↦
        let c' = record c { lease_duration = h.lease_duration } in
        let k = req.node_uuid in
        let r = beaten_by_uuid c' req.node_ip req.hostname (lookup k s.nodes) in
        (
          genuine,
          (
            r,
            ground
                (arith, eq_iff k k, lookup-heartbeat_by_uuid c' s d k req.node_ip req.hostname k),
            ground arith,
            ground arith,
            ground arith,
          ),
        )
  ]

  -- A blocked node's heartbeat never changes the store, and is answered by 403 with the reason of
  -- the block, or by 400 or 401.
  pub handle_heartbeat_blocked :
      (q : LeaseRecord)
      → Holds q (lookup req.node_uuid s.nodes)
      → (outcome.0 ≡ s)
        × ((outcome.1 ≡ reply forbidden (error_response "node_blocked" q.block_reason))
            ⊎ (outcome.1.code ≡ 400)
            ⊎ (outcome.1.code ≡ 401))
  unfolding handle_heartbeat accept_heartbeat
  handle_heartbeat_blocked q held = ground (
    arith,
    heartbeat_by_uuid_blocked c.io req.node_uuid c.now s q held req.node_ip req.hostname
        h.lease_duration,
  )

module _ (h : HttpHandler) where
  -- An admin token that is not empty opens the admin endpoints after "Bearer ", and also bare,
  -- unless it begins with "Bearer " itself; nothing else does, and an empty token opens nothing.
  pub authenticate_admin_iff :
      (authorization : String)
      → (authenticate_admin h authorization ≡ true) ↔ (
          (h.admin_token ≢ "")
          × ((after_prefix "Bearer " authorization ≡ some h.admin_token)
              ⊎ ((after_prefix "Bearer " authorization ≡ none) × (authorization ≡ h.admin_token))))
  unfolding authenticate_admin trim_prefix
  authenticate_admin_iff a = elim (Option-cases (after_prefix "Bearer " a)) [
    | inl bare ↦ (
      λ k. ground (arith, eq_iff a "", eq_iff a h.admin_token),
      λ k. ground (arith, eq_iff a "", eq_iff a h.admin_token),
    )
    | inr (t, behind) ↦ (
      λ k. ground (arith, eq_iff t "", eq_iff t h.admin_token),
      λ k. ground (arith, eq_iff t "", eq_iff t h.admin_token),
    )
  ]

  module _ (c : Context) (authorization uuid : String) (s : LeaseStore) where
    -- Without the token both endpoints that write answer 401 and leave the store alone.
    pub admin_denied :
        (enabled : Option Bool)
        → authenticate_admin h authorization ≡ false
        → (handle_unblock_node h c authorization uuid s
            ≡ (s, refuse unauthorized "invalid_admin_token"))
          × (handle_set_maintenance h c authorization uuid enabled s
              ≡ (s, refuse unauthorized "invalid_admin_token"))
    unfolding handle_unblock_node handle_set_maintenance
    admin_denied enabled bad = ground arith

    -- Where each node is stored once, Validate accepts the node after an Unblock that is answered
    -- by 200, until the new lease ends.
    pub handle_unblock_node-validate :
        (io : Io) (later : Time)
        → Distinct s.nodes
        → (handle_unblock_node h c authorization uuid s).1.code ≡ status_ok
        → after later (add c.now h.lease_duration) ≡ false
        → (validate io uuid later (handle_unblock_node h c authorization uuid s).0).2 ≡ none
    unfolding handle_unblock_node unblock validate validate_found is_expired
    handle_unblock_node-validate io later d good lasts = elim (Option-cases (lookup uuid s.nodes)) [
      | inl absent ↦ absurd (ground arith)
      | inr (r, held) ↦
          let c' = record c { lease_duration = h.lease_duration } in
          let s' = (handle_unblock_node h c authorization uuid s).0 in
          let renewed : lookup uuid s'.nodes ≡ some (unblocked c.now h.lease_duration r) =
            ground (arith, eq_iff uuid uuid, lookup-unblock c' s d uuid uuid) in
          rw (renewed, validate) (ground arith)
    ]
