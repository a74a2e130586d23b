-- ===== src/System/Trace.antt =====
-- What Unseal of pkg/server/server.go does to the records, as a run of the store's calls.
use kms_client.Prelude.{
  ap, ◌∙◌, String, ◌≡◌, ◌⊎◌, Bool, true, false, not, Option, none, some, arith, ◌==◌, [], ◌∷◌, ◌&&◌,
  Option-cases, Bool-cases, inl, inr,
}
use kms_client.Store.State.{LeaseStore, StoreError}
use kms_client.Store.Leases.{validate}
use kms_client.Store.Calls.{Op, Context, with_duration, apply, run, bootstraps, validates}
use kms_client.Server.Labels.{observe_unseal}
use kms_client.Server.Peer.{peer_ip_from_context}
use kms_client.Server.Config.{Server, Call, Request, lease_enabled}
use kms_client.Server.Unseal.{
  unseal, unseal_body, admit, open_and_deliver, lease_error, register, bootstrap_as,
}

module _ (srv : Server) (call : Call) (req : Request) (s : LeaseStore) where
  abbrev pub checks : Context × Op
  checks = (call.at_validate, validates req.node_uuid)

  abbrev pub registers : String → Context × Op
  registers ip = (with_duration srv.lease_window call.at_update, bootstraps req.node_uuid ip)

  -- What Unseal does to the records: nothing, or the check of the lease, or the check and the
  -- node's new lease.
  pub data UnsealTrace : Type 0 where
    untouched : (unseal srv call req s).0.nodes ≡ s.nodes → UnsealTrace
    checked : (unseal srv call req s).0.nodes ≡ (run s (checks ∷ [])).nodes → UnsealTrace
    registered :
        (ip : String)
        → peer_ip_from_context srv.net call.peer ≡ some ip
        → (unseal srv call req s).0.nodes ≡ (run s (checks ∷ registers ip ∷ [])).nodes
        → UnsealTrace

  served_cases :
      (ip : String) (t : LeaseStore)
      → peer_ip_from_context srv.net call.peer ≡ some ip
      → ((open_and_deliver srv call req t).0 ≡ t)
        ⊎ ((open_and_deliver srv call req t).0
            ≡ (bootstrap_as srv req.node_uuid ip call.at_update t).0)
  unfolding open_and_deliver register
  served_cases ip t e = ground arith

  served_nobody :
      (t : LeaseStore)
      → (peer_ip_from_context srv.net call.peer ≡ none) ⊎ (lease_enabled srv ≡ false)
      → (open_and_deliver srv call req t).0 ≡ t
  unfolding open_and_deliver register
  served_nobody t e = ground arith

  unfoldable pub is_checked : Bool
  is_checked = lease_enabled srv && (not call.is_canceled && not (req.node_uuid == ""))

  admit_unchecked : is_checked ≡ false → (admit srv call req s).0 ≡ s
  unfolding admit is_checked
  admit_unchecked h = ground arith

  pub unseal_unchecked : is_checked ≡ false → (unseal srv call req s).0.nodes ≡ s.nodes
  unfolding unseal unseal_body observe_unseal admit is_checked
  unseal_unchecked h = ground (arith, served_nobody s)

  admit_checked :
      is_checked ≡ true
      → admit srv call req s
        ≡ lease_error
            (validate call.at_validate.io req.node_uuid call.at_validate.now s).2
            (validate call.at_validate.io req.node_uuid call.at_validate.now s).0
  unfolding admit is_checked
  admit_checked h = ground arith

  lease_error-store : (e : Option StoreError) (t : LeaseStore) → (lease_error e t).0 ≡ t
  unfolding lease_error
  lease_error-store e t = ground arith

  unseal_cases :
      (t : LeaseStore)
      → (admit srv call req s).0 ≡ t
      → ((unseal srv call req s).0.nodes ≡ t.nodes)
        ⊎ ((unseal srv call req s).0.nodes ≡ (open_and_deliver srv call req t).0.nodes)
  unfolding unseal unseal_body observe_unseal
  unseal_cases t e = ground arith

  seen : LeaseStore
  seen = (validate call.at_validate.io req.node_uuid call.at_validate.now s).0

  admit-seen : is_checked ≡ true → (admit srv call req s).0 ≡ seen
  unfolding seen
  admit-seen h = ground (
    arith,
    admit_checked h,
    lease_error-store (validate call.at_validate.io req.node_uuid call.at_validate.now s).2 seen,
  )

  -- The two halves of Unseal.
  pub admit-Trace :
      ((admit srv call req s).0 ≡ s) ⊎ ((admit srv call req s).0 ≡ run s (checks ∷ []))
  unfolding run apply seen
  admit-Trace = elim (Bool-cases is_checked) [
    | inl h ↦ inr (admit-seen h)
    | inr h ↦ inl (admit_unchecked h)
  ]

  pub open-Trace :
      ((open_and_deliver srv call req s).0 ≡ s)
      ⊎ ((ip : String) × ((open_and_deliver srv call req s).0 ≡ run s (registers ip ∷ [])))
  unfolding run apply bootstrap_as
  open-Trace = elim (Option-cases (peer_ip_from_context srv.net call.peer)) [
    | inl n ↦ inl (served_nobody s (inl n))
    | inr (ip, p) ↦ elim (served_cases ip s p) [ inl u ↦ inl u | inr u ↦ inr (ip, u) ]
  ]

  unseal_checked : is_checked ≡ true → UnsealTrace
  unfolding run apply bootstrap_as seen
  unseal_checked h = elim (unseal_cases seen (admit-seen h)) [
    | inl a ↦ checked a
    | inr b ↦ elim (Option-cases (peer_ip_from_context srv.net call.peer)) [
      | inl n ↦ checked (b ∙ ap (λ t. t.nodes) (served_nobody seen (inl n)))
      | inr (ip, p) ↦ elim (served_cases ip seen p) [
        | inl u ↦ checked (b ∙ ap (λ t. t.nodes) u)
        | inr u ↦ registered ip p (b ∙ ap (λ t. t.nodes) u)
      ]
    ]
  ]

  pub unseal-UnsealTrace : UnsealTrace
  unseal-UnsealTrace = elim (Bool-cases is_checked) [
    | inl h ↦ unseal_checked h
    | inr h ↦ untouched (unseal_unchecked h)
  ]
