-- ===== src/Store/Grace.antt =====
-- Maintenance and leases that are over, in pkg/server/lease_store.go.
use kms_client.Prelude.{
  String, ◌≡◌, ◌⊎◌, inl, inr, true, false, List, [], ◌∷◌, some, arith, eq_iff, Option-cases,
}
use kms_client.Clock.{Time}
use kms_client.Lease.{LeaseRecord, is_blocked}
use kms_client.Nodes.{lookup}
use kms_client.Store.State.{LeaseStore, Io, Fault, lease_expired, file_error, persist_locked}
use kms_client.Store.Leases.{
  validate, validate_found, is_over, marked_expired, with_maintenance, mark_expired, put_record,
}
use kms_client.Store.Effects.{persist_locked-IsFileError}
use kms_client.Store.Calls.{Op, Context, apply, run, validates, maintains}
use kms_client.Store.Spec.{effect, lookup-apply}
use kms_client.Store.Invariant.{IsValid, apply-IsValid}

-- A check of the lease, and then the end of the maintenance.
abbrev pub check_and_end : String → Context → Context → List (Context × Op)
check_and_end k asked after_end = (asked, validates k) ∷ (after_end, maintains k false) ∷ []

module _ (k : String) (asked after_end : Context) (s : LeaseStore) (r : LeaseRecord)
    (v : IsValid s) where
  abbrev ended : LeaseRecord
  ended = with_maintenance false after_end.now after_end.lease_duration (marked_expired r)

  lookup-ended :
      lookup k s.nodes ≡ some r
      → is_blocked r.status ≡ false
      → is_over r asked.now ≡ true
      → lookup k (run s (check_and_end k asked after_end)).nodes ≡ some ended
  unfolding run effect
  lookup-ended held active over =
      let s' = apply asked (validates k) s in
      let v' : IsValid s' = apply-IsValid asked (validates k) s tt v in
      let marked : lookup k s'.nodes ≡ some (marked_expired r) =
        ground
          (arith, eq_iff k k, lookup-apply asked s v.distinct (validates k) k v.unique_ips tt) in
      ground (
        arith,
        eq_iff k k,
        lookup-apply after_end s' v'.distinct (maintains k false) k v'.unique_ips tt,
      )

  -- In a valid store, a node that is not blocked and that asked for its key when its lease was over,
  -- under maintenance or not, gains nothing by the end of its maintenance, which renews its lease:
  -- after the two calls Validate refuses it at any time, as expired or for a failing write.
  pub validate_ended :
      (io : Io) (now : Time)
      → lookup k s.nodes ≡ some r
      → is_blocked r.status ≡ false
      → is_over r asked.now ≡ true
      → ((validate io k now (run s (check_and_end k asked after_end))).2 ≡ some lease_expired)
        ⊎ ((fault : Fault) × ((validate io k now (run s (check_and_end k asked after_end))).2
              ≡ some (file_error fault)))
  unfolding validate validate_found mark_expired
  validate_ended io now held active over =
      let t = run s (check_and_end k asked after_end) in
      let found = lookup-ended held active over in
      let marked = put_record k (marked_expired ended) now t in
      let fault = persist_locked-IsFileError io marked in
      elim (Option-cases (persist_locked io marked).1) [
        | inl fine ↦ inl (ground (arith, found))
        | inr (file_error f, bad) ↦ inr (f, ground (arith, found))
        | inr (e, bad) ↦ absurd (ground (arith, fault))
      ]
