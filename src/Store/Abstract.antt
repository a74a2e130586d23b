-- ===== src/Store/Abstract.antt =====
-- The lease store of pkg/server/lease_store.go as its callers may think of it: a function from nodes
-- to records. The order of the map, of its loops and the answers of the file system do not show.
use kms_client.Prelude.{String, ◌≡◌, refl, sym, ◌∙◌, ap, subst, List, [], ◌∷◌, Option}
use kms_client.Lease.{LeaseRecord}
use kms_client.Nodes.{Nodes, lookup}
use kms_client.Store.State.{LeaseStore}
use kms_client.Store.Calls.{
  Op, bootstraps, heartbeats_by_ip, validates, heartbeats_by_uuid, unblocks, maintains, sweeps,
  Context, apply, run,
}
use kms_client.Store.Spec.{effect, NamesIp, lookup-apply}
use kms_client.Store.Invariant.{IsValid, AllNamed, apply-IsValid}

abbrev pub View : Type 0
View = String → Option LeaseRecord

abbrev pub view : Nodes LeaseRecord → View
view m k = lookup k m

-- The specification of a run.
unfoldable pub spec_run : View → List (Context × Op) → View
spec_run f [] = f
spec_run f ((c, op) ∷ rest) = spec_run (λ k. effect c op k (f k)) rest

-- In a valid store, any calls (those by IP with an IP that is not empty) change the function from
-- nodes to records exactly as the specification of the calls says, node by node, whatever the order
-- of the map and its loops and the answers of the file system.
pub view-run :
    (s : LeaseStore) (calls : List (Context × Op))
    → IsValid s
    → AllNamed calls
    → view (run s calls).nodes ≡ spec_run (view s.nodes) calls
unfolding run spec_run
view-run s [] v named = refl
view-run s ((c, op) ∷ rest) v named =
    view-run (apply c op s) rest (apply-IsValid c op s named.0 v) named.1
    ∙ ap (λ f. spec_run f rest) (λ i k. lookup-apply c s v.distinct op k v.unique_ips named.0 i)

-- The same calls at the same times, whatever the orders of their loops and the file system's answers.
abbrev pub AreAlike : List (Context × Op) → List (Context × Op) → Type 0
AreAlike [] [] = Unit
AreAlike ((c, op) ∷ xs) ((c', op') ∷ ys) =
    (op ≡ op') × (c.now ≡ c'.now) × (c.lease_duration ≡ c'.lease_duration) × AreAlike xs ys
AreAlike xs ys = ⊥

effect-eq :
    (c c' : Context) (op : Op) (k : String) (o : Option LeaseRecord)
    → c.now ≡ c'.now
    → c.lease_duration ≡ c'.lease_duration
    → effect c op k o ≡ effect c' op k o
unfolding effect
effect-eq c c' (bootstraps u ip) k o e d = rw (e, d) refl
effect-eq c c' (heartbeats_by_ip ip) k o e d = rw (e, d) refl
effect-eq c c' (validates u) k o e d = rw e refl
effect-eq c c' (heartbeats_by_uuid u ip hostname) k o e d = rw (e, d) refl
effect-eq c c' (unblocks u) k o e d = rw (e, d) refl
effect-eq c c' (maintains u enabled) k o e d = rw (e, d) refl
effect-eq c c' (sweeps t) k o e d = rw e refl

spec_run-eq :
    (f : View) (xs ys : List (Context × Op)) → AreAlike xs ys → spec_run f xs ≡ spec_run f ys
unfolding spec_run
spec_run-eq f [] [] alike = refl
spec_run-eq f ((c, op) ∷ xs) ((c', op') ∷ ys) alike =
    let step : (λ k. effect c op k (f k)) ≡ (λ k. effect c' op' k (f k)) =
      (λ i k. effect-eq c c' op k (f k) alike.1 alike.2 i)
      ∙ ap (λ o. (λ k. effect c' o k (f k))) alike.0 in
    ap (λ g. spec_run g xs) step ∙ spec_run-eq (λ k. effect c' op' k (f k)) xs ys alike.3
spec_run-eq f [] (y ∷ ys) alike = absurd alike
spec_run-eq f (x ∷ xs) [] alike = absurd alike

AllNamed-alike : (xs ys : List (Context × Op)) → AreAlike xs ys → AllNamed xs → AllNamed ys
AllNamed-alike [] [] alike named = tt
AllNamed-alike ((c, op) ∷ xs) ((c', op') ∷ ys) alike named =
    (subst NamesIp alike.0 named.0, AllNamed-alike xs ys alike.3 named.1)
AllNamed-alike [] (y ∷ ys) alike named = absurd alike
AllNamed-alike (x ∷ xs) [] alike named = absurd alike

-- The records do not depend on what Go leaves open or on what fails: in two valid stores with the
-- same records, in whatever order, the same calls at the same times (those by IP with an IP that is
-- not empty) leave the same records, whatever the orders of the loops and the file system's answers.
pub view-run_alike :
    (s t : LeaseStore) (xs ys : List (Context × Op))
    → IsValid s
    → IsValid t
    → AllNamed xs
    → AreAlike xs ys
    → view s.nodes ≡ view t.nodes
    → view (run s xs).nodes ≡ view (run t ys).nodes
view-run_alike s t xs ys v w named alike same =
    view-run s xs v named
    ∙ ap (λ f. spec_run f xs) same
    ∙ spec_run-eq (view t.nodes) xs ys alike
    ∙ sym (view-run t ys w (AllNamed-alike xs ys alike named))
