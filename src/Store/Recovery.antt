-- ===== src/Store/Recovery.antt =====
-- What a restart after a crash finds in the file of pkg/server/lease_store.go.
use kms_client.Prelude.{
  ap, ◌∙◌, ◌⊎◌, inl, inr, String, ◌≡◌, refl, ◌≢◌, true, List, [], ◌∷◌, ◌++◌, Option, none, some,
  arith, eq_iff,
}
use kms_client.Clock.{Time}
use kms_client.Metrics.{Metrics}
use kms_client.Lease.{LeaseRecord}
use kms_client.Nodes.{Nodes}
use kms_client.Store.State.{
  LeaseStore, Io, Disk, Content, empty_file, document, new_file_lease_store, load, load_content,
  update_lease_metrics_locked,
}
use kms_client.Store.Json.{Document, unmarshal}
use kms_client.Store.Effects.{nodes-persist_locked}
use kms_client.Store.Calls.{Op, Context, apply, run}
use kms_client.Store.Invariant.{IsValid, AllNamed, apply-IsValid}
use kms_client.Store.Durable.{Restarts, unmarshal-marshal, persist_locked_atomic}
use kms_client.Store.Crash.{apply-Persisted, IsValid-nodes}

-- The file holds exactly these nodes; without a file, or with an empty one, there are none.
abbrev pub Finds : Option Content → Nodes LeaseRecord → Type 0
Finds main m =
    (((main ≡ none) ⊎ (main ≡ some empty_file)) × (m ≡ []))
    ⊎ ((d : Document) × (main ≡ some (document d)) × (unmarshal d ≡ some m))

pub Finds-Restarts :
    (io : Io) (now : Time) (path : String) (metrics : Option Metrics) (disk : Disk)
    (m : Nodes LeaseRecord)
    → path ≢ ""
    → io.can_read ≡ true
    → Finds disk.main m
    → Restarts io now path metrics disk m
unfolding new_file_lease_store load load_content update_lease_metrics_locked
Finds-Restarts io now path metrics disk m named readable (inl (inl absent, empty)) =
    ground (arith, eq_iff path "")
Finds-Restarts io now path metrics disk m named readable (inl (inr absent, empty)) =
    ground (arith, eq_iff path "")
Finds-Restarts io now path metrics disk m named readable (inr (d, held, decoded)) =
    ground (arith, eq_iff path "")

-- A call leaves the file alone, or with the nodes that it returns.
apply-Finds :
    (c : Context) (op : Op) (s : LeaseStore)
    → IsValid (apply c op s)
    → ((apply c op s).disk.main ≡ s.disk.main) ⊎ Finds (apply c op s).disk.main (apply c op s).nodes
apply-Finds c op s v = elim (apply-Persisted c s op) [
  | inl same ↦ inl (ap (λ x. x.main) same)
  | inr (u, at_first, last) ↦
      let nodes : u.nodes ≡ (apply c op s).nodes = rw (last, nodes-persist_locked) in
      elim (persist_locked_atomic c.io u) [
        | inl kept ↦ inl (ap (λ x. x.disk.main) last ∙ kept ∙ ap (λ x. x.main) at_first)
        | inr (d, encoded, written) ↦ inr (
            inr (
              d,
              ap (λ x. x.disk.main) last ∙ written,
              unmarshal-marshal u {d = d} (IsValid-nodes nodes v) encoded ∙ ap some nodes,
            ))
      ]
]

-- The file holds the nodes that the store had after the first of the calls.
abbrev pub FindsPrefix : LeaseStore → List (Context × Op) → Type 0
FindsPrefix s calls =
    (before after : List (Context × Op)) × (calls ≡ before ++ after)
    × Finds (run s calls).disk.main (run s before).nodes

pub run-Finds :
    (s : LeaseStore) (m : Nodes LeaseRecord) (calls : List (Context × Op))
    → AllNamed calls
    → IsValid s
    → Finds s.disk.main m
    → Finds (run s calls).disk.main m ⊎ FindsPrefix s calls
unfolding run
run-Finds s m [] named v found = inl found
run-Finds s m ((c, op) ∷ rest) named v found =
    let s' = apply c op s in
    let v' : IsValid s' = apply-IsValid c op s named.0 v in
    elim (apply-Finds c op s v') [
      | inl kept ↦ elim (run-Finds s' m rest named.1 v' (rw kept found)) [
        | inl old ↦ inl old
        | inr (before, after, split, newer) ↦
            inr ((c, op) ∷ before, after, ap (◌∷◌ (c, op)) split, newer)
      ]
      | inr written ↦ elim (run-Finds s' s'.nodes rest named.1 v' written) [
        | inl this ↦ inr ((c, op) ∷ [], rest, refl, this)
        | inr (before, after, split, newer) ↦
            inr ((c, op) ∷ before, after, ap (◌∷◌ (c, op)) split, newer)
      ]
    ]

-- From a valid store that agrees with its file, after any calls (those by IP with an IP that is not
-- empty) with any failures of the file system, a restart that can read the file has no error, and
-- finds exactly the nodes that the store had after some first part of those calls: never a mixture.
pub run-Restarts :
    (s : LeaseStore) (calls : List (Context × Op)) (io : Io) (now : Time) (path : String)
    (metrics : Option Metrics)
    → AllNamed calls
    → IsValid s
    → Finds s.disk.main s.nodes
    → path ≢ ""
    → io.can_read ≡ true
    → (before after : List (Context × Op)) × (calls ≡ before ++ after)
      × Restarts io now path metrics (run s calls).disk (run s before).nodes
unfolding run
run-Restarts s calls io now path metrics named v found at_path readable =
    elim (run-Finds s s.nodes calls named v found) [
      | inl old ↦
          ([], calls, refl, Finds-Restarts io now path metrics _ s.nodes at_path readable old)
      | inr (before, after, split, newer) ↦ (
        before,
        after,
        split,
        Finds-Restarts io now path metrics _ (run s before).nodes at_path readable newer,
      )
    ]
