-- ===== src/Store/Lives.antt =====
-- The lease store of pkg/server/lease_store.go through restarts: each life of the server opens the
-- file that the one before left, however it ended.
use kms_client.Prelude.{
  subst, inl, inr, String, ◌≡◌, refl, ◌≢◌, true, List, [], ◌∷◌, ◌++◌, Option, none, some, arith,
}
use kms_client.Clock.{Time}
use kms_client.Metrics.{Metrics}
use kms_client.Lease.{LeaseRecord}
use kms_client.Nodes.{lookup_nil}
use kms_client.Store.State.{
  LeaseStore, Io, Disk, new_file_lease_store, load, load_content, update_lease_metrics_locked,
  StoreError,
}
use kms_client.Store.Calls.{Op, Context, run}
use kms_client.Store.Invariant.{IsValid, AllNamed, run-IsValid}
use kms_client.Store.Durable.{Restarts}
use kms_client.Store.Crash.{IsValid-nodes}
use kms_client.Store.Recovery.{Finds, Finds-Restarts, run-Finds}

-- A life of the server: how and when it opens the file, and the calls until it stops or crashes.
pub record Life : Type 0 where
  pub io : Io
  pub now : Time
  pub metrics : Option Metrics
  pub calls : List (Context × Op)

abbrev started : List (Context × Op) → LeaseStore × Option StoreError → Option LeaseStore
started calls (s, none) = some (run s calls)
started calls (s, some e) = none

-- The store at the end of a life; `none` if the file cannot be opened.
unfoldable pub live : String → Life → Disk → Option LeaseStore
live path life disk =
    started life.calls (new_file_lease_store life.io life.now path life.metrics disk)

-- The store at the end of the last of several lives.
unfoldable pub live_on : String → Life → List Life → Disk → Option LeaseStore
live_on path life [] disk = live path life disk
live_on path life (next ∷ lives) disk = elim (live path life disk) [
  | none ↦ none
  | some s ↦ live_on path next lives s.disk
]

-- The file can be read, and calls by IP name one.
abbrev pub IsOpen : Life → Type 0
IsOpen life = (life.io.can_read ≡ true) × AllNamed life.calls

abbrev pub AllOpen : List Life → Type 0
AllOpen [] = Unit
AllOpen (life ∷ lives) = IsOpen life × AllOpen lives

-- The file holds the nodes of a valid store.
pub record IsSound (disk : Disk) : Type 0 where
  pub stored : LeaseStore
  pub valid : IsValid stored
  pub found : Finds disk.main stored.nodes

-- Without a file there are no nodes.
pub no_file-IsSound : (disk : Disk) → disk.main ≡ none → IsSound disk
no_file-IsSound disk absent = record {
  stored = record { nodes = []; metrics = none; path = ""; disk = disk };
  valid = record {
    distinct = tt;
    unique_ips = λ j k e named. absurd (named (rw lookup_nil refl));
    coherent = λ k r h. absurd (ground (arith, lookup_nil {V = LeaseRecord} k));
  };
  found = inl (inl absent, refl);
}

disk-new_file_lease_store :
    (io : Io) (now : Time) (path : String) (metrics : Option Metrics) (disk : Disk)
    → (new_file_lease_store io now path metrics disk).0.disk ≡ disk
unfolding new_file_lease_store load load_content update_lease_metrics_locked
disk-new_file_lease_store io now path metrics disk = ground arith

AllNamed-before :
    (before after : List (Context × Op)) → AllNamed (before ++ after) → AllNamed before
AllNamed-before [] after h = tt
AllNamed-before ((c, op) ∷ before) after h = (h.0, AllNamed-before before after h.1)

run-IsSound :
    (s : LeaseStore) (calls : List (Context × Op))
    → AllNamed calls
    → IsValid s
    → Finds s.disk.main s.nodes
    → IsSound (run s calls).disk
run-IsSound s calls named v found = elim (run-Finds s s.nodes calls named v found) [
  | inl old ↦ record { stored = s; valid = v; found = old }
  | inr (before, after, split, newer) ↦ record {
    stored = run s before;
    valid = run-IsValid s before (AllNamed-before before after (subst AllNamed split named)) v;
    found = newer;
  }
]

module _ (path : String) (at_path : path ≢ "") where
  live-IsSound :
      (life : Life) (disk : Disk)
      → IsOpen life
      → IsSound disk
      → (s : LeaseStore) × (live path life disk ≡ some s) × IsValid s × IsSound s.disk
  unfolding live
  live-IsSound life disk open_life sound =
      let opened = new_file_lease_store life.io life.now path life.metrics disk in
      let r : Restarts life.io life.now path life.metrics disk sound.stored.nodes =
        Finds-Restarts life.io life.now path life.metrics disk sound.stored.nodes at_path
          open_life.0 sound.found in
      let v : IsValid opened.0 = IsValid-nodes r.1 sound.valid in
      let found : Finds opened.0.disk.main opened.0.nodes =
        rw (disk-new_file_lease_store, r.1) sound.found in
      (
        run opened.0 life.calls,
        ground (arith, r.0),
        run-IsValid opened.0 life.calls open_life.1 v,
        run-IsSound opened.0 life.calls open_life.1 v found,
      )

  -- From a path whose file holds the nodes of a valid store (without a file there are none), the
  -- server starts in each of its lives, and ends each with a valid store, wherever a life ends and
  -- whatever fails in the writes of its calls, where the file can be read and no call by IP has an
  -- empty one.
  pub live_on-IsValid :
      (life : Life) (lives : List Life) (disk : Disk)
      → IsOpen life
      → AllOpen lives
      → IsSound disk
      → (s : LeaseStore) × (live_on path life lives disk ≡ some s) × IsValid s
  unfolding live_on
  live_on-IsValid life [] disk open_life opens sound =
      let (s, e, v, rest) = live-IsSound life disk open_life sound in (s, e, v)
  live_on-IsValid life (next ∷ lives) disk open_life opens sound =
      let (s, e, v, rest) = live-IsSound life disk open_life sound in
      rw (e, live_on) (live_on-IsValid next lives s.disk opens.0 opens.1 rest)
