-- ===== src/Store/State.antt =====
-- The state of a LeaseStore with the disk under it, NewFileLeaseStore, load, persistLocked and
-- updateLeaseMetricsLocked of pkg/server/lease_store.go.
use kms_client.Prelude.{
  ℕ, ◌+◌, String, Bool, ◌||◌, [], ◌∷◌, Option, none, some, ◌==◌, if◌then◌else◌,
}
use kms_client.Clock.{Time}
use kms_client.Lease.{LeaseRecord, is_blocked, is_marked_expired, is_expired}
use kms_client.Nodes.{Nodes}
use kms_client.Metrics.{Metrics, set_lease_counts, inc_lease_store_error}
use kms_client.Store.Json.{Document, marshal, unmarshal}

-- The operation that failed: the label of kms_lease_store_errors_total.
pub data Fault : Type 0 where
  read decode mkdir encode write rename : Fault

abbrev pub fault_label : Fault → String
fault_label read = "read"
fault_label decode = "decode"
fault_label mkdir = "mkdir"
fault_label encode = "encode"
fault_label write = "write"
fault_label rename = "rename"

-- The sentinel errors, and the wrapped errors of the file operations.
pub data StoreError : Type 0 where
  lease_expired lease_not_found node_ip_not_found lease_blocked : StoreError
  file_error : Fault → StoreError

pub data Content : Type 0 where
  empty_file undecodable : Content
  document : Document → Content

-- The file at `path`, and the one at `path + ".tmp"`.
pub record Disk : Type 0 where
  pub main : Option Content
  pub temporary : Option Content

-- How the file system answers the calls of one operation. A failed write may leave any content.
pub record Io : Type 0 where
  pub can_read : Bool
  pub can_mkdir : Bool
  pub can_write : Bool
  pub can_rename : Bool
  pub left_behind : Option Content

pub record LeaseStore : Type 0 where
  pub nodes : Nodes LeaseRecord
  pub metrics : Option Metrics
  pub path : String
  pub disk : Disk

-- The loop over the nodes: how many leases are active, and how many are not. The counts do not
-- depend on the order of the visits.
unfoldable pub count_leases : Time → Nodes LeaseRecord → ℕ × ℕ → ℕ × ℕ
count_leases now [] counts = counts
count_leases now ((k, r) ∷ m) (active, expired) = count_leases now m (
    if is_blocked r.status || is_marked_expired r.status || is_expired r now
    then (active, expired + 1)
    else (active + 1, expired))

unfoldable pub update_lease_metrics_locked : Time → LeaseStore → LeaseStore
update_lease_metrics_locked now s =
    let (active, expired) = count_leases now s.nodes (0, 0) in
    record s { metrics = set_lease_counts active expired s.metrics }

abbrev fail : Fault → LeaseStore → LeaseStore × Option StoreError
fail fault s = (
  record s { metrics = inc_lease_store_error (fault_label fault) s.metrics },
  some (file_error fault),
)

unfoldable pub write_and_rename : Io → Document → LeaseStore → LeaseStore × Option StoreError
write_and_rename io d s =
    if io.can_write
    then if io.can_rename
      then (record s { disk = record { main = some (document d); temporary = none } }, none)
      else fail rename (record s { disk = record (s.disk) { temporary = some (document d) } })
    else fail write (record s { disk = record (s.disk) { temporary = io.left_behind } })

unfoldable pub persist_locked : Io → LeaseStore → LeaseStore × Option StoreError
unfolding write_and_rename
persist_locked io s =
    if s.path == ""
    then (s, none)
    else if io.can_mkdir
    then elim (marshal s.nodes) [ none ↦ fail encode s | some d ↦ write_and_rename io d s ]
    else fail mkdir s

unfoldable pub load_content : Time → Content → LeaseStore → LeaseStore × Option StoreError
load_content now empty_file s = (s, none)
load_content now undecodable s = fail decode s
load_content now (document d) s = elim (unmarshal d) [
  | none ↦ fail decode s
  | some nodes ↦ (update_lease_metrics_locked now (record s { nodes = nodes }), none)
]

-- store.load(); a file that does not exist is no error.
unfoldable pub load : Io → Time → LeaseStore → LeaseStore × Option StoreError
unfolding load_content
load io now s =
    if io.can_read
    then elim s.disk.main [ none ↦ (s, none) | some c ↦ load_content now c s ]
    else fail read s

abbrev fresh : String → Option Metrics → Disk → LeaseStore
fresh path metrics disk = record { nodes = []; metrics = metrics; path = path; disk = disk }

-- NewFileLeaseStore(path, metrics), at the time `now`. After an error the caller gets no store.
unfoldable pub new_file_lease_store :
    Io → Time → String → Option Metrics → Disk → LeaseStore × Option StoreError
unfolding load
new_file_lease_store io now path metrics disk =
    if path == ""
    then (update_lease_metrics_locked now (fresh path metrics disk), none)
    else load io now (fresh path metrics disk)
