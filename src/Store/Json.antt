-- ===== src/Store/Json.antt =====
-- The JSON documents of the lease file, as trees: the struct tags of LeaseRecord and leaseStoreFile
-- in pkg/server/lease_store.go, with `omitempty` and `omitzero`. The text of a document is not
-- modelled. A time is written if its year has four digits.
use kms_client.Prelude.{
  ℕ, ◌*◌, ◌-◌, String, Bool, ◌&&◌, List, [], ◌∷◌, ◌++◌, Option, none, some, ◌==◌, if◌then◌else◌,
}
use kms_client.Prelude.Int.{pos, negsuc, leb_ℤ, ltb_ℤ}
use kms_client.Clock.{Time, second, is_zero}
use kms_client.Lease.{LeaseRecord, status_text, parse_status, empty_record}
use kms_client.Nodes.{Nodes, insert}

pub data Field : Type 0 where
  null : Field
  text : String → Field
  flag : Bool → Field
  instant : Time → Field

abbrev pub Fields : Type 0
Fields = List (String × Field)

-- `{"nodes": …}`; `none` is a document that has no such field, or null in it.
pub record Document : Type 0 where
  pub nodes : Option (Nodes Fields)

abbrev day : ℕ
day = 86_400 * second

-- Time.MarshalJSON accepts the years 0 to 9999.
unfoldable pub has_four_digit_year : Time → Bool
has_four_digit_year t = leb_ℤ (negsuc (366 * day - 1)) t && ltb_ℤ t (pos (3_652_059 * day))

-- The field of a time; `none` is an error of the encoder.
unfoldable pub time_field : String → Time → Option Fields
unfolding has_four_digit_year
time_field k t = if has_four_digit_year t then some ((k, instant t) ∷ []) else none

-- omitzero
unfoldable pub time_field_omitzero : String → Time → Option Fields
unfolding time_field
time_field_omitzero k t = if is_zero t then some [] else time_field k t

-- omitempty
unfoldable pub text_field_omitempty : String → String → Fields
text_field_omitempty k s = if s == "" then [] else (k, text s) ∷ []

unfoldable pub flag_field_omitempty : String → Bool → Fields
flag_field_omitempty k b = if b then (k, flag b) ∷ [] else []

infixr 65 ◌<+>◌
abbrev pub ◌<+>◌ : Option Fields → Option Fields → Option Fields
none <+> b = none
some a <+> none = none
some a <+> some b = some (a ++ b)

-- json.Marshal of a LeaseRecord, in the order of the struct.
unfoldable pub encode_record : LeaseRecord → Option Fields
encode_record r =
    time_field "last_heartbeat_at" r.last_heartbeat_at
    <+> time_field "lease_until" r.lease_until
    <+> time_field "last_unseal_at" r.last_unseal_at
    <+> time_field_omitzero "first_seen" r.first_seen
    <+> time_field_omitzero "blocked_at" r.blocked_at
    <+> time_field_omitzero "maintenance_at" r.maintenance_at
    <+> some (
        ("last_unseal_ip", text r.last_unseal_ip)
        ∷ ("status", text (status_text r.status))
        ∷ (text_field_omitempty "node_ip" r.node_ip
            ++ (text_field_omitempty "hostname" r.hostname
                ++ (text_field_omitempty "block_reason" r.block_reason
                    ++ flag_field_omitempty "maintenance" r.maintenance))))

set_time : (LeaseRecord → Time → LeaseRecord) → Field → LeaseRecord → Option LeaseRecord
set_time put null r = some r
set_time put (instant t) r = some (put r t)
set_time put _ r = none

set_text : (LeaseRecord → String → LeaseRecord) → Field → LeaseRecord → Option LeaseRecord
set_text put null r = some r
set_text put (text s) r = some (put r s)
set_text put _ r = none

set_flag : (LeaseRecord → Bool → LeaseRecord) → Field → LeaseRecord → Option LeaseRecord
set_flag put null r = some r
set_flag put (flag b) r = some (put r b)
set_flag put _ r = none

-- One field of an object: null leaves the struct alone, a value of another type is an error, and a
-- name that the struct lacks is skipped. Names are compared exactly; encoding/json also accepts a
-- name that differs in case, which no document that the server writes has.
unfoldable pub decode_field : String → Field → LeaseRecord → Option LeaseRecord
unfolding set_time set_text set_flag parse_status
decode_field k f r =
    if k == "last_heartbeat_at"
    then set_time (λ q t. record q { last_heartbeat_at = t }) f r
    else if k == "lease_until"
    then set_time (λ q t. record q { lease_until = t }) f r
    else if k == "last_unseal_at"
    then set_time (λ q t. record q { last_unseal_at = t }) f r
    else if k == "first_seen"
    then set_time (λ q t. record q { first_seen = t }) f r
    else if k == "blocked_at"
    then set_time (λ q t. record q { blocked_at = t }) f r
    else if k == "maintenance_at"
    then set_time (λ q t. record q { maintenance_at = t }) f r
    else if k == "last_unseal_ip"
    then set_text (λ q s. record q { last_unseal_ip = s }) f r
    else if k == "status"
    then set_text (λ q s. record q { status = parse_status s }) f r
    else if k == "node_ip"
    then set_text (λ q s. record q { node_ip = s }) f r
    else if k == "hostname"
    then set_text (λ q s. record q { hostname = s }) f r
    else if k == "block_reason"
    then set_text (λ q s. record q { block_reason = s }) f r
    else if k == "maintenance"
    then set_flag (λ q b. record q { maintenance = b }) f r
    else some r

unfoldable pub decode_fields : Fields → LeaseRecord → Option LeaseRecord
decode_fields [] r = some r
decode_fields ((k, f) ∷ fs) r = elim (decode_field k f r) [
  | none ↦ none
  | some q ↦ decode_fields fs q
]

-- json.Unmarshal into a LeaseRecord
unfoldable pub decode_record : Fields → Option LeaseRecord
unfolding decode_fields
decode_record fs = decode_fields fs empty_record

unfoldable pub encode_nodes : Nodes LeaseRecord → Option (Nodes Fields)
encode_nodes [] = some []
encode_nodes ((k, r) ∷ m) = elim (encode_record r) [
  | none ↦ none
  | some f ↦ elim (encode_nodes m) [ none ↦ none | some d ↦ some ((k, f) ∷ d) ]
]

-- json.MarshalIndent of leaseStoreFile{Nodes: nodes}. The encoder sorts the keys, which no reader
-- of the object sees.
unfoldable pub marshal : Nodes LeaseRecord → Option Document
marshal nodes = elim (encode_nodes nodes) [
  | none ↦ none
  | some m ↦ some (record { nodes = some m })
]

-- The members of an object go into the map in turn, so that the last of one name stays.
unfoldable pub decode_nodes : Nodes Fields → Nodes LeaseRecord → Option (Nodes LeaseRecord)
decode_nodes [] acc = some acc
decode_nodes ((k, f) ∷ m) acc = elim (decode_record f) [
  | none ↦ none
  | some r ↦ decode_nodes m (insert k r acc)
]

-- json.Unmarshal of the file, with `payload.Nodes == nil` read as the empty map.
unfoldable pub unmarshal : Document → Option (Nodes LeaseRecord)
unmarshal d = elim d.nodes [ none ↦ some [] | some m ↦ decode_nodes m [] ]
