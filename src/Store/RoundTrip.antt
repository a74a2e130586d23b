-- ===== src/Store/RoundTrip.antt =====
-- The JSON form of a LeaseRecord (pkg/server/lease_store.go): what is written is read back.
use kms_client.Prelude.{
  ap, ◌∙◌, String, ◌≡◌, refl, Bool, true, false, [], ◌∷◌, Option, none, some, arith, ◌==◌, eq_iff,
  if◌then◌else◌, Bool-cases, inl, inr, ◌++◌,
}
use kms_client.Clock.{Time, zero_time, is_zero}
use kms_client.Lease.{LeaseRecord, parse_status, status_text, empty_record}
use kms_client.Store.Json.{
  text, instant, Fields, time_field, time_field_omitzero, text_field_omitempty,
  flag_field_omitempty, ◌<+>◌, encode_record, decode_field, decode_fields, decode_record,
}

is_zero-eq : (t : Time) → is_zero t ≡ true → t ≡ zero_time
unfolding is_zero
is_zero-eq t h = ground arith

-- The encoded fields before a later part.
time_field_inv :
    (k : String) (t : Time) (rest : Option Fields) {fs : Fields}
    → time_field k t <+> rest ≡ some fs
    → (more : Fields) × (rest ≡ some more) × (fs ≡ (k, instant t) ∷ more)
unfolding time_field
time_field_inv k t none h = absurd (ground arith)
time_field_inv k t (some more) h = (more, refl, ground arith)

abbrev nonzero_field : String → Time → Fields
nonzero_field k t = if is_zero t then [] else (k, instant t) ∷ []

time_field_omitzero_inv :
    (k : String) (t : Time) (rest : Option Fields) {fs : Fields}
    → time_field_omitzero k t <+> rest ≡ some fs
    → (more : Fields) × (rest ≡ some more) × (fs ≡ nonzero_field k t ++ more)
unfolding time_field_omitzero
time_field_omitzero_inv k t none h = absurd (ground arith)
time_field_omitzero_inv k t (some more) h = (more, refl, ground arith)

module _ (k : String) (r : LeaseRecord) (rest : Fields) where
  decode_nonzero_field :
      (t : Time) (put : Time → LeaseRecord)
      → ((u : Time) → decode_field k (instant u) r ≡ some (put u))
      → put zero_time ≡ r
      → decode_fields (nonzero_field k t ++ rest) r ≡ decode_fields rest (put t)
  unfolding decode_fields
  decode_nonzero_field t put sets same = elim (Bool-cases (is_zero t)) [
    | inl z ↦ rw (z, is_zero-eq t z, same)
    | inr n ↦ rw (n, decode_fields, sets)
  ]

  decode_text_field :
      (s : String) (put : String → LeaseRecord)
      → ((u : String) → decode_field k (text u) r ≡ some (put u))
      → put "" ≡ r
      → decode_fields (text_field_omitempty k s ++ rest) r ≡ decode_fields rest (put s)
  unfolding decode_fields text_field_omitempty
  decode_text_field s put sets same = elim (Bool-cases (s == "")) [
    | inl z ↦ rw (z, (eq_iff s "").0 z, same)
    | inr n ↦ rw (n, decode_fields, sets)
  ]

decode_flag_field :
    (r : LeaseRecord) (b : Bool)
    → r.maintenance ≡ false
    → decode_fields (flag_field_omitempty "maintenance" b) r ≡ some (record r { maintenance = b })
unfolding decode_fields flag_field_omitempty decode_field
decode_flag_field r true same = refl
decode_flag_field r false same = ground arith

-- The part of a record's fields that cannot fail.
abbrev text_fields : LeaseRecord → Fields
text_fields r =
    ("last_unseal_ip", text r.last_unseal_ip)
    ∷ ("status", text (status_text r.status))
    ∷ (text_field_omitempty "node_ip" r.node_ip
        ++ (text_field_omitempty "hostname" r.hostname
            ++ (text_field_omitempty "block_reason" r.block_reason
                ++ flag_field_omitempty "maintenance" r.maintenance)))

decode-text_fields :
    (r q : LeaseRecord)
    → parse_status (status_text r.status) ≡ r.status
    → q.node_ip ≡ ""
    → q.hostname ≡ ""
    → q.block_reason ≡ ""
    → q.maintenance ≡ false
    → decode_fields (text_fields r) q
      ≡ some (record r {
        last_heartbeat_at = q.last_heartbeat_at;
        lease_until = q.lease_until;
        last_unseal_at = q.last_unseal_at;
        first_seen = q.first_seen;
        blocked_at = q.blocked_at;
        maintenance_at = q.maintenance_at;
      })
unfolding decode_fields decode_field
decode-text_fields r q canonical e f g h =
    let q0 = record q {
      last_unseal_ip = r.last_unseal_ip;
      status = parse_status (status_text r.status);
    } in
    let q1 = record q0 { node_ip = r.node_ip } in
    let q2 = record q1 { hostname = r.hostname } in
    let q3 = record q2 { block_reason = r.block_reason } in
    decode_text_field "node_ip" q0 _ r.node_ip (λ u. record q0 { node_ip = u }) (λ u. refl)
      (ground arith)
    ∙ decode_text_field "hostname" q1 _ r.hostname (λ u. record q1 { hostname = u }) (λ u. refl)
        (ground arith)
    ∙ decode_text_field "block_reason" q2 _ r.block_reason (λ u. record q2 { block_reason = u })
        (λ u. refl) (ground arith)
    ∙ decode_flag_field q3 r.maintenance h
    ∙ ap (λ st. some (record q3 { status = st; maintenance = r.maintenance })) canonical

-- The fields of times, then the rest.
abbrev all_fields : LeaseRecord → Fields
all_fields r =
    ("last_heartbeat_at", instant r.last_heartbeat_at)
    ∷ ("lease_until", instant r.lease_until)
    ∷ ("last_unseal_at", instant r.last_unseal_at)
    ∷ (nonzero_field "first_seen" r.first_seen
        ++ (nonzero_field "blocked_at" r.blocked_at
            ++ (nonzero_field "maintenance_at" r.maintenance_at ++ text_fields r)))

encode_record-all_fields :
    (r : LeaseRecord) {fs : Fields} → encode_record r ≡ some fs → fs ≡ all_fields r
unfolding encode_record
encode_record-all_fields r h =
    let (f1, h1, e1) = time_field_inv "last_heartbeat_at" r.last_heartbeat_at _ h in
    let (f2, h2, e2) = time_field_inv "lease_until" r.lease_until _ h1 in
    let (f3, h3, e3) = time_field_inv "last_unseal_at" r.last_unseal_at _ h2 in
    let (f4, h4, e4) = time_field_omitzero_inv "first_seen" r.first_seen _ h3 in
    let (f5, h5, e5) = time_field_omitzero_inv "blocked_at" r.blocked_at _ h4 in
    let (f6, h6, e6) = time_field_omitzero_inv "maintenance_at" r.maintenance_at _ h5 in
    let e7 : f6 ≡ text_fields r = cc in rw (e1, e2, e3, e4, e5, e6, e7)

decode-all_fields :
    (r : LeaseRecord)
    → parse_status (status_text r.status) ≡ r.status
    → decode_fields (all_fields r) empty_record ≡ some r
unfolding decode_fields decode_field
decode-all_fields r canonical =
    let q0 = record empty_record {
      last_heartbeat_at = r.last_heartbeat_at;
      lease_until = r.lease_until;
      last_unseal_at = r.last_unseal_at;
    } in
    let q1 = record q0 { first_seen = r.first_seen } in
    let q2 = record q1 { blocked_at = r.blocked_at } in
    let q3 = record q2 { maintenance_at = r.maintenance_at } in
    decode_nonzero_field "first_seen" q0 _ r.first_seen (λ u. record q0 { first_seen = u })
      (λ u. refl) refl
    ∙ decode_nonzero_field "blocked_at" q1 _ r.blocked_at (λ u. record q1 { blocked_at = u })
        (λ u. refl) refl
    ∙ decode_nonzero_field "maintenance_at" q2 _ r.maintenance_at
        (λ u. record q2 { maintenance_at = u }) (λ u. refl) refl
    ∙ decode-text_fields r q3 canonical refl refl refl refl

-- A record is read back as it was written, its omitted fields included.
pub decode-encode_record :
    (r : LeaseRecord) {fs : Fields}
    → parse_status (status_text r.status) ≡ r.status
    → encode_record r ≡ some fs
    → decode_record fs ≡ some r
unfolding decode_record
decode-encode_record r canonical h =
    rw (encode_record-all_fields r h) (decode-all_fields r canonical)
