-- ===== src/Hmac/Timestamp.antt =====
-- ValidateTimestamp of pkg/server/hmac.go.
use kms_client.Prelude.{ℕ, ◌^◌, ◌<◌, ◌≡◌, ◌↔◌, ◌⊎◌, Bool, true, inl, inr, arith, if◌then◌else◌}
use kms_client.Prelude.Int.{ℤ, pos, negsuc, ◌-ℤ◌, ◌+ℤ◌, ◌≤ℤ◌, ltb_ℤ, leb_ℤ, wrap, IsInt64, two_63}
use kms_client.Clock.{Time, unix}

abbrev pub tolerance : ℤ
tolerance = pos 60

-- diff < 0 gives -diff, which wraps like every operation of `int64`.
unfoldable pub absolute : ℤ → ℤ
absolute diff = if ltb_ℤ diff (pos 0) then wrap (pos 0 -ℤ diff) else diff

unfoldable pub validate_timestamp : ℤ → Time → Bool
unfolding absolute
validate_timestamp timestamp now = leb_ℤ (absolute (wrap (unix now -ℤ timestamp))) tolerance

-- The distance of two values is at most 60.
abbrev pub IsNear : ℤ → ℤ → Type 0
IsNear a b = (a ≤ℤ b +ℤ tolerance) × (b ≤ℤ a +ℤ tolerance)

abbrev accepts : ℕ → ℤ → Bool
accepts n ts = leb_ℤ (absolute (wrap (pos n -ℤ ts))) tolerance

accepts_only :
    (n : ℕ) (ts : ℤ)
    → n < 2 ^ 62
    → IsInt64 ts
    → accepts n ts ≡ true
    → IsNear (pos n) ts ⊎ (ts ≡ pos n -ℤ pos two_63)
unfolding absolute wrap ◌-ℤ◌ ◌+ℤ◌
accepts_only n (pos m) hn hts h = inl (ground arith)
accepts_only n (negsuc m) hn hts h = ground arith

accepts_near : (n : ℕ) (ts : ℤ) → n < 2 ^ 62 → IsInt64 ts → IsNear (pos n) ts → accepts n ts ≡ true
unfolding absolute wrap ◌-ℤ◌ ◌+ℤ◌
accepts_near n (pos m) hn hts h = ground arith
accepts_near n (negsuc m) hn hts h = ground arith

accepts_opposite : (n : ℕ) → n < 2 ^ 62 → accepts n (pos n -ℤ pos two_63) ≡ true
unfolding absolute wrap ◌-ℤ◌
accepts_opposite n hn = ground arith

-- A clock between the Unix epoch and 2 ^ 62 seconds after it accepts exactly the timestamps within
-- 60 seconds, and one more: the one that lies 2 ^ 63 before it, whose difference wraps to the
-- least `int64` and stays negative when it is negated.
pub validate_timestamp_iff :
    (n : ℕ) (ts : ℤ) (now : Time)
    → unix now ≡ pos n
    → n < 2 ^ 62
    → IsInt64 ts
    → (validate_timestamp ts now ≡ true) ↔ (IsNear (pos n) ts ⊎ (ts ≡ pos n -ℤ pos two_63))
unfolding validate_timestamp
validate_timestamp_iff n ts now e hn hts = (
  λ h. accepts_only n ts hn hts (rw e at h),
  λ near.
      rw e
        (elim near [ inl h ↦ accepts_near n ts hn hts h | inr h ↦ rw h (accepts_opposite n hn) ]),
)
