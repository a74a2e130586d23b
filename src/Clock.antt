-- ===== src/Clock.antt =====
-- Go's `time`, as pkg/server uses it. A time is the number of nanoseconds since the zero time of
-- Go (January 1 of year 1, UTC), so `time.Time{}` is 0; a duration is an `int64` of nanoseconds.
use kms_client.Prelude.{◌-◌, ◌/◌, ◌^◌, Bool, if◌then◌else◌, ℕ}
use kms_client.Prelude.Int.{ℤ, pos, negsuc, ◌+ℤ◌, ◌-ℤ◌, ltb_ℤ, eq_ℤ}

abbrev pub Time : Type 0
Time = ℤ

abbrev pub Duration : Type 0
Duration = ℤ

-- `time.Time{}`
abbrev pub zero_time : Time
zero_time = pos 0

-- t.IsZero()
unfoldable pub is_zero : Time → Bool
is_zero t = eq_ℤ t zero_time

-- t.After(u)
unfoldable pub after : Time → Time → Bool
after t u = ltb_ℤ u t

-- t.Add(d)
unfoldable pub add : Time → Duration → Time
add t d = t +ℤ d

abbrev pub min_duration : Duration
min_duration = negsuc (2 ^ 63 - 1)

abbrev pub max_duration : Duration
max_duration = pos (2 ^ 63 - 1)

-- t.Sub(u): a difference that no duration can hold becomes the least or the greatest duration.
unfoldable pub sub : Time → Time → Duration
sub t u =
    let d = t -ℤ u in
    if ltb_ℤ d min_duration then min_duration else if ltb_ℤ max_duration d then max_duration else d

abbrev pub second : ℕ
second = 1_000_000_000

-- The Unix epoch, in seconds after the zero time.
abbrev pub unix_epoch : ℕ
unix_epoch = 62_135_596_800

floor_seconds : Time → ℤ
floor_seconds (pos n) = pos (n / second)
floor_seconds (negsuc n) = negsuc (n / second)

-- t.Unix()
unfoldable pub unix : Time → ℤ
unfolding floor_seconds
unix t = floor_seconds t -ℤ pos unix_epoch
