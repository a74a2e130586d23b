-- ===== src/Agent/Backoff.antt =====
-- backoffDuration of cmd/kms-agent/main.go: its bounds, and where the product overflows.
use kms_client.Prelude.{
  ℕ, zero, suc, ◌+◌, ◌-◌, ◌*◌, ◌^◌, ◌≤◌, ◌<◌, ◌≡◌, inl, inr, Bool, true, false, List, [], ◌∷◌,
  Option, none, some, arith, if◌then◌else◌, leb, Bool-cases, All, String,
}
use kms_client.Prelude.Int.{ℤ, pos, negsuc, ◌*ℤ◌, ◌≤ℤ◌, ◌<ℤ◌, ltb_ℤ, two_63}
use kms_client.Clock.{Duration, second}
use kms_client.Agent.{
  max_backoff, backoff_duration, identify_loop, heartbeat_rounds, Round, shutdown, ticked,
}

pow_suc : (n : ℕ) → 2 ^ suc n ≡ 2 ^ n + 2 ^ n
pow_suc n = ground arith

pow_pos : (n : ℕ) → 1 ≤ 2 ^ n
pow_pos zero = ground arith
pow_pos (suc n) = ground (arith, pow_suc n, pow_pos n)

mul_double : (b m : ℕ) → b * (m + m) ≡ b * m + b * m
mul_double b m = ground arith

times_pos : (b m : ℕ) → pos b *ℤ pos m ≡ pos (b * m)
unfolding ◌*ℤ◌
times_pos b m = ground arith

-- The base, doubled once per further failure.
abbrev pub doubled : ℕ → ℕ → ℕ
doubled b f = b * 2 ^ f

doubled_base : (b f : ℕ) → b ≤ doubled b f
doubled_base b zero = ground arith
doubled_base b (suc f) = ground (arith, doubled_base b f, pow_suc f, mul_double b (2 ^ f))

backoff_exact :
    (out : ℤ → Duration) (b f : ℕ)
    → doubled b (suc f) < two_63
    → backoff_duration out (suc (suc f)) (pos b)
      ≡ (if leb (doubled b (suc f)) (300 * second) then pos (doubled b (suc f)) else max_backoff)
unfolding backoff_duration
backoff_exact out b f h = ground (arith, times_pos b (2 ^ suc f))

backoff_out :
    (out : ℤ → Duration) (b f : ℕ)
    → two_63 ≤ doubled b (suc f)
    → backoff_duration out (suc (suc f)) (pos b) ≡ (
        if ltb_ℤ max_backoff (out (pos (doubled b (suc f))))
        then max_backoff
        else out (pos (doubled b (suc f))))
unfolding backoff_duration
backoff_out out b f h = ground (arith, times_pos b (2 ^ suc f))

-- The conversion of too large a float64 gives the greatest `int64`, as on arm64.
abbrev pub Saturates : (ℤ → Duration) → Type 0
Saturates out = (n : ℕ) → two_63 ≤ n → out (pos n) ≡ pos (two_63 - 1)

-- It gives the least `int64`, as on amd64.
abbrev pub Underflows : (ℤ → Duration) → Type 0
Underflows out = (n : ℕ) → two_63 ≤ n → out (pos n) ≡ negsuc (two_63 - 1)

-- The wait is at least the interval, and at most five minutes.
abbrev pub IsBounded : ℕ → Duration → Type 0
IsBounded b w = (pos b ≤ℤ w) × (w ≤ℤ max_backoff)

backoff-IsBounded :
    (out : ℤ → Duration) (b f : ℕ)
    → Saturates out
    → b ≤ 300 * second
    → IsBounded b (backoff_duration out (suc f) (pos b))
unfolding backoff_duration
backoff-IsBounded out b zero sat small = ground arith
backoff-IsBounded out b (suc f) sat small = elim (Bool-cases (leb two_63 (doubled b (suc f)))) [
  | inl big ↦
      ground (arith, backoff_out out b f (ground arith), sat (doubled b (suc f)) (ground arith))
  | inr fits ↦ ground (arith, backoff_exact out b f (ground arith), doubled_base b (suc f))
]

backoff_negative :
    (out : ℤ → Duration) (b f : ℕ)
    → Underflows out
    → two_63 ≤ doubled b (suc f)
    → backoff_duration out (suc (suc f)) (pos b) <ℤ pos 0
backoff_negative out b f under big =
    ground (arith, backoff_out out b f big, under (doubled b (suc f)) big)

backoff_late :
    (out : ℤ → Duration) (b f : ℕ)
    → Underflows out
    → 1 ≤ f
    → two_63 ≤ doubled b f
    → backoff_duration out (suc f) (pos b) <ℤ pos 0
backoff_late out b zero under late big = absurd (ground arith)
backoff_late out b (suc f) under late big = backoff_negative out b f under big

module _ (out : ℤ → Duration) (b : ℕ) where
  -- Where the conversion of too large a float64 gives the greatest `int64`, and the interval is at
  -- most five minutes, every wait of the heartbeat loop lies between the interval and five
  -- minutes.
  pub heartbeat_rounds-IsBounded :
      (f : ℕ) (rounds : List Round)
      → Saturates out
      → b ≤ 300 * second
      → All (IsBounded b) (heartbeat_rounds out (pos b) f rounds)
  unfolding heartbeat_rounds
  heartbeat_rounds-IsBounded f [] sat small = tt
  heartbeat_rounds-IsBounded f (shutdown ∷ rounds) sat small = tt
  heartbeat_rounds-IsBounded f (ticked true canceled ∷ rounds) sat small =
      heartbeat_rounds-IsBounded 0 rounds sat small
  heartbeat_rounds-IsBounded f (ticked false true ∷ rounds) sat small =
      (backoff-IsBounded out b f sat small, tt)
  heartbeat_rounds-IsBounded f (ticked false false ∷ rounds) sat small =
      (backoff-IsBounded out b f sat small, heartbeat_rounds-IsBounded (suc f) rounds sat small)

  -- Where the conversion of too large a float64 gives the least `int64`, identifyLoop does not
  -- wait any more after as many failures as double the interval beyond the greatest `int64`: every
  -- later wait is negative.
  pub identify_loop_busy :
      (f : ℕ) (attempts : List (Option String × Bool))
      → Underflows out
      → 1 ≤ f
      → two_63 ≤ doubled b f
      → All (λ w. w <ℤ pos 0) (identify_loop out (pos b) f attempts).1
  unfolding identify_loop
  identify_loop_busy f [] under late big = tt
  identify_loop_busy f ((some uuid, canceled) ∷ attempts) under late big = tt
  identify_loop_busy f ((none, true) ∷ attempts) under late big =
      (backoff_late out b f under late big, tt)
  identify_loop_busy f ((none, false) ∷ attempts) under late big = (
    backoff_late out b f under late big,
    identify_loop_busy (suc f) attempts under (ground arith)
        (ground (arith, pow_suc f, mul_double b (2 ^ f))),
  )
