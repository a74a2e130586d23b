-- ===== src/Hmac/Decimal.antt =====
-- The verb %d of fmt.Sprintf, on an `int64`.
use kms_client.Prelude.{
  ℕ, zero, suc, ◌+◌, ◌-◌, ◌*◌, ◌/◌, ◌%◌, ◌^◌, ◌<◌, ◌≤◌, ◌≡◌, ◌≢◌, refl, ap, sym, ◌∙◌, List, [], ◌∷◌,
  ◌++◌, arith, ltb, if◌then◌else◌, Bool-cases, inl, inr, All,
}
use native.Mathlib.Nat.{pow-suc}
use kms_client.Prelude.Int.{ℤ, pos, negsuc, IsInt64}

-- The digits of a number below 10 ^ fuel.
unfoldable pub digits : ℕ → ℕ → List ℕ
digits zero n = []
digits (suc fuel) n =
    let rest = digits fuel (n / 10) in
    if ltb n 10 then (b'0' + n) ∷ [] else rest ++ (b'0' + n % 10) ∷ []

-- An `int64` has at most 19 digits.
abbrev pub max_digits : ℕ
max_digits = 19

unfoldable pub decimal : ℤ → List ℕ
decimal (pos n) = digits max_digits n
decimal (negsuc n) = b'-' ∷ digits max_digits (suc n)

-- The number that digits stand for, from the value of those before.
value_from : ℕ → List ℕ → ℕ
value_from acc [] = acc
value_from acc (c ∷ cs) = value_from (acc * 10 + (c - b'0')) cs

value_from-append :
    (acc : ℕ) (cs : List ℕ) (c : ℕ)
    → value_from acc (cs ++ c ∷ []) ≡ value_from acc cs * 10 + (c - b'0')
unfolding value_from
value_from-append acc [] c = refl
value_from-append acc (d ∷ cs) c = value_from-append (acc * 10 + (d - b'0')) cs c

value-digits : (fuel n : ℕ) → n < 10 ^ fuel → value_from 0 (digits fuel n) ≡ n
unfolding digits value_from
value-digits zero n h = omega arith
value-digits (suc fuel) n h = elim (Bool-cases (ltb n 10)) [
  | inl small ↦ rw small (omega arith)
  | inr large ↦
      rw (large, value_from-append)
        (omega (arith, value-digits fuel (n / 10) (omega (arith, pow-suc 10 fuel))))
]

abbrev AreDigits : List ℕ → Type 0
AreDigits = All (λ c. b'0' ≤ c)

append-AreDigits : (cs ds : List ℕ) → AreDigits cs → AreDigits ds → AreDigits (cs ++ ds)
append-AreDigits [] ds h k = k
append-AreDigits (c ∷ cs) ds h k = (h.0, append-AreDigits cs ds h.1 k)

digits-AreDigits : (fuel n : ℕ) → AreDigits (digits fuel n)
unfolding digits
digits-AreDigits zero n = tt
digits-AreDigits (suc fuel) n = elim (Bool-cases (ltb n 10)) [
  | inl small ↦ rw small (omega arith)
  | inr large ↦
      rw large
        (append-AreDigits (digits fuel (n / 10)) _ (digits-AreDigits fuel (n / 10)) (omega arith))
]

not-minus : (n : ℕ) (cs : List ℕ) → digits max_digits n ≢ b'-' ∷ cs
not-minus n cs e = absurd (omega (arith, (rw e at (digits-AreDigits max_digits n)).0))

digits_injective :
    (m n : ℕ)
    → m < 10 ^ max_digits
    → n < 10 ^ max_digits
    → digits max_digits m ≡ digits max_digits n
    → m ≡ n
digits_injective m n hm hn e =
    sym (value-digits max_digits m hm) ∙ ap (value_from 0) e ∙ value-digits max_digits n hn

-- Different values of `int64` are printed differently.
pub decimal_injective : (a b : ℤ) → IsInt64 a → IsInt64 b → decimal a ≡ decimal b → a ≡ b
unfolding decimal
decimal_injective (pos m) (pos n) hm hn e =
    ap pos (digits_injective m n (omega arith) (omega arith) e)
decimal_injective (pos m) (negsuc n) hm hn e = absurd (not-minus m _ e)
decimal_injective (negsuc m) (pos n) hm hn e = absurd (not-minus n _ (sym e))
decimal_injective (negsuc m) (negsuc n) hm hn e =
    let same : suc m ≡ suc n = digits_injective (suc m) (suc n) (omega arith) (omega arith) (cc) in
    cc
