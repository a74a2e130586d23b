-- ===== src/Hmac/Hex.antt =====
-- encoding/hex, as pkg/server/hmac.go uses it, on the code points of a text.
use kms_client.Prelude.{
  ℕ, ◌+◌, ◌-◌, ◌*◌, ◌/◌, ◌%◌, ◌<◌, ◌≡◌, refl, ap, ◌&&◌, Option, none, some, List, [], ◌∷◌, arith,
  ltb, leb, if◌then◌else◌, All,
}

-- One digit in lower case, and its value; both cases are read.
hex_digit : ℕ → ℕ
hex_digit n = if ltb n 10 then n + b'0' else n - 10 + b'a'

hex_value : ℕ → Option ℕ
hex_value c =
    if leb b'0' c && leb c b'9'
    then some (c - b'0')
    else if leb b'a' c && leb c b'f'
    then some (c - b'a' + 10)
    else if leb b'A' c && leb c b'F'
    then some (c - b'A' + 10)
    else none

-- hex.EncodeToString
unfoldable pub hex_encode : List ℕ → List ℕ
unfolding hex_digit
hex_encode [] = []
hex_encode (b ∷ bs) = hex_digit (b / 16) ∷ hex_digit (b % 16) ∷ hex_encode bs

join_digits : Option ℕ → Option ℕ → Option (List ℕ) → Option (List ℕ)
join_digits (some h) (some l) (some bs) = some ((h * 16 + l) ∷ bs)
join_digits _ _ _ = none

-- hex.DecodeString; `none` is an error: a character that is no digit, or an odd length.
unfoldable pub hex_decode : List ℕ → Option (List ℕ)
unfolding hex_value join_digits
hex_decode [] = some []
hex_decode (h ∷ []) = none
hex_decode (h ∷ l ∷ cs) = join_digits (hex_value h) (hex_value l) (hex_decode cs)

abbrev pub AreBytes : List ℕ → Type 0
AreBytes = All (λ b. b < 256)

hex_value-hex_digit : (n : ℕ) → n < 16 → hex_value (hex_digit n) ≡ some n
unfolding hex_value hex_digit
hex_value-hex_digit n h = ground arith

-- Every text that is encoded is decoded to the same bytes.
pub hex_decode-hex_encode : (bs : List ℕ) → AreBytes bs → hex_decode (hex_encode bs) ≡ some bs
unfolding hex_decode hex_encode
hex_decode-hex_encode [] h = refl
hex_decode-hex_encode (b ∷ bs) h =
    rw
      (
        hex_value-hex_digit (b / 16) (omega arith),
        hex_value-hex_digit (b % 16) (omega arith),
        hex_decode-hex_encode bs h.1,
      )
      (ap (λ x. some (x ∷ bs)) (omega arith))
