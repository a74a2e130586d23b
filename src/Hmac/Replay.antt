-- ===== src/Hmac/Replay.antt =====
-- Signers and verifiers of pkg/server/hmac.go against each other: what an honest signature opens,
-- for how long, and which other requests it opens.
use kms_client.Prelude.{
  ℕ, ◌+◌, ◌*◌, ◌/◌, ◌≤◌, ◌<◌, ◌^◌, ap, sym, ◌∙◌, ◌⊎◌, inl, inr, Option-cases, arith, ◌≡◌, String,
  true, List, [], ◌∷◌, ◌++◌,
}
use mathlib.Core.List.{append_assoc}
use mathlib.Core.Path.{fun_ext}
use kms_client.Prelude.Int.{
  ℤ, pos, negsuc, ◌+ℤ◌, ◌-ℤ◌, ◌*ℤ◌, quot, wrap, wrap-IsInt64, IsInt64, two_63,
}
use kms_client.Clock.{Time, unix}
use kms_client.Hmac.Hex.{hex_decode, AreBytes, hex_decode-hex_encode}
use kms_client.Hmac.Decimal.{decimal, decimal_injective}
use kms_client.Prelude.Texts.{codes}
use kms_client.Hmac.Auth.{
  round_timestamp, windows, message, identify_message, sign, matches_window, verify,
  verify_identify,
}
use kms_client.Hmac.Verify.{verify_iff, InWindow}
use kms_client.Hmac.Timestamp.{validate_timestamp, validate_timestamp_iff, IsNear}

-- `%s%s%d` puts nothing between its parts.
pub message_split :
    (u i ip : String) (ts : ℤ)
    → codes u ++ codes i ≡ codes ip
    → message u i ts ≡ identify_message ip ts
unfolding message identify_message
message_split u i ip ts e =
    sym (append_assoc (codes u) (codes i) (decimal ts)) ∙ ap (λ t. t ++ decimal ts) e

round_timestamp-IsInt64 : (ts : ℤ) → IsInt64 ts → IsInt64 (round_timestamp ts)
unfolding round_timestamp quot ◌*ℤ◌
round_timestamp-IsInt64 (pos n) h = ground arith
round_timestamp-IsInt64 (negsuc n) h = ground arith

near_window :
    (m n : ℕ)
    → m < 2 ^ 62
    → n < 2 ^ 62
    → m ≤ n + 30
    → n ≤ m + 30
    → InWindow (λ w. round_timestamp (pos m) ≡ w) (pos n)
unfolding round_timestamp quot ◌*ℤ◌ ◌+ℤ◌ ◌-ℤ◌ wrap
near_window m n hm hn h k = ground arith

append-cancel {ℓ} : {A : Type ℓ} (xs : List A) {ys zs : List A} → xs ++ ys ≡ xs ++ zs → ys ≡ zs
append-cancel [] e = e
append-cancel (x ∷ xs) e = append-cancel xs (cc)

message_injective :
    (u i : String) (a b : ℤ) → IsInt64 a → IsInt64 b → message u i a ≡ message u i b → a ≡ b
unfolding message
message_injective u i a b ha hb e =
    decimal_injective a b ha hb (append-cancel (codes i) (append-cancel (codes u) e))

replay_bounds :
    (n m : ℕ) (ts : ℤ)
    → n < 2 ^ 62
    → m < 2 ^ 62
    → IsInt64 ts
    → IsNear (pos n) ts ⊎ (ts ≡ pos n -ℤ pos two_63)
    → InWindow (λ w. w ≡ round_timestamp (pos m)) ts
    → (n < m / 30 * 30 + 120) × (m / 30 * 30 ≤ n + 120)
unfolding round_timestamp quot ◌*ℤ◌ ◌+ℤ◌ ◌-ℤ◌ wrap
replay_bounds n m (pos k) hn hm hts near w = ground arith
replay_bounds n m (negsuc k) hn hm hts near w = ground arith

module _ (mac : List ℕ → List ℕ → List ℕ) (key : List ℕ) where
  -- The MAC that signs a node's text of a window is a list of bytes.
  abbrev pub WritesBytes : String → String → ℤ → Type 0
  WritesBytes u i w = AreBytes (mac key (message u i w))

  -- The text of no other window of the node has the MAC of the text of `w`.
  abbrev pub HasNoCollision : String → String → ℤ → Type 0
  HasNoCollision u i w =
      (v : ℤ)
      → IsInt64 v
      → mac key (message u i v) ≡ mac key (message u i w)
      → message u i v ≡ message u i w

  -- A signature that was made at `m` is accepted for a timestamp that is at most 30 seconds away.
  pub verify-sign :
      (u i : String) (m n : ℕ)
      → WritesBytes u i (round_timestamp (pos m))
      → m < 2 ^ 62
      → n < 2 ^ 62
      → m ≤ n + 30
      → n ≤ m + 30
      → verify mac key u i (pos n) (sign mac key u i (pos m)) ≡ true
  unfolding sign
  verify-sign u i m n bytes hm hn h k =
      let b = mac key (message u i (round_timestamp (pos m))) in
      (verify_iff mac key u i (pos n) _).1
        (b, hex_decode-hex_encode b bytes, in_window (near_window m n hm hn h k))
    where
      in_window :
          InWindow (λ w. round_timestamp (pos m) ≡ w) (pos n)
          → InWindow
              (λ w. mac key (message u i w) ≡ mac key (message u i (round_timestamp (pos m))))
              (pos n)
      in_window (inl e) = inl (rw e)
      in_window (inr (inl e)) = inr (inl (rw e))
      in_window (inr (inr e)) = inr (inr (rw e))

  same_window :
      (u i : String) (ts t : ℤ)
      → HasNoCollision u i (round_timestamp ts)
      → WritesBytes u i (round_timestamp ts)
      → IsInt64 ts
      → IsInt64 t
      → verify mac key u i t (sign mac key u i ts) ≡ true
      → InWindow (λ w. w ≡ round_timestamp ts) t
  unfolding sign
  same_window u i ts t injective bytes hts ht h =
      let (b, d, w) = (verify_iff mac key u i t _).0 h in
      let w0 = round_timestamp ts in
      let read = hex_decode-hex_encode (mac key (message u i w0)) bytes in
      let same : b ≡ mac key (message u i w0) = cc in
      let rounded = round_timestamp-IsInt64 t ht in
      in_window same (round_timestamp-IsInt64 ts hts) rounded w
    where
      equal_window :
          {b : List ℕ} (v : ℤ)
          → b ≡ mac key (message u i (round_timestamp ts))
          → IsInt64 (round_timestamp ts)
          → IsInt64 v
          → mac key (message u i v) ≡ b
          → v ≡ round_timestamp ts
      equal_window v same hw hv e =
          message_injective u i v (round_timestamp ts) hv hw (injective v hv (e ∙ same))

      in_window :
          {b : List ℕ}
          → b ≡ mac key (message u i (round_timestamp ts))
          → IsInt64 (round_timestamp ts)
          → IsInt64 (round_timestamp t)
          → InWindow (λ w. mac key (message u i w) ≡ b) t
          → InWindow (λ w. w ≡ round_timestamp ts) t
      in_window same hw ht' (inl e) = inl (equal_window _ same hw ht' e)
      in_window same hw ht' (inr (inl e)) =
          inr (inl (equal_window _ same hw (wrap-IsInt64 (round_timestamp t -ℤ pos 30)) e))
      in_window same hw ht' (inr (inr e)) =
          inr (inr (equal_window _ same hw (wrap-IsInt64 (round_timestamp t +ℤ pos 30)) e))

  -- A captured signature is of no use later: if no other window of the node has its MAC, what was
  -- signed in a window is accepted, for any timestamp in range, only while the clock is less than
  -- two minutes past the window's start and at most two minutes before it (times after the epoch
  -- and below 2 ^ 62 seconds).
  pub verify_replay :
      (u i : String) (m n : ℕ) (ts : ℤ) (now : Time)
      → HasNoCollision u i (round_timestamp (pos m))
      → WritesBytes u i (round_timestamp (pos m))
      → m < 2 ^ 62
      → n < 2 ^ 62
      → IsInt64 ts
      → unix now ≡ pos n
      → validate_timestamp ts now ≡ true
      → verify mac key u i ts (sign mac key u i (pos m)) ≡ true
      → (n < m / 30 * 30 + 120) × (m / 30 * 30 ≤ n + 120)
  verify_replay u i m n ts now injective bytes hm hn hts e valid h =
      replay_bounds n m ts hn hm hts ((validate_timestamp_iff n ts now e hn hts).0 valid)
        (same_window u i (pos m) ts injective bytes (omega arith) hts h)

  -- Verify accepts for a node and an address the same signatures as VerifyIdentify for an address
  -- that is the text of the two, one after the other.
  pub verify_confused :
      (u i ip : String) (ts : ℤ) (signature : List ℕ)
      → codes u ++ codes i ≡ codes ip
      → verify mac key u i ts signature ≡ verify_identify mac key ip ts signature
  unfolding verify verify_identify
  verify_confused u i ip ts signature e = elim (Option-cases (hex_decode signature)) [
    | inl bad ↦ ground arith
    | inr (bytes, good) ↦
        rw (good, verify, verify_identify)
          (ap (λ text. matches_window mac key text bytes (windows ts))
            (fun_ext (λ w. message_split u i ip w e)))
  ]
