-- ===== src/Hmac/Verify.antt =====
-- What Verify and VerifyIdentify of pkg/server/hmac.go accept.
use kms_client.Prelude.{
  ℕ, ◌↔◌, ◌⊎◌, inl, inr, Option-cases, arith, ◌≡◌, refl, String, true, some, List, [], ◌∷◌,
}
use kms_client.Prelude.Int.{ℤ, pos, ◌+ℤ◌, ◌-ℤ◌, wrap}
use kms_client.Hmac.Hex.{hex_decode}
use kms_client.Hmac.Auth.{round_timestamp, windows, message, equal, matches_window, verify}

equal_iff : (as' bs : List ℕ) → (equal as' bs ≡ true) ↔ (as' ≡ bs)
equal_iff as' bs = (sound as' bs, λ e. rw (← e) (reflexive as'))
  where
    reflexive : (cs : List ℕ) → equal cs cs ≡ true
    reflexive [] = refl
    reflexive (c ∷ cs) = ground (arith, reflexive cs)

    sound : (cs ds : List ℕ) → equal cs ds ≡ true → cs ≡ ds
    sound [] [] h = refl
    sound [] (d ∷ ds) h = cc
    sound (c ∷ cs) [] h = cc
    sound (c ∷ cs) (d ∷ ds) h = ground (arith, sound cs ds)

-- Some window of the timestamp satisfies `P`.
abbrev pub InWindow {ℓ} : (ℤ → Type ℓ) → ℤ → Type ℓ
InWindow P ts =
    P (round_timestamp ts)
    ⊎ P (wrap (round_timestamp ts -ℤ pos 30))
    ⊎ P (wrap (round_timestamp ts +ℤ pos 30))

module _ (mac : List ℕ → List ℕ → List ℕ) (key : List ℕ) where
  matches_window_iff :
      (text : ℤ → List ℕ) (sig_bytes : List ℕ) (ts : ℤ)
      → (matches_window mac key text sig_bytes (windows ts) ≡ true)
        ↔ InWindow (λ w. mac key (text w) ≡ sig_bytes) ts
  unfolding matches_window
  matches_window_iff text sig_bytes ts =
      let a = round_timestamp ts in
      let b = wrap (a -ℤ pos 30) in
      let c = wrap (a +ℤ pos 30) in
      (
        λ h. ground (
          arith,
          equal_iff (mac key (text a)) sig_bytes,
          equal_iff (mac key (text b)) sig_bytes,
          equal_iff (mac key (text c)) sig_bytes,
        ),
        λ h. ground (
          arith,
          equal_iff (mac key (text a)) sig_bytes,
          equal_iff (mac key (text b)) sig_bytes,
          equal_iff (mac key (text c)) sig_bytes,
        ),
      )

  -- The signature is the hexadecimal form, in either case, of the MAC of one of the three windows.
  abbrev pub Signs : (ℤ → List ℕ) → ℤ → List ℕ → Type 0
  Signs text ts signature =
      (bytes : List ℕ) × (hex_decode signature ≡ some bytes)
      × InWindow (λ w. mac key (text w) ≡ bytes) ts

  -- Verify accepts exactly the signatures that are the hexadecimal form, in either case, of the
  -- MAC of the timestamp's window or of one of its two neighbours.
  pub verify_iff :
      (node_uuid node_ip : String) (ts : ℤ) (signature : List ℕ)
      → (verify mac key node_uuid node_ip ts signature ≡ true)
        ↔ Signs (message node_uuid node_ip) ts signature
  unfolding verify
  verify_iff node_uuid node_ip ts signature =
      let text = message node_uuid node_ip in
      elim (Option-cases (hex_decode signature)) [
        | inl e ↦ (λ h. absurd (ground arith), λ (b, d, w). absurd (ground arith))
        | inr (bytes, e) ↦ (
          λ h. (bytes, e, (matches_window_iff text bytes ts).0 (rw (e, verify) at h)),
          λ (b, d, w).
              let same : b ≡ bytes = ground arith in
              rw (e, verify) ((matches_window_iff text bytes ts).1 (rw same at w)),
        )
      ]
