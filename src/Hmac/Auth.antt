-- ===== src/Hmac/Auth.antt =====
-- HMACAuth of pkg/server/hmac.go: Sign, Verify, SignIdentify, VerifyIdentify and roundTimestamp.
-- `mac key text` stands for HMAC-SHA256 of a text, given by its code points; a signature is the
-- code points of a header's value.
use kms_client.Prelude.{
  ℕ, String, Bool, true, false, ◌&&◌, none, some, List, [], ◌∷◌, ◌++◌, nat_eq, if◌then◌else◌,
}
use kms_client.Prelude.Int.{ℤ, pos, ◌+ℤ◌, ◌-ℤ◌, ◌*ℤ◌, quot, wrap}
use kms_client.Prelude.Texts.{codes}
use kms_client.Hmac.Hex.{hex_encode, hex_decode}
use kms_client.Hmac.Decimal.{decimal}

-- ts / 30 * 30
unfoldable pub round_timestamp : ℤ → ℤ
round_timestamp ts = quot ts 30 *ℤ pos 30

-- The window of a timestamp and its neighbours, in the order of the loop; `int64` wraps.
abbrev pub windows : ℤ → List ℤ
windows ts =
    let rounded = round_timestamp ts in
    rounded ∷ wrap (rounded -ℤ pos 30) ∷ wrap (rounded +ℤ pos 30) ∷ []

-- fmt.Sprintf("%s%s%d", nodeUUID, nodeIP, ts)
unfoldable pub message : String → String → ℤ → List ℕ
message node_uuid node_ip ts = codes node_uuid ++ (codes node_ip ++ decimal ts)

-- fmt.Sprintf("%s%d", nodeIP, ts)
unfoldable pub identify_message : String → ℤ → List ℕ
identify_message node_ip ts = codes node_ip ++ decimal ts

-- hmac.Equal
abbrev pub equal : List ℕ → List ℕ → Bool
equal [] [] = true
equal (a ∷ as') (b ∷ bs) = nat_eq a b && equal as' bs
equal _ _ = false

module _ (mac : List ℕ → List ℕ → List ℕ) (key : List ℕ) where
  unfoldable pub sign : String → String → ℤ → List ℕ
  sign node_uuid node_ip timestamp =
      hex_encode (mac key (message node_uuid node_ip (round_timestamp timestamp)))

  unfoldable pub sign_identify : String → ℤ → List ℕ
  sign_identify node_ip timestamp =
      hex_encode (mac key (identify_message node_ip (round_timestamp timestamp)))

  -- The loop over the windows.
  unfoldable pub matches_window : (ℤ → List ℕ) → List ℕ → List ℤ → Bool
  matches_window text sig_bytes [] = false
  matches_window text sig_bytes (ts ∷ rest) =
      if equal (mac key (text ts)) sig_bytes then true else matches_window text sig_bytes rest

  unfoldable pub verify : String → String → ℤ → List ℕ → Bool
  unfolding matches_window
  verify node_uuid node_ip timestamp signature = elim (hex_decode signature) [
    | none ↦ false
    | some sig_bytes ↦ matches_window (message node_uuid node_ip) sig_bytes (windows timestamp)
  ]

  unfoldable pub verify_identify : String → ℤ → List ℕ → Bool
  unfolding matches_window
  verify_identify node_ip timestamp signature = elim (hex_decode signature) [
    | none ↦ false
    | some sig_bytes ↦ matches_window (identify_message node_ip) sig_bytes (windows timestamp)
  ]
