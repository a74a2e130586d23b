-- ===== src/Tests/Signatures.antt =====
-- The theorems on pkg/server/hmac.go at concrete signatures.
use kms_client.Prelude.{ℕ, ◌+◌, ◌-◌, ◌*◌, ◌/◌, ◌≤◌, ◌<◌, ◌≡◌, refl, ◌⊎◌, ◌↔◌, true, List, arith}
use kms_client.Prelude.Int.{pos, negsuc, ◌-ℤ◌, ◌*ℤ◌, quot, wrap, two_63}
use kms_client.Clock.{unix}
use kms_client.Hmac.Decimal.{decimal, digits}
use kms_client.Hmac.Auth.{sign, sign_identify, verify, verify_identify, message, round_timestamp}
use kms_client.Hmac.Verify.{Signs, verify_iff}
use kms_client.Hmac.Timestamp.{validate_timestamp, validate_timestamp_iff, IsNear}
use kms_client.Hmac.Replay.{
  verify-sign, verify_replay, verify_confused, HasNoCollision, WritesBytes,
}
use kms_client.Tests.{at_second, mac, key, repeated}

verify_iff_example :
    (verify mac key "n1" "10.0.0.1" (pos 1050) (repeated 64 b'0') ≡ true)
    ↔ Signs mac key (message "n1" "10.0.0.1") (pos 1050) (repeated 64 b'0')
verify_iff_example = verify_iff mac key "n1" "10.0.0.1" (pos 1050) (repeated 64 b'0')

clock : unix (at_second 1050) ≡ pos 1050
unfolding unix ◌-ℤ◌
clock = refl

validate_timestamp_iff_example :
    (validate_timestamp (pos 1000) (at_second 1050) ≡ true)
    ↔ (IsNear (pos 1050) (pos 1000) ⊎ (pos 1000 ≡ pos 1050 -ℤ pos two_63))
validate_timestamp_iff_example =
    validate_timestamp_iff 1050 (pos 1000) (at_second 1050) clock (ground arith) (ground arith)

-- The timestamp 2 ^ 63 seconds before the clock is accepted.
validate_timestamp_test : validate_timestamp (negsuc (two_63 - 1051)) (at_second 1050) ≡ true
unfolding validate_timestamp unix wrap ◌-ℤ◌
validate_timestamp_test = refl

verify_confused_example :
    verify mac key "10.0" ".0.1" (pos 1050) (sign_identify mac key "10.0.0.1" (pos 1050))
    ≡ verify_identify mac key "10.0.0.1" (pos 1050) (sign_identify mac key "10.0.0.1" (pos 1050))
verify_confused_example =
    verify_confused mac key "10.0" ".0.1" "10.0.0.1" (pos 1050)
      (sign_identify mac key "10.0.0.1" (pos 1050)) refl

-- A MAC that tells all texts apart.
abbrev echo : List ℕ → List ℕ → List ℕ
echo k text = text

echo-HasNoCollision : HasNoCollision echo key "n1" "10" (round_timestamp (pos 1050))
echo-HasNoCollision v h e = e

echo-WritesBytes : WritesBytes echo key "n1" "10" (round_timestamp (pos 1050))
unfolding message decimal digits round_timestamp quot ◌*ℤ◌
echo-WritesBytes = ground arith

in_range : validate_timestamp (pos 1080) (at_second 1090) ≡ true
unfolding validate_timestamp unix wrap ◌-ℤ◌
in_range = refl

later_clock : unix (at_second 1090) ≡ pos 1090
unfolding unix ◌-ℤ◌
later_clock = refl

accepted : verify echo key "n1" "10" (pos 1080) (sign echo key "n1" "10" (pos 1050)) ≡ true
accepted =
    verify-sign echo key "n1" "10" 1050 1080 echo-WritesBytes (ground arith) (ground arith)
      (ground arith) (ground arith)

verify_replay_example : (1090 < 1050 / 30 * 30 + 120) × (1050 / 30 * 30 ≤ 1090 + 120)
verify_replay_example =
    verify_replay echo key "n1" "10" 1050 1090 (pos 1080) (at_second 1090) echo-HasNoCollision
      echo-WritesBytes (ground arith) (ground arith) (ground arith) later_clock in_range accepted
