-- ===== src/SessionOps/Registry/Hex.antt =====
-- encoding/hex as internal/sessionops/sessionops.go uses it: what is encoded is decoded again.
use ai_config_selector.SessionOps.Registry.{hex_value, hex_digit, decode_hex, encode_hex}
use ai_config_selector.Prelude.{
  ℕ, ◌<◌, ◌*◌, ◌/◌, ◌%◌, ◌≡◌, refl, All, [], ◌∷◌, some, arith, length, ap,
}
use ai_config_selector.Prelude.Bytes.{Bytes}

hex_value-hex_digit : (n : ℕ) → n < 16 → hex_value (hex_digit n) ≡ some n
hex_value-hex_digit n h = ground arith

pub decode_hex-encode_hex :
    (bs : Bytes) → All (λ b. b < 256) bs → decode_hex (encode_hex bs) ≡ some bs
unfolding decode_hex encode_hex
decode_hex-encode_hex [] h = refl
decode_hex-encode_hex (b ∷ bs) h =
    rw
      (
        hex_value-hex_digit (b / 16) (omega arith),
        hex_value-hex_digit (b % 16) (omega arith),
        decode_hex-encode_hex bs h.1,
      )
      (ap (λ n. some (n ∷ bs)) (omega arith))

pub length-encode_hex : (bs : Bytes) → length (encode_hex bs) ≡ 2 * length bs
unfolding encode_hex
length-encode_hex [] = refl
length-encode_hex (b ∷ bs) = omega (arith, length-encode_hex bs)
