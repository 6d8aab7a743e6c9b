-- ===== src/Keys/Hex.antt =====
-- Package encoding/hex, as key_config.go calls it; the texts are ASCII.
use ohttp_relay.Prelude.{
  ℕ, ◌+◌, ◌-◌, ◌*◌, ◌/◌, ◌%◌, ◌<◌, ◌≡◌, refl, ap, Option, none, some, [], ◌∷◌, ◌&&◌, arith, ltb,
  leb, All, if◌then◌else◌,
}
use ohttp_relay.Text.{Text, Bytes, codes}
use ohttp_relay.Fault.{message, end, number, Result, ok, err, bind}

unfoldable pub hex_digit : ℕ → ℕ
hex_digit n = if ltb n 10 then b'0' + n else b'a' + n - 10

-- the value of a digit in either case
unfoldable pub hex_value : ℕ → Option ℕ
hex_value c =
    if leb b'0' c && leb c b'9'
    then some (c - b'0')
    else if leb b'a' c && leb c b'f'
    then some (c - b'a' + 10)
    else if leb b'A' c && leb c b'F'
    then some (c - b'A' + 10)
    else none

-- hex.EncodeToString
unfoldable pub hex_encode : Bytes → Text
hex_encode [] = []
hex_encode (b ∷ bs) = hex_digit (b / 16) ∷ hex_digit (b % 16) ∷ hex_encode bs

abbrev digit_of : ℕ → Option ℕ → Result ℕ
digit_of c none = err (message (codes "encoding/hex: invalid byte: %#U") (number c end))
digit_of c (some n) = ok n

-- hex.DecodeString
unfoldable pub hex_decode : Text → Result Bytes
hex_decode [] = ok []
hex_decode (c ∷ []) =
    bind (digit_of c (hex_value c))
      (λ n. err (message (codes "encoding/hex: odd length hex string") end))
hex_decode (c ∷ d ∷ s) =
    bind (digit_of c (hex_value c)) λ hi.
      bind (digit_of d (hex_value d)) λ lo. bind (hex_decode s) (λ bs. ok ((hi * 16 + lo) ∷ bs))

abbrev pub IsByte : ℕ → Type 0
IsByte b = b < 256

hex_value-digit : (n : ℕ) → n < 16 → hex_value (hex_digit n) ≡ some n
unfolding hex_value hex_digit
hex_value-digit n h = ground arith

-- Bytes are read back from their hexadecimal digits.
pub hex_decode-encode : (bs : Bytes) → All IsByte bs → hex_decode (hex_encode bs) ≡ ok bs
unfolding hex_decode hex_encode
hex_decode-encode [] h = refl
hex_decode-encode (b ∷ bs) (h, hs) =
    rw
      (
        hex_value-digit (b / 16) (omega arith),
        hex_value-digit (b % 16) (omega arith),
        hex_decode-encode bs hs,
      )
      (ap (λ (x : ℕ). ok (x ∷ bs)) (omega arith))
