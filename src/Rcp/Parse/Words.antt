-- ===== src/Rcp/Parse/Words.antt =====
-- `struct.unpack` of big-endian words, slices, and `bytes.hex`.
use bosch_shc_camera_client.Common.{
  ℕ, ◌+◌, ◌-◌, ◌*◌, ◌/◌, ◌%◌, ◌<◌, ◌≡◌, refl, [], ◌∷◌, some, arith, take, drop, All,
}
use bosch_shc_camera_client.Common.Texts.{Bytes, Text}
use bosch_shc_camera_client.Rcp.Markup.{from_hex, hex_value, hex_digit}

-- raw[lo:hi]
unfoldable pub slice : Bytes → ℕ → ℕ → Bytes
slice raw lo hi = take (hi - lo) (drop lo raw)

-- struct.unpack(">H", b) of two bytes; the callers give it two.
unfoldable pub word : Bytes → ℕ
word (a ∷ b ∷ []) = a * 256 + b
word _ = 0

-- struct.unpack(">I", b) of four bytes
unfoldable pub dword : Bytes → ℕ
dword (a ∷ b ∷ c ∷ d ∷ []) = ((a * 256 + b) * 256 + c) * 256 + d
dword _ = 0

-- b.hex()
unfoldable pub hex : Bytes → Text
unfolding hex_digit
hex [] = []
hex (b ∷ bs) = hex_digit (b / 16) ∷ hex_digit (b % 16) ∷ hex bs

abbrev pub AreBytes : Bytes → Type 0
AreBytes = All (λ b. b < 256)

pub hex_value-hex_digit : (n : ℕ) → n < 16 → hex_value (hex_digit n) ≡ n
unfolding hex_value hex_digit
hex_value-hex_digit n h = ground arith

-- Decoding the hexadecimal digits of any bytes gives those bytes back.
pub from_hex-hex : (bs : Bytes) → AreBytes bs → from_hex (hex bs) ≡ some bs
unfolding from_hex hex
from_hex-hex [] h = refl
from_hex-hex (b ∷ bs) h =
    ground (arith, from_hex-hex bs h.1, hex_value-hex_digit (b / 16), hex_value-hex_digit (b % 16))
