-- ===== src/Common/Utf8.antt =====
-- bytes.decode(errors="replace"): UTF-8, with U+FFFD for the longest start of a character that the next
-- byte, or the end, leaves incomplete.
pub mod Roundtrip
use Prim.Native.Nat.{ℕ, ◌+◌, ◌-◌, ◌*◌, ◌/◌, ◌%◌, ◌<◌}
use mathlib.Core.Path.{◌≡◌, refl}
use mathlib.Core.Bool.{Bool, true, false, ◌&&◌, ◌||◌}
use mathlib.Core.List.{List, [], ◌∷◌, ◌++◌}
use mathlib.Core.Option.{Option, none, some}
use native.Mathlib.Omega.{arith}
use bosch_shc_camera_client.Common.Tests.{◌==◌, leb, ltb, if◌then◌else◌}
use bosch_shc_camera_client.Common.Texts.{Bytes, Text}
use bosch_shc_camera_client.Common.Lists.{All}

-- A character that is begun: what its bytes say so far, how many bytes are to come, and the range in
-- which the next one has to lie.
pub record Begun : Type 0 where
  pub bits : ℕ
  pub missing : ℕ
  pub low : ℕ
  pub high : ℕ

abbrev begin : ℕ → ℕ → ℕ → ℕ → Text × Option Begun
begin bits missing low high =
    ([], some (record { bits = bits; missing = missing; low = low; high = high }))

abbrev pub replacement : ℕ
replacement = 0xfffd

unfoldable pub first_byte : ℕ → Text × Option Begun
first_byte b =
    if ltb b 0x80
    then (b ∷ [], none)
    else if leb 0xc2 b && leb b 0xdf
    then begin (b - 0xc0) 1 0x80 0xbf
    else if b == 0xe0
    then begin 0 2 0xa0 0xbf
    else if b == 0xed
    then begin 0xd 2 0x80 0x9f
    else if leb 0xe1 b && leb b 0xef
    then begin (b - 0xe0) 2 0x80 0xbf
    else if b == 0xf0
    then begin 0 3 0x90 0xbf
    else if b == 0xf4
    then begin 4 3 0x80 0x8f
    else if leb 0xf1 b && leb b 0xf3
    then begin (b - 0xf0) 3 0x80 0xbf
    else (replacement ∷ [], none)

unfoldable pub next_byte : Option Begun → ℕ → Text × Option Begun
unfolding first_byte
next_byte none b = first_byte b
next_byte (some p) b =
    if leb p.low b && leb b p.high
    then (if p.missing == 1
        then ((p.bits * 64 + (b - 0x80)) ∷ [], none)
        else begin (p.bits * 64 + (b - 0x80)) (p.missing - 1) 0x80 0xbf)
    else (replacement ∷ (first_byte b).0, (first_byte b).1)

unfoldable pub decode_from : Option Begun → Bytes → Text
unfolding next_byte
decode_from none [] = []
decode_from (some p) [] = replacement ∷ []
decode_from p (b ∷ bs) = (next_byte p b).0 ++ decode_from (next_byte p b).1 bs

unfoldable pub decode_utf8 : Bytes → Text
unfolding decode_from
decode_utf8 = decode_from none

-- A character in UTF-8
unfoldable pub encode_char : ℕ → Bytes
encode_char c =
    if ltb c 0x80
    then c ∷ []
    else if ltb c 0x800
    then (0xc0 + c / 64) ∷ (0x80 + c % 64) ∷ []
    else if ltb c 0x10000
    then (0xe0 + c / 4096) ∷ (0x80 + c / 64 % 64) ∷ (0x80 + c % 64) ∷ []
    else (0xf0 + c / 262144) ∷ (0x80 + c / 4096 % 64) ∷ (0x80 + c / 64 % 64) ∷ (0x80 + c % 64) ∷ []

-- s.encode("utf-8"), of a text without surrogates
unfoldable pub encode_utf8 : Text → Bytes
unfolding encode_char
encode_utf8 [] = []
encode_utf8 (c ∷ s) = encode_char c ++ encode_utf8 s

-- What can be encoded: a code point that is no surrogate.
abbrev pub is_scalar : ℕ → Bool
is_scalar c = ltb c 0xd800 || leb 0xe000 c && ltb c 0x110000

-- ASCII bytes are their own code points.
pub decode_utf8-ascii : (bs : Bytes) → All (λ b. b < 0x80) bs → decode_utf8 bs ≡ bs
unfolding decode_utf8 decode_from next_byte first_byte
decode_utf8-ascii [] h = refl
decode_utf8-ascii (b ∷ bs) h = ground (arith, decode_utf8-ascii bs h.1)
