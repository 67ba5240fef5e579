-- ===== src/Common/Utf8/Roundtrip.antt =====
-- UTF-8: decoding what was encoded.
use Prim.Native.Nat.{ℕ, suc, ◌+◌, ◌-◌, ◌*◌, ◌/◌, ◌%◌, ◌≤◌, ◌<◌}
use mathlib.Core.Path.{◌≡◌, refl, ap, ◌∙◌}
use mathlib.Core.Logic.{inl, inr}
use mathlib.Core.Bool.{true}
use mathlib.Core.List.{[], ◌∷◌, ◌++◌}
use mathlib.Core.Option.{Option, none, some}
use native.Mathlib.Omega.{arith}
use bosch_shc_camera_client.Common.Tests.{◌==◌, ltb, ltb→lt, Bool-cases, and_true, if◌then◌else◌}
use bosch_shc_camera_client.Common.Texts.{Bytes, Text}
use bosch_shc_camera_client.Common.Lists.{all}
use bosch_shc_camera_client.Common.Utf8.{
  Begun, first_byte, next_byte, decode_from, decode_utf8, encode_char, encode_utf8, is_scalar,
}

abbrev begun : ℕ → ℕ → ℕ → ℕ → Option Begun
begun bits missing low high =
    some (record { bits = bits; missing = missing; low = low; high = high })

-- A byte in its range goes on with the character, or ends it.
go_on :
    (bits missing low high b : ℕ) (bs : Bytes)
    → low ≤ b
    → b ≤ high
    → decode_from (begun bits (suc (suc missing)) low high) (b ∷ bs)
      ≡ decode_from (begun (bits * 64 + (b - 0x80)) (suc missing) 0x80 0xbf) bs
unfolding decode_from next_byte
go_on bits missing low high b bs h k = ground (arith, h, k)

finish :
    (bits low high b : ℕ) (bs : Bytes)
    → low ≤ b
    → b ≤ high
    → decode_from (begun bits 1 low high) (b ∷ bs) ≡ (bits * 64 + (b - 0x80)) ∷ decode_from none bs
unfolding decode_from next_byte
finish bits low high b bs h k = ground (arith, h, k)

lead_two :
    (q : ℕ) (bs : Bytes)
    → 2 ≤ q
    → q < 32
    → decode_from none ((0xc0 + q) ∷ bs) ≡ decode_from (begun q 1 0x80 0xbf) bs
unfolding decode_from next_byte first_byte
lead_two q bs h k = ground (arith, h, k)

lead_three :
    (q : ℕ) (bs : Bytes)
    → q < 16
    → decode_from none ((0xe0 + q) ∷ bs)
      ≡ decode_from (begun q 2 (if q == 0 then 0xa0 else 0x80) (if q == 13 then 0x9f else 0xbf)) bs
unfolding decode_from next_byte first_byte
lead_three q bs h = ground (arith, h)

lead_four :
    (q : ℕ) (bs : Bytes)
    → q ≤ 4
    → decode_from none ((0xf0 + q) ∷ bs)
      ≡ decode_from (begun q 3 (if q == 0 then 0x90 else 0x80) (if q == 4 then 0x8f else 0xbf)) bs
unfolding decode_from next_byte first_byte
lead_four q bs h = ground (arith, h)

one_byte : (c : ℕ) (bs : Bytes) → c < 0x80 → decode_from none (c ∷ bs) ≡ c ∷ decode_from none bs
unfolding decode_from next_byte first_byte
one_byte c bs h = ground (arith, h)

two_bytes :
    (c : ℕ) (bs : Bytes)
    → 0x80 ≤ c
    → c < 0x800
    → decode_from none ((0xc0 + c / 64) ∷ (0x80 + c % 64) ∷ bs) ≡ c ∷ decode_from none bs
two_bytes c bs h k =
    lead_two (c / 64) ((0x80 + c % 64) ∷ bs) (omega (arith, h)) (omega (arith, k))
    ∙ finish (c / 64) 0x80 0xbf (0x80 + c % 64) bs (omega arith) (omega arith)
    ∙ ap (λ d. d ∷ decode_from none bs) (omega arith)

three_bytes :
    (c : ℕ) (bs : Bytes)
    → 0x800 ≤ c
    → c < 0x10000
    → is_scalar c ≡ true
    → decode_from none ((0xe0 + c / 4096) ∷ (0x80 + c / 64 % 64) ∷ (0x80 + c % 64) ∷ bs)
      ≡ c ∷ decode_from none bs
three_bytes c bs h k scalar =
    lead_three (c / 4096) ((0x80 + c / 64 % 64) ∷ (0x80 + c % 64) ∷ bs) (omega (arith, k))
    ∙ go_on (c / 4096) 0 (if c / 4096 == 0 then 0xa0 else 0x80)
        (if c / 4096 == 13 then 0x9f else 0xbf) (0x80 + c / 64 % 64) ((0x80 + c % 64) ∷ bs)
        (ground (arith, h)) (ground (arith, k, scalar))
    ∙ finish (c / 4096 * 64 + (0x80 + c / 64 % 64 - 0x80)) 0x80 0xbf (0x80 + c % 64) bs
        (omega arith) (omega arith)
    ∙ ap (λ d. d ∷ decode_from none bs) (omega arith)

four_bytes :
    (c : ℕ) (bs : Bytes)
    → 0x10000 ≤ c
    → c < 0x110000
    → decode_from none
        ((0xf0 + c / 262144) ∷ (0x80 + c / 4096 % 64) ∷ (0x80 + c / 64 % 64) ∷ (0x80 + c % 64) ∷ bs)
      ≡ c ∷ decode_from none bs
four_bytes c bs h k =
    lead_four (c / 262144) ((0x80 + c / 4096 % 64) ∷ (0x80 + c / 64 % 64) ∷ (0x80 + c % 64) ∷ bs)
      (omega (arith, k))
    ∙ go_on (c / 262144) 1 (if c / 262144 == 0 then 0x90 else 0x80)
        (if c / 262144 == 4 then 0x8f else 0xbf) (0x80 + c / 4096 % 64)
        ((0x80 + c / 64 % 64) ∷ (0x80 + c % 64) ∷ bs) (ground (arith, h)) (ground (arith, k))
    ∙ go_on (c / 262144 * 64 + (0x80 + c / 4096 % 64 - 0x80)) 0 0x80 0xbf (0x80 + c / 64 % 64)
        ((0x80 + c % 64) ∷ bs) (omega arith) (omega arith)
    ∙ finish ((c / 262144 * 64 + (0x80 + c / 4096 % 64 - 0x80)) * 64 + (0x80 + c / 64 % 64 - 0x80))
        0x80 0xbf (0x80 + c % 64) bs (omega arith) (omega arith)
    ∙ ap (λ d. d ∷ decode_from none bs) (omega arith)

-- Decoding an encoded character goes on behind it.
decode_from-encode_char :
    (c : ℕ) (bs : Bytes)
    → is_scalar c ≡ true
    → decode_from none (encode_char c ++ bs) ≡ c ∷ decode_from none bs
unfolding encode_char
decode_from-encode_char c bs h = elim (Bool-cases (ltb c 0x80)) [
  | inl e ↦ rw (e) (one_byte c bs (ltb→lt c 0x80 e))
  | inr e ↦ (elim (Bool-cases (ltb c 0x800)) [
    | inl f ↦ rw (e, f) (two_bytes c bs (ground (arith, e)) (ltb→lt c 0x800 f))
    | inr f ↦ (elim (Bool-cases (ltb c 0x10000)) [
      | inl g ↦ rw (e, f, g) (three_bytes c bs (ground (arith, f)) (ltb→lt c 0x10000 g) h)
      | inr g ↦ rw (e, f, g) (four_bytes c bs (ground (arith, g)) (ground (arith, g, h)))
    ])
  ])
]

-- Decoding what was encoded gives the text back.
pub decode_utf8-encode_utf8 : (s : Text) → all is_scalar s ≡ true → decode_utf8 (encode_utf8 s) ≡ s
unfolding decode_utf8 encode_utf8
decode_utf8-encode_utf8 [] h = unfold decode_from in refl
decode_utf8-encode_utf8 (c ∷ s) h =
    let (first, rest) = and_true (is_scalar c) (all is_scalar s) h in
    decode_from-encode_char c (encode_utf8 s) first
    ∙ ap (λ t. c ∷ t) (decode_utf8-encode_utf8 s rest)
