-- ===== src/Rcp/Https/Octets.antt =====
-- local_rcp.py: octets written as hexadecimal digits with spaces between the bytes.
use bosch_shc_camera_client.Common.{
  ℕ, ◌+◌, ◌*◌, ◌/◌, ◌%◌, ◌<◌, ◌≡◌, refl, ap, ◌∙◌, true, false, [], ◌∷◌, Option, none, some, arith,
  ◌==◌, is_empty,
}
use bosch_shc_camera_client.Common.Texts.{Bytes, Text, codes, same}
use bosch_shc_camera_client.Common.Utf8.{decode_utf8}
use bosch_shc_camera_client.Rcp.Markup.{is_hex, hex_value, hex_digit}
use bosch_shc_camera_client.Rcp.Parse.Words.{hex, AreBytes, hex_value-hex_digit}
use bosch_shc_camera_client.Rcp.Https.{
  Elements, Parsed, tree, find, octets, onto, is_gap, spaceless, from_hex_text, value_in, got,
  Network, rcp_url, parse_rcp_xml, read_text, read_opened, rcp_read_local_sync,
}

-- Bytes as the cameras write them: two digits each, a space between two bytes.
abbrev pub spaced_onto : Bytes → Text
spaced_onto [] = []
spaced_onto (b ∷ bs) = 32 ∷ hex_digit (b / 16) ∷ hex_digit (b % 16) ∷ spaced_onto bs

abbrev pub spaced_hex : Bytes → Text
spaced_hex [] = []
spaced_hex (b ∷ bs) = hex_digit (b / 16) ∷ hex_digit (b % 16) ∷ spaced_onto bs

hex_digit-no_space : (n : ℕ) → n < 16 → (hex_digit n == 32) ≡ false
unfolding hex_digit
hex_digit-no_space n h = ground arith

hex_digit-is_hex : (n : ℕ) → n < 16 → is_hex (hex_digit n) ≡ true
unfolding hex_digit is_hex
hex_digit-is_hex n h = ground arith

hex_digit-no_gap : (n : ℕ) → n < 16 → is_gap (hex_digit n) ≡ false
unfolding hex_digit
hex_digit-no_gap n h = ground arith

spaced_onto-spaceless : (bs : Bytes) → AreBytes bs → spaceless (spaced_onto bs) ≡ hex bs
unfolding hex
spaced_onto-spaceless [] h = refl
spaced_onto-spaceless (b ∷ bs) h =
    rw
      (
        hex_digit-no_space (b / 16) (omega (arith, h.0)),
        hex_digit-no_space (b % 16) (omega arith),
        spaced_onto-spaceless bs h.1,
      )
      refl

spaced_hex-spaceless : (bs : Bytes) → AreBytes bs → spaceless (spaced_hex bs) ≡ hex bs
unfolding hex
spaced_hex-spaceless [] h = refl
spaced_hex-spaceless (b ∷ bs) h =
    rw
      (
        hex_digit-no_space (b / 16) (omega (arith, h.0)),
        hex_digit-no_space (b % 16) (omega arith),
        spaced_onto-spaceless bs h.1,
      )
      refl

empty_text : from_hex_text none [] ≡ some []
unfolding from_hex_text
empty_text = refl

first_digit :
    (c : ℕ) (s : Text)
    → is_gap c ≡ false
    → is_hex c ≡ true
    → from_hex_text none (c ∷ s) ≡ from_hex_text (some (hex_value c)) s
unfolding from_hex_text
first_digit c s gap digit = ground (arith, gap, digit)

second_digit :
    (high c : ℕ) (s : Text)
    → is_hex c ≡ true
    → from_hex_text (some high) (c ∷ s) ≡ onto (high * 16 + hex_value c) (from_hex_text none s)
unfolding from_hex_text
second_digit high c s digit = ground (arith, digit)

next_octet :
    (b : ℕ) (s : Text)
    → b < 256
    → from_hex_text none (hex_digit (b / 16) ∷ hex_digit (b % 16) ∷ s)
      ≡ onto
          (hex_value (hex_digit (b / 16)) * 16 + hex_value (hex_digit (b % 16)))
          (from_hex_text none s)
next_octet b s h =
    first_digit (hex_digit (b / 16)) (hex_digit (b % 16) ∷ s)
      (hex_digit-no_gap (b / 16) (omega (arith, h))) (hex_digit-is_hex (b / 16) (omega (arith, h)))
    ∙ second_digit (hex_value (hex_digit (b / 16))) (hex_digit (b % 16)) s
        (hex_digit-is_hex (b % 16) (omega arith))

from_hex_text-hex : (bs : Bytes) → AreBytes bs → from_hex_text none (hex bs) ≡ some bs
unfolding hex
from_hex_text-hex [] h = empty_text
from_hex_text-hex (b ∷ bs) h =
    rw
      (
        next_octet b (hex bs) h.0,
        from_hex_text-hex bs h.1,
        hex_value-hex_digit (b / 16) (omega (arith, h.0)),
        hex_value-hex_digit (b % 16) (omega arith),
      )
      (ap (λ c. some (c ∷ bs)) (omega arith))

value_in-octets :
    (digit : ℕ → Option ℕ) (root : Elements) (bs : Bytes)
    → AreBytes bs
    → is_empty bs ≡ false
    → find (codes "err") root ≡ none
    → find (codes "str") root ≡ some (some (spaced_hex bs))
    → value_in digit (codes "P_OCTET") root ≡ some (octets bs)
unfolding value_in same
value_in-octets digit root [] h nonempty no_err str = grind arith
value_in-octets digit root (b ∷ bs) h nonempty no_err str =
    rw (no_err, str, value_in, spaced_hex-spaceless (b ∷ bs) h, from_hex_text-hex (b ∷ bs) h) refl

-- If the answer has status 200 and its document has no error in its results and, as the text of their
-- first `str`, at least one byte written in hexadecimal digits with a space between two bytes, then a
-- local read of octets returns exactly these bytes.
pub rcp_read_local_sync-octets :
    (parse : Text → Parsed) (digit : ℕ → Option ℕ) (network : Network)
    (host user pwd command : Text) (raw bs : Bytes) (root : Elements)
    → network
        (record { url = rcp_url host command (codes "P_OCTET"); credentials = some (user, pwd) })
      ≡ got (record { status = 200; body = got raw })
    → parse (decode_utf8 raw) ≡ tree root
    → find (codes "err") root ≡ none
    → find (codes "str") root ≡ some (some (spaced_hex bs))
    → AreBytes bs
    → is_empty bs ≡ false
    → rcp_read_local_sync parse digit network host user pwd command (codes "P_OCTET")
      ≡ got (some (octets bs))
unfolding rcp_read_local_sync read_opened read_text parse_rcp_xml
rcp_read_local_sync-octets parse digit network host user pwd command raw bs root answer document
      no_err str h nonempty =
    rw
      (
        answer,
        read_opened,
        read_text,
        parse_rcp_xml,
        document,
        value_in-octets digit root bs h nonempty no_err str,
      )
      refl
