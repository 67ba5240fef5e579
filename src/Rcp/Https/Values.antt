-- ===== src/Rcp/Https/Values.antt =====
-- local_rcp.py: the kind of a value that a document holds.
use bosch_shc_camera_client.Common.{
  ℕ, ◌+◌, ◌*◌, ◌<◌, ◌≡◌, refl, Bool, true, false, not, [], ◌∷◌, Option, none, some, arith,
  if◌then◌else◌,
}
use bosch_shc_camera_client.Common.Texts.{Bytes, Text, codes, same, same_eq, strip}
use bosch_shc_camera_client.Common.Utf8.{}
use bosch_shc_camera_client.Rcp.Markup.{is_hex, hex_value, is_nonspace_str}
use bosch_shc_camera_client.Rcp.Parse.Words.{AreBytes}
use bosch_shc_camera_client.Common.Integers.{ℤ}
use bosch_shc_camera_client.Rcp.Https.{
  Elements, find, Value, number, characters, octets, is_gap, onto, number_in, characters_in,
  octets_in, spaceless, int_of, from_hex_text, is_number_type, value_in,
}

hex_value-lt : (c : ℕ) → is_hex c ≡ true → hex_value c < 16
unfolding is_hex hex_value
hex_value-lt c h = ground arith

-- What decodes are bytes.
abbrev AllBytes : Option Bytes → Type 0
AllBytes none = Unit
AllBytes (some bs) = AreBytes bs

abbrev Below16 : Option ℕ → Type 0
Below16 none = Unit
Below16 (some d) = d < 16

AllBytes-choose :
    (b : Bool) (x y : Option Bytes)
    → (b ≡ true → AllBytes x)
    → AllBytes y
    → AllBytes (elim b [ true ↦ x | false ↦ y ])
AllBytes-choose true x y hx hy = hx refl
AllBytes-choose false x y hx hy = hy

onto-AllBytes : (d : ℕ) (o : Option Bytes) → d < 256 → AllBytes o → AllBytes (onto d o)
onto-AllBytes d none h k = tt
onto-AllBytes d (some bs) h k = (h, k)

from_hex_text-AllBytes :
    (high : Option ℕ) (s : Text) → Below16 high → AllBytes (from_hex_text high s)
unfolding from_hex_text
from_hex_text-AllBytes none [] h = tt
from_hex_text-AllBytes (some high) [] h = tt
from_hex_text-AllBytes none (c ∷ s) h =
    AllBytes-choose (is_gap c) (from_hex_text none s)
      (elim (is_hex c) [ true ↦ from_hex_text (some (hex_value c)) s | false ↦ none ])
      (λ e. from_hex_text-AllBytes none s tt)
      (AllBytes-choose (is_hex c) (from_hex_text (some (hex_value c)) s) none
        (λ e. from_hex_text-AllBytes (some (hex_value c)) s (hex_value-lt c e)) tt)
from_hex_text-AllBytes (some high) (c ∷ s) h =
    AllBytes-choose (is_hex c) (onto (high * 16 + hex_value c) (from_hex_text none s)) none
      (λ e.
        onto-AllBytes (high * 16 + hex_value c) (from_hex_text none s)
          (omega (arith, h, hex_value-lt c e)) (from_hex_text-AllBytes none s tt))
      tt

-- A value has the kind that its type of command names.
abbrev pub HasKind : Text → Value → Type 0
HasKind type (number n) = is_number_type type ≡ true
HasKind type (characters s) = type ≡ codes "P_STRING"
HasKind type (octets bs) = (type ≡ codes "P_OCTET") × AreBytes bs

abbrev pub Held : Text → Option Value → Type 0
Held type none = Unit
Held type (some v) = HasKind type v

Held-if :
    (type : Text) (b : Bool) (x y : Option Value)
    → (b ≡ true → Held type x)
    → Held type y
    → Held type (if b then x else y)
Held-if type true x y hx hy = hx refl
Held-if type false x y hx hy = hy

octets-Held :
    (type : Text) (o : Option Bytes)
    → type ≡ codes "P_OCTET"
    → AllBytes o
    → Held type (elim o [ none ↦ none | some bs ↦ some (octets bs) ])
octets-Held type none e h = tt
octets-Held type (some bs) e h = (e, h)

number-Held :
    (type : Text) (o : Option ℤ)
    → is_number_type type ≡ true
    → Held type (elim o [ none ↦ none | some n ↦ some (number n) ])
number-Held type none e = tt
number-Held type (some n) e = e

number_in-Held :
    (digit : ℕ → Option ℕ) (type : Text) (o : Option (Option Text))
    → is_number_type type ≡ true
    → Held type (number_in digit o)
number_in-Held digit type none h = tt
number_in-Held digit type (some none) h = tt
number_in-Held digit type (some (some [])) h = tt
number_in-Held digit type (some (some (c ∷ s))) h =
    number-Held type (int_of digit (strip (λ c. not (is_nonspace_str c)) (c ∷ s))) h

characters_in-Held :
    (type : Text) (o : Option (Option Text)) → type ≡ codes "P_STRING" → Held type (characters_in o)
characters_in-Held type none h = tt
characters_in-Held type (some none) h = tt
characters_in-Held type (some (some s)) h = h

octets_in-Held :
    (type : Text) (o : Option (Option Text)) → type ≡ codes "P_OCTET" → Held type (octets_in o)
octets_in-Held type none h = tt
octets_in-Held type (some none) h = tt
octets_in-Held type (some (some [])) h = tt
octets_in-Held type (some (some (c ∷ s))) h =
    octets-Held type (from_hex_text none (spaceless (c ∷ s))) h
      (from_hex_text-AllBytes none (spaceless (c ∷ s)) tt)

pub value_in-HasKind :
    (digit : ℕ → Option ℕ) (type : Text) (root : Elements)
    → Held type (value_in digit type root)
      × ((v : Value) → value_in digit type root ≡ some v → find (codes "err") root ≡ none)
unfolding value_in
value_in-HasKind digit type root = cases (find (codes "err") root)
  where
    chosen : Option Value
    chosen =
        if is_number_type type
        then number_in digit (find (codes "dec") root)
        else if same type (codes "P_STRING")
        then characters_in (find (codes "str") root)
        else if same type (codes "P_OCTET")
        then octets_in (find (codes "str") root)
        else none

    cases :
        (o : Option (Option Text))
        → Held type (elim o [ some text ↦ none | none ↦ chosen ])
          × ((v : Value) → elim o [ some text ↦ none | none ↦ chosen ] ≡ some v → o ≡ none)
    cases (some text) = (tt, λ v e. grind arith)
    cases none = (
      Held-if type (is_number_type type) (number_in digit (find (codes "dec") root))
          (if same type (codes "P_STRING")
            then characters_in (find (codes "str") root)
            else if same type (codes "P_OCTET")
            then octets_in (find (codes "str") root)
            else none)
          (number_in-Held digit type (find (codes "dec") root))
          (Held-if type (same type (codes "P_STRING")) (characters_in (find (codes "str") root))
            (if same type (codes "P_OCTET") then octets_in (find (codes "str") root) else none)
            (λ e.
              characters_in-Held type (find (codes "str") root) (same_eq type (codes "P_STRING") e))
            (Held-if type (same type (codes "P_OCTET")) (octets_in (find (codes "str") root)) none
              (λ e.
                octets_in-Held type (find (codes "str") root) (same_eq type (codes "P_OCTET") e))
              tt)),
      λ v e. refl,
    )
