-- ===== src/Rcp/Parse/Envelope.antt =====
-- `_is_xml_envelope`.
use mathlib.Core.Path.{subst}
use bosch_shc_camera_client.Common.{
  ℕ, ◌≡◌, refl, sym, ◌↔◌, inl, inr, Bool, true, false, ◌||◌, [], ◌∷◌, ◌++◌, Option, none, some,
  arith, ◌==◌, All, Bool-cases,
}
use bosch_shc_camera_client.Common.Texts.{Bytes, lstrip}

-- b"\n\r\t "
unfoldable pub is_blank : ℕ → Bool
is_blank c = c == 10 || c == 13 || c == 9 || c == 32

abbrev starts_xml : Bytes → Bool
starts_xml [] = true
starts_xml (c ∷ s) = c == b'<'

unfoldable pub is_xml_envelope : Option Bytes → Bool
unfolding lstrip is_blank
is_xml_envelope none = false
is_xml_envelope (some []) = false
is_xml_envelope (some (c ∷ s)) = starts_xml (lstrip is_blank (c ∷ s))

-- What the check is meant to see: blanks only, or an opening bracket behind blanks.
pub data Envelope : Bytes → Type 0 where
  blanks : (ws : Bytes) → All (λ c. is_blank c ≡ true) ws → Envelope ws
  markup : (ws s : Bytes) → All (λ c. is_blank c ≡ true) ws → Envelope (ws ++ b'<' ∷ s)

Envelope-blank : (c : ℕ) (s : Bytes) → is_blank c ≡ true → Envelope s → Envelope (c ∷ s)
Envelope-blank c s b (blanks ws h) = blanks (c ∷ ws) (b, h)
Envelope-blank c s b (markup ws t h) = markup (c ∷ ws) t (b, h)

starts_xml-Envelope : (s : Bytes) → starts_xml (lstrip is_blank s) ≡ true → Envelope s
unfolding lstrip
starts_xml-Envelope [] h = blanks [] tt
starts_xml-Envelope (c ∷ s) h = elim (Bool-cases (is_blank c)) [
  | inl b ↦ Envelope-blank c s b (starts_xml-Envelope s (ground arith))
  | inr b ↦
      let bracket : c ≡ b'<' = ground arith in
      subst (λ d. Envelope (d ∷ s)) (sym bracket) (markup [] s tt)
]

blanks-starts_xml :
    (ws : Bytes) → All (λ c. is_blank c ≡ true) ws → starts_xml (lstrip is_blank ws) ≡ true
unfolding lstrip
blanks-starts_xml [] h = refl
blanks-starts_xml (c ∷ ws) (b, h) = rw b (blanks-starts_xml ws h)

markup-starts_xml :
    (ws s : Bytes)
    → All (λ c. is_blank c ≡ true) ws
    → starts_xml (lstrip is_blank (ws ++ b'<' ∷ s)) ≡ true
unfolding lstrip is_blank
markup-starts_xml [] s h = refl
markup-starts_xml (c ∷ ws) s (b, h) = rw b (markup-starts_xml ws s h)

Envelope-starts_xml : {s : Bytes} → Envelope s → starts_xml (lstrip is_blank s) ≡ true
Envelope-starts_xml (blanks ws h) = blanks-starts_xml ws h
Envelope-starts_xml (markup ws s h) = markup-starts_xml ws s h

-- A reply counts as an XML envelope exactly if it is not empty and is blanks only, or blanks and then
-- an opening bracket.
pub is_xml_envelope_iff :
    (c : ℕ) (s : Bytes) → (is_xml_envelope (some (c ∷ s)) ≡ true) ↔ Envelope (c ∷ s)
unfolding is_xml_envelope
is_xml_envelope_iff c s = (starts_xml-Envelope (c ∷ s), Envelope-starts_xml)
