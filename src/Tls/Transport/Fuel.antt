-- ===== src/Tls/Transport/Fuel.antt =====
-- The fuel of `rewrite_from`.
use bosch_shc_camera_client.Common.{
  ℕ, zero, suc, ◌+◌, ◌≤◌, ◌<◌, ◌≡◌, refl, ap, inl, inr, Bool, not, ◌||◌, [], ◌∷◌, ◌++◌, some, arith,
  ◌==◌, length, Option-cases,
}
use bosch_shc_camera_client.Common.Texts.{Text, codes}
use bosch_shc_camera_client.Rcp.Markup.{after_prefix, is_nonspace_str}
use bosch_shc_camera_client.Tls.Transport.{
  same_char, skip_while, after_transport, interleaved, rewrite_from, rewrite_transport, is_line_end,
  some_more,
}

length-after_prefix :
    (p s r : Text) → after_prefix same_char p s ≡ some r → length r + length p ≡ length s
unfolding after_prefix
length-after_prefix [] s r h = ground arith
length-after_prefix (d ∷ p) [] r h = cc
length-after_prefix (d ∷ p) (c ∷ s) r h = ground (arith, length-after_prefix p s r)

length-skip_while : (p : ℕ → Bool) (s : Text) → length (skip_while p s) ≤ length s
unfolding skip_while
length-skip_while p [] = omega arith
length-skip_while p (c ∷ s) = ground (arith, length-skip_while p s)

length-some_more : (s r : Text) → some_more s ≡ some r → length r ≤ length s
length-some_more [] r h = cc
length-some_more (c ∷ s) r h = ground (arith, length-skip_while (λ c. not (is_line_end c)) s)

-- A match takes at least the eleven characters of its first word.
pub length-after_transport : (s r : Text) → after_transport s ≡ some r → length r < length s
unfolding after_transport
length-after_transport s r h = elim (Option-cases (after_prefix same_char (codes "Transport:") s)) [
  | inl e ↦ ground arith
  | inr (a, e) ↦
      elim (Option-cases
        (after_prefix same_char (codes "RTP/AVP") (skip_while (λ c. not (is_nonspace_str c)) a))) [
          | inl e2 ↦ ground arith
          | inr (b, e2) ↦
              elim (Option-cases (
                after_prefix same_char (codes ";unicast;client_port=")
                  (skip_while (λ c. not (c == b';' || is_line_end c)) b))) [
                    | inl e3 ↦ ground arith
                    | inr (d, e3) ↦
                        let last : some_more d ≡ some r = ground arith in
                        omega (
                          arith,
                          length-after_prefix (codes "Transport:") s a e,
                          length-skip_while (λ c. not (is_nonspace_str c)) a,
                          length-after_prefix (codes "RTP/AVP")
                              (skip_while (λ c. not (is_nonspace_str c)) a) b e2,
                          length-skip_while (λ c. not (c == b';' || is_line_end c)) b,
                          length-after_prefix (codes ";unicast;client_port=")
                              (skip_while (λ c. not (c == b';' || is_line_end c)) b) d e3,
                          length-some_more d r last,
                        )
                  ]
        ]
]

rewrite_from-fuel :
    (f g lo : ℕ) (s : Text)
    → length s ≤ f
    → length s ≤ g
    → rewrite_from f lo s ≡ rewrite_from g lo s
unfolding rewrite_from
rewrite_from-fuel zero zero lo s h h' = refl
rewrite_from-fuel zero (suc g) lo [] h h' = refl
rewrite_from-fuel zero (suc g) lo (c ∷ s) h h' = absurd (omega arith)
rewrite_from-fuel (suc f) zero lo [] h h' = refl
rewrite_from-fuel (suc f) zero lo (c ∷ s) h h' = absurd (omega arith)
rewrite_from-fuel (suc f) (suc g) lo [] h h' = refl
rewrite_from-fuel (suc f) (suc g) lo (c ∷ s) h h' = elim (Option-cases (after_transport (c ∷ s))) [
  | inl e ↦
      rw (e, rewrite_from)
        (ap (λ t. c ∷ t) (rewrite_from-fuel f g lo s (omega arith) (omega arith)))
  | inr (rest, e) ↦
      let shorter = length-after_transport (c ∷ s) rest e in
      rw (e, rewrite_from)
        (ap (λ t. interleaved lo ++ t)
          (rewrite_from-fuel f g lo rest (omega (arith, shorter)) (omega (arith, shorter))))
]

-- Any fuel of at least the length of the text gives the same rewritten text, so that the fuel of
-- `rewrite_transport` is enough.
pub rewrite_transport-fuel :
    (fuel lo : ℕ) (s : Text) → length s ≤ fuel → rewrite_from fuel lo s ≡ rewrite_transport lo s
unfolding rewrite_transport
rewrite_transport-fuel fuel lo s h = rewrite_from-fuel fuel (length s) lo s h (omega arith)
