-- ===== src/Tls/Transport/Setup.antt =====
-- tls_proxy.py: the rewriting of a SETUP request that asks for UDP.
use bosch_shc_camera_client.Common.{
  ℕ, ◌+◌, ◌≡◌, refl, ap, ◌∙◌, Bool, true, false, not, ◌||◌, [], ◌∷◌, ◌++◌, none, some, All, all,
  arith, ◌==◌, is_empty, length,
}
use bosch_shc_camera_client.Common.Texts.{Text, codes, contains}
use bosch_shc_camera_client.Common.Decimal.{decimal}
use bosch_shc_camera_client.Common.Utf8.{encode_utf8, is_scalar}
use bosch_shc_camera_client.Common.Utf8.Roundtrip.{decode_utf8-encode_utf8}
use bosch_shc_camera_client.Rcp.Markup.{is_nonspace_str}
use bosch_shc_camera_client.Tls.Transport.{
  is_line_end, skip_while, some_more, after_transport, interleaved, rewrite_from, rewrite_transport,
  forward,
}
use bosch_shc_camera_client.Tls.Transport.Fuel.{length-after_transport, rewrite_transport-fuel}
use bosch_shc_camera_client.Tls.Transport.Rewriting.{NoTransport, rewrite_transport-NoTransport}

-- The text goes on with no character that `p` accepts.
abbrev stops : (ℕ → Bool) → Text → Bool
stops p [] = true
stops p (c ∷ s) = not (p c)

skip_while-append :
    (p : ℕ → Bool) (s t : Text)
    → All (λ c. p c ≡ true) s
    → stops p t ≡ true
    → skip_while p (s ++ t) ≡ t
unfolding skip_while
skip_while-append p [] [] h k = refl
skip_while-append p [] (c ∷ t) h k = ground (arith, k)
skip_while-append p (c ∷ s) t (h, hs) k = rw (h) (skip_while-append p s t hs k)

-- A Transport header that names a client port: the white space behind its name, what follows RTP/AVP,
-- and the ports.
pub record Header : Type 0 where
  pub space : Text
  pub profile : Text
  pub ports : Text

abbrev pub header_text : Header → Text → Text
header_text h rest =
    codes "Transport:"
    ++ (h.space
        ++ (codes "RTP/AVP" ++ (h.profile ++ (codes ";unicast;client_port=" ++ (h.ports ++ rest)))))

-- The space is white; the profile holds no semicolon and no end of a line; there are ports, without an
-- end of a line.
pub record IsHeader (h : Header) : Type 0 where
  pub white : All (λ c. not (is_nonspace_str c) ≡ true) h.space
  pub plain : All (λ c. not (c == b';' || is_line_end c) ≡ true) h.profile
  pub named : is_empty h.ports ≡ false
  pub one_line : All (λ c. not (is_line_end c) ≡ true) h.ports

-- The text is empty or begins with an end of a line.
abbrev pub EndsLine : Text → Type 0
EndsLine rest = stops (λ c. not (is_line_end c)) rest ≡ true

some_more-append :
    (ports rest : Text)
    → is_empty ports ≡ false
    → All (λ c. not (is_line_end c) ≡ true) ports
    → EndsLine rest
    → some_more (ports ++ rest) ≡ some rest
some_more-append [] rest filled h k = grind arith
some_more-append (c ∷ ports) rest filled (h, hs) k =
    ground (arith, h, skip_while-append (λ c. not (is_line_end c)) ports rest hs k)

after_transport-header :
    (h : Header) (rest : Text)
    → IsHeader h
    → EndsLine rest
    → after_transport (header_text h rest) ≡ some rest
unfolding after_transport
after_transport-header h rest v k =
    let last = codes ";unicast;client_port=" ++ (h.ports ++ rest) in
    rw
      (
        after_transport,
        skip_while-append (λ c. not (is_nonspace_str c)) h.space
            (codes "RTP/AVP" ++ (h.profile ++ last)) v.white refl,
        skip_while-append (λ c. not (c == b';' || is_line_end c)) h.profile last v.plain refl,
      )
      (some_more-append h.ports rest v.named v.one_line k)

-- No match begins in the first text, where the second follows it.
abbrev pub NoEarlier : Text → Text → Type 0
NoEarlier [] s = Unit
NoEarlier (c ∷ before) s = (after_transport (c ∷ (before ++ s)) ≡ none) × NoEarlier before s

rewrite_transport-NoEarlier :
    (lo : ℕ) (before s : Text)
    → NoEarlier before s
    → rewrite_transport lo (before ++ s) ≡ before ++ rewrite_transport lo s
unfolding rewrite_transport
rewrite_transport-NoEarlier lo [] s h = refl
rewrite_transport-NoEarlier lo (c ∷ before) s (h, hs) =
    rw (h, rewrite_from) (ap (λ t. c ∷ t) (rewrite_transport-NoEarlier lo before s hs))

rewrite_transport-matched :
    (lo : ℕ) (s rest : Text)
    → is_empty s ≡ false
    → after_transport s ≡ some rest
    → rewrite_transport lo s ≡ interleaved lo ++ rewrite_transport lo rest
unfolding rewrite_transport
rewrite_transport-matched lo [] rest filled e = grind arith
rewrite_transport-matched lo (c ∷ s) rest filled e =
    rw (e, rewrite_from)
      (ap (λ t. interleaved lo ++ t)
        (rewrite_transport-fuel (length s) lo rest
          (omega (arith, length-after_transport (c ∷ s) rest e))))

rewrite_transport-header :
    (lo : ℕ) (before rest : Text) (h : Header)
    → NoEarlier before (header_text h rest)
    → IsHeader h
    → EndsLine rest
    → NoTransport rest
    → rewrite_transport lo (before ++ header_text h rest) ≡ before ++ (interleaved lo ++ rest)
rewrite_transport-header lo before rest h early v ends none_left =
    rewrite_transport-NoEarlier lo before (header_text h rest) early
    ∙ ap (λ t. before ++ t)
        (rewrite_transport-matched lo (header_text h rest) rest refl
            (after_transport-header h rest v ends)
          ∙ ap (λ t. interleaved lo ++ t) (rewrite_transport-NoTransport lo rest none_left))

-- The transport of two channels over TCP.
unfoldable pub channels : ℕ → Text
channels k =
    codes "Transport: RTP/AVP/TCP;unicast;interleaved=" ++ decimal k ++ codes "-" ++ decimal (k + 1)

interleaved-channels : (k : ℕ) → interleaved k ≡ channels k
unfolding interleaved channels
interleaved-channels k = refl

-- Let a chunk be the UTF-8 of a text that holds "SETUP " and a Transport header that names client ports
-- and ends its line or the text, and let no other place of the text begin such a header. Then a pipe
-- that rewrites puts the transport of the next two channels over TCP in place of the header, leaves the
-- rest of the chunk as it is, and raises its counter by two.
pub forward-header :
    (counter : ℕ) (before rest : Text) (h : Header)
    → contains (encode_utf8 (before ++ header_text h rest)) (codes "SETUP ") ≡ true
    → all is_scalar (before ++ header_text h rest) ≡ true
    → NoEarlier before (header_text h rest)
    → IsHeader h
    → EndsLine rest
    → NoTransport rest
    → forward true counter (encode_utf8 (before ++ header_text h rest))
      ≡ (counter + 2, encode_utf8 (before ++ (channels counter ++ rest)))
unfolding forward
forward-header counter before rest h setup scalar early v ends none_left = rw (setup) (
    ap (λ t. (counter + 2, encode_utf8 t))
      (ap (rewrite_transport counter)
          (decode_utf8-encode_utf8 (before ++ header_text h rest) scalar)
        ∙ rewrite_transport-header counter before rest h early v ends none_left
        ∙ ap (λ t. before ++ (t ++ rest)) (interleaved-channels counter)))
