-- ===== src/Tls/Handling/Relaying.antt =====
-- tls_proxy.py: what a client and a camera get of one another through the proxy.
use bosch_shc_camera_client.Common.{
  ℕ, ◌≡◌, refl, sym, ap, ◌∙◌, true, false, ◌⊎◌, inl, inr, List, [], ◌∷◌, some, all, All, arith,
  Bool-cases,
}
use bosch_shc_camera_client.Common.Texts.{Text, Bytes, codes, contains}
use bosch_shc_camera_client.Common.Dict.{string_key}
use bosch_shc_camera_client.Common.Utf8.{decode_utf8, encode_utf8, is_scalar}
use bosch_shc_camera_client.Common.Utf8.Roundtrip.{decode_utf8-encode_utf8}
use bosch_shc_camera_client.Tls.Breaker.{closed}
use bosch_shc_camera_client.Tls.Registry.{Proxy, State, connect_done}
use bosch_shc_camera_client.Tls.Transport.{forward, rewrite_transport}
use bosch_shc_camera_client.Tls.Transport.Rewriting.{
  until_end, IsKept, Drains, IsStart, pipe-IsStart, NoTransport, rewrite_transport-NoTransport,
}
use bosch_shc_camera_client.Tls.Handling.{Connection, gather, handle_client}

-- A chunk that is no SETUP request, or is UTF-8 in which no place begins a Transport header with a
-- client port.
abbrev pub IsNeutral : Bytes → Type 0
IsNeutral bytes =
    (contains bytes (codes "SETUP ") ≡ false)
    ⊎ ((s : Text) × (bytes ≡ encode_utf8 s) × (all is_scalar s ≡ true) × NoTransport s)

rewritten :
    (counter : ℕ) (s : Text)
    → all is_scalar s ≡ true
    → NoTransport s
    → encode_utf8 (rewrite_transport counter (decode_utf8 (encode_utf8 s))) ≡ encode_utf8 s
rewritten counter s scalar neutral =
    ap (λ t. encode_utf8 (rewrite_transport counter t)) (decode_utf8-encode_utf8 s scalar)
    ∙ ap encode_utf8 (rewrite_transport-NoTransport counter s neutral)

forward-IsNeutral :
    (counter : ℕ) (bytes : Bytes) → IsNeutral bytes → (forward true counter bytes).1 ≡ bytes
unfolding forward
forward-IsNeutral counter bytes (inl plain) = rw (plain) refl
forward-IsNeutral counter bytes (inr (s, e, scalar, neutral)) =
    elim (Bool-cases (contains bytes (codes "SETUP "))) [
      | inl h ↦ rw (h) (
          ap (λ b. encode_utf8 (rewrite_transport counter (decode_utf8 b))) e
          ∙ rewritten counter s scalar neutral
          ∙ sym e)
      | inr h ↦ rw (h) refl
    ]

IsNeutral-IsKept : (chunks : List Bytes) → All IsNeutral chunks → All (IsKept true) chunks
IsNeutral-IsKept [] h = tt
IsNeutral-IsKept (c ∷ chunks) (neutral, h) =
    (λ counter. forward-IsNeutral counter c neutral, IsNeutral-IsKept chunks h)

-- Where nothing is rewritten, every chunk is written as it is.
kept : (chunks : List Bytes) → All (IsKept false) chunks
unfolding forward
kept [] = tt
kept (c ∷ chunks) = (λ counter. refl, kept chunks)

-- When a client of a proxy's server is connected to the camera, and each chunk that the client sends
-- before the end of its stream, its timeout or an error holds no SETUP request or is UTF-8 without a
-- Transport header that names a client port, then what the writer to the client takes is a start of the
-- chunks that the camera sends before the end of its stream or an error, in order and unchanged, and it
-- has the first i of them at least if the first i writes succeed; likewise what the writer to the camera
-- takes is a start of the client's chunks, with the first j if the first j writes succeed. The proxy's
-- breaker is closed afterwards.
pub handle_client-relays :
    (n now i j : ℕ) (c : Connection) (p : Proxy) (s : State)
    → s.proxies n ≡ some p
    → All IsNeutral (until_end c.client_reads)
    → Drains i c.client_writes (until_end c.camera_reads)
    → Drains j c.camera_writes (until_end c.client_reads)
    → let result = handle_client n now (some c) s in
      IsStart i (until_end c.camera_reads) result.1.to_client
      × IsStart j (until_end c.client_reads) result.1.to_camera
      × (result.0.proxies n ≡ some (record p { breaker = closed }))
unfolding handle_client gather connect_done
handle_client-relays n now i j c p s found neutral client camera = (
  pipe-IsStart i false 0 c.client_writes c.camera_reads (kept (until_end c.camera_reads)) client,
  pipe-IsStart j true 0 c.camera_writes c.client_reads
      (IsNeutral-IsKept (until_end c.client_reads) neutral) camera,
  ground (arith, found),
)
