-- ===== src/Tls/Transport.antt =====
-- `_pipe`: the bytes that it forwards, and the rewriting of RTSP SETUP requests to TCP interleaved
-- transport.
pub mod Rewriting
pub mod Fuel
pub mod Setup
use bosch_shc_camera_client.Common.{
  ℕ, zero, suc, ◌+◌, Bool, true, false, not, ◌&&◌, ◌||◌, List, [], ◌∷◌, ◌++◌, Option, none, some,
  ◌==◌, if◌then◌else◌, length,
}
use bosch_shc_camera_client.Common.Texts.{Text, Bytes, codes, contains, lstrip}
use bosch_shc_camera_client.Common.Utf8.{decode_utf8, encode_utf8}
use bosch_shc_camera_client.Common.Decimal.{decimal}
use bosch_shc_camera_client.Rcp.Markup.{after_prefix, is_nonspace_str}

abbrev pub is_line_end : ℕ → Bool
is_line_end c = c == 13 || c == 10

-- The rest behind ([^...])+ and behind ([^...])*, taken as far as they go: what follows each of them
-- in the pattern begins with a character outside the class, or is the end.
unfoldable pub skip_while : (ℕ → Bool) → Text → Text
skip_while p [] = []
skip_while p (c ∷ s) = let rest = skip_while p s in if p c then rest else c ∷ s

abbrev pub same_char : ℕ → ℕ
same_char c = c

abbrev no_more : Text → Option Text
no_more s = some (skip_while (λ c. not (is_line_end c)) s)

abbrev pub some_more : Text → Option Text
some_more [] = none
some_more (c ∷ s) = if is_line_end c then none else no_more s

-- Behind `Transport:\s*RTP/AVP[^;\r\n]*;unicast;client_port=[^\r\n]+` at the head of the text.
unfoldable pub after_transport : Text → Option Text
unfolding after_prefix skip_while is_nonspace_str
after_transport s = elim (after_prefix same_char (codes "Transport:") s) [
  | none ↦ none
  | some a ↦
      elim (after_prefix same_char (codes "RTP/AVP")
        (skip_while (λ c. not (is_nonspace_str c)) a)) [
          | none ↦ none
          | some b ↦
              elim (after_prefix same_char (codes ";unicast;client_port=")
                (skip_while (λ c. not (c == b';' || is_line_end c)) b)) [
                  | none ↦ none
                  | some d ↦ some_more d
                ]
        ]
]

-- f"Transport: RTP/AVP/TCP;unicast;interleaved={lo}-{hi}"
unfoldable pub interleaved : ℕ → Text
unfolding decimal
interleaved lo =
    codes "Transport: RTP/AVP/TCP;unicast;interleaved="
    ++ decimal lo
    ++ codes "-"
    ++ decimal (lo + 1)

-- re.sub, with as much fuel as the text is long
unfoldable pub rewrite_from : ℕ → ℕ → Text → Text
unfolding after_transport interleaved
rewrite_from zero lo s = s
rewrite_from (suc fuel) lo [] = []
rewrite_from (suc fuel) lo (c ∷ s) = elim (after_transport (c ∷ s)) [
  | none ↦ c ∷ rewrite_from fuel lo s
  | some rest ↦ interleaved lo ++ rewrite_from fuel lo rest
]

unfoldable pub rewrite_transport : ℕ → Text → Text
unfolding rewrite_from
rewrite_transport lo s = rewrite_from (length s) lo s

-- What one read of the pipe gives.
pub data Read : Type 0 where
  chunk : Bytes → Read
  idle : Read
  broken : Read

-- The counter after a chunk, and the chunk as it is written.
unfoldable pub forward : Bool → ℕ → Bytes → ℕ × Bytes
unfolding contains rewrite_transport decode_utf8 encode_utf8
forward rewrite counter bytes =
    if rewrite && contains bytes (codes "SETUP ")
    then (counter + 2, encode_utf8 (rewrite_transport counter (decode_utf8 bytes)))
    else (counter, bytes)

-- What becomes of one write: it raises; or the writer takes the chunk, and the wait for it to drain
-- raises, or ends.
pub data WriteResult : Type 0 where
  refused : WriteResult
  undrained : WriteResult
  drained : WriteResult

-- The chunks that the writer takes, from this one on.
abbrev pub after_write : WriteResult → Bytes → List Bytes → List Bytes
after_write refused bytes rest = []
after_write undrained bytes rest = bytes ∷ []
after_write drained bytes rest = bytes ∷ rest

-- What the pipe hands to its writer, for the reads that it makes and what becomes of its first write,
-- its second and so on. It ends at a timeout, at an exception of a read or of a write, or at the end of
-- the stream, which is an empty chunk.
unfoldable pub pipe : Bool → ℕ → (ℕ → WriteResult) → List Read → List Bytes
unfolding forward
pipe rewrite counter writes [] = []
pipe rewrite counter writes (idle ∷ reads) = []
pipe rewrite counter writes (broken ∷ reads) = []
pipe rewrite counter writes (chunk [] ∷ reads) = []
pipe rewrite counter writes (chunk (b ∷ bytes) ∷ reads) =
    let (counter', bytes') = forward rewrite counter (b ∷ bytes) in
    after_write (writes 0) bytes' (pipe rewrite counter' (λ k. writes (suc k)) reads)
