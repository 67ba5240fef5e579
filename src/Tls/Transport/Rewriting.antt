-- ===== src/Tls/Transport/Rewriting.antt =====
-- What the pipe leaves as it is, and what it rewrites.
use bosch_shc_camera_client.Common.{
  ℕ, suc, ◌-◌, ◌≤◌, ◌<◌, ◌≡◌, refl, ap, ◌∙◌, Bool, List, [], ◌∷◌, ◌++◌, none, All, arith, length,
}
use bosch_shc_camera_client.Common.Texts.{Text, Bytes}
use bosch_shc_camera_client.Tls.Transport.{
  Read, chunk, idle, broken, WriteResult, refused, undrained, drained, after_write, forward, pipe,
  after_transport, rewrite_from, rewrite_transport,
}

-- The chunks that are read before the stream ends.
unfoldable pub until_end : List Read → List Bytes
until_end [] = []
until_end (idle ∷ reads) = []
until_end (broken ∷ reads) = []
until_end (chunk [] ∷ reads) = []
until_end (chunk (b ∷ bytes) ∷ reads) = (b ∷ bytes) ∷ until_end reads

-- The chunk is written as it is, whatever the counter.
abbrev pub IsKept : Bool → Bytes → Type 0
IsKept rewrite bytes = (counter : ℕ) → (forward rewrite counter bytes).1 ≡ bytes

-- The first chunks are there to be read, and so many writes succeed.
abbrev pub Drains : ℕ → (ℕ → WriteResult) → List Bytes → Type 0
Drains i writes chunks = (i ≤ length chunks) × ((k : ℕ) → k < i → writes k ≡ drained)

-- A part of the chunks from the first on, with so many of them at least.
abbrev pub IsStart : ℕ → List Bytes → List Bytes → Type 0
IsStart i chunks taken = ((rest : List Bytes) × (taken ++ rest ≡ chunks)) × (i ≤ length taken)

after_write-IsStart :
    (i : ℕ) (w : WriteResult) (bytes bytes' : Bytes) (chunks taken : List Bytes)
    → bytes' ≡ bytes
    → (0 < i → w ≡ drained)
    → IsStart (i - 1) chunks taken
    → IsStart i (bytes ∷ chunks) (after_write w bytes' taken)
after_write-IsStart i refused bytes bytes' chunks taken e succeeds h =
    ((bytes ∷ chunks, refl), ground (arith, succeeds))
after_write-IsStart i undrained bytes bytes' chunks taken e succeeds h =
    ((chunks, ap (λ b. b ∷ chunks) e), ground (arith, succeeds))
after_write-IsStart i drained bytes bytes' chunks taken e succeeds ((rest, k), enough) =
    ((rest, ap (λ b. b ∷ (taken ++ rest)) e ∙ ap (λ cs. bytes ∷ cs) k), omega (arith, enough))

-- If each chunk before a timeout, an error or the end of the stream is written as it is, then the writer
-- of a pipe takes these chunks in order and unchanged up to a write that fails.
pub pipe-IsStart :
    (i : ℕ) (rewrite : Bool) (counter : ℕ) (writes : ℕ → WriteResult) (reads : List Read)
    → All (IsKept rewrite) (until_end reads)
    → Drains i writes (until_end reads)
    → IsStart i (until_end reads) (pipe rewrite counter writes reads)
unfolding pipe until_end
pipe-IsStart i rewrite counter writes [] h (few, succeeds) = (([], refl), few)
pipe-IsStart i rewrite counter writes (idle ∷ reads) h (few, succeeds) = (([], refl), few)
pipe-IsStart i rewrite counter writes (broken ∷ reads) h (few, succeeds) = (([], refl), few)
pipe-IsStart i rewrite counter writes (chunk [] ∷ reads) h (few, succeeds) = (([], refl), few)
pipe-IsStart i rewrite counter writes (chunk (b ∷ bytes) ∷ reads) (kept, h) (few, succeeds) =
    let forwarded = forward rewrite counter (b ∷ bytes) in
    after_write-IsStart i (writes 0) (b ∷ bytes) forwarded.1 (until_end reads)
      (pipe rewrite forwarded.0 (λ k. writes (suc k)) reads) (kept counter) (succeeds 0)
      (pipe-IsStart (i - 1) rewrite forwarded.0 (λ k. writes (suc k)) reads h
        (omega (arith, few), λ k below. succeeds (suc k) (omega (arith, below))))

-- No match begins at any place of the text.
abbrev pub NoTransport : Text → Type 0
NoTransport [] = Unit
NoTransport (c ∷ s) = (after_transport (c ∷ s) ≡ none) × NoTransport s

-- A text in which no place begins a Transport header with a client port is left as it is.
pub rewrite_transport-NoTransport : (lo : ℕ) (s : Text) → NoTransport s → rewrite_transport lo s ≡ s
unfolding rewrite_transport
rewrite_transport-NoTransport lo [] h = refl
rewrite_transport-NoTransport lo (c ∷ s) (e, h) =
    rw (e, rewrite_from) (ap (λ r. c ∷ r) (rewrite_transport-NoTransport lo s h))
