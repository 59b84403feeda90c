-- ===== src/Api/Chunk/RoundTrip.antt =====
-- shiitake-worker-api/src/lib.rs: the chunk codec's two directions against each other.
use shiitake.Prelude.{
  ℕ, ◌+◌, ◌*◌, ◌/◌, ◌%◌, ◌<◌, ◌≡◌, refl, sym, ◌∙◌, true, some, List, ◌∷◌, ◌++◌, arith, length,
  length-append, take-length-append, drop-length-append, take-append-drop, length-take, Str, Result,
  ok, err, ◌>>=◌,
}
use shiitake.Api.Utf8.{is_utf8}
use shiitake.Api.Chunk.{
  OutputStream, OutputChunk, encode, decode, decode_body, stream_byte, try_from,
}

try_from-stream_byte : (s : OutputStream) → try_from (stream_byte s) ≡ ok s
unfolding try_from stream_byte
try_from-stream_byte OutputStream.stdout = refl
try_from-stream_byte _ = refl

stream_byte-try_from : (b : ℕ) (s : OutputStream) → try_from b ≡ ok s → stream_byte s ≡ b
unfolding try_from stream_byte
stream_byte-try_from b s h = ground arith

decode_body-append :
    (s : OutputStream) (id bytes : List ℕ)
    → is_utf8 id ≡ true
    → decode_body s (length id) (id ++ bytes) ≡ ok (record { stream = s; id = id; bytes = bytes })
unfolding decode_body
decode_body-append s id bytes valid =
    ground (arith, length-append id bytes, take-length-append id bytes, drop-length-append id bytes)

header : (n : ℕ) → n / 256 * 256 + n % 256 ≡ n
header n = omega arith

decode_body-eq_ok :
    (s : OutputStream) (n : ℕ) (rest : List ℕ) (c : OutputChunk)
    → decode_body s n rest ≡ ok c
    → (c.stream ≡ s) × (length c.id ≡ n) × (c.id ++ c.bytes ≡ rest)
unfolding decode_body
decode_body-eq_ok s n rest c h = ground (arith, length-take n rest, take-append-drop n rest)

-- A chunk whose id is UTF-8 and shorter than 65536 bytes is encoded, without a panic, to bytes that
-- decode to that very chunk.
pub decode-encode :
    (c : OutputChunk)
    → is_utf8 c.id ≡ true
    → length c.id < 65536
    → (bs : List ℕ) × (encode c ≡ some bs) × (decode bs ≡ ok c)
unfolding encode decode
decode-encode c valid short = (
  stream_byte c.stream ∷ length c.id / 256 ∷ length c.id % 256 ∷ (c.id ++ c.bytes),
  ground arith,
  rw (try_from-stream_byte c.stream, header (length c.id))
      (decode_body-append c.stream c.id c.bytes valid),
)

-- Bytes that decode are, where the header holds bytes, the encoding of the chunk they decode to, so
-- no two byte strings decode to one chunk.
pub encode-decode :
    (s hi lo : ℕ) (rest : List ℕ) (c : OutputChunk)
    → hi < 256
    → lo < 256
    → decode (s ∷ hi ∷ lo ∷ rest) ≡ ok c
    → encode c ≡ some (s ∷ hi ∷ lo ∷ rest)
unfolding decode encode
encode-decode s hi lo rest c hhi hlo h = go (try_from s) refl h
  where
    go :
        (r : Result OutputStream Str)
        → try_from s ≡ r
        → (r >>= λ stream. decode_body stream (hi * 256 + lo) rest) ≡ ok c
        → encode c ≡ some (s ∷ hi ∷ lo ∷ rest)
    go (err e) q d = cc
    go (ok x) q d =
        ground (arith, stream_byte-try_from s x q, decode_body-eq_ok x (hi * 256 + lo) rest c d)

-- A chunk whose id is UTF-8 and shorter than 65536 bytes is encoded, without a panic, to bytes that
-- decode to it, and of the bytes with a header no others do.
pub decode-encode_unique :
    (c : OutputChunk)
    → is_utf8 c.id ≡ true
    → length c.id < 65536
    → (bs : List ℕ) × (encode c ≡ some bs)
      × (decode bs ≡ ok c)
      × ((s hi lo : ℕ) (rest : List ℕ)
          → hi < 256
          → lo < 256
          → decode (s ∷ hi ∷ lo ∷ rest) ≡ ok c
          → some (s ∷ hi ∷ lo ∷ rest) ≡ some bs)
decode-encode_unique c valid short =
    let (bs, encoded, decoded) = decode-encode c valid short in
    (
      bs,
      encoded,
      decoded,
      λ s hi lo rest hhi hlo h. sym (encode-decode s hi lo rest c hhi hlo h) ∙ encoded,
    )
