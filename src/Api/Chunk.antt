-- ===== src/Api/Chunk.antt =====
-- shiitake-worker-api/src/lib.rs: the binary output chunk. A panic of `expect` is `none`.
pub mod RoundTrip
use shiitake.Prelude.{
  ℕ, ◌+◌, ◌*◌, ◌/◌, ◌%◌, Option, none, some, List, [], ◌∷◌, ◌++◌, ltb, ◌==◌, if◌then◌else◌, length,
  take, drop, Str, str, Result, ok, err, ◌>>=◌,
}
use shiitake.Api.Utf8.{is_utf8}

pub data OutputStream : Type 0 where
  stdout stderr terminal stdin : OutputStream

-- `self as u8`
unfoldable pub stream_byte : OutputStream → ℕ
stream_byte stdout = 0
stream_byte stderr = 1
stream_byte terminal = 2
stream_byte stdin = 3

unfoldable pub try_from : ℕ → Result OutputStream Str
try_from value =
    if value == 0
    then ok stdout
    else if value == 1
    then ok stderr
    else if value == 2
    then ok terminal
    else if value == 3
    then ok stdin
    else err (str "unknown output stream")

pub record OutputChunk : Type 0 where
  pub stream : OutputStream
  pub id : Str
  pub bytes : List ℕ

unfoldable pub encode : OutputChunk → Option (List ℕ)
unfolding stream_byte
encode chunk =
    let len = length chunk.id in
    if ltb len 65536
    then some (stream_byte chunk.stream ∷ len / 256 ∷ len % 256 ∷ (chunk.id ++ chunk.bytes))
    else none

-- What follows the three header bytes.
unfoldable pub decode_body : OutputStream → ℕ → List ℕ → Result OutputChunk Str
decode_body stream len rest =
    if ltb (length rest) len
    then err (str "short output id")
    else if is_utf8 (take len rest)
    then ok (record { stream = stream; id = take len rest; bytes = drop len rest })
    else err (str "invalid output id")

unfoldable pub decode : List ℕ → Result OutputChunk Str
decode (s ∷ hi ∷ lo ∷ rest) = do stream ← try_from s; decode_body stream (hi * 256 + lo) rest
decode _ = err (str "short output header")
