-- ===== src/Pool/Ids.antt =====
-- shiitake-server/src/pool/mod.rs: which handle ids may name a capture directory.
use shiitake.Prelude.{
  ℕ, ◌<◌, ◌≡◌, refl, Bool, true, not, ◌&&◌, some, List, [], ◌∷◌, arith, ltb, leb, length, is_empty,
  all, Str, is_ascii_alphanumeric, ok,
}
use shiitake.Api.Capture.{is_id_byte, handle_dir, sanitize_id}
use shiitake.Api.Capture.Paths.{handle_dir-injective, sanitize_id-eq}
use shiitake.Api.Utf8.{ascii-is_utf8}
use shiitake.Api.Chunk.{OutputChunk, encode, decode}
use shiitake.Api.Chunk.RoundTrip.{decode-encode}

unfoldable pub valid_capture_id : Str → Bool
unfolding is_id_byte
valid_capture_id id = not (is_empty id) && leb (length id) 128 && all is_id_byte id

valid-bytes : (id : Str) → valid_capture_id id ≡ true → all is_id_byte id ≡ true
unfolding valid_capture_id
valid-bytes id h = ground arith

valid-length : (id : Str) → valid_capture_id id ≡ true → length id < 65536
unfolding valid_capture_id
valid-length id h = ground arith

id_bytes-ascii : (id : Str) → all is_id_byte id ≡ true → all (λ b. ltb b 128) id ≡ true
unfolding is_id_byte is_ascii_alphanumeric
id_bytes-ascii [] h = refl
id_bytes-ascii (b ∷ bs) h = ground (arith, id_bytes-ascii bs)

-- Two valid ids that share a capture directory are one id, whatever the root, and the directory's
-- name is the id itself: the filter in `handle_dir` removes nothing.
pub valid_capture_id-handle_dir :
    (root a b : Str)
    → valid_capture_id a ≡ true
    → valid_capture_id b ≡ true
    → (sanitize_id a ≡ a) × (handle_dir root a ≡ handle_dir root b → a ≡ b)
valid_capture_id-handle_dir root a b ha hb = (
  sanitize_id-eq a (valid-bytes a ha),
  handle_dir-injective root a b (valid-bytes a ha) (valid-bytes b hb),
)

-- A chunk under a valid handle id is always encoded, and decodes to itself.
pub valid_capture_id-decode :
    (c : OutputChunk)
    → valid_capture_id c.id ≡ true
    → (bs : List ℕ) × (encode c ≡ some bs) × (decode bs ≡ ok c)
valid_capture_id-decode c h =
    decode-encode c (ascii-is_utf8 c.id (id_bytes-ascii c.id (valid-bytes c.id h)))
      (valid-length c.id h)
