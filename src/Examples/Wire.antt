-- ===== src/Examples/Wire.antt =====
-- The theorems on the chunk codec and the ids, at concrete bytes.
use shiitake.Prelude.{ℕ, ◌<◌, ◌≡◌, refl, some, List, [], ◌∷◌, arith, All, ok}
use shiitake.Api.Utf8.{is_utf8}
use shiitake.Api.Chunk.{OutputStream, OutputChunk, encode, decode}
use shiitake.Api.Chunk.RoundTrip.{decode-encode_unique}
use shiitake.Http.PublicId.Laws.{encode_public_id-injective}
use shiitake.Examples.{a_command}

-- An id with a two-byte character.
abbrev accented : OutputChunk
accented = record { stream = OutputStream.stderr; id = 99 ∷ 195 ∷ 169 ∷ []; bytes = 0 ∷ 255 ∷ [] }

decode-encode_unique_example :
    (bs : List ℕ) × (encode accented ≡ some bs)
    × (decode bs ≡ ok accented)
    × ((s hi lo : ℕ) (rest : List ℕ)
        → hi < 256
        → lo < 256
        → decode (s ∷ hi ∷ lo ∷ rest) ≡ ok accented
        → some (s ∷ hi ∷ lo ∷ rest) ≡ some bs)
unfolding is_utf8
decode-encode_unique_example = decode-encode_unique accented refl (omega arith)

abbrev plain : OutputChunk
plain = record { stream = OutputStream.stdout; id = a_command; bytes = 104 ∷ 105 ∷ [] }

abbrev ten_bytes : List ℕ
ten_bytes = 1 ∷ 2 ∷ 3 ∷ 4 ∷ 5 ∷ 6 ∷ 7 ∷ 8 ∷ 9 ∷ 255 ∷ []

abbrev ten_small : All (λ x. x < 256) ten_bytes
ten_small = (
  omega arith,
  (
    omega arith,
    (
      omega arith,
      (
        omega arith,
        (
          omega arith,
          (omega arith, (omega arith, (omega arith, (omega arith, (omega arith, tt))))),
        ),
      ),
    ),
  ),
)

encode_public_id-injective_example : ten_bytes ≡ ten_bytes
encode_public_id-injective_example =
    encode_public_id-injective b's' ten_bytes ten_bytes refl refl ten_small ten_small refl
