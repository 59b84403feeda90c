-- ===== src/Http/PublicId.antt =====
-- shiitake-server/src/http/sessions.rs: the short ids of sessions and commands. The ten random bytes are
-- an argument.
pub mod Laws
use shiitake.Prelude.{
  ℕ, zero, suc, ◌+◌, ◌-◌, ◌*◌, ◌/◌, ◌%◌, ◌^◌, ◌≤◌, ◌<◌, String, ◌≡◌, refl, sym, ap, ◌∙◌, ◌≢◌, ◌↔◌,
  ◌⊎◌, inl, inr, Bool, true, false, not, ◌&&◌, ◌||◌, Option, none, some, List, [], ◌∷◌, ◌++◌, map,
  arith, ltb, leb, ◌==◌, if◌then◌else◌, ltb→lt, leb→le, ==_iff, Bool-cases, Option-cases, is_some,
  is_none, length, take, drop, is_empty, all, any, retain, count, All, length-append, count-append,
  All-append, take-length-append, drop-length-append, take-append-drop, length-take, All-retain,
  Str, str, str_eq, str_eq_iff, str_eq_refl, str_le, is_ascii_alphanumeric, Result, ok, err, ◌>>=◌,
  ok_or, ℤ, pos, negsuc,
}

-- `(value << 8) | byte` on a `u128`: the low byte of the shifted value is free.
unfoldable pub push_byte : ℕ → ℕ → ℕ
push_byte value byte = (value * 256) % 2 ^ 128 + byte

unfoldable pub fold_bytes : ℕ → List ℕ → ℕ
fold_bytes value [] = value
fold_bytes value (b ∷ bs) = fold_bytes (push_byte value b) bs

abbrev pub alphabet : Str
alphabet = str "0123456789abcdefghjkmnpqrstvwxyz"

-- `ALPHABET[i]`; an index out of range, which does not occur, gives 0.
unfoldable pub char_at : Str → ℕ → ℕ
char_at [] i = 0
char_at (c ∷ cs) zero = c
char_at (c ∷ cs) (suc i) = char_at cs i

-- The loop over the shifts `(n - 1) * 5`, …, `5`, `0`: five bits a character.
unfoldable pub digits : ℕ → ℕ → Str
digits zero value = []
digits (suc n) value = char_at alphabet (value / 2 ^ (n * 5) % 32) ∷ digits n value

unfoldable pub encode_public_id : ℕ → List ℕ → Str
unfolding fold_bytes digits char_at push_byte
encode_public_id kind bytes = kind ∷ b'-' ∷ digits 16 (fold_bytes 0 bytes)

zero_id :
    encode_public_id b's' (0 ∷ 0 ∷ 0 ∷ 0 ∷ 0 ∷ 0 ∷ 0 ∷ 0 ∷ 0 ∷ 0 ∷ []) ≡ str "s-0000000000000000"
unfolding encode_public_id
zero_id = refl

top_id :
    encode_public_id b'c' (255 ∷ 255 ∷ 255 ∷ 255 ∷ 255 ∷ 255 ∷ 255 ∷ 255 ∷ 255 ∷ 255 ∷ [])
    ≡ str "c-zzzzzzzzzzzzzzzz"
unfolding encode_public_id
top_id = refl
