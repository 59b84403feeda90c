-- ===== src/Prelude/Text.antt =====
-- Rust's `String` and `str`: the list of their UTF-8 bytes.
use Prim.Native.Nat.{ℕ}
use Prim.Native.Char.{code}
use Prim.Native.String.{String}
use mathlib.Core.Path.{◌≡◌, refl}
use mathlib.Core.Logic.{◌↔◌}
use mathlib.Core.Bool.{Bool, true, false, ◌&&◌, ◌||◌}
use mathlib.Core.List.{List, [], ◌∷◌}
use native.Mathlib.Omega.{arith}
use shiitake.Prelude.Tests.{◌==◌, leb, ltb}

abbrev pub Str : Type 0
Str = List ℕ

-- The bytes of a text literal, which is ASCII throughout.
abbrev pub str : String → Str
str String.[] = []
str (String.◌∷◌ c s) = code c ∷ str s

-- `==` on strings.
unfoldable pub str_eq : Str → Str → Bool
str_eq [] [] = true
str_eq [] (b ∷ bs) = false
str_eq (a ∷ as') [] = false
str_eq (a ∷ as') (b ∷ bs) = a == b && str_eq as' bs

pub str_eq_iff : (a b : Str) → (str_eq a b ≡ true) ↔ (a ≡ b)
unfolding str_eq
str_eq_iff [] [] = ((λ _. refl), (λ _. refl))
str_eq_iff [] (b ∷ bs) = ground arith
str_eq_iff (a ∷ as') [] = ground arith
str_eq_iff (a ∷ as') (b ∷ bs) = ground (arith, str_eq_iff as' bs)

pub str_eq_refl : (a : Str) → str_eq a a ≡ true
str_eq_refl a = (str_eq_iff a a).1 refl

-- `u8::is_ascii_alphanumeric`.
unfoldable pub is_ascii_alphanumeric : ℕ → Bool
is_ascii_alphanumeric b =
    (leb b'0' b && leb b b'9') || (leb b'a' b && leb b b'z') || (leb b'A' b && leb b b'Z')

-- The order of strings, by bytes.
unfoldable pub str_le : Str → Str → Bool
str_le [] b = true
str_le (a ∷ as') [] = false
str_le (a ∷ as') (b ∷ bs) = ltb a b || (a == b && str_le as' bs)

pub str_le-total : (a b : Str) → str_le a b ≡ false → str_le b a ≡ true
unfolding str_le
str_le-total [] b h = ground arith
str_le-total (a ∷ as') [] h = refl
str_le-total (a ∷ as') (b ∷ bs) h = ground (arith, str_le-total as' bs)
