-- ===== src/Prelude/Strings.antt =====
-- The methods of `str` that the code uses, on bytes.
pub mod Laws
use Prim.Native.Nat.{ℕ, zero, suc, ◌+◌, ◌-◌, ◌*◌, ◌/◌, ◌%◌}
use mathlib.Core.Bool.{Bool, true, false, not, ◌&&◌, ◌||◌}
use mathlib.Core.Option.{Option, none, some}
use mathlib.Core.List.{List, [], ◌∷◌, ◌++◌}
use shiitake.Prelude.Tests.{if◌then◌else◌, ◌==◌, leb, ltb}
use shiitake.Prelude.Lists.{is_empty, length}
use shiitake.Prelude.Text.{Str, str_eq}
use shiitake.Prelude.Outcome.{ℤ, pos, negsuc}

-- `<[u8]>::starts_with`, and the comparison of one window.
unfoldable pub starts_with : Str → Str → Bool
starts_with [] bytes = true
starts_with (m ∷ ms) [] = false
starts_with (m ∷ ms) (b ∷ bs) = m == b && starts_with ms bs

-- The pieces of a text in their order, as `format!` joins them.
abbrev pub concat : List Str → Str
concat [] = []
concat (bytes ∷ rest) = bytes ++ concat rest

-- `strip_prefix`
unfoldable pub strip_prefix : Str → Str → Option Str
strip_prefix [] bytes = some bytes
strip_prefix (p ∷ ps) [] = none
strip_prefix (p ∷ ps) (b ∷ bs) = if p == b then strip_prefix ps bs else none

-- How many bytes the white space takes that a text begins with, 0 where it begins with none: the
-- characters of `char::is_whitespace`.
unfoldable pub whitespace_width : Str → ℕ
whitespace_width [] = 0
whitespace_width (a ∷ []) = if (leb 9 a && leb a 13) || a == 32 then 1 else 0
whitespace_width (a ∷ b ∷ []) =
    if (leb 9 a && leb a 13) || a == 32
    then 1
    else if a == 0xC2 && (b == 0x85 || b == 0xA0)
    then 2
    else 0
whitespace_width (a ∷ b ∷ c ∷ rest) =
    if (leb 9 a && leb a 13) || a == 32
    then 1
    else if a == 0xC2 && (b == 0x85 || b == 0xA0)
    then 2
    else if a == 0xE1 && b == 0x9A && c == 0x80
        || a == 0xE2
          && b == 0x80
          && (leb 0x80 c && leb c 0x8A || leb 0xA8 c && leb c 0xA9 || c == 0xAF)
        || a == 0xE2 && b == 0x81 && c == 0x9F
        || a == 0xE3 && b == 0x80 && c == 0x80
    then 3
    else 0

-- The first argument counts the bytes of a character that are still to drop.
unfoldable pub trim_start : ℕ → Str → Str
unfolding whitespace_width
trim_start zero [] = []
trim_start zero (b ∷ bs) =
    let rest = trim_start (whitespace_width (b ∷ bs) - 1) bs in
    if whitespace_width (b ∷ bs) == 0 then b ∷ bs else rest
trim_start (suc n) [] = []
trim_start (suc n) (b ∷ bs) = trim_start n bs

unfoldable pub trim_end : Str → Str
unfolding trim_start
trim_end [] = []
trim_end (b ∷ bs) = if is_empty (trim_start 0 (b ∷ bs)) then [] else b ∷ trim_end bs

-- `str::trim`
unfoldable pub trim : Str → Str
unfolding trim_end
trim bytes = trim_end (trim_start 0 bytes)

-- `str::split` at one byte, with the piece so far.
unfoldable pub split : ℕ → Str → Str → List Str
split separator piece [] = piece ∷ []
split separator piece (b ∷ bs) =
    let next = if b == separator then [] else piece ++ b ∷ [] in
    let rest = split separator next bs in if b == separator then piece ∷ rest else rest

-- A line without the carriage return before its end.
unfoldable pub strip_cr : Str → Str
strip_cr [] = []
strip_cr (b ∷ []) = if b == 13 then [] else b ∷ []
strip_cr (b ∷ c ∷ bs) = b ∷ strip_cr (c ∷ bs)

-- `str::lines`, with the line so far. A last line without an end keeps its carriage return.
unfoldable pub lines_from : Str → Str → List Str
unfolding strip_cr
lines_from piece [] = if is_empty piece then [] else piece ∷ []
lines_from piece (b ∷ bs) =
    let rest = lines_from (if b == 10 then [] else piece ++ b ∷ []) bs in
    if b == 10 then strip_cr piece ∷ rest else rest

unfoldable pub lines : Str → List Str
unfolding lines_from
lines text = lines_from [] text

-- Each line with its end.
unfoldable pub unlines : List Str → Str
unlines [] = []
unlines (line ∷ rest) = line ++ 10 ∷ unlines rest

-- The decimal digits of a number below ten to the fuel, before those that are given.
unfoldable pub decimal_from : ℕ → ℕ → Str → Str
decimal_from zero n digits = digits
decimal_from (suc fuel) n digits =
    let more = decimal_from fuel (n / 10) ((48 + n % 10) ∷ digits) in
    if ltb n 10 then (48 + n) ∷ digits else more

-- `to_string` of an unsigned number.
unfoldable pub decimal : ℕ → Str
unfolding decimal_from
decimal n = decimal_from (suc n) n []

unfoldable pub digits_value : ℕ → Str → Option ℕ
digits_value value [] = some value
digits_value value (b ∷ bs) =
    let rest = digits_value (value * 10 + (b - 48)) bs in
    if leb 48 b && leb b 57 then rest else none

abbrev pub below : ℕ → Option ℕ → Option ℕ
below bound none = none
below bound (some n) = if ltb n bound then some n else none

-- `parse` to an unsigned integer below the bound: digits after at most one plus sign.
unfoldable pub parse_unsigned : ℕ → Str → Option ℕ
unfolding digits_value
parse_unsigned bound [] = none
parse_unsigned bound (b ∷ []) = if b == b'+' then none else below bound (digits_value 0 (b ∷ []))
parse_unsigned bound (b ∷ c ∷ bs) =
    if b == b'+'
    then below bound (digits_value 0 (c ∷ bs))
    else below bound (digits_value 0 (b ∷ c ∷ bs))

abbrev positive : Option ℕ → Option ℤ
positive none = none
positive (some n) = some (pos n)

abbrev negative : Option ℕ → Option ℤ
negative none = none
negative (some zero) = some (pos 0)
negative (some (suc n)) = some (negsuc n)

-- `parse` to `i32`: a sign at most, and the two's complement bounds.
unfoldable pub parse_i32 : Str → Option ℤ
unfolding parse_unsigned digits_value
parse_i32 [] = none
parse_i32 (b ∷ []) = if b == b'-' then none else positive (parse_unsigned 2_147_483_648 (b ∷ []))
parse_i32 (b ∷ c ∷ bs) =
    if b == b'-'
    then negative (below 2_147_483_649 (digits_value 0 (c ∷ bs)))
    else positive (parse_unsigned 2_147_483_648 (b ∷ c ∷ bs))

-- `split_whitespace`, with the bytes of a character that are still to drop and the piece so far.
unfoldable pub split_whitespace_from : ℕ → Str → Str → List Str
unfolding whitespace_width
split_whitespace_from skip piece [] = if is_empty piece then [] else piece ∷ []
split_whitespace_from zero piece (b ∷ bs) =
    let width = whitespace_width (b ∷ bs) in
    let rest = split_whitespace_from (width - 1) (if width == 0 then piece ++ b ∷ [] else []) bs in
    if width == 0 || is_empty piece then rest else piece ∷ rest
split_whitespace_from (suc n) piece (b ∷ bs) = split_whitespace_from n piece bs

unfoldable pub split_whitespace : Str → List Str
unfolding split_whitespace_from
split_whitespace text = split_whitespace_from 0 [] text
