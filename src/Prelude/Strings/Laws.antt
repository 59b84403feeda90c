-- ===== src/Prelude/Strings/Laws.antt =====
-- The laws of lines, pieces and digits.
use Prim.Native.Nat.{ℕ, zero, suc, ◌+◌, ◌/◌, ◌%◌, ◌<◌}
use mathlib.Core.Path.{◌≡◌, refl}
use mathlib.Core.Logic.{inl, inr}
use mathlib.Core.Bool.{Bool, true, false, not, ◌&&◌}
use mathlib.Core.List.{List, [], ◌∷◌, ◌++◌, append-nil, append_assoc}
use native.Mathlib.Omega.{arith}
use shiitake.Prelude.Tests.{if◌then◌else◌, ◌==◌, leb, ltb, Bool-cases, ==_iff}
use shiitake.Prelude.Lists.{all, All}
use shiitake.Prelude.Text.{Str}
use shiitake.Prelude.Strings.{split, strip_cr, lines_from, lines, unlines, decimal_from}

abbrev pub lacks : ℕ → Str → Bool
lacks b text = all (λ c. not (c == b)) text

-- A line has no line end in it, and no carriage return at its own.
abbrev pub IsLine : Str → Type 0
IsLine line = (lacks 10 line ≡ true) × (strip_cr line ≡ line)

lines_from-line :
    (piece line rest : Str)
    → lacks 10 line ≡ true
    → lines_from piece (line ++ 10 ∷ rest) ≡ strip_cr (piece ++ line) ∷ lines_from [] rest
unfolding lines_from
lines_from-line piece [] rest h = rw append-nil refl
lines_from-line piece (b ∷ line) rest h = elim (Bool-cases (b == 10)) [
  | inl e ↦ ground arith
  | inr e ↦
      let ih = lines_from-line (piece ++ b ∷ []) line rest (ground arith) in
      rw (e, if◌then◌else◌) (rw (append_assoc piece (b ∷ []) line) at ih)
]

pub lines-unlines : (ls : List Str) → All IsLine ls → lines (unlines ls) ≡ ls
unfolding lines unlines
lines-unlines [] h = refl
lines-unlines (line ∷ ls) h =
    rw (lines_from-line [] line (unlines ls) h.0.0, h.0.1, lines-unlines ls h.1) refl

pub unlines-append : (xs ys : List Str) → unlines (xs ++ ys) ≡ unlines xs ++ unlines ys
unfolding unlines
unlines-append [] ys = refl
unlines-append (line ∷ xs) ys =
    rw (append_assoc line (10 ∷ unlines xs) (unlines ys), unlines-append xs ys) refl

pub split-word :
    (separator : ℕ) (piece word rest : Str)
    → lacks separator word ≡ true
    → split separator piece (word ++ separator ∷ rest) ≡ (piece ++ word) ∷ split separator [] rest
unfolding split
split-word separator piece [] rest h =
    let same : (separator == separator) ≡ true = (==_iff separator separator).1 refl in
    rw (same, if◌then◌else◌, append-nil) refl
split-word separator piece (b ∷ word) rest h = elim (Bool-cases (b == separator)) [
  | inl e ↦ ground arith
  | inr e ↦
      let ih = split-word separator (piece ++ b ∷ []) word rest (ground arith) in
      rw (e, if◌then◌else◌) (rw (append_assoc piece (b ∷ []) word) at ih)
]

pub lacks-decimal_from :
    (b fuel n : ℕ) (digits : Str)
    → (leb 48 b && leb b 57) ≡ false
    → lacks b digits ≡ true
    → lacks b (decimal_from fuel n digits) ≡ true
unfolding decimal_from
lacks-decimal_from b zero n digits h e = e
lacks-decimal_from b (suc fuel) n digits h e =
    ground (arith, lacks-decimal_from b fuel (n / 10) ((48 + n % 10) ∷ digits))

-- More steps than the number write the same digits: the fuel of `decimal` is enough.
decimal_from-enough :
    (f g n : ℕ) (digits : Str) → n < f → n < g → decimal_from f n digits ≡ decimal_from g n digits
unfolding decimal_from
decimal_from-enough zero g n digits hf hg = ground arith
decimal_from-enough (suc f) zero n digits hf hg = ground arith
decimal_from-enough (suc f) (suc g) n digits hf hg = elim (Bool-cases (ltb n 10)) [
  | inl e ↦ rw (e, if◌then◌else◌) refl
  | inr e ↦
      rw (e, if◌then◌else◌)
        (decimal_from-enough f g (n / 10) ((48 + n % 10) ∷ digits) (ground arith) (ground arith))
]
