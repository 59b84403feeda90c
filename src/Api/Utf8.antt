-- ===== src/Api/Utf8.antt =====
-- `std::str::from_utf8`, as the machine over bytes that the standard's table of well-formed
-- sequences describes.
use shiitake.Prelude.Strings.Laws.{lacks}
use mathlib.Core.List.{append_assoc}
use shiitake.Prelude.{
  ◌++◌, inl, inr, Bool-cases, ap, ◌∙◌, ℕ, zero, suc, ◌≡◌, refl, Bool, true, false, ◌&&◌, Option,
  none, some, List, [], ◌∷◌, arith, ltb, leb, ◌==◌, if◌then◌else◌, Str, all,
}

-- How many continuation bytes are due, and the range of the next one.
pub record Due : Type 0 where
  pub left : ℕ
  pub low : ℕ
  pub high : ℕ

abbrev due : ℕ → ℕ → ℕ → Due
due n lo hi = record { left = n; low = lo; high = hi }

abbrev within : ℕ → ℕ → ℕ → Bool
within lo hi b = leb lo b && leb b hi

lead : ℕ → Option Due
lead b =
    if ltb b 0x80
    then some (due 0 0x80 0xbf)
    else if within 0xc2 0xdf b
    then some (due 1 0x80 0xbf)
    else if b == 0xe0
    then some (due 2 0xa0 0xbf)
    else if b == 0xed
    then some (due 2 0x80 0x9f)
    else if within 0xe1 0xef b
    then some (due 2 0x80 0xbf)
    else if b == 0xf0
    then some (due 3 0x90 0xbf)
    else if within 0xf1 0xf3 b
    then some (due 3 0x80 0xbf)
    else if b == 0xf4
    then some (due 3 0x80 0x8f)
    else none

next : ℕ → ℕ → ℕ → ℕ → Option Due
unfolding lead
next zero lo hi b = lead b
next (suc n) lo hi b = if within lo hi b then some (due n 0x80 0xbf) else none

scan : Option Due → List ℕ → Bool
unfolding next
scan none bs = false
scan (some d) [] = d.left == 0
scan (some d) (b ∷ bs) = scan (next d.left d.low d.high b) bs

unfoldable pub is_utf8 : List ℕ → Bool
unfolding scan
is_utf8 = scan (some (due 0 0x80 0xbf))

pub ascii-is_utf8 : (bs : Str) → all (λ b. ltb b 128) bs ≡ true → is_utf8 bs ≡ true
unfolding is_utf8
ascii-is_utf8 [] h = refl
ascii-is_utf8 (b ∷ bs) h = ground (arith, ascii-is_utf8 bs)

-- U+FFFD
abbrev replacement : Str
replacement = 0xef ∷ 0xbf ∷ 0xbd ∷ []

-- A sequence that is complete is put out; one that is not is kept back.
settle : Due → Str → Str × Due × Str
settle d bytes = if d.left == 0 then (bytes, d, []) else ([], d, bytes)

-- A byte that begins a sequence, or is replaced.
begin_at : ℕ → Option Due → Str × Due × Str
unfolding settle
begin_at b none = (replacement, due 0 0x80 0xbf, [])
begin_at b (some d) = settle d (b ∷ [])

-- One byte, with the bytes of the sequence so far: one that does not go on with the sequence replaces
-- what is kept back, and begins anew.
advance : ℕ → ℕ → ℕ → Str → ℕ → Str × Due × Str
unfolding settle begin_at lead
advance zero lo hi kept b = begin_at b (lead b)
advance (suc n) lo hi kept b =
    if within lo hi b
    then settle (due n 0x80 0xbf) (kept ++ b ∷ [])
    else (let (out, d, anew) = begin_at b (lead b) in (replacement ++ out, d, anew))

replace_from : Due → Str → Str → Str
unfolding advance
replace_from d kept [] = if d.left == 0 then [] else replacement
replace_from d kept (b ∷ bs) =
    let (out, d', anew) = advance d.left d.low d.high kept b in out ++ replace_from d' anew bs

-- `String::from_utf8_lossy`: each longest piece that begins a sequence and does not end it, and each
-- byte that begins none, becomes U+FFFD.
unfoldable pub from_utf8_lossy : Str → Str
unfolding replace_from
from_utf8_lossy = replace_from (due 0 0x80 0xbf) []

-- What is put out before the rest is replaced.
abbrev joined : Str × Due × Str → Str → Str
joined (out, d, kept) bs = out ++ replace_from d kept bs

-- That the replacement keeps what completes the sequences so far.
abbrev IsKept : Str → Type 0
IsKept bs =
    (d : Due) (kept : Str)
    → ((d.left == 0) ≡ true → kept ≡ [])
    → scan (some d) bs ≡ true
    → replace_from d kept bs ≡ kept ++ bs

settle_lem :
    (d : Due) (bytes bs : Str)
    → IsKept bs
    → scan (some d) bs ≡ true
    → joined (settle d bytes) bs ≡ bytes ++ bs
unfolding settle
settle_lem d bytes bs ih h = elim (Bool-cases (d.left == 0)) [
  | inl e ↦ rw (e, if◌then◌else◌) (ap (◌++◌ bytes) (ih d [] (λ x. refl) h))
  | inr e ↦ rw (e, if◌then◌else◌) (ih d bytes (λ x. ground (arith, x, e)) h)
]

begin_at-valid :
    (b : ℕ) (first : Option Due) (bs : Str)
    → IsKept bs
    → scan first bs ≡ true
    → joined (begin_at b first) bs ≡ b ∷ bs
unfolding begin_at scan
begin_at-valid b none bs ih h = cc
begin_at-valid b (some d) bs ih h = settle_lem d (b ∷ []) bs ih h

advance-valid :
    (n lo hi : ℕ) (kept : Str) (b : ℕ) (bs : Str)
    → IsKept bs
    → ((n == 0) ≡ true → kept ≡ [])
    → scan (next n lo hi b) bs ≡ true
    → joined (advance n lo hi kept b) bs ≡ kept ++ b ∷ bs
unfolding advance next begin_at scan
advance-valid zero lo hi kept b bs ih nothing h =
    rw (nothing refl) (begin_at-valid b (lead b) bs ih h)
advance-valid (suc n) lo hi kept b bs ih nothing h = elim (Bool-cases (within lo hi b)) [
  | inl e ↦
      rw (e, if◌then◌else◌)
        (settle_lem (due n 0x80 0xbf) (kept ++ b ∷ []) bs ih (rw (e, if◌then◌else◌) at h)
          ∙ append_assoc kept (b ∷ []) bs)
  | inr e ↦ ground (arith, h, e)
]

replace_from-valid : (bs : Str) → IsKept bs
unfolding replace_from scan
replace_from-valid [] d kept nothing h = ground (arith, nothing h)
replace_from-valid (b ∷ bs) d kept nothing h =
    advance-valid d.left d.low d.high kept b bs (replace_from-valid bs) nothing h

-- A valid string is kept as it is.
pub from_utf8_lossy-valid : (bs : Str) → is_utf8 bs ≡ true → from_utf8_lossy bs ≡ bs
unfolding from_utf8_lossy is_utf8
from_utf8_lossy-valid bs h = replace_from-valid bs (due 0 0x80 0xbf) [] (λ x. refl) h

lacks-append : (a : ℕ) (xs ys : Str) → lacks a (xs ++ ys) ≡ (lacks a xs && lacks a ys)
lacks-append a [] ys = refl
lacks-append a (x ∷ xs) ys = ground (arith, lacks-append a xs ys)

-- What is put out and what is kept back lack the byte.
abbrev is_without : ℕ → Str × Due × Str → Bool
is_without a (out, d, kept) = lacks a out && lacks a kept

settle-lacks : (a : ℕ) (d : Due) (bytes : Str) → is_without a (settle d bytes) ≡ lacks a bytes
unfolding settle
settle-lacks a d bytes = ground arith

replacement-lacks : (a : ℕ) → ltb a 128 ≡ true → lacks a replacement ≡ true
replacement-lacks a small = ground arith

begin_at-lacks :
    (a b : ℕ) (first : Option Due)
    → ltb a 128 ≡ true
    → (b == a) ≡ false
    → is_without a (begin_at b first) ≡ true
unfolding begin_at
begin_at-lacks a b none small other = ground (arith, replacement-lacks a)
begin_at-lacks a b (some d) small other = ground (arith, settle-lacks a d (b ∷ []))

advance-lacks :
    (a n lo hi : ℕ) (kept : Str) (b : ℕ)
    → ltb a 128 ≡ true
    → lacks a kept ≡ true
    → (b == a) ≡ false
    → is_without a (advance n lo hi kept b) ≡ true
unfolding advance
advance-lacks a zero lo hi kept b small hk other = begin_at-lacks a b (lead b) small other
advance-lacks a (suc n) lo hi kept b small hk other = elim (Bool-cases (within lo hi b)) [
  | inl e ↦
      rw (e, if◌then◌else◌)
        (settle-lacks a (due n 0x80 0xbf) (kept ++ b ∷ [])
          ∙ ground (arith, lacks-append a kept (b ∷ [])))
  | inr e ↦
      let anew = begin_at b (lead b) in
      rw (e, if◌then◌else◌)
        (ground (
          arith,
          lacks-append a replacement anew.0,
          replacement-lacks a,
          begin_at-lacks a b (lead b) small other,
        ))
]

-- The conversion brings in no byte below 128.
replace_from-lacks :
    (a : ℕ) (d : Due) (kept bs : Str)
    → ltb a 128 ≡ true
    → lacks a kept ≡ true
    → lacks a bs ≡ true
    → lacks a (replace_from d kept bs) ≡ true
unfolding replace_from
replace_from-lacks a d kept [] small hk hb = ground arith
replace_from-lacks a d kept (b ∷ bs) small hk hb =
    let (out, d', anew) = advance d.left d.low d.high kept b in
    let other : (b == a) ≡ false = ground arith in
    let tail : lacks a bs ≡ true = ground arith in
    let here = advance-lacks a d.left d.low d.high kept b small hk other in
    let kept_back : lacks a anew ≡ true = ground (arith, here) in
    lacks-append a out (replace_from d' anew bs)
    ∙ ground (arith, here, replace_from-lacks a d' anew bs small kept_back tail)

pub from_utf8_lossy-lacks :
    (a : ℕ) (bs : Str) → ltb a 128 ≡ true → lacks a bs ≡ true → lacks a (from_utf8_lossy bs) ≡ true
unfolding from_utf8_lossy
from_utf8_lossy-lacks a bs small h = replace_from-lacks a (due 0 0x80 0xbf) [] bs small refl h

utf8_runs : (is_utf8 (0xe2 ∷ 0x82 ∷ 0xac ∷ []) ≡ true) × (is_utf8 (0xed ∷ 0xa0 ∷ 0x80 ∷ []) ≡ false)
unfolding is_utf8
utf8_runs = (refl, refl)

-- A byte that begins nothing, and a sequence that is broken off.
lossy_runs :
    from_utf8_lossy (0x61 ∷ 0xff ∷ 0xe2 ∷ 0x82 ∷ 0x62 ∷ [])
    ≡ 0x61 ∷ replacement ++ replacement ++ 0x62 ∷ []
unfolding from_utf8_lossy
lossy_runs = refl
