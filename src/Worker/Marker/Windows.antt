-- ===== src/Worker/Marker/Windows.antt =====
-- client.rs, `ShellCompletion::feed`: the windows and the ends that it compares with the marker.
use native.Mathlib.Nat.{zero-add, suc-add}
use shiitake.Prelude.{
  ℕ, zero, suc, ◌+◌, ◌-◌, ◌≤◌, ◌<◌, ◌≡◌, refl, ◌⊎◌, inl, inr, Bool, true, false, Option, none, some,
  [], ◌∷◌, ◌++◌, arith, ltb, leb, ◌==◌, if◌then◌else◌, ltb→lt, leb→le, ==_iff, Bool-cases, length,
  take, drop, Str, str_eq_refl,
}
use shiitake.Prelude.Strings.{starts_with}
use shiitake.Worker.Marker.{position, ends_with, longest_overlap}

-- The specification: the stream without the first occurrence of the marker, and whether there is one.
abbrev pub strip : Str → Str → Str × Bool
strip marker [] = ([], false)
strip marker (b ∷ bs) =
    let rest = strip marker bs in
    if starts_with marker (b ∷ bs)
    then (drop (length marker) (b ∷ bs), true)
    else (b ∷ rest.0, rest.1)

abbrev pub cut : Str → Str → Option ℕ → Str × Bool
cut m w none = (w, false)
cut m w (some p) = (take p w ++ drop (p + length m) w, true)

cut-suc :
    (m : Str) (b : ℕ) (w : Str) (p : Option ℕ)
    → cut m (b ∷ w) (elim p [ none ↦ none | some n ↦ some (suc n) ])
      ≡ (b ∷ (cut m w p).0, (cut m w p).1)
cut-suc m b w none = refl
cut-suc m b w (some n) = rw suc-add

pub position-strip : (m w : Str) → cut m w (position m w) ≡ strip m w
unfolding position
position-strip m [] = refl
position-strip m (b ∷ w) =
    let ih = position-strip m w in
    elim (Bool-cases (starts_with m (b ∷ w))) [
      | inl e ↦ rw (e, if◌then◌else◌) (rw zero-add)
      | inr e ↦ rw (e, if◌then◌else◌) (rw (cut-suc, ih))
    ]

-- A marker that does not start within the first bytes does not come to start there later.
starts_with-append :
    (m w v : Str)
    → starts_with m (w ++ v) ≡ true
    → (starts_with m w ≡ true) ⊎ ((length w < length m) × (take (length w) m ≡ w))
unfolding starts_with
starts_with-append [] w v h = inl refl
starts_with-append (a ∷ m) [] v h = inr (omega arith, refl)
starts_with-append (a ∷ m) (b ∷ w) v h = ground (arith, starts_with-append m w v)

-- `ends_with` at a part of the marker, which begins at the test's own place.
ends_with-cons : (b : ℕ) (w s : Str) → ends_with w s ≡ true → ends_with (b ∷ w) s ≡ true
unfolding ends_with
ends_with-cons b w s h = elim (Bool-cases (leb (length s) (length w))) [
  | inl e ↦
      let le = leb→le _ _ e in
      let shift : suc (length w) - length s ≡ suc (length w - length s) = omega arith in
      rw shift (ground arith)
  | inr e ↦ ground arith
]

ends_with_all : (w : Str) → ends_with w w ≡ true
unfolding ends_with
ends_with_all w =
    let none_left : length w - length w ≡ 0 = omega arith in
    rw none_left (ground (arith, str_eq_refl w))

-- No longer part of the marker ends the bytes.
abbrev pub IsLongest : Str → Str → ℕ → Type 0
IsLongest m w keep = (n : ℕ) → keep < n → n < length m → ends_with w (take n m) ≡ false

pub longest_overlap-IsLongest :
    (m w : Str) (top : ℕ)
    → ((n : ℕ) → top < n → n < length m → ends_with w (take n m) ≡ false)
    → IsLongest m w (longest_overlap m w top)
unfolding longest_overlap
longest_overlap-IsLongest m w zero h = h
longest_overlap-IsLongest m w (suc top) h = elim (Bool-cases (ends_with w (take (suc top) m))) [
  | inl e ↦ rw (e, if◌then◌else◌) h
  | inr e ↦
      rw (e, if◌then◌else◌)
        (longest_overlap-IsLongest m w top (λ n above below. elim (Bool-cases (n == suc top)) [
          | inl same ↦ rw ((==_iff n (suc top)).0 same) e
          | inr other ↦ h n (ground arith) below
        ]))
]

pub longest_overlap-le : (m w : Str) (top : ℕ) → longest_overlap m w top ≤ top
unfolding longest_overlap
longest_overlap-le m w zero = omega arith
longest_overlap-le m w (suc top) = ground (arith, longest_overlap-le m w top)

position_tail : (m : Str) (b : ℕ) (w : Str) → position m (b ∷ w) ≡ none → position m w ≡ none
unfolding position
position_tail m b w h = ground arith

ends_with_tail : (b : ℕ) (w s : Str) → ends_with (b ∷ w) s ≡ false → ends_with w s ≡ false
ends_with_tail b w s h = ground (arith, ends_with-cons b w s)

starts_with-none :
    (m : Str) (b : ℕ) (w v : Str) (keep : ℕ)
    → position m (b ∷ w) ≡ none
    → IsLongest m (b ∷ w) keep
    → keep < suc (length w)
    → starts_with m (b ∷ w ++ v) ≡ false
unfolding position
starts_with-none m b w v keep none_yet longest room =
    elim (Bool-cases (starts_with m (b ∷ w ++ v))) [
      | inr e ↦ e
      | inl e ↦ elim (starts_with-append m (b ∷ w) v e) [
        | inl within ↦ ground arith
        | inr (short, prefix) ↦
            let not_end = longest (suc (length w)) room short in
            cc (not_end, prefix, ends_with_all (b ∷ w))
      ]
    ]

-- The bytes that are passed on are out of reach of the marker.
pub strip-peel :
    (m w v : Str) (keep : ℕ)
    → position m w ≡ none
    → IsLongest m w keep
    → strip m (w ++ v) ≡ (
      take (length w - keep) w ++ (strip m (drop (length w - keep) w ++ v)).0,
      (strip m (drop (length w - keep) w ++ v)).1,
    )
strip-peel m [] v keep none_yet longest = let empty : 0 - keep ≡ 0 = omega arith in rw empty refl
strip-peel m (b ∷ w) v keep none_yet longest =
    let ih =
      strip-peel m w v keep (position_tail m b w none_yet)
        (λ n above below. ends_with_tail b w _ (longest n above below)) in
    elim (Bool-cases (ltb keep (suc (length w)))) [
      | inl e ↦
          let room = ltb→lt _ _ e in
          let shift : suc (length w) - keep ≡ suc (length w - keep) = omega arith in
          rw (starts_with-none m b w v keep none_yet longest room, if◌then◌else◌)
            (rw shift (rw ih refl))
      | inr e ↦ let all_kept : suc (length w) - keep ≡ 0 = ground arith in rw all_kept refl
    ]

starts_with-drop :
    (m w v : Str)
    → starts_with m w ≡ true
    → (starts_with m (w ++ v) ≡ true) × (drop (length m) (w ++ v) ≡ drop (length m) w ++ v)
unfolding starts_with
starts_with-drop [] w v h = (refl, refl)
starts_with-drop (a ∷ m) [] v h = cc
starts_with-drop (a ∷ m) (b ∷ w) v h = ground (arith, starts_with-drop m w v)

starts_with_fits : (m w : Str) → starts_with m w ≡ true → length m ≤ length w
unfolding starts_with
starts_with_fits [] w h = omega arith
starts_with_fits (a ∷ m) [] h = cc
starts_with_fits (a ∷ m) (b ∷ w) h = ground (arith, starts_with_fits m w)

strip_fits : (m w : Str) → (strip m w).1 ≡ true → length m ≤ length w
strip_fits m [] h = cc
strip_fits m (b ∷ w) h = ground (arith, starts_with_fits m (b ∷ w), strip_fits m w)

-- Once the marker is found, what follows changes nothing before it.
pub strip_found :
    (m w v : Str) → (strip m w).1 ≡ true → strip m (w ++ v) ≡ ((strip m w).0 ++ v, true)
strip_found m [] v h = cc
strip_found m (b ∷ w) v h = elim (Bool-cases (starts_with m (b ∷ w))) [
  | inl e ↦
      let (starts, rest) = starts_with-drop m (b ∷ w) v e in
      rw (e, starts, if◌then◌else◌) (rw rest refl)
  | inr e ↦
      let found : (strip m w).1 ≡ true = rw (e, if◌then◌else◌) at h in
      let fits = strip_fits m w found in
      let ih = strip_found m w v found in
      elim (Bool-cases (starts_with m (b ∷ w ++ v))) [
        | inl e' ↦ elim (starts_with-append m (b ∷ w) v e') [
          | inl within ↦ cc
          | inr (short, prefix) ↦ absurd (omega arith)
        ]
        | inr e' ↦ rw (e, e', if◌then◌else◌) (rw ih refl)
      ]
]

pub length-drop-le : (k : ℕ) (w : Str) → length (drop (length w - k) w) ≤ k
length-drop-le k [] = let empty : 0 - k ≡ 0 = omega arith in rw empty (omega arith)
length-drop-le k (b ∷ w) = elim (Bool-cases (ltb k (suc (length w)))) [
  | inl e ↦
      let room = ltb→lt _ _ e in
      let shift : suc (length w) - k ≡ suc (length w - k) = omega arith in
      rw shift (length-drop-le k w)
  | inr e ↦ let all_kept : suc (length w) - k ≡ 0 = ground arith in rw all_kept (ground arith)
]

pub position-drop : (m w : Str) (k : ℕ) → position m w ≡ none → position m (drop k w) ≡ none
position-drop m w zero h = h
position-drop m [] (suc k) h = h
position-drop m (b ∷ w) (suc k) h = position-drop m w k (position_tail m b w h)
