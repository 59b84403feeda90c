-- ===== src/Worker/Marker.antt =====
-- shiitake-worker/src/client.rs: `ShellCompletion`, which takes the private end marker of a stateful
-- command out of the shell's output. `complete` is the last value that the watch channel was sent.
pub mod Windows
pub mod Strip
use shiitake.Prelude.Strings.{starts_with}
use shiitake.Prelude.{
  ℕ, zero, suc, ◌+◌, ◌-◌, ◌*◌, ◌/◌, ◌%◌, ◌^◌, ◌≤◌, ◌<◌, String, ◌≡◌, refl, sym, ap, ◌∙◌, ◌≢◌, ◌↔◌,
  ◌⊎◌, inl, inr, Bool, true, false, not, ◌&&◌, ◌||◌, Option, none, some, List, [], ◌∷◌, ◌++◌, map,
  arith, ltb, leb, ◌==◌, if◌then◌else◌, ltb→lt, leb→le, ==_iff, Bool-cases, Option-cases, is_some,
  is_none, length, take, drop, is_empty, all, any, retain, count, All, length-append, count-append,
  All-append, take-length-append, drop-length-append, take-append-drop, length-take, All-retain,
  Str, str, str_eq, str_eq_iff, str_eq_refl, str_le, str_le-total, is_ascii_alphanumeric, Result,
  ok, err, ◌>>=◌, ok_or, ℤ, pos, negsuc,
}

pub record ShellCompletion : Type 0 where
  pub marker : Str
  pub pending : Str
  pub complete : Bool
  pub seen : Bool

-- `windows(marker.len()).position(..)`, for a marker that is not empty.
unfoldable pub position : Str → Str → Option ℕ
unfolding starts_with
position marker [] = none
position marker (b ∷ bs) =
    if starts_with marker (b ∷ bs)
    then some 0
    else elim (position marker bs) [ none ↦ none | some n ↦ some (suc n) ]

-- `<[u8]>::ends_with`
unfoldable pub ends_with : Str → Str → Bool
ends_with bytes suffix =
    leb (length suffix) (length bytes) && str_eq (drop (length bytes - length suffix) bytes) suffix

-- `(1..=n).rev().find(..).unwrap_or(0)`
unfoldable pub longest_overlap : Str → Str → ℕ → ℕ
unfolding ends_with
longest_overlap marker pending zero = 0
longest_overlap marker pending (suc n) =
    if ends_with pending (take (suc n) marker) then suc n else longest_overlap marker pending n

-- The part of `feed` after the bytes have joined `pending`.
unfoldable pub feed_pending : ShellCompletion → Str × ShellCompletion
unfolding position longest_overlap
feed_pending s = elim (position s.marker s.pending) [
  | some start ↦ (
    take start s.pending ++ drop (start + length s.marker) s.pending,
    record s { pending = []; seen = true; complete = true },
  )
  | none ↦
      let keep = longest_overlap s.marker s.pending (length s.marker - 1) in
      let ready = length s.pending - keep in
      (take ready s.pending, record s { pending = drop ready s.pending })
]

-- `feed`: the bytes to pass on, and the new state.
unfoldable pub feed : ShellCompletion → Str → Str × ShellCompletion
unfolding feed_pending
feed s bytes =
    if s.seen then (bytes, s) else feed_pending (record s { pending = s.pending ++ bytes })

-- The reads of one command, in their order: what is passed on altogether, and the last state.
unfoldable pub feed_all : ShellCompletion → List Str → Str × ShellCompletion
feed_all s [] = ([], s)
feed_all s (bytes ∷ rest) =
    let (output, s') = feed s bytes in let (more, s'') = feed_all s' rest in (output ++ more, s'')

-- The state that the start of a stateful command sets up.
unfoldable pub new_completion : Str → ShellCompletion
new_completion marker = record { marker = marker; pending = []; complete = false; seen = false }
