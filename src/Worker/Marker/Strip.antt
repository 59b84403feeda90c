-- ===== src/Worker/Marker/Strip.antt =====
-- client.rs, `ShellCompletion::feed`: what it does to the whole stream, however the stream is cut.
use mathlib.Core.List.{append-nil, append_assoc}
use shiitake.Prelude.{
  ℕ, ◌-◌, ◌<◌, ◌≡◌, refl, sym, ap, ◌∙◌, inl, inr, Bool, true, false, none, some, List, [], ◌∷◌,
  ◌++◌, arith, Option-cases, length, take, drop, Str,
}
use shiitake.Prelude.Strings.{concat}
use shiitake.Worker.Marker.{
  ShellCompletion, position, longest_overlap, feed, feed_all, new_completion,
}
use shiitake.Worker.Marker.Windows.{
  strip, cut, position-strip, IsLongest, longest_overlap-IsLongest, longest_overlap-le, strip-peel,
  strip_found, length-drop-le, position-drop,
}

-- After the marker every byte passes.
seen-feed_all :
    (s : ShellCompletion) (chunks : List Str)
    → s.seen ≡ true
    → feed_all s chunks ≡ (concat chunks, s)
unfolding feed_all feed
seen-feed_all s [] h = refl
seen-feed_all s (bytes ∷ rest) h = ground (arith, seen-feed_all s rest h)

-- What holds of the state while the marker has not come.
record IsWaiting (s : ShellCompletion) : Type 0 where
  unseen : s.seen ≡ false
  incomplete : s.complete ≡ false
  none_yet : position s.marker s.pending ≡ none
  short : length s.pending < length s.marker

-- The two ends of `feed` before the marker is seen.
abbrev after_marker : ShellCompletion → ShellCompletion
after_marker s = record s { pending = []; seen = true; complete = true }

abbrev held_back : ShellCompletion → Str → ℕ
held_back s w = length w - longest_overlap s.marker w (length s.marker - 1)

abbrev holding : ShellCompletion → Str → ShellCompletion
holding s w = record s { pending = drop (held_back s w) w }

feed_found :
    (s : ShellCompletion) (bytes : Str) (p : ℕ)
    → s.seen ≡ false
    → position s.marker (s.pending ++ bytes) ≡ some p
    → feed s bytes ≡ ((cut s.marker (s.pending ++ bytes) (some p)).0, after_marker s)
unfolding feed
feed_found s bytes p h e = ground arith

feed_waits :
    (s : ShellCompletion) (bytes : Str)
    → s.seen ≡ false
    → position s.marker (s.pending ++ bytes) ≡ none
    → feed s bytes ≡ (
      take (held_back s (s.pending ++ bytes)) (s.pending ++ bytes),
      holding s (s.pending ++ bytes),
    )
unfolding feed
feed_waits s bytes h e = ground arith

holding-IsWaiting :
    (s : ShellCompletion) (w : Str)
    → IsWaiting s
    → position s.marker w ≡ none
    → IsWaiting (holding s w)
holding-IsWaiting s w h e = record {
  unseen = h.unseen;
  incomplete = h.incomplete;
  none_yet = position-drop s.marker w (held_back s w) e;
  short = omega (
    arith,
    h.short,
    length-drop-le (longest_overlap s.marker w (length s.marker - 1)) w,
    longest_overlap-le s.marker w (length s.marker - 1),
  );
}

held_back-IsLongest :
    (s : ShellCompletion) (w : Str)
    → IsLongest s.marker w (longest_overlap s.marker w (length s.marker - 1))
held_back-IsLongest s w =
    longest_overlap-IsLongest s.marker w (length s.marker - 1)
      (λ n above below. absurd (omega arith))

abbrev IsStripped : Str × ShellCompletion → Str → Str × Bool → Type 0
IsStripped (output, s) marker expected =
    ((output ++ s.pending, s.seen) ≡ expected)
    × (s.complete ≡ s.seen)
    × (length s.pending < length marker)

feed_all_from :
    (s : ShellCompletion) (chunks : List Str)
    → IsWaiting s
    → IsStripped (feed_all s chunks) s.marker (strip s.marker (s.pending ++ concat chunks))
unfolding feed_all
feed_all_from s [] h = rw append-nil (ground (arith, position-strip s.marker s.pending))
feed_all_from s (bytes ∷ rest) h = elim (Option-cases (position s.marker (s.pending ++ bytes))) [
  | inl e ↦
      let ih = feed_all_from (holding s (s.pending ++ bytes)) rest (holding-IsWaiting s _ h e) in
      let peeled =
        strip-peel s.marker (s.pending ++ bytes) (concat rest) _ e
          (held_back-IsLongest s (s.pending ++ bytes)) in
      rw (feed_waits s bytes h.unseen e) (
        rw (append_assoc, ← append_assoc s.pending bytes (concat rest))
            (ap
                (λ (r : Str × Bool).
                  (take (held_back s (s.pending ++ bytes)) (s.pending ++ bytes) ++ r.0, r.1))
                ih.0
              ∙ sym peeled),
        ih.1,
        ih.2,
      )
  | inr (p, e) ↦
      let cut_here : cut s.marker (s.pending ++ bytes) (some p)
          ≡ strip s.marker (s.pending ++ bytes) =
        ap (cut s.marker (s.pending ++ bytes)) (sym e)
        ∙ position-strip s.marker (s.pending ++ bytes) in
      let found : (strip s.marker (s.pending ++ bytes)).1 ≡ true = rw (← cut_here) refl in
      rw (feed_found s bytes p h.unseen e) (
        rw (seen-feed_all (after_marker s) rest refl) (
          rw (append-nil, ← append_assoc s.pending bytes (concat rest))
              (rw (strip_found s.marker (s.pending ++ bytes) (concat rest) found)
                (ap (λ (r : Str × Bool). (r.0 ++ concat rest, true)) cut_here)),
          refl,
          omega (arith, h.short),
        ))
]

none_at_start : (marker : Str) → position marker [] ≡ none
unfolding position
none_at_start marker = refl

-- For a marker that is not empty and however the shell's output is cut into reads: what is passed on,
-- with what is still held back, is the output without the first occurrence of the marker; the marker
-- is seen exactly if it occurs; the completion is
-- signalled exactly then; and less than the length of the marker is held back.
pub feed_all-strip :
    (marker : Str) (chunks : List Str)
    → 0 < length marker
    → let (output, s) = feed_all (new_completion marker) chunks in
      ((output ++ s.pending, s.seen) ≡ strip marker (concat chunks))
      × (s.complete ≡ s.seen)
      × (length s.pending < length marker)
unfolding new_completion
feed_all-strip marker chunks h =
    feed_all_from (new_completion marker) chunks
      (record { unseen = refl; incomplete = refl; none_yet = none_at_start marker; short = h })
