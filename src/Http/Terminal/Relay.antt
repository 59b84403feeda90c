-- ===== src/Http/Terminal/Relay.antt =====
-- sessions.rs: what `serve_terminal` passes on.
use shiitake.Api.Chunk.{OutputStream}
use shiitake.Prelude.{
  ◌-◌, ◌*◌, leb, ℕ, ◌≡◌, refl, sym, ◌∙◌, inl, inr, Bool, true, false, not, ◌&&◌, ◌||◌, Option, none,
  some, List, [], ◌∷◌, ◌++◌, arith, ltb, if◌then◌else◌, Bool-cases, all, count, count-append, Str,
  str_eq, str_eq_refl,
}
use mathlib.Core.List.{append-nil, append_assoc}
use native.Mathlib.Nat.{zero-add}
use shiitake.Api.Wire.{SessionId, Frame}
use shiitake.Pool.State.{TerminalEvent}
use shiitake.Http.Validate.{terminal_resize}
use shiitake.Http.Terminal.{
  keystrokes, control, sign_of_life, gone, Sight, tick, client, event, RelayAct, ping_client,
  close_client, send_client, chunk_worker, frame_worker, detach, on_sight, serve_terminal,
  max_silence, last_client_frame,
}

abbrev is_size : Option (ℕ × ℕ) → Bool
is_size none = false
is_size (some (cols, rows)) = ltb 0 cols && ltb 0 rows

-- Nothing came for three keepalives, of one second at least, or for the longest duration there is.
abbrev is_silent : ℕ → ℕ → Bool
is_silent keepalive gap =
    leb (3 * keepalive) gap && leb 3000000000 gap || leb 18446744073709551615999999999 gap

-- What ends the relay: silence, a failed send, a control that is none, the client's or the worker's end.
abbrev stops : ℕ → ℕ → Sight → Bool
stops keepalive last (tick now sent) = is_silent keepalive (now - last) || not sent
stops keepalive last (client now (keystrokes bytes) sent) = not sent
stops keepalive last (client now (control size) sent) = not (is_size size && sent)
stops keepalive last (client now sign_of_life sent) = false
stops keepalive last (client now gone sent) = true
stops keepalive last (event (some (TerminalEvent.output bytes)) sent) = not sent
stops keepalive last (event (some (TerminalEvent.closed error)) sent) = true
stops keepalive last (event none sent) = true

-- When the client was last heard.
abbrev heard : ℕ → Sight → ℕ
heard last (client now message sent) = now
heard last _ = last

-- Some sight ends the relay.
abbrev has_stop : ℕ → ℕ → List Sight → Bool
has_stop keepalive last [] = false
has_stop keepalive last (sight ∷ sights) =
    stops keepalive last sight || has_stop keepalive (heard last sight) sights

-- What the worker is to get of the client.
pub data Message : Type 0 where
  typed : Str → Message
  resized : ℕ → ℕ → Message

-- What one sight brings for the worker and for the client.
abbrev messages_in : Sight → List Message
messages_in (client now (keystrokes bytes) sent) = typed bytes ∷ []
messages_in (client now (control (some (cols, rows))) sent) =
    if is_size (some (cols, rows)) then resized cols rows ∷ [] else []
messages_in _ = []

abbrev output_in : Sight → Str
output_in (event (some (TerminalEvent.output bytes)) sent) = bytes
output_in _ = []

-- What the sights bring up to the one that ends the relay.
abbrev until_stop {ℓ} : {A : Type ℓ} → ℕ → ℕ → (Sight → List A) → List Sight → List A
until_stop keepalive last f [] = []
until_stop keepalive last f (sight ∷ sights) =
    f sight
    ++ (if stops keepalive last sight then [] else until_stop keepalive (heard last sight) f sights)

-- What the acts carry to the worker and to the client.
abbrev worker_of : RelayAct → List Message
worker_of (chunk_worker c) = typed c.bytes ∷ []
worker_of (frame_worker (Frame.session_resize id cols rows)) = resized cols rows ∷ []
worker_of _ = []

abbrev pub to_worker : List RelayAct → List Message
to_worker [] = []
to_worker (act ∷ acts) = worker_of act ++ to_worker acts

abbrev pub to_client : List RelayAct → Str
to_client [] = []
to_client (send_client bytes ∷ acts) = bytes ++ to_client acts
to_client (_ ∷ acts) = to_client acts

abbrev pub is_detach : RelayAct → Bool
is_detach detach = true
is_detach _ = false

abbrev is_stdin : OutputStream → Bool
is_stdin OutputStream.stdin = true
is_stdin _ = false

-- An act that is fit for the session: a chunk is the session's input, a frame is a size for the session,
-- and no size is empty.
abbrev pub is_fit : SessionId → RelayAct → Bool
is_fit id (chunk_worker c) = is_stdin c.stream && str_eq c.id id
is_fit id (frame_worker (Frame.session_resize rid cols rows)) =
    str_eq rid id && (ltb 0 cols && ltb 0 rows)
is_fit id (frame_worker _) = false
is_fit id _ = true

to_worker-append : (xs ys : List RelayAct) → to_worker (xs ++ ys) ≡ to_worker xs ++ to_worker ys
to_worker-append [] ys = refl
to_worker-append (act ∷ xs) ys =
    rw (to_worker-append xs ys) (sym (append_assoc (worker_of act) (to_worker xs) (to_worker ys)))

to_client-append : (xs ys : List RelayAct) → to_client (xs ++ ys) ≡ to_client xs ++ to_client ys
to_client-append [] ys = refl
to_client-append (send_client bytes ∷ xs) ys =
    rw (to_client-append xs ys) (sym (append_assoc bytes (to_client xs) (to_client ys)))
to_client-append (ping_client ∷ xs) ys = to_client-append xs ys
to_client-append (close_client code reason ∷ xs) ys = to_client-append xs ys
to_client-append (chunk_worker c ∷ xs) ys = to_client-append xs ys
to_client-append (frame_worker frame ∷ xs) ys = to_client-append xs ys
to_client-append (detach ∷ xs) ys = to_client-append xs ys

all-append :
    (p : RelayAct → Bool) (xs ys : List RelayAct) → all p (xs ++ ys) ≡ (all p xs && all p ys)
all-append p [] ys = refl
all-append p (x ∷ xs) ys = ground (arith, all-append p xs ys)

max_silence_lem : (keepalive gap : ℕ) → leb (max_silence keepalive) gap ≡ is_silent keepalive gap
unfolding max_silence
max_silence_lem keepalive gap = ground arith

-- The acts of one sight.
record Passes (id : SessionId) (keepalive last : ℕ) (sight : Sight) : Type 0 where
  more : (on_sight id keepalive last sight).1 ≡ not (stops keepalive last sight)
  worker : to_worker (on_sight id keepalive last sight).0 ≡ messages_in sight
  shown : to_client (on_sight id keepalive last sight).0 ≡ output_in sight
  attached : count is_detach (on_sight id keepalive last sight).0 ≡ 0
  fit : all (is_fit id) (on_sight id keepalive last sight).0 ≡ true
  kept : stops keepalive last sight ≡ false → last_client_frame last sight ≡ heard last sight

on_sight-Passes :
    (id : SessionId) (keepalive last : ℕ) (sight : Sight) → Passes id keepalive last sight
unfolding on_sight terminal_resize last_client_frame
on_sight-Passes id keepalive last (tick now sent) = record {
  more = ground (arith, max_silence_lem keepalive (now - last));
  worker = ground arith;
  shown = ground arith;
  attached = ground arith;
  fit = ground arith;
  kept = λ h. refl;
}
on_sight-Passes id keepalive last (client now (keystrokes bytes) sent) = record {
  more = ground arith;
  worker = refl;
  shown = refl;
  attached = refl;
  fit = ground (arith, str_eq_refl id);
  kept = λ h. refl;
}
on_sight-Passes id keepalive last (client now (control none) sent) = record {
  more = refl;
  worker = refl;
  shown = refl;
  attached = refl;
  fit = refl;
  kept = λ h. refl;
}
on_sight-Passes id keepalive last (client now (control (some (cols, rows))) sent) = record {
  more = ground arith;
  worker = ground arith;
  shown = ground arith;
  attached = ground arith;
  fit = ground (arith, str_eq_refl id);
  kept = λ h. refl;
}
on_sight-Passes id keepalive last (client now sign_of_life sent) = record {
  more = refl;
  worker = refl;
  shown = refl;
  attached = refl;
  fit = refl;
  kept = λ h. refl;
}
on_sight-Passes id keepalive last (client now gone sent) = record {
  more = refl;
  worker = refl;
  shown = refl;
  attached = refl;
  fit = refl;
  kept = λ h. cc;
}
on_sight-Passes id keepalive last (event (some (TerminalEvent.output bytes)) sent) = record {
  more = ground arith;
  worker = refl;
  shown = append-nil bytes;
  attached = refl;
  fit = refl;
  kept = λ h. refl;
}
on_sight-Passes id keepalive last (event (some (TerminalEvent.closed none)) sent) = record {
  more = refl;
  worker = refl;
  shown = refl;
  attached = refl;
  fit = refl;
  kept = λ h. refl;
}
on_sight-Passes id keepalive last (event (some (TerminalEvent.closed (some e))) sent) = record {
  more = refl;
  worker = refl;
  shown = refl;
  attached = refl;
  fit = refl;
  kept = λ h. refl;
}
on_sight-Passes id keepalive last (event none sent) = record {
  more = refl;
  worker = refl;
  shown = refl;
  attached = refl;
  fit = refl;
  kept = λ h. refl;
}

-- The relay, whatever it sees, at whatever times and in whatever order: it ends exactly at a silence (a
-- tick when nothing came of the client for three keepalives, of a second at least, or for the longest
-- duration there is), a failed send, a control that is no size or the end of either side, and detaches
-- the terminal once, then and only then; up to that end the keystrokes and the sizes are sent on to the
-- worker, each as one message, and the output to the client, all in their order; every chunk is input
-- for the session and every frame a size for it, and no size is empty.
pub serve_terminal-IsRelayed :
    (id : SessionId) (keepalive last : ℕ) (sights : List Sight)
    → let (acts, ended) = serve_terminal id keepalive last sights in
      let stopped = has_stop keepalive last sights in
      (ended ≡ stopped)
      × (count is_detach acts ≡ (if stopped then 1 else 0))
      × (to_worker acts ≡ until_stop keepalive last messages_in sights)
      × (to_client acts ≡ until_stop keepalive last output_in sights)
      × (all (is_fit id) acts ≡ true)
unfolding serve_terminal
serve_terminal-IsRelayed id keepalive last [] = (refl, refl, refl, refl, refl)
serve_terminal-IsRelayed id keepalive last (sight ∷ sights) =
    let here = on_sight-Passes id keepalive last sight in
    let acts = (on_sight id keepalive last sight).0 in
    let next = last_client_frame last sight in
    let later = (serve_terminal id keepalive next sights).0 in
    let (ended, detached, worker, shown, fit) = serve_terminal-IsRelayed id keepalive next sights in
    elim (Bool-cases (stops keepalive last sight)) [
      | inl e ↦
          rw (here.more, e, if◌then◌else◌)
            (
              refl,
              rw (count-append is_detach acts (detach ∷ []), here.attached) refl,
              to_worker-append acts (detach ∷ []) ∙ rw here.worker refl,
              to_client-append acts (detach ∷ []) ∙ rw here.shown refl,
              rw (all-append (is_fit id) acts (detach ∷ []), here.fit) refl,
            )
      | inr e ↦
          rw (here.more, e, if◌then◌else◌, ← here.kept e)
            (
              ended,
              rw
                  (
                    count-append is_detach acts later,
                    here.attached,
                    zero-add (count is_detach later),
                  )
                  detached,
              rw (to_worker-append acts later, here.worker, worker) refl,
              rw (to_client-append acts later, here.shown, shown) refl,
              rw (all-append (is_fit id) acts later, here.fit) fit,
            )
    ]
