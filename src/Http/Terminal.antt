-- ===== src/Http/Terminal.antt =====
-- shiitake-server/src/http/sessions.rs: `serve_terminal`, the relay between a client's socket and the
-- terminal of a session. The parse of a control text, and what the sockets answer, are arguments.
pub mod Relay
use shiitake.Prelude.{
  ℕ, zero, suc, ◌+◌, ◌-◌, ◌*◌, ◌/◌, ◌%◌, ◌^◌, ◌≤◌, ◌<◌, String, ◌≡◌, refl, sym, ap, ◌∙◌, ◌≢◌, ◌↔◌,
  ◌⊎◌, inl, inr, Bool, true, false, not, ◌&&◌, ◌||◌, Option, none, some, List, [], ◌∷◌, ◌++◌, map,
  arith, ltb, leb, ◌==◌, if◌then◌else◌, ltb→lt, leb→le, ==_iff, Bool-cases, Option-cases, is_some,
  is_none, length, take, drop, is_empty, all, any, retain, count, All, length-append, count-append,
  All-append, take-length-append, drop-length-append, take-append-drop, length-take, All-retain,
  Str, str, str_eq, str_eq_iff, str_eq_refl, str_le, str_le-total, is_ascii_alphanumeric, Result,
  ok, err, ◌>>=◌, ok_or, ℤ, pos, negsuc,
}
use shiitake.Api.Wire.{SessionId, Frame}
use shiitake.Api.Chunk.{OutputStream, OutputChunk}
use shiitake.Pool.State.{TerminalEvent}
use shiitake.Http.Validate.{terminal_resize}

-- What the client sends; any other message, an error and the end of the stream end the relay.
pub data ClientMessage : Type 0 where
  keystrokes : Str → ClientMessage
  control : Option (ℕ × ℕ) → ClientMessage
  sign_of_life : ClientMessage
  gone : ClientMessage

-- What `select!` sees: the ping's tick, or a message of the client, with the time in nanoseconds; an
-- event of the terminal, or none once the worker is gone. With each goes whether what it brings about
-- could be sent.
pub data Sight : Type 0 where
  tick : ℕ → Bool → Sight
  client : ℕ → ClientMessage → Bool → Sight
  event : Option TerminalEvent → Bool → Sight

pub data RelayAct : Type 0 where
  ping_client : RelayAct
  close_client : ℕ → Str → RelayAct
  send_client : List ℕ → RelayAct
  chunk_worker : OutputChunk → RelayAct
  frame_worker : Frame → RelayAct
  detach : RelayAct

unfoldable pub terminal_close : Option Str → ℕ × Str
terminal_close (some details) = (1011, str "session ended unexpectedly")
terminal_close none = (1000, str "session ended")

-- One second, and `Duration::MAX`, in nanoseconds.
abbrev pub one_second : ℕ
one_second = 1000000000

abbrev pub longest : ℕ
longest = 18446744073709551615999999999

-- `ping_every.saturating_mul(3)`
unfoldable pub max_silence : ℕ → ℕ
max_silence keepalive =
    let ping_every : ℕ = if leb one_second keepalive then keepalive else one_second in
    if leb (ping_every * 3) longest then ping_every * 3 else longest

-- `last_client_frame` after a branch.
unfoldable pub last_client_frame : ℕ → Sight → ℕ
last_client_frame last (tick now sent) = last
last_client_frame last (client now (keystrokes bytes) sent) = now
last_client_frame last (client now (control size) sent) = now
last_client_frame last (client now sign_of_life sent) = now
last_client_frame last (client now gone sent) = last
last_client_frame last (event e sent) = last

-- One branch of the loop, with the time of the last frame of the client: what it does, and whether the
-- loop goes on.
unfoldable pub on_sight : SessionId → ℕ → ℕ → Sight → List RelayAct × Bool
unfolding terminal_close terminal_resize max_silence
on_sight id keepalive last (tick now sent) =
    if leb (max_silence keepalive) (now - last)
    then (close_client 1001 (str "terminal connection timed out") ∷ [], false)
    else (ping_client ∷ [], sent)
on_sight id keepalive last (client now (keystrokes bytes) sent) =
    (chunk_worker (record { stream = OutputStream.stdin; id = id; bytes = bytes }) ∷ [], sent)
on_sight id keepalive last (client now (control size) sent) = elim (terminal_resize size) [
  | ok (cols, rows) ↦ (frame_worker (Frame.session_resize id cols rows) ∷ [], sent)
  | err _ ↦ (close_client 1007 (str "invalid terminal control") ∷ [], false)
]
on_sight id keepalive last (client now sign_of_life sent) = ([], true)
on_sight id keepalive last (client now gone sent) = ([], false)
on_sight id keepalive last (event (some (TerminalEvent.output bytes)) sent) =
    (send_client bytes ∷ [], sent)
on_sight id keepalive last (event (some (TerminalEvent.closed error)) sent) =
    let (code, reason) = terminal_close error in (close_client code reason ∷ [], false)
on_sight id keepalive last (event none sent) =
    (close_client 1011 (str "worker disconnected") ∷ [], false)

-- The loop, and the detachment once it has ended; the Boolean tells whether it has.
unfoldable pub serve_terminal : SessionId → ℕ → ℕ → List Sight → List RelayAct × Bool
unfolding on_sight last_client_frame
serve_terminal id keepalive last [] = ([], false)
serve_terminal id keepalive last (sight ∷ sights) =
    let (acts, more) = on_sight id keepalive last sight in
    let later = serve_terminal id keepalive (last_client_frame last sight) sights in
    if more then (acts ++ later.0, later.1) else (acts ++ detach ∷ [], true)
