-- ===== src/Pool/Terminal.antt =====
-- shiitake-server/src/pool/mod.rs: attaching a terminal to a session, and the worker's read loop.
use shiitake.Prelude.{
  ℕ, Bool, true, false, not, ◌||◌, Option, none, some, List, [], ◌∷◌, ltb, ◌==◌, if◌then◌else◌,
  is_some, Str, Result, ok, err,
}
use shiitake.Prelude.Map.{get, adjust}
use shiitake.Api.Wire.{WorkerId, SessionId, Frame}
use shiitake.Api.Public.{is_active}
use shiitake.Api.Chunk.{decode}
use shiitake.Pool.State.{
  Time, Channel, SessionRecord, SessionError, TerminalAttachment, PtyEvent, PoolState, Effect,
}
use shiitake.Pool.Dispatch.{complete_request}
use shiitake.Pool.Sessions.Reports.{session_ready, session_closed}
use shiitake.Pool.Workers.{touch_worker, route_output}

abbrev pub attached : Time → Channel → SessionRecord → SessionRecord
attached now tx r = record r { terminal = some tx; last_activity_at = now }

unfoldable pub attach_terminal :
    PoolState → Time → SessionId → Channel → PoolState × Result TerminalAttachment SessionError
attach_terminal s now id tx = elim (get id s.sessions) [
  | none ↦ (s, err SessionError.not_found)
  | some r ↦
      if not (is_active r.state)
      then (s, err SessionError.not_active)
      else if is_some r.terminal || ltb 0 r.stateful_count
      then (s, err SessionError.terminal_busy)
      else (
        record s { sessions = adjust id (attached now tx) s.sessions },
        ok (record { session_id = id; sink = r.sink; reservation = tx }),
      )
]

-- `current.same_channel(reservation)`
abbrev same_channel : Option Channel → Channel → Bool
same_channel none tx = false
same_channel (some c) tx = c == tx

abbrev pub detached : Time → Channel → SessionRecord → SessionRecord
detached now tx r =
    if same_channel r.terminal tx then record r { terminal = none; last_activity_at = now } else r

unfoldable pub detach_terminal_if : PoolState → Time → SessionId → Channel → PoolState
detach_terminal_if s now id tx = record s { sessions = adjust id (detached now tx) s.sessions }

-- A message on a worker's socket, its text parsed or not.
pub data Message : Type 0 where
  binary : List ℕ → Message
  text : Result Frame Str → Message
  close : Message
  -- pings, pongs and what else the loop ignores
  other : Message

on_binary : PoolState → WorkerId → List ℕ → Option Str → PoolState × List Effect
on_binary s worker bytes failure = elim (get worker s.pty_sessions) [
  | some tx ↦ (s, Effect.pty tx (PtyEvent.output bytes) ∷ [])
  | none ↦ elim (decode bytes) [ ok chunk ↦ route_output s worker chunk failure | err e ↦ (s, []) ]
]

on_frame : PoolState → Time → WorkerId → Frame → PoolState × List Effect
on_frame s now worker (Frame.session_ready id error) = session_ready s now worker id error
on_frame s now worker (Frame.session_closed id error reusable) =
    session_closed s now worker id error reusable
on_frame s now worker (Frame.pty_exit id code signal error) = (
  s,
  elim (get worker s.pty_sessions) [
    | none ↦ []
    | some tx ↦ Effect.pty tx (PtyEvent.exit code signal error) ∷ []
  ],
)
on_frame s now worker (Frame.result r) = complete_request s now r
on_frame s now worker _ = (s, [])

-- One round of the read loop, and whether the loop goes on. `failure` is the file system's answer to
-- a spool write.
unfoldable pub on_message :
    PoolState → Time → WorkerId → Message → Option Str → PoolState × List Effect × Bool
unfolding on_binary on_frame
on_message s now worker (Message.binary bytes) failure =
    let (s', effects) = on_binary (touch_worker s now worker) worker bytes failure in
    (s', effects, true)
on_message s now worker (Message.text (ok frame)) failure =
    let (s', effects) = on_frame (touch_worker s now worker) now worker frame in (s', effects, true)
on_message s now worker (Message.text (err e)) failure = (touch_worker s now worker, [], true)
on_message s now worker Message.close failure = (touch_worker s now worker, [], false)
on_message s now worker Message.other failure = (touch_worker s now worker, [], true)
