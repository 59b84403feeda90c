-- ===== src/Pool/Sessions/Close.antt =====
-- shiitake-server/src/pool/mod.rs: closing a session, by a client or by the sweeper.
use shiitake.Prelude.{
  ℕ, Bool, not, ◌&&◌, Option, none, some, List, [], ◌∷◌, ◌++◌, ltb, if◌then◌else◌, is_none, any,
  Str, str, Result, ok, err, ok_or,
}
use shiitake.Prelude.Map.{get, adjust, values}
use shiitake.Api.Wire.{WorkerId, SessionId}
use shiitake.Api.Public.{SessionState, is_active, is_closing, is_finished}
use shiitake.Pool.State.{
  Time, duration_since, Sink, Channel, SessionRecord, SessionSnapshot, SessionError, PoolState,
  Effect,
}
use shiitake.Pool.Handles.{belongs}
use shiitake.Pool.Dispatch.{evict_worker}
use shiitake.Pool.Sessions.{session_view, session_snapshot}

-- `inflight.values().any(|p| p.session_id.as_ref() == Some(id))`
abbrev pub has_command : PoolState → SessionId → Bool
has_command s id = any (λ p. belongs id p.session_id) (values s.inflight)

-- The sweeper's test, made once to choose a session and once more under the lock.
unfoldable pub still_idle : PoolState → Time → ℕ → SessionId → SessionRecord → Bool
still_idle s now ttl id r =
    is_active r.state
    && is_none r.terminal
    && not (has_command s id)
    && ltb ttl (duration_since now r.last_activity_at)

-- The part of `close_session_inner` under the lock: an answer at once, or what to wait for.
pub data CloseStart : Type 0 where
  answer : Result SessionSnapshot SessionError → CloseStart
  wait : Sink → WorkerId → Bool → CloseStart

abbrev pub closing_record : Channel → SessionRecord → SessionRecord
closing_record tx r = record r { state = SessionState.closing; closed = r.closed ++ (tx ∷ []) }

unfoldable pub start_close :
    PoolState → SessionId → Channel → SessionRecord → PoolState × CloseStart
start_close s id tx r =
    if is_finished r.state then (s, CloseStart.answer (ok (session_view id r))) else (
      record s { sessions = adjust id (closing_record tx) s.sessions },
      CloseStart.wait r.sink r.worker_id (not (is_closing r.state)),
    )

unfoldable pub begin_close :
    PoolState → SessionId → Option (Time × ℕ) → Channel → PoolState × CloseStart
unfolding start_close still_idle
begin_close s id gate tx = elim (get id s.sessions) [
  | none ↦ (s, CloseStart.answer (err SessionError.not_found))
  | some r ↦ elim gate [
    | none ↦ start_close s id tx r
    | some (now, ttl) ↦
        if still_idle s now ttl id r
        then start_close s id tx r
        else (s, CloseStart.answer (ok (session_view id r)))
  ]
]

-- What the closer waits for: the frame's send, then the worker's answer.
pub data CloseOutcome : Type 0 where
  send_failed : Str → CloseOutcome
  timed_out : CloseOutcome
  closed : CloseOutcome

unfoldable pub finish_close :
    PoolState
    → Time
    → SessionId
    → WorkerId
    → CloseOutcome
    → PoolState × Result SessionSnapshot SessionError × List Effect
unfolding session_snapshot evict_worker
finish_close s now id worker (CloseOutcome.send_failed e) =
    (s, err (SessionError.worker e), evict_worker s worker)
finish_close s now id worker CloseOutcome.timed_out = (
  s,
  err (SessionError.worker (str "session close timed out; worker evicted")),
  evict_worker s worker,
)
finish_close s now id worker CloseOutcome.closed =
    let (s', v) = session_snapshot s now id in (s', ok_or v SessionError.not_found, [])
