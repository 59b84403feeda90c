-- ===== src/Pool/State.antt =====
-- shiitake-server/src/pool/mod.rs: the data behind the pool's lock. Sinks, channels and the shutdown
-- signals are told apart by numbers, and times are counted from an epoch. A handle's row holds its
-- runtime where the code shares it behind an `Arc`; the lock that orders two sends is left out.
use shiitake.Prelude.{ℕ, ◌-◌, Bool, Option, none, List, [], Str, Result, ℤ}
use shiitake.Prelude.Map.{Map}
use shiitake.Api.Wire.{
  WorkerId, ExecId, SessionId, WorkerLocation, SessionCommandMode, DropTo, Frame,
}
use shiitake.Api.Public.{SessionState, HandleStatus, ExitCause}
use shiitake.Api.Capture.{Stream}

abbrev pub Time : Type 0
Time = ℕ

abbrev pub Sink : Type 0
Sink = ℕ

abbrev pub Channel : Type 0
Channel = ℕ

-- `now.duration_since(t).unwrap_or_default()`
abbrev pub duration_since : Time → Time → ℕ
duration_since now t = now - t

pub data DispatchError : Type 0 where
  no_idle_worker : DispatchError
  send : Str → DispatchError

pub record PendingEntry : Type 0 where
  pub sink : Sink
  pub worker_id : WorkerId
  pub profile : Str
  pub session_id : Option SessionId
  pub mode : SessionCommandMode
  pub started_at : Time

pub record WorkerEntry : Type 0 where
  pub worker_id : WorkerId
  pub profile : Str
  pub sink : Sink

pub record SessionRecord : Type 0 where
  pub worker_id : WorkerId
  pub profile : Str
  pub sink : Sink
  pub state : SessionState
  pub created_at : Time
  pub last_activity_at : Time
  pub finished_at : Option Time
  pub opened : Option Channel
  pub closed : List Channel
  pub terminal : Option Channel
  pub working_dir : Str
  pub env : Map Str
  pub drop_to : Option DropTo
  pub stateful_count : ℕ

unfoldable pub clear_inputs : SessionRecord → SessionRecord
clear_inputs r = record r { working_dir = []; env = []; drop_to = none }

pub record SessionSnapshot : Type 0 where
  pub session_id : SessionId
  pub worker_id : WorkerId
  pub profile : Str
  pub state : SessionState
  pub created_at : Time

pub data SessionError : Type 0 where
  unknown_profile busy not_found not_active terminal_busy : SessionError
  worker : Str → SessionError

pub record WorkerLiveness : Type 0 where
  pub last_seen : Time
  pub shutdown : Channel
  pub location : Option WorkerLocation
  pub profile : Str

-- `span` is whether the exec span is still open.
pub record HandleRuntime : Type 0 where
  pub last_polled_at : Time
  pub status : HandleStatus
  pub finished_at : Option Time
  pub exit_code : Option ℤ
  pub exit_signal : Option ℤ
  pub exit_cause : Option ExitCause
  pub cancel_requested : Bool
  pub cancelled : Bool
  pub spool_failed : Bool
  pub span : Bool

pub record HandleRow : Type 0 where
  pub handle_id : ExecId
  pub session_id : Option SessionId
  pub worker_id : WorkerId
  pub started_at : Time
  pub inner : HandleRuntime

pub record HandleSnapshot : Type 0 where
  pub handle_id : ExecId
  pub session_id : Option SessionId
  pub worker_id : WorkerId
  pub started_at : Time
  pub status : HandleStatus
  pub finished_at : Option Time
  pub exit_code : Option ℤ
  pub exit_signal : Option ℤ
  pub exit_cause : Option ExitCause
  pub cancelled : Bool

pub data PtyEvent : Type 0 where
  output : List ℕ → PtyEvent
  exit : Option ℤ → Option ℤ → Option Str → PtyEvent

pub record PinnedSession : Type 0 where
  pub worker_id : WorkerId
  pub profile : Str
  pub sink : Sink
  pub output : Channel

pub data TerminalEvent : Type 0 where
  output : List ℕ → TerminalEvent
  closed : Option Str → TerminalEvent

pub record TerminalAttachment : Type 0 where
  pub session_id : SessionId
  pub sink : Sink
  pub reservation : Channel

pub record PoolState : Type 0 where
  pub idle : List WorkerEntry
  pub inflight : Map PendingEntry
  pub handles : Map HandleRow
  pub liveness : Map WorkerLiveness
  pub pty_sessions : Map Channel
  pub sessions : Map SessionRecord
  pub worker_sessions : Map SessionId

-- `WorkerPool::new`
abbrev pub new_pool : PoolState
new_pool = record {
  idle = [];
  inflight = [];
  handles = [];
  liveness = [];
  pty_sessions = [];
  sessions = [];
  worker_sessions = [];
}

-- What an operation does outside the pool's state, in order.
pub data Effect : Type 0 where
  -- a frame or a ping to a worker
  send : Sink → Frame → Effect
  ping : Sink → Effect
  -- the answers that `create_session` and `close_session` wait for
  opened : Channel → Result (Unit {0}) Str → Effect
  closed : Channel → Effect
  terminal : Channel → TerminalEvent → Effect
  pty : Channel → PtyEvent → Effect
  -- `completion.notify_waiters()` of a handle
  notify : ExecId → Effect
  -- `shutdown.notify_one()` of a worker
  evict : Channel → Effect
  -- bytes appended to a spool file; a capture directory removed
  spool : ExecId → Stream → List ℕ → Effect
  purge : ExecId → Effect
  -- the metrics of a finished command: its cause and duration
  record_exec : ExecId → ExitCause → ℕ → Effect
