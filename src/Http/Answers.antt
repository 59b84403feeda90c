-- ===== src/Http/Answers.antt =====
-- shiitake-server/src/http/{sessions,exec,health}.rs: the answers that handlers make of the pool's. A
-- body that is text and one that is JSON are kept apart by the result type; `to_epoch` keeps a time as
-- it is.
use shiitake.Prelude.{
  ℕ, ◌+◌, Bool, Option, List, ◌++◌, leb, if◌then◌else◌, Str, str, Result, ok, err, ℤ,
}
use shiitake.Api.Wire.{WorkerId, ExecId, SessionId, ExecuteFrame}
use shiitake.Api.Public.{HandleStatus, ExitCause}
use shiitake.Api.Capture.{Stream}
use shiitake.Pool.State.{Time, DispatchError, SessionError, HandleSnapshot, PoolState, Effect}
use shiitake.Pool.Occupancy.{snapshot, interactive_count, session_count}
use shiitake.Pool.Dispatch.{Answers, dispatch}

abbrev pub HttpError : Type 0
HttpError = ℕ × Str

-- `SessionError`'s messages.
error_text : SessionError → Str
error_text SessionError.unknown_profile = str "unknown profile"
error_text SessionError.busy = str "no idle worker in profile"
error_text SessionError.not_found = str "session not found"
error_text SessionError.not_active = str "session is not active"
error_text SessionError.terminal_busy = str "terminal is attached or a stateful command is active"
error_text (SessionError.worker e) = str "worker failed: " ++ e

unfoldable pub map_error : SessionError → Str → HttpError
unfolding error_text
map_error (SessionError.worker e) action = (502, str "worker could not " ++ action)
map_error SessionError.unknown_profile action = (404, error_text SessionError.unknown_profile)
map_error SessionError.not_found action = (404, error_text SessionError.not_found)
map_error SessionError.busy action = (429, error_text SessionError.busy)
map_error SessionError.not_active action = (409, error_text SessionError.not_active)
map_error SessionError.terminal_busy action = (409, error_text SessionError.terminal_busy)

pub record HealthResponse : Type 0 where
  pub status : Str
  pub service : Str
  pub workers_idle : ℕ
  pub workers_inflight : ℕ
  pub workers_interactive : ℕ
  pub workers_sessions : ℕ

pub record ReadyResponse : Type 0 where
  pub ready : Bool
  pub service : Str
  pub workers_idle : ℕ
  pub workers_inflight : ℕ
  pub workers_sessions : ℕ
  pub workers_required : ℕ

-- Each count takes the lock anew: `s₁` is the pool at the first, `s₂` and `s₃` at the later ones.
unfoldable pub health : PoolState → PoolState → PoolState → HealthResponse
unfolding snapshot interactive_count session_count
health s₁ s₂ s₃ = record {
  status = str "ok";
  service = str "shiitake";
  workers_idle = (snapshot s₁).0;
  workers_inflight = (snapshot s₁).1;
  workers_interactive = interactive_count s₂;
  workers_sessions = session_count s₃;
}

unfoldable pub ready : PoolState → PoolState → ℕ → ℕ × ReadyResponse
unfolding snapshot session_count
ready s₁ s₂ min_ready_workers =
    let enough = leb min_ready_workers ((snapshot s₁).0 + (snapshot s₁).1) in
    (
      if enough then 200 else 503,
      record {
        ready = enough;
        service = str "shiitake";
        workers_idle = (snapshot s₁).0;
        workers_inflight = (snapshot s₁).1;
        workers_sessions = session_count s₂;
        workers_required = min_ready_workers;
      },
    )

pub record StatusResponse : Type 0 where
  pub handle : ExecId
  pub session_id : Option SessionId
  pub worker_id : WorkerId
  pub status : HandleStatus
  pub started_at : Time
  pub finished_at : Option Time
  pub exit_code : Option ℤ
  pub exit_cause : Option ExitCause
  pub exit_signal : Option ℤ
  pub cancelled : Bool
  pub stdout_bytes_written : ℕ
  pub stderr_bytes_written : ℕ

-- `capture_len` is what the file system says of a handle's two files.
unfoldable pub status_response : (ExecId → Stream → ℕ) → HandleSnapshot → StatusResponse
status_response capture_len snap = record {
  handle = snap.handle_id;
  session_id = snap.session_id;
  worker_id = snap.worker_id;
  status = snap.status;
  started_at = snap.started_at;
  finished_at = snap.finished_at;
  exit_code = snap.exit_code;
  exit_cause = snap.exit_cause;
  exit_signal = snap.exit_signal;
  cancelled = snap.cancelled;
  stdout_bytes_written = capture_len snap.handle_id Stream.stdout;
  stderr_bytes_written = capture_len snap.handle_id Stream.stderr;
}

pub record HandleSnapshotJson : Type 0 where
  pub handle : ExecId
  pub status : HandleStatus
  pub exit_cause : Option ExitCause
  pub cancelled : Bool

unfoldable pub handle_json : HandleSnapshot → HandleSnapshotJson
handle_json snap = record {
  handle = snap.handle_id;
  status = snap.status;
  exit_cause = snap.exit_cause;
  cancelled = snap.cancelled;
}

dispatch_error_text : DispatchError → Str
dispatch_error_text DispatchError.no_idle_worker = str "no idle worker available"
dispatch_error_text (DispatchError.send e) = str "worker send failed: " ++ e

dispatch_answer : Result HandleSnapshot DispatchError → Result HandleSnapshot HttpError
unfolding dispatch_error_text
dispatch_answer (ok snap) = ok snap
dispatch_answer (err DispatchError.no_idle_worker) =
    err (429, str "all workers busy; retry shortly")
dispatch_answer (err (DispatchError.send e)) =
    err (500, str "dispatch: " ++ dispatch_error_text (DispatchError.send e))

-- `exec::dispatch`
unfoldable pub exec_dispatch :
    PoolState
    → Time
    → ExecuteFrame
    → Answers
    → PoolState × Result HandleSnapshot HttpError × List Effect
unfolding dispatch_answer
exec_dispatch s now frame answers =
    let (s', answer, effects) = dispatch s now frame answers in
    (s', dispatch_answer answer, effects)
