-- ===== src/Http/Lifecycle.antt =====
-- shiitake-server/src/http/sessions.rs: the handlers that look at a session, close it and list its
-- commands.
use shiitake.Prelude.{ℕ, List, map, str, Result, ok, err, ◌>>=◌, ok_or}
use shiitake.Api.Wire.{ExecId, SessionId}
use shiitake.Api.Capture.{Stream}
use shiitake.Pool.State.{Time, Channel, SessionError, SessionSnapshot, PoolState, Effect}
use shiitake.Pool.Sessions.{session_snapshot}
use shiitake.Pool.Sessions.Close.{CloseOutcome}
use shiitake.Pool.Sessions.Shut.{close_session}
use shiitake.Pool.Commands.{list_session_commands}
use shiitake.Http.Answers.{HttpError, map_error, StatusResponse, status_response}
use shiitake.Http.Sessions.{SessionResponse, response}

unfoldable pub session_status :
    PoolState → Time → SessionId → PoolState × Result SessionResponse HttpError
unfolding session_snapshot map_error response
session_status s now id =
    let (s', v) = session_snapshot s now id in
    (s', ok_or v (map_error SessionError.not_found (str "find session")) >>= λ x. ok (response x))

close_answer : Result SessionSnapshot SessionError → Result SessionResponse HttpError
unfolding map_error response
close_answer (ok v) = ok (response v)
close_answer (err e) = err (map_error e (str "close session"))

unfoldable pub close :
    PoolState
    → SessionId
    → Channel
    → (PoolState → PoolState)
    → Time
    → CloseOutcome
    → PoolState × Result SessionResponse HttpError × List Effect
unfolding close_session close_answer
close s id tx between later outcome =
    let (s', v, effects) = close_session s id tx between later outcome in
    (s', close_answer v, effects)

unfoldable pub list_commands :
    (ExecId → Stream → ℕ)
    → PoolState
    → Time
    → SessionId
    → PoolState × Result (List StatusResponse) HttpError
unfolding list_session_commands status_response
list_commands capture_len s now id =
    let (s', found) = list_session_commands s now id in
    (
      s',
      ok_or found (404, str "unknown session") >>= λ snaps.
          ok (map (status_response capture_len) snaps),
    )
