-- ===== src/Pool/Sessions/Reports.antt =====
-- shiitake-server/src/pool/mod.rs: what a worker reports of its session.
use shiitake.Prelude.{
  Bool, not, ◌&&◌, Option, none, some, List, [], ◌∷◌, ◌++◌, if◌then◌else◌, is_some, is_none, retain,
  Str, str, str_eq, ok, err,
}
use shiitake.Prelude.Map.{get, contains_key, remove, adjust, keys}
use shiitake.Api.Wire.{WorkerId, SessionId}
use shiitake.Api.Public.{SessionState, ExitCause, is_opening, is_closing}
use shiitake.Pool.State.{
  Time, Channel, PendingEntry, SessionRecord, clear_inputs, PoolState, Effect,
}
use shiitake.Pool.Outcome.{end_with_session, end_handles, announce_all}
use shiitake.Pool.Handles.{belongs}
use shiitake.Pool.Dispatch.{push_back}
use shiitake.Pool.Workers.{tell_opened, tell_terminal, tell_closed}

-- The worker's answer to SessionOpen.
unfoldable pub ready_record : Time → Option Str → SessionRecord → SessionRecord
unfolding clear_inputs
ready_record now error r =
    let r' = record r { opened = none } in
    if is_opening r.state
    then elim error [
      | none ↦ record r' { state = SessionState.active }
      | some e ↦ clear_inputs (record r' { state = SessionState.failed; finished_at = some now })
    ]
    else r'

abbrev pub tell_ready : Option Channel → Option Str → List Effect
tell_ready none e = []
tell_ready (some tx) none = Effect.opened tx (ok tt) ∷ []
tell_ready (some tx) (some e) = Effect.opened tx (err e) ∷ []

unfoldable pub session_ready :
    PoolState → Time → WorkerId → SessionId → Option Str → PoolState × List Effect
unfolding ready_record
session_ready s now worker id error = elim (get id s.sessions) [
  | none ↦ (s, [])
  | some r ↦
      if str_eq r.worker_id worker
      then (
        record s { sessions = adjust id (ready_record now error) s.sessions },
        tell_ready r.opened error,
      )
      else (s, [])
]

-- The worker's word that the session's shell is gone.
unfoldable pub closed_record : Time → Option Str → SessionRecord → SessionRecord
unfolding clear_inputs
closed_record now error r = clear_inputs (record r {
  state = if is_some error then SessionState.failed else SessionState.closed;
  finished_at = some now;
  terminal = none;
  opened = none;
  closed = [];
})

abbrev pub close_cause : Option Str → SessionRecord → ExitCause
close_cause error r =
    if is_closing r.state && is_none error then ExitCause.cancelled else ExitCause.worker_error

abbrev pub of_session : SessionId → Str × PendingEntry → Bool
of_session id e = belongs id e.1.session_id

abbrev pub or_shell_closed : Option Str → Str
or_shell_closed none = str "shell closed"
or_shell_closed (some e) = e

-- The part of `session_closed` under the lock.
unfoldable pub detach_session :
    PoolState → Time → WorkerId → SessionId → Option Str → Bool → SessionRecord → PoolState
unfolding closed_record push_back
detach_session s now worker id error reusable r =
    let s' = record s {
      sessions = adjust id (closed_record now error) s.sessions;
      worker_sessions = remove worker s.worker_sessions;
      inflight = retain (λ e. not (of_session id e)) s.inflight;
    } in
    if reusable && contains_key worker s.liveness
    then push_back (record { worker_id = worker; profile = r.profile; sink = r.sink }) s'
    else s'

-- The whole of it, for a session record of the worker.
unfoldable pub close_held :
    PoolState
    → Time
    → WorkerId
    → SessionId
    → Option Str
    → Bool
    → SessionRecord
    → PoolState × List Effect
unfolding detach_session end_with_session
close_held s now worker id error reusable r =
    let pending = keys (retain (of_session id) s.inflight) in
    let finish = end_with_session now (close_cause error r) in
    let s' = detach_session s now worker id error reusable r in
    (
      record s' { handles = end_handles finish pending s'.handles },
      tell_opened r.opened (or_shell_closed error)
          ++ (tell_terminal r.terminal error
              ++ (announce_all now (close_cause error r) finish pending s.handles
                  ++ tell_closed r.closed)),
    )

unfoldable pub session_closed :
    PoolState → Time → WorkerId → SessionId → Option Str → Bool → PoolState × List Effect
unfolding close_held
session_closed s now worker id error reusable = elim (get id s.sessions) [
  | none ↦ (s, [])
  | some r ↦
      if str_eq r.worker_id worker then close_held s now worker id error reusable r else (s, [])
]
