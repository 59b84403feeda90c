-- ===== src/Pool/Closing.antt =====
-- What the worker's word that a session is closed does.
use shiitake.Prelude.{
  ◌≡◌, refl, Bool, true, false, not, ◌&&◌, Option, none, some, [], ◌∷◌, ◌++◌, arith, if◌then◌else◌,
  is_some, is_none, retain, All, All-retain, Str, str_eq, str_eq_refl,
}
use shiitake.Prelude.Map.{
  get, contains_key, keys, get-remove, get-adjust, IsUnique, any-keys-retain,
}
use shiitake.Api.Wire.{WorkerId, ExecId, SessionId}
use shiitake.Api.Public.{SessionState, HandleStatus, ExitCause, is_running, is_closing}
use shiitake.Pool.State.{Time, SessionRecord, HandleRow, PoolState, clear_inputs}
use shiitake.Pool.Outcome.{finalize_telemetry, end_with_session}
use shiitake.Pool.Dispatch.{push_back}
use shiitake.Pool.Sessions.Reports.{
  closed_record, close_cause, of_session, detach_session, close_held, session_closed, session_ready,
}
use shiitake.Pool.Ends.{ended, get-end_handles, end_with_session_twice}

-- The command belongs to the session.
abbrev pub in_session : PoolState → SessionId → ExecId → Bool
in_session s id rid = elim (get rid s.inflight) [ none ↦ false | some p ↦ of_session id (rid, p) ]

-- How a running command of a closed session ends: as cancelled if the session was being closed and the
-- worker reports no error, else as the worker's error.
pub record IsCut (now : Time) (asked : Bool) (row row' : HandleRow) : Type 0 where
  pub status : row'.inner.status ≡ HandleStatus.error
  pub cause :
      row'.inner.exit_cause ≡ some (if asked then ExitCause.cancelled else ExitCause.worker_error)
  pub cancelled : row'.inner.cancelled ≡ asked
  pub finished : row'.inner.finished_at ≡ some now
  pub handle : row'.handle_id ≡ row.handle_id

abbrev pub asked_for : Option Str → SessionRecord → Bool
asked_for error r = is_closing r.state && is_none error

end_with_session-IsCut :
    (now : Time) (error : Option Str) (r : SessionRecord) (row : HandleRow)
    → is_running row.inner.status ≡ true
    → IsCut now (asked_for error r) row (end_with_session now (close_cause error r) row)
unfolding end_with_session finalize_telemetry
end_with_session-IsCut now error r row h = ground arith

end_with_session-ended :
    (now : Time) (cause : ExitCause) (row : HandleRow)
    → is_running row.inner.status ≡ false
    → end_with_session now cause row ≡ row
unfolding end_with_session
end_with_session-ended now cause row h = ground arith

module _ (s : PoolState) (now : Time) (worker : WorkerId) (id : SessionId) (error : Option Str)
    (reusable : Bool) (r : SessionRecord) where
  detached_handles : (detach_session s now worker id error reusable r).handles ≡ s.handles
  unfolding detach_session push_back
  detached_handles = ground arith

  close_held-handles :
      (rid : ExecId)
      → IsUnique s.inflight
      → get rid (close_held s now worker id error reusable r).0.handles ≡ (
          if in_session s id rid
          then ended (end_with_session now (close_cause error r)) (get rid s.handles)
          else get rid s.handles)
  unfolding close_held
  close_held-handles rid u = rw detached_handles (
      rw
        (get-end_handles (end_with_session now (close_cause error r)) rid
          (keys (retain (of_session id) s.inflight)) s.handles
          (end_with_session_twice now (close_cause error r)))
        (rw (any-keys-retain (of_session id) rid s.inflight u) (ground arith)))

  close_held-session :
      get id s.sessions ≡ some r
      → get id (close_held s now worker id error reusable r).0.sessions
        ≡ some (closed_record now error r)
  unfolding close_held detach_session push_back
  close_held-session e =
      ground (arith, get-adjust id id (closed_record now error) s.sessions, str_eq_refl id)

  close_held-released :
      get worker (close_held s now worker id error reusable r).0.worker_sessions ≡ none
  unfolding close_held detach_session push_back
  close_held-released =
      ground (arith, get-remove worker worker s.worker_sessions, str_eq_refl worker)

  close_held-inflight :
      (close_held s now worker id error reusable r).0.inflight
      ≡ retain (λ e. not (of_session id e)) s.inflight
  unfolding close_held detach_session push_back
  close_held-inflight = ground arith

  close_held-idle : (close_held s now worker id error reusable r).0.idle ≡ (
      if reusable && contains_key worker s.liveness
      then s.idle ++ (record { worker_id = worker; profile = r.profile; sink = r.sink } ∷ [])
      else s.idle)
  unfolding close_held detach_session push_back
  close_held-idle = ground arith

pub record Closes (s : PoolState) (now : Time) (worker : WorkerId) (id : SessionId)
    (error : Option Str) (reusable : Bool) (r : SessionRecord) (s' : PoolState) : Type 0 where
  pub session :
      (r' : SessionRecord) × (get id s'.sessions ≡ some r')
      × (r'.state ≡ (if is_some error then SessionState.failed else SessionState.closed))
      × (r'.terminal ≡ none)
      × (r'.opened ≡ none)
      × (r'.closed ≡ [])
  pub released : get worker s'.worker_sessions ≡ none
  pub idle : s'.idle ≡ (
      if reusable && contains_key worker s.liveness
      then s.idle ++ (record { worker_id = worker; profile = r.profile; sink = r.sink } ∷ [])
      else s.idle)
  pub no_commands : All (λ e. not (of_session id e) ≡ true) s'.inflight
  pub cuts :
      (rid : ExecId) (row : HandleRow)
      → get rid s.handles ≡ some row
      → in_session s id rid ≡ true
      → is_running row.inner.status ≡ true
      → (row' : HandleRow) × (get rid s'.handles ≡ some row')
        × IsCut now (asked_for error r) row row'
  pub keeps_ended :
      (rid : ExecId) (row : HandleRow)
      → get rid s.handles ≡ some row
      → is_running row.inner.status ≡ false
      → get rid s'.handles ≡ some row
  pub keeps_others :
      (rid : ExecId) → in_session s id rid ≡ false → get rid s'.handles ≡ get rid s.handles

close_held-Closes :
    (s : PoolState) (now : Time) (worker : WorkerId) (id : SessionId) (error : Option Str)
    (reusable : Bool) (r : SessionRecord)
    → IsUnique s.inflight
    → get id s.sessions ≡ some r
    → Closes s now worker id error reusable r (close_held s now worker id error reusable r).0
unfolding closed_record clear_inputs
close_held-Closes s now worker id error reusable r u e = record {
  session = (
    closed_record now error r,
    close_held-session s now worker id error reusable r e,
    refl,
    refl,
    refl,
    refl,
  );
  released = close_held-released s now worker id error reusable r;
  idle = close_held-idle s now worker id error reusable r;
  no_commands = rw (close_held-inflight s now worker id error reusable r) (All-retain _ s.inflight);
  cuts = λ rid row q c live. (
    end_with_session now (close_cause error r) row,
    rw (close_held-handles s now worker id error reusable r rid u, c, q) refl,
    end_with_session-IsCut now error r row live,
  );
  keeps_ended = λ rid row q done.
      rw (close_held-handles s now worker id error reusable r rid u, q)
        (ground (arith, end_with_session-ended now (close_cause error r) row done));
  keeps_others = λ rid c. rw (close_held-handles s now worker id error reusable r rid u, c) refl;
}

-- A worker reports a session closed that is recorded as its own (each command in flight under one id):
-- the session is then closed, or failed if an error came with the report, and nobody waits on it; the
-- worker is free of it, and back at the end of the idle queue exactly if it says that it is reusable and
-- is still connected; no command of the session is in flight; each that was running is ended as
-- cancelled if the session was being closed without an error and as the worker's error otherwise; every
-- other handle is as before.
pub session_closed-Closes :
    (s : PoolState) (now : Time) (worker : WorkerId) (id : SessionId) (error : Option Str)
    (reusable : Bool) (r : SessionRecord)
    → IsUnique s.inflight
    → get id s.sessions ≡ some r
    → str_eq r.worker_id worker ≡ true
    → Closes s now worker id error reusable r (session_closed s now worker id error reusable).0
unfolding session_closed
session_closed-Closes s now worker id error reusable r u e own =
    rw (e, session_closed)
      (rw (own, session_closed) (close_held-Closes s now worker id error reusable r u e))

-- A report, of readiness or of closing, about a session that the pool does not know or that is another
-- worker's changes nothing and tells nobody.
pub foreign_report_ignored :
    (s : PoolState) (now : Time) (worker : WorkerId) (id : SessionId) (error : Option Str)
    (reusable : Bool)
    → elim (get id s.sessions) [ none ↦ false | some r ↦ str_eq r.worker_id worker ] ≡ false
    → (session_closed s now worker id error reusable ≡ (s, []))
      × (session_ready s now worker id error ≡ (s, []))
unfolding session_closed session_ready
foreign_report_ignored s now worker id error reusable h = (ground arith, ground arith)
