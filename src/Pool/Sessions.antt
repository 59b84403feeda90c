-- ===== src/Pool/Sessions.antt =====
-- shiitake-server/src/pool/mod.rs: a session's life, from its creation to its end. A part that holds
-- the pool's lock is one function; what happens between two parts is an argument of the second.
pub mod Close
pub mod Reports
pub mod Shut
pub mod Create
use shiitake.Prelude.{
  ℕ, Bool, false, not, ◌&&◌, ◌||◌, Option, none, some, List, [], ◌∷◌, ◌++◌, ltb, if◌then◌else◌,
  is_some, is_none, any, retain, Str, str, str_eq, Result, ok, err, ok_or,
}
use shiitake.Prelude.Map.{get, contains_key, insert, remove, adjust, values, keys}
use shiitake.Api.Wire.{WorkerId, SessionId, SessionOpenFrame, Frame}
use shiitake.Api.Public.{SessionState, ExitCause, is_active, is_opening, is_closing, is_finished}
use shiitake.Pool.State.{
  Time, duration_since, Sink, Channel, PendingEntry, WorkerEntry, SessionRecord, SessionSnapshot,
  SessionError, clear_inputs, PoolState, Effect,
}
use shiitake.Pool.Outcome.{end_with_session, end_handles, announce_all}
use shiitake.Pool.Handles.{belongs}
use shiitake.Pool.Dispatch.{push_back, evict_worker}
use shiitake.Pool.Workers.{Drop, handle_worker_drop, tell_opened, tell_terminal, tell_closed}

abbrev pub session_view : SessionId → SessionRecord → SessionSnapshot
session_view id r = record {
  session_id = id;
  worker_id = r.worker_id;
  profile = r.profile;
  state = r.state;
  created_at = r.created_at;
}

-- `if rec.state == Active { rec.last_activity_at = now }`
abbrev pub touch_active : Time → SessionRecord → SessionRecord
touch_active now r = if is_active r.state then record r { last_activity_at = now } else r

unfoldable pub session_snapshot : PoolState → Time → SessionId → PoolState × Option SessionSnapshot
session_snapshot s now id = elim (get id s.sessions) [
  | none ↦ (s, none)
  | some r ↦
      (record s { sessions = adjust id (touch_active now) s.sessions }, some (session_view id r))
]

abbrev pub lost_in_open : SessionError
lost_in_open = SessionError.worker (str "worker disconnected during open")

abbrev owns : PoolState → WorkerId → SessionId → Bool
owns s worker id = elim (get worker s.worker_sessions) [ none ↦ false | some j ↦ str_eq j id ]

unfoldable pub created_session_snapshot :
    PoolState → Time → SessionId → PoolState × Result SessionSnapshot SessionError
created_session_snapshot s now id = elim (get id s.sessions) [
  | none ↦ (s, err SessionError.not_found)
  | some r ↦
      if not (is_active r.state)
        || not (contains_key r.worker_id s.liveness)
        || not (owns s r.worker_id id)
      then (s, err lost_in_open)
      else (
        record s { sessions = adjust id (λ x. record x { last_activity_at = now }) s.sessions },
        ok (session_view id r),
      )
]

-- `idle.iter().position(|w| w.profile == profile)` and `idle.remove(pos)`
unfoldable pub take_profile : Str → List WorkerEntry → Option (WorkerEntry × List WorkerEntry)
take_profile profile [] = none
take_profile profile (w ∷ ws) =
    let rest = take_profile profile ws in
    if str_eq w.profile profile
    then some (w, ws)
    else elim rest [ none ↦ none | some (x, xs) ↦ some (x, w ∷ xs) ]

abbrev pub opening_record : Time → Str → SessionOpenFrame → Channel → WorkerEntry → SessionRecord
opening_record now profile open_frame ready w = record {
  worker_id = w.worker_id;
  profile = profile;
  sink = w.sink;
  state = SessionState.opening;
  created_at = now;
  last_activity_at = now;
  finished_at = none;
  opened = some ready;
  closed = [];
  terminal = none;
  working_dir = open_frame.working_dir;
  env = open_frame.env;
  drop_to = open_frame.drop_to;
  stateful_count = 0;
}

-- The first part of `create_session`.
unfoldable pub reserve :
    PoolState
    → Time
    → Str
    → SessionOpenFrame
    → Channel
    → Result (WorkerEntry × PoolState) SessionError
unfolding take_profile
reserve s now profile open_frame ready =
    if any (λ l. str_eq l.profile profile) (values s.liveness)
    then elim (take_profile profile s.idle) [
      | none ↦ err SessionError.busy
      | some (w, ws) ↦ ok (
        w,
        record s {
          idle = ws;
          worker_sessions = insert w.worker_id open_frame.session_id s.worker_sessions;
          sessions =
              insert open_frame.session_id (opening_record now profile open_frame ready w)
                s.sessions;
        },
      )
    ]
    else err SessionError.unknown_profile

-- What `create_session` waits for after the reservation.
pub data OpenOutcome : Type 0 where
  send_failed : Str → OpenOutcome
  ready : OpenOutcome
  refused : Str → OpenOutcome
  dropped : OpenOutcome
  timed_out : OpenOutcome

unfoldable pub finish_create :
    PoolState
    → Time
    → Drop
    → SessionId
    → WorkerEntry
    → OpenOutcome
    → PoolState × Result SessionSnapshot SessionError × List Effect
unfolding created_session_snapshot evict_worker
finish_create s now drop id w (OpenOutcome.send_failed e) =
    let (s', effects) = handle_worker_drop s now drop w.worker_id in
    (s', err (SessionError.worker e), effects)
finish_create s now drop id w OpenOutcome.ready =
    let (s', r) = created_session_snapshot s now id in (s', r, [])
finish_create s now drop id w (OpenOutcome.refused e) = (s, err (SessionError.worker e), [])
finish_create s now drop id w OpenOutcome.dropped = (s, err lost_in_open, [])
finish_create s now drop id w OpenOutcome.timed_out = (
  s,
  err (SessionError.worker (str "session open timed out")),
  Effect.send w.sink (Frame.session_close id) ∷ evict_worker s w.worker_id,
)
