-- ===== src/Pool/Commands.antt =====
-- shiitake-server/src/pool/mod.rs: the commands of a session.
use shiitake.Prelude.{
  ◌+◌, Bool, true, false, not, ◌&&◌, ◌||◌, Option, none, some, List, [], ◌∷◌, map, ltb, ◌==◌,
  if◌then◌else◌, is_some, retain, Str, str, str_le, Result, ok, err, ◌>>=◌,
}
use shiitake.Prelude.Map.{get, insert, adjust, values, map_values}
use shiitake.Api.Wire.{ExecId, SessionId, SessionCommandMode, Frame}
use shiitake.Api.Public.{is_active}
use shiitake.Pool.State.{
  Time, PendingEntry, SessionRecord, SessionError, HandleRuntime, HandleRow, HandleSnapshot,
  PoolState, Effect,
}
use shiitake.Pool.Ids.{valid_capture_id}
use shiitake.Pool.Outcome.{snapshot_from}
use shiitake.Pool.Handles.{belongs, poll}
use shiitake.Pool.Dispatch.{fresh_runtime}
use shiitake.Pool.Sessions.{touch_active}
use shiitake.Pool.Workers.{Drop, handle_worker_drop}

-- `mode == SessionCommandMode::Stateful`
abbrev pub is_stateful : SessionCommandMode → Bool
is_stateful SessionCommandMode.stateful = true
is_stateful SessionCommandMode.parallel = false

-- The test that the code makes before and after it sets up the spool files.
unfoldable pub admit : SessionCommandMode → Option SessionRecord → Result SessionRecord SessionError
admit mode none = err SessionError.not_found
admit mode (some r) =
    if not (is_active r.state)
    then err SessionError.not_active
    else if is_stateful mode && is_some r.terminal
    then err SessionError.terminal_busy
    else ok r

abbrev pub session_row : Time → SessionId → ExecId → SessionRecord → HandleRow
session_row now id rid r = record {
  handle_id = rid;
  session_id = some id;
  worker_id = r.worker_id;
  started_at = now;
  inner = fresh_runtime now;
}

abbrev pub session_entry : Time → SessionId → SessionCommandMode → SessionRecord → PendingEntry
session_entry now id mode r = record {
  sink = r.sink;
  worker_id = r.worker_id;
  profile = r.profile;
  session_id = some id;
  mode = mode;
  started_at = now;
}

abbrev pub command_added : Time → SessionCommandMode → SessionRecord → SessionRecord
command_added now mode r =
    let n = r.stateful_count in
    record r { stateful_count = if is_stateful mode then n + 1 else n; last_activity_at = now }

-- The registration under the lock. `first` is the record that the first test read.
unfoldable pub register_command :
    PoolState
    → Time
    → SessionId
    → ExecId
    → SessionCommandMode
    → SessionRecord
    → Result PoolState SessionError
register_command s now id rid mode first = do
  r ← admit mode (get id s.sessions)
  ok (record s {
    inflight = insert rid (session_entry now id mode first) s.inflight;
    handles = insert rid (session_row now id rid first) s.handles;
    sessions = adjust id (command_added now mode) s.sessions;
  })

abbrev pub run_frame : SessionId → ExecId → Str → SessionCommandMode → SessionRecord → Frame
run_frame id rid command mode r =
    Frame.session_run id
      (record {
        request_id = rid;
        command = command;
        working_dir = r.working_dir;
        env = r.env;
        drop_to = r.drop_to;
      })
      mode

-- What the others do while the frame is sent, and the runtime of the command's handle if it was purged
-- before the answer reads it: the row is shared, so that it outlives its place in the pool.
pub record Sending : Type 0 where
  pub during : PoolState → PoolState
  pub orphan : HandleRuntime

-- The runtime that the answer reads.
abbrev pub runtime_of : HandleRuntime → Option HandleRow → HandleRuntime
runtime_of orphan none = orphan
runtime_of orphan (some row) = row.inner

-- The end of `submit_session_command`, after a registration.
unfoldable pub finish_submit :
    PoolState
    → Time
    → Drop
    → SessionId
    → ExecId
    → Str
    → SessionCommandMode
    → SessionRecord
    → Sending
    → Option Str
    → PoolState × Result HandleSnapshot SessionError × List Effect
unfolding snapshot_from
finish_submit s now drop id rid command mode r sending none =
    let t = sending.during s in
    let row = session_row now id rid r in
    (
      t,
      ok (snapshot_from (record row { inner = runtime_of sending.orphan (get rid t.handles) })),
      Effect.send r.sink (run_frame id rid command mode r) ∷ [],
    )
finish_submit s now drop id rid command mode r sending (some e) =
    let (s', effects) = handle_worker_drop (sending.during s) now drop r.worker_id in
    (s', err (SessionError.worker e), effects)

-- `between` is what the others did to the pool while the spool files were set up, `setup` and `sent`
-- what the file system and the socket answered.
unfoldable pub submit_session_command :
    PoolState
    → Time
    → Drop
    → SessionId
    → ExecId
    → Str
    → SessionCommandMode
    → Option Str
    → (PoolState → PoolState)
    → Sending
    → Option Str
    → PoolState × Result HandleSnapshot SessionError × List Effect
submit_session_command s now drop id rid command mode setup between sending sent =
    if valid_capture_id rid
    then elim (admit mode (get id s.sessions)) [
      | err e ↦ (s, err e, [])
      | ok first ↦ elim setup [
        | some e ↦ (between s, err (SessionError.worker e), Effect.purge rid ∷ [])
        | none ↦ elim (register_command (between s) now id rid mode first) [
          | err e ↦ (between s, err e, Effect.purge rid ∷ [])
          | ok s' ↦ finish_submit s' now drop id rid command mode first sending sent
        ]
      ]
    ]
    else (s, err (SessionError.worker (str "invalid command handle id")), [])

-- Oldest first, ties by handle id.
unfoldable pub started_before : HandleSnapshot → HandleSnapshot → Bool
started_before a b =
    ltb a.started_at b.started_at
    || (a.started_at == b.started_at && str_le a.handle_id b.handle_id)

unfoldable pub insert_by_start : HandleSnapshot → List HandleSnapshot → List HandleSnapshot
unfolding started_before
insert_by_start a [] = a ∷ []
insert_by_start a (b ∷ bs) = if started_before a b then a ∷ b ∷ bs else b ∷ insert_by_start a bs

unfoldable pub sort_by_start : List HandleSnapshot → List HandleSnapshot
unfolding insert_by_start
sort_by_start [] = []
sort_by_start (a ∷ as') = insert_by_start a (sort_by_start as')

-- A listing polls each row of the session.
abbrev pub poll_of_session : Time → SessionId → HandleRow → HandleRow
poll_of_session now id row = if belongs id row.session_id then poll now row else row

unfoldable pub list_session_commands :
    PoolState → Time → SessionId → PoolState × Option (List HandleSnapshot)
unfolding sort_by_start snapshot_from
list_session_commands s now id = elim (get id s.sessions) [
  | none ↦ (s, none)
  | some r ↦ (
    record s {
      sessions = adjust id (touch_active now) s.sessions;
      handles = map_values (poll_of_session now id) s.handles;
    },
    some (
        sort_by_start (
          map (λ row. snapshot_from (poll now row))
            (retain (λ row. belongs id row.session_id) (values s.handles)))),
  )
]
