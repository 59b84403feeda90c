-- ===== src/Pool/Dispatch.antt =====
-- shiitake-server/src/pool/mod.rs: one-shot commands and pinned terminals, which take a worker from
-- the front of the idle queue. A function of its own stands for each part that holds the pool's lock,
-- and the composed operation takes the answers of the file system and of the socket as arguments.
use shiitake.Prelude.{
  ◌-◌, true, false, Option, none, some, List, [], ◌∷◌, ◌++◌, if◌then◌else◌, Str, str, Result, ok,
  err,
}
use shiitake.Prelude.Map.{get, contains_key, insert, remove, adjust}
use shiitake.Api.Wire.{WorkerId, ExecId, SessionCommandMode, ExecuteFrame, ResultFrame, Frame}
use shiitake.Api.Public.{HandleStatus, ExitCause}
use shiitake.Pool.State.{
  Time, Channel, DispatchError, PendingEntry, WorkerEntry, SessionRecord, HandleRuntime, HandleRow,
  HandleSnapshot, PinnedSession, PoolState, Effect,
}
use shiitake.Pool.Ids.{valid_capture_id}
use shiitake.Pool.Outcome.{snapshot_from, classify, record_result, announce}

-- A handle at its start, for a session's command or a one-shot one.
abbrev pub fresh_runtime : Time → HandleRuntime
fresh_runtime now = record {
  last_polled_at = now;
  status = HandleStatus.running;
  finished_at = none;
  exit_code = none;
  exit_signal = none;
  exit_cause = none;
  cancel_requested = false;
  cancelled = false;
  spool_failed = false;
  span = true;
}

abbrev pub entry_of : PendingEntry → WorkerEntry
entry_of p = record { worker_id = p.worker_id; profile = p.profile; sink = p.sink }

-- `s.idle.pop_front()`
unfoldable pub pop_idle : PoolState → Option (WorkerEntry × PoolState)
pop_idle s = elim s.idle [ [] ↦ none | w ∷ ws ↦ some (w, record s { idle = ws }) ]

-- `s.idle.push_back(w)`, `s.idle.push_front(w)`
unfoldable pub push_back : WorkerEntry → PoolState → PoolState
push_back w s = record s { idle = s.idle ++ (w ∷ []) }

unfoldable pub push_front : WorkerEntry → PoolState → PoolState
push_front w s = record s { idle = w ∷ s.idle }

-- `evict_worker`: the keepalive's signal, if the worker is still connected.
unfoldable pub evict_worker : PoolState → WorkerId → List Effect
evict_worker s id = elim (get id s.liveness) [ none ↦ [] | some l ↦ Effect.evict l.shutdown ∷ [] ]

abbrev pub dispatched_row : Time → WorkerEntry → ExecId → HandleRow
dispatched_row now w id = record {
  handle_id = id;
  session_id = none;
  worker_id = w.worker_id;
  started_at = now;
  inner = fresh_runtime now;
}

abbrev pub dispatched_entry : Time → WorkerEntry → PendingEntry
dispatched_entry now w = record {
  sink = w.sink;
  worker_id = w.worker_id;
  profile = w.profile;
  session_id = none;
  mode = SessionCommandMode.parallel;
  started_at = now;
}

unfoldable pub register_handle : Time → WorkerEntry → ExecId → PoolState → PoolState
register_handle now w id s = record s {
  inflight = insert id (dispatched_entry now w) s.inflight;
  handles = insert id (dispatched_row now w id) s.handles;
}

unfoldable pub undo_handle : ExecId → PoolState → PoolState
undo_handle id s = record s { inflight = remove id s.inflight; handles = remove id s.handles }

-- What the capture directory's setup, the frame's encoding and the send answered, `none` being success;
-- and what the others do while the directory is set up (or removed again), while the frame is sent, and
-- between the undoing and the eviction.
pub record Answers : Type 0 where
  pub setup : Option Str
  pub encoded : Option Str
  pub sent : Option Str
  pub preparing : PoolState → PoolState
  pub sending : PoolState → PoolState
  pub evicting : PoolState → PoolState

-- The rest of `dispatch`, with the worker in hand.
unfoldable pub dispatch_to :
    PoolState
    → Time
    → ExecuteFrame
    → Answers
    → WorkerEntry
    → PoolState × Result HandleSnapshot DispatchError × List Effect
unfolding push_front register_handle undo_handle evict_worker snapshot_from
dispatch_to s now execute answers w =
    let id = execute.request_id in
    let t = answers.preparing s in
    let u = answers.sending (register_handle now w id t) in
    elim answers.setup [
      | some e ↦ (
        push_front w t,
        err (DispatchError.send (str "capture setup: " ++ e)),
        Effect.purge id ∷ [],
      )
      | none ↦ elim answers.encoded [
        | some e ↦ (push_front w t, err (DispatchError.send e), Effect.purge id ∷ [])
        | none ↦ elim answers.sent [
          | some e ↦ (
            answers.evicting (undo_handle id u),
            err (DispatchError.send (str "worker " ++ (w.worker_id ++ (str ": " ++ e)))),
            Effect.purge id ∷ evict_worker (answers.evicting (undo_handle id u)) w.worker_id,
          )
          | none ↦ (
            u,
            ok (snapshot_from (dispatched_row now w id)),
            Effect.send w.sink (Frame.execute execute) ∷ [],
          )
        ]
      ]
    ]

unfoldable pub dispatch :
    PoolState
    → Time
    → ExecuteFrame
    → Answers
    → PoolState × Result HandleSnapshot DispatchError × List Effect
dispatch s now execute answers =
    if valid_capture_id execute.request_id
    then elim (pop_idle s) [
      | none ↦ (s, err DispatchError.no_idle_worker, [])
      | some (w, s') ↦ dispatch_to s' now execute answers w
    ]
    else (s, err (DispatchError.send (str "invalid command handle id")), [])

-- `acquire_pinned` and `release_pinned`
unfoldable pub acquire_pinned : PoolState → Channel → Option (PinnedSession × PoolState)
unfolding pop_idle
acquire_pinned s tx = elim (pop_idle s) [
  | none ↦ none
  | some (w, s') ↦ some (
    record { worker_id = w.worker_id; profile = w.profile; sink = w.sink; output = tx },
    record s' { pty_sessions = insert w.worker_id tx s'.pty_sessions },
  )
]

unfoldable pub release_pinned : PoolState → PinnedSession → PoolState
unfolding push_back
release_pinned s p =
    let s' = record s { pty_sessions = remove p.worker_id s.pty_sessions } in
    if contains_key p.worker_id s.liveness
    then push_back (record { worker_id = p.worker_id; profile = p.profile; sink = p.sink }) s'
    else s'

-- A finished command of a session leaves the worker with the session, whose clock it moves.
unfoldable pub command_done : Time → SessionCommandMode → SessionRecord → SessionRecord
command_done now SessionCommandMode.stateful r = record r {
  last_activity_at = now;
  stateful_count = r.stateful_count - 1;
}
command_done now SessionCommandMode.parallel r = record r { last_activity_at = now }

-- The part of `complete_request` under the pool's lock.
unfoldable pub retire : PoolState → Time → ExecId → PoolState
unfolding push_back command_done
retire s now id = elim (get id s.inflight) [
  | none ↦ s
  | some p ↦
      let s' = record s { inflight = remove id s.inflight } in
      elim p.session_id [
        | some sid ↦ record s' { sessions = adjust sid (command_done now p.mode) s'.sessions }
        | none ↦ push_back (entry_of p) s'
      ]
]

-- The cause that `complete_request` settles on.
abbrev pub result_cause : ResultFrame → HandleRow → ExitCause
result_cause r row = if row.inner.spool_failed then ExitCause.output_error else (classify r).1

unfoldable pub complete_request : PoolState → Time → ResultFrame → PoolState × List Effect
unfolding retire record_result classify
complete_request s now r =
    let s' = retire s now r.request_id in
    (
      record s' { handles = adjust r.request_id (record_result now r) s'.handles },
      elim (get r.request_id s'.handles) [
        | none ↦ []
        | some row ↦ announce now (result_cause r row) (some row)
      ],
    )
