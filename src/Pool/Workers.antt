-- ===== src/Pool/Workers.antt =====
-- shiitake-server/src/pool/mod.rs: a worker's connection, from its registration to its loss.
use shiitake.Prelude.{
  ℕ, Bool, false, not, ◌&&◌, Option, none, some, List, [], ◌∷◌, ◌++◌, map, if◌then◌else◌, retain,
  Str, str, str_eq, Result, ok, err,
}
use shiitake.Prelude.Map.{get, contains_key, insert, remove, adjust, keys}
use shiitake.Api.Wire.{WorkerId, ExecId, SessionId, WorkerLocation}
use shiitake.Api.Public.{SessionState, ExitCause}
use shiitake.Api.Chunk.{OutputStream, OutputChunk}
use shiitake.Api.Capture.{Stream}
use shiitake.Pool.State.{
  Time, Sink, Channel, PendingEntry, SessionRecord, clear_inputs, PtyEvent, TerminalEvent,
  PoolState, Effect,
}
use shiitake.Pool.Ids.{valid_capture_id}
use shiitake.Pool.Outcome.{end_with_worker, announce}
use shiitake.Pool.Handles.{mark_spool_failed}
use shiitake.Pool.Dispatch.{push_back}

-- The start of `register_and_run`; a second connection under a live id is refused.
unfoldable pub register :
    PoolState
    → Time
    → WorkerId
    → Str
    → Option WorkerLocation
    → Sink
    → Channel
    → Result PoolState Str
unfolding push_back
register s now id profile location sink shutdown =
    if contains_key id s.liveness
    then err (str "duplicate worker id " ++ id)
    else ok (record (push_back (record { worker_id = id; profile = profile; sink = sink }) s) {
      liveness =
          insert id
            (record {
              last_seen = now;
              shutdown = shutdown;
              location = location;
              profile = profile;
            })
            s.liveness;
    })

unfoldable pub touch_worker : PoolState → Time → WorkerId → PoolState
touch_worker s now id = record s {
  liveness = adjust id (λ l. record l { last_seen = now }) s.liveness;
}

-- `authorized`: the handle is in flight on the worker that sends for it.
unfoldable pub authorized : PoolState → WorkerId → ExecId → Bool
authorized s worker id = elim (get id s.inflight) [
  | none ↦ false
  | some p ↦ str_eq p.worker_id worker
]

-- Bytes for a command's spool file; `failure` is what the file system answered.
unfoldable pub spool_output :
    PoolState → WorkerId → ExecId → Stream → List ℕ → Option Str → PoolState × List Effect
unfolding authorized mark_spool_failed
spool_output s worker id stream bytes failure =
    if valid_capture_id id && authorized s worker id
    then elim failure [
      | none ↦ (s, Effect.spool id stream bytes ∷ [])
      | some e ↦ (mark_spool_failed s id, [])
    ]
    else (s, [])

-- The terminal of the session that the worker serves, if the chunk names that session.
unfoldable pub terminal_of : PoolState → WorkerId → SessionId → Option Channel
terminal_of s worker id = elim (get worker s.worker_sessions) [
  | none ↦ none
  | some sid ↦
      if str_eq sid id
      then elim (get sid s.sessions) [ none ↦ none | some r ↦ r.terminal ]
      else none
]

unfoldable pub route_output :
    PoolState → WorkerId → OutputChunk → Option Str → PoolState × List Effect
unfolding spool_output terminal_of
route_output s worker chunk failure = elim chunk.stream [
  | OutputStream.stdout ↦ spool_output s worker chunk.id Stream.stdout chunk.bytes failure
  | OutputStream.stderr ↦ spool_output s worker chunk.id Stream.stderr chunk.bytes failure
  | OutputStream.terminal ↦ (
    s,
    elim (terminal_of s worker chunk.id) [
      | none ↦ []
      | some tx ↦ Effect.terminal tx (TerminalEvent.output chunk.bytes) ∷ []
    ],
  )
  | OutputStream.stdin ↦ (s, [])
]

-- The first part of `handle_worker_drop`: the commands in flight on the worker, taken out.
abbrev pub on_worker : WorkerId → Str × PendingEntry → Bool
on_worker worker e = str_eq e.1.worker_id worker

unfoldable pub take_pending : PoolState → WorkerId → List ExecId × PoolState
take_pending s worker = (
  keys (retain (on_worker worker) s.inflight),
  record s { inflight = retain (λ e. not (on_worker worker e)) s.inflight },
)

-- The session of a lost worker fails.
unfoldable pub fail_session : Time → SessionRecord → SessionRecord
unfolding clear_inputs
fail_session now r =
    let r' = clear_inputs r in
    record r' {
      state = SessionState.failed;
      finished_at = some now;
      terminal = none;
      opened = none;
      closed = [];
    }

abbrev pub disconnected : Str
disconnected = str "worker disconnected"

-- What the session's waiters are told: the opener at once, the terminal and the closers later.
abbrev pub tell_opened : Option Channel → Str → List Effect
tell_opened none e = []
tell_opened (some tx) e = Effect.opened tx (err e) ∷ []

abbrev pub tell_terminal : Option Channel → Option Str → List Effect
tell_terminal none e = []
tell_terminal (some tx) e = Effect.terminal tx (TerminalEvent.closed e) ∷ []

abbrev pub tell_closed : List Channel → List Effect
tell_closed = map Effect.closed

-- The session record that a worker holds.
abbrev pub held_session : PoolState → WorkerId → Option SessionRecord
held_session s worker = elim (get worker s.worker_sessions) [
  | none ↦ none
  | some id ↦ get id s.sessions
]

-- The second part: every trace of the worker leaves the pool.
unfoldable pub forget_worker : PoolState → Time → WorkerId → PoolState
unfolding fail_session
forget_worker s now worker = record s {
  idle = retain (λ w. not (str_eq w.worker_id worker)) s.idle;
  worker_sessions = remove worker s.worker_sessions;
  sessions = elim (get worker s.worker_sessions) [
    | none ↦ s.sessions
    | some id ↦ adjust id (fail_session now) s.sessions
  ];
  pty_sessions = remove worker s.pty_sessions;
  liveness = remove worker s.liveness;
}

abbrev pub forget_effects : PoolState → WorkerId → List Effect
forget_effects s worker =
    elim (held_session s worker) [
      | none ↦ []
      | some r ↦ tell_opened r.opened disconnected ++ tell_terminal r.terminal (some disconnected)
    ]
    ++ (elim (get worker s.pty_sessions) [
      | none ↦ []
      | some tx ↦ Effect.pty tx (PtyEvent.exit none none (some disconnected)) ∷ []
    ])

abbrev pub held_closers : PoolState → WorkerId → List Channel
held_closers s worker = elim (held_session s worker) [ none ↦ [] | some r ↦ r.closed ]

-- The loop of `handle_worker_drop`: each command is looked up anew, and `ending` is what the others do
-- before that.
unfoldable pub end_pending :
    PoolState
    → Time
    → Bool
    → (ExecId → PoolState → PoolState)
    → List ExecId
    → PoolState × List Effect
unfolding end_with_worker
end_pending s now oom_killed ending [] = (s, [])
end_pending s now oom_killed ending (id ∷ ids) =
    let t = ending id s in
    let later =
      end_pending (record t { handles = adjust id (end_with_worker now oom_killed) t.handles }) now
        oom_killed ending ids in
    (
      later.0,
      announce now (if oom_killed then ExitCause.oom_container else ExitCause.worker_died)
            (get id t.handles)
          ++ later.1,
    )

-- What a drop meets: the cluster probe's answer, false without a probe, and what the others do between
-- the two holds of the lock, while the probe is asked, and before each command is ended.
pub record Drop : Type 0 where
  pub oom_killed : Bool
  pub meanwhile : PoolState → PoolState
  pub probing : PoolState → PoolState
  pub ending : ExecId → PoolState → PoolState

unfoldable pub handle_worker_drop : PoolState → Time → Drop → WorkerId → PoolState × List Effect
unfolding take_pending forget_worker end_pending
handle_worker_drop s now drop worker =
    let (pending, s1) = take_pending s worker in
    let t = drop.meanwhile s1 in
    let u = drop.probing (forget_worker t now worker) in
    let (s', ends) = end_pending u now drop.oom_killed drop.ending pending in
    (s', forget_effects t worker ++ (ends ++ tell_closed (held_closers t worker)))
