-- ===== src/Pool/Refusal.antt =====
-- What a `dispatch` that fails, or that succeeds, leaves in the pool.
use shiitake.Prelude.{
  ◌≡◌, refl, ◌⊎◌, inl, inr, true, false, Option, none, some, List, [], ◌∷◌, arith, Bool-cases,
  is_some, Str, str_eq, str_eq_refl, Result, ok, err,
}
use shiitake.Prelude.Map.{get, get-insert, get-remove}
use shiitake.Api.Wire.{ExecId, ExecuteFrame, Frame}
use shiitake.Api.Public.{HandleStatus}
use shiitake.Pool.State.{
  Time, WorkerEntry, PendingEntry, HandleRow, HandleSnapshot, DispatchError, PoolState, Effect,
}
use shiitake.Pool.Ids.{valid_capture_id}
use shiitake.Pool.Outcome.{snapshot_from}
use shiitake.Pool.Dispatch.{
  Answers, pop_idle, push_front, register_handle, undo_handle, dispatch_to, dispatch,
  dispatched_entry, dispatched_row,
}

-- The command runs on the worker `w`: it is known and in flight there.
pub record IsStarted (id : ExecId) (now : Time) (w : WorkerEntry) (base t : PoolState)
    : Type 0 where
  pub row :
      (row : HandleRow) × (get id t.handles ≡ some row)
      × (row.inner.status ≡ HandleStatus.running)
      × (row.worker_id ≡ w.worker_id)
      × (row.session_id ≡ none)
      × (row.started_at ≡ now)
  pub entry :
      (p : PendingEntry) × (get id t.inflight ≡ some p)
      × (p.worker_id ≡ w.worker_id)
      × (p.profile ≡ w.profile)
      × (p.sink ≡ w.sink)
      × (p.session_id ≡ none)
  pub others :
      (j : ExecId)
      → str_eq id j ≡ false
      → (get j t.inflight ≡ get j base.inflight) × (get j t.handles ≡ get j base.handles)
  pub workers : (t.idle ≡ base.idle) × (t.liveness ≡ base.liveness) × (t.sessions ≡ base.sessions)

-- The command is neither in flight nor known, and nothing else changes.
pub record IsUndone (id : ExecId) (u u' : PoolState) : Type 0 where
  pub no_inflight : get id u'.inflight ≡ none
  pub no_handle : get id u'.handles ≡ none
  pub inflight : (j : ExecId) → str_eq id j ≡ false → get j u'.inflight ≡ get j u.inflight
  pub handles : (j : ExecId) → str_eq id j ≡ false → get j u'.handles ≡ get j u.handles
  pub others : (u'.idle ≡ u.idle) × (u'.sessions ≡ u.sessions) × (u'.liveness ≡ u.liveness)
  pub assigned : (u'.worker_sessions ≡ u.worker_sessions) × (u'.pty_sessions ≡ u.pty_sessions)

-- A command that was dispatched to the first worker of the queue `w ∷ ws`.
pub record IsDispatched (s : PoolState) (now : Time) (execute : ExecuteFrame) (answers : Answers)
    (v : HandleSnapshot) (effects : List Effect) (s' : PoolState) : Type 0 where
  pub w : WorkerEntry
  pub ws : List WorkerEntry
  pub first : s.idle ≡ w ∷ ws
  pub start : PoolState
  pub started :
      IsStarted execute.request_id now w (answers.preparing (record s { idle = ws })) start
  pub after : s' ≡ answers.sending start
  pub answer :
      (v.handle_id ≡ execute.request_id)
      × (v.status ≡ HandleStatus.running)
      × (v.worker_id ≡ w.worker_id)
  pub sent : effects ≡ Effect.send w.sink (Frame.execute execute) ∷ []

-- The worker is put back in front of the queue, as the others have left it, and nothing else changes.
pub record IsReturned (s : PoolState) (answers : Answers) (s' : PoolState) : Type 0 where
  pub w : WorkerEntry
  pub ws : List WorkerEntry
  pub first : s.idle ≡ w ∷ ws
  pub failed : (is_some answers.setup ≡ true) ⊎ (is_some answers.encoded ≡ true)
  pub back :
      let t = answers.preparing (record s { idle = ws }) in s' ≡ record t { idle = w ∷ t.idle }

-- The frame could not be sent: the command was started and undone, and its worker is not put back.
pub record IsUnsent (s : PoolState) (now : Time) (execute : ExecuteFrame) (answers : Answers)
    (s' : PoolState) : Type 0 where
  pub w : WorkerEntry
  pub ws : List WorkerEntry
  pub first : s.idle ≡ w ∷ ws
  pub start : PoolState
  pub started :
      IsStarted execute.request_id now w (answers.preparing (record s { idle = ws })) start
  pub failed : is_some answers.sent ≡ true
  pub undone : PoolState
  pub undoing : IsUndone execute.request_id (answers.sending start) undone
  pub after : s' ≡ answers.evicting undone

-- The result of a dispatch, on each of its branches.
abbrev pub IsAnswered :
    PoolState
    → Time
    → ExecuteFrame
    → Answers
    → PoolState × Result HandleSnapshot DispatchError × List Effect
    → Type 0
IsAnswered s now execute answers (s', ok v, effects) =
    IsDispatched s now execute answers v effects s'
IsAnswered s now execute answers (s', err e, effects) =
    ((s' ≡ s) × ((valid_capture_id execute.request_id ≡ false) ⊎ (s.idle ≡ [])))
    ⊎ (IsReturned s answers s' ⊎ IsUnsent s now execute answers s')

module _ (s : PoolState) (now : Time) (execute : ExecuteFrame) (answers : Answers) (w : WorkerEntry)
    (ws : List WorkerEntry) (front : s.idle ≡ w ∷ ws) where
  begun : PoolState
  unfolding register_handle
  begun = register_handle now w execute.request_id (answers.preparing (record s { idle = ws }))

  begun-IsStarted :
      IsStarted execute.request_id now w (answers.preparing (record s { idle = ws })) begun
  unfolding begun
  begun-IsStarted =
      let id = execute.request_id in
      let t = answers.preparing (record s { idle = ws }) in
      record {
        row = (
          dispatched_row now w id,
          rw (get-insert id id (dispatched_row now w id) t.handles, str_eq_refl id) refl,
          refl,
          refl,
          refl,
          refl,
        );
        entry = (
          dispatched_entry now w,
          rw (get-insert id id (dispatched_entry now w) t.inflight, str_eq_refl id) refl,
          refl,
          refl,
          refl,
          refl,
        );
        others = λ j ne. (
          ground (arith, get-insert id j (dispatched_entry now w) t.inflight),
          ground (arith, get-insert id j (dispatched_row now w id) t.handles),
        );
        workers = (refl, refl, refl);
      }

  undo_handle-IsUndone :
      (u : PoolState) → IsUndone execute.request_id u (undo_handle execute.request_id u)
  unfolding undo_handle
  undo_handle-IsUndone u =
      let id = execute.request_id in
      record {
        no_inflight = rw (get-remove id id u.inflight, str_eq_refl id) refl;
        no_handle = rw (get-remove id id u.handles, str_eq_refl id) refl;
        inflight = λ j ne. ground (arith, get-remove id j u.inflight);
        handles = λ j ne. ground (arith, get-remove id j u.handles);
        others = (refl, refl, refl);
        assigned = (refl, refl);
      }

  dispatch_to-IsAnswered :
      IsAnswered s now execute answers (dispatch_to (record s { idle = ws }) now execute answers w)
  unfolding dispatch_to push_front snapshot_from begun
  dispatch_to-IsAnswered = go answers.setup answers.encoded answers.sent refl refl refl
    where
      go :
          (a b c : Option Str)
          → answers.setup ≡ a
          → answers.encoded ≡ b
          → answers.sent ≡ c
          → IsAnswered s now execute answers
              (dispatch_to (record s { idle = ws }) now execute answers w)
      go (some e) b c p q r =
          rw (p, dispatch_to)
            (inr (inl (record { w = w; ws = ws; first = front; failed = inl refl; back = refl })))
      go none (some e) c p q r =
          rw (p, dispatch_to)
            (rw (q, dispatch_to)
              (inr
                (inl (record { w = w; ws = ws; first = front; failed = inr refl; back = refl }))))
      go none none (some e) p q r =
          rw (p, dispatch_to)
            (rw (q, dispatch_to)
              (rw (r, dispatch_to)
                (inr (
                  inr (record {
                    w = w;
                    ws = ws;
                    first = front;
                    start = begun;
                    started = begun-IsStarted;
                    failed = refl;
                    undone = undo_handle execute.request_id (answers.sending begun);
                    undoing = undo_handle-IsUndone (answers.sending begun);
                    after = refl;
                  })))))
      go none none none p q r =
          rw (p, dispatch_to)
            (rw (q, dispatch_to)
              (rw (r, dispatch_to)
                (record {
                  w = w;
                  ws = ws;
                  first = front;
                  start = begun;
                  started = begun-IsStarted;
                  after = refl;
                  answer = (refl, refl, refl);
                  sent = refl;
                })))

pop_idle-nil : (s : PoolState) → s.idle ≡ [] → pop_idle s ≡ none
unfolding pop_idle
pop_idle-nil s e = ground arith

pop_idle-cons :
    (s : PoolState) (w : WorkerEntry) (ws : List WorkerEntry)
    → s.idle ≡ w ∷ ws
    → pop_idle s ≡ some (w, record s { idle = ws })
unfolding pop_idle
pop_idle-cons s w ws e = ground arith

-- Every branch of `dispatch`, whatever the others do to the pool while it waits. With a handle: the worker
-- that was first in the queue left it and got the one frame, and when that was sent the command was known,
-- running and in flight there, and no other command, worker or session had changed. With an error: the id is no capture id or no worker is idle, and the pool
-- is as before; or the output could not be set up (or the frame not be encoded), and the first worker is
-- put back in front of the queue as the others have left it, and nothing else changes; or the frame could
-- not be sent, and the command was started and undone (neither known nor in flight, the rest untouched),
-- and the worker is not put back.
pub dispatch-IsAnswered :
    (s : PoolState) (now : Time) (execute : ExecuteFrame) (answers : Answers)
    → IsAnswered s now execute answers (dispatch s now execute answers)
unfolding dispatch
dispatch-IsAnswered s now execute answers =
    go (Bool-cases (valid_capture_id execute.request_id)) s.idle refl
  where
    go :
        (valid_capture_id execute.request_id ≡ true) ⊎ (valid_capture_id execute.request_id ≡ false)
        → (ws : List WorkerEntry) → s.idle ≡ ws
        → IsAnswered s now execute answers (dispatch s now execute answers)
    go (inr v) ws e = rw (v, dispatch) (inl (refl, inl v))
    go (inl v) [] e = rw (v, dispatch) (rw (pop_idle-nil s e, dispatch) (inl (refl, inr e)))
    go (inl v) (w ∷ ws) e =
        rw (v, dispatch)
          (rw (pop_idle-cons s w ws e, dispatch)
            (dispatch_to-IsAnswered s now execute answers w ws e))
