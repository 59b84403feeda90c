-- ===== src/Pool/Loss.antt =====
-- shiitake-server/src/pool/mod.rs: what the loss of a worker's connection leaves behind.
use shiitake.Prelude.{ap, ◌∙◌, Option, inl, inr, Option-cases, List, ◌∷◌, any, str_eq_iff}
use shiitake.Prelude.{
  ◌≡◌, refl, Bool, true, false, not, none, some, [], arith, if◌then◌else◌, retain, str_eq,
  str_eq_refl,
}
use shiitake.Prelude.Map.{
  adjust, get, keys, get-remove, get-retain, get-adjust, IsUnique, any-keys-retain,
}
use shiitake.Api.Wire.{WorkerId, ExecId, SessionId}
use shiitake.Api.Public.{SessionState, HandleStatus, ExitCause, is_running}
use shiitake.Pool.State.{Time, SessionRecord, HandleRow, PoolState}
use shiitake.Pool.Outcome.{finalize_telemetry, end_with_worker}
use shiitake.Pool.Workers.{
  Drop, on_worker, take_pending, fail_session, forget_worker, end_pending, handle_worker_drop,
}
use shiitake.Pool.Ends.{ended, end_with_worker_twice}

-- The command was in flight on the worker.
abbrev pub lost : PoolState → WorkerId → ExecId → Bool
lost s worker id = elim (get id s.inflight) [ none ↦ false | some p ↦ str_eq p.worker_id worker ]

-- The worker's session is this one.
abbrev is_session : SessionId → Option SessionId → Bool
is_session id none = false
is_session id (some j) = str_eq j id

-- What the others do before the commands are ended leaves the handle's row alone.
abbrev pub SparesRow : ExecId → (ExecId → PoolState → PoolState) → Type 0
SparesRow id others = (j : ExecId) (t : PoolState) → get id (others j t).handles ≡ get id t.handles

end_pending-handles :
    (now : Time) (oom : Bool) (ending : ExecId → PoolState → PoolState) (ids : List ExecId)
    (s : PoolState) (id : ExecId)
    → SparesRow id ending
    → get id (end_pending s now oom ending ids).0.handles ≡ (
        if any (str_eq id) ids
        then ended (end_with_worker now oom) (get id s.handles)
        else get id s.handles)
unfolding end_pending
end_pending-handles now oom ending [] s id spares = refl
end_pending-handles now oom ending (k ∷ ks) s id spares =
    let f = end_with_worker now oom in
    let t = ending k s in
    let ih =
      end_pending-handles now oom ending ks (record t { handles = adjust k f t.handles }) id
        spares in
    elim (Option-cases (get id s.handles)) [
      | inl e ↦ ground (arith, ih, get-adjust k id f t.handles, spares k s)
      | inr (row, e) ↦ ground (
        arith,
        ih,
        get-adjust k id f t.handles,
        spares k s,
        end_with_worker_twice now oom row,
        str_eq_iff k id,
        str_eq_iff id k,
      )
    ]

-- The pool at the second hold of the lock, and when the loop over the lost commands begins.
abbrev pub at_second_hold : PoolState → Drop → WorkerId → PoolState
at_second_hold s drop worker = drop.meanwhile (take_pending s worker).1

abbrev pub at_endings : PoolState → Time → Drop → WorkerId → PoolState
at_endings s now drop worker =
    drop.probing (forget_worker (at_second_hold s drop worker) now worker)

pub handle_worker_drop-handles :
    (s : PoolState) (now : Time) (drop : Drop) (worker : WorkerId) (id : ExecId)
    → IsUnique s.inflight
    → SparesRow id drop.ending
    → let u = at_endings s now drop worker in
      get id (handle_worker_drop s now drop worker).0.handles ≡ (
        if lost s worker id
        then ended (end_with_worker now drop.oom_killed) (get id u.handles)
        else get id u.handles)
unfolding handle_worker_drop take_pending
handle_worker_drop-handles s now drop worker id unique spares =
    let u = at_endings s now drop worker in
    rw
      (end_pending-handles now drop.oom_killed drop.ending
        (keys (retain (on_worker worker) s.inflight)) u id spares)
      (rw (any-keys-retain (on_worker worker) id s.inflight unique) (ground arith))

forget_worker-session :
    (s : PoolState) (now : Time) (worker : WorkerId) (id : SessionId)
    → get worker s.worker_sessions ≡ some id
    → get id (forget_worker s now worker).sessions ≡ ended (fail_session now) (get id s.sessions)
unfolding forget_worker get
forget_worker-session s now worker id e =
    rw (e, forget_worker)
      (rw (get-adjust id id (fail_session now) s.sessions, str_eq_refl id) (ground arith))

-- How a running command on a lost worker ends.
pub record IsLost (now : Time) (oom : Bool) (row row' : HandleRow) : Type 0 where
  pub status : row'.inner.status ≡ (if oom then HandleStatus.oomkilled else HandleStatus.error)
  pub cause :
      row'.inner.exit_cause ≡ some (if oom then ExitCause.oom_container else ExitCause.worker_died)
  pub finished : row'.inner.finished_at ≡ some now
  pub handle : row'.handle_id ≡ row.handle_id

end_with_worker-IsLost :
    (now : Time) (oom : Bool) (row : HandleRow)
    → is_running row.inner.status ≡ true
    → IsLost now oom row (end_with_worker now oom row)
unfolding end_with_worker finalize_telemetry
end_with_worker-IsLost now true row h = ground arith
end_with_worker-IsLost now false row h = ground arith

end_with_worker-ended :
    (now : Time) (oom : Bool) (row : HandleRow)
    → is_running row.inner.status ≡ false
    → end_with_worker now oom row ≡ row
unfolding end_with_worker
end_with_worker-ended now oom row h = ground arith

-- The worker's commands are out of flight, and nothing else changes.
pub record IsTaken (worker : WorkerId) (s s' : PoolState) : Type 0 where
  pub inflight :
      (id : ExecId) → get id s'.inflight ≡ (if lost s worker id then none else get id s.inflight)
  pub workers : (s'.idle ≡ s.idle) × (s'.liveness ≡ s.liveness) × (s'.pty_sessions ≡ s.pty_sessions)
  pub sessions : (s'.sessions ≡ s.sessions) × (s'.worker_sessions ≡ s.worker_sessions)
  pub handles : s'.handles ≡ s.handles

take_pending-IsTaken :
    (s : PoolState) (worker : WorkerId)
    → IsUnique s.inflight
    → IsTaken worker s (take_pending s worker).1
unfolding take_pending
take_pending-IsTaken s worker unique = record {
  inflight = λ id. get-retain (λ e. not (on_worker worker e)) id s.inflight unique ∙ ground arith;
  workers = (refl, refl, refl);
  sessions = (refl, refl);
  handles = refl;
}

-- How the session of a lost worker fails.
pub record IsFailed (now : Time) (r r' : SessionRecord) : Type 0 where
  pub state : r'.state ≡ SessionState.failed
  pub finished : r'.finished_at ≡ some now
  pub nobody : (r'.terminal ≡ none) × (r'.opened ≡ none) × (r'.closed ≡ [])
  pub names : (r'.worker_id ≡ r.worker_id) × (r'.profile ≡ r.profile)

-- The worker stands in no queue, connection table, pinned terminal or assignment of a session, where the
-- others stand as before; the session that it held has failed, and no other session and no command
-- changes. Records of the past keep its name.
pub record IsForgotten (now : Time) (worker : WorkerId) (s s' : PoolState) : Type 0 where
  pub idle : s'.idle ≡ retain (λ w. not (str_eq w.worker_id worker)) s.idle
  pub live :
      (w : WorkerId) → get w s'.liveness ≡ (if str_eq worker w then none else get w s.liveness)
  pub pinned :
      (w : WorkerId)
      → get w s'.pty_sessions ≡ (if str_eq worker w then none else get w s.pty_sessions)
  pub held :
      (w : WorkerId)
      → get w s'.worker_sessions ≡ (if str_eq worker w then none else get w s.worker_sessions)
  pub fails :
      (id : SessionId) (r : SessionRecord)
      → get worker s.worker_sessions ≡ some id
      → get id s.sessions ≡ some r
      → (r' : SessionRecord) × (get id s'.sessions ≡ some r') × IsFailed now r r'
  pub keeps :
      (id : SessionId)
      → is_session id (get worker s.worker_sessions) ≡ false
      → get id s'.sessions ≡ get id s.sessions
  pub commands : (s'.inflight ≡ s.inflight) × (s'.handles ≡ s.handles)

forget_worker-keeps :
    (s : PoolState) (now : Time) (worker : WorkerId) (id : SessionId)
    → is_session id (get worker s.worker_sessions) ≡ false
    → get id (forget_worker s now worker).sessions ≡ get id s.sessions
unfolding forget_worker get
forget_worker-keeps s now worker id h = elim (Option-cases (get worker s.worker_sessions)) [
  | inl e ↦ rw (e, forget_worker) refl
  | inr (j, e) ↦
      rw (e, forget_worker) (get-adjust j id (fail_session now) s.sessions ∙ ground (arith, h, e))
]

forget_worker-IsForgotten :
    (s : PoolState) (now : Time) (worker : WorkerId)
    → IsForgotten now worker s (forget_worker s now worker)
unfolding forget_worker fail_session
forget_worker-IsForgotten s now worker = record {
  idle = refl;
  live = λ w. get-remove worker w s.liveness;
  pinned = λ w. get-remove worker w s.pty_sessions;
  held = λ w. get-remove worker w s.worker_sessions;
  fails = λ id r e q. (
    fail_session now r,
    rw (forget_worker-session s now worker id e, q) refl,
    record { state = refl; finished = refl; nobody = (refl, refl, refl); names = (refl, refl) },
  );
  keeps = λ id h. forget_worker-keeps s now worker id h;
  commands = (refl, refl);
}

-- Apart from the handles, the two pools agree.
pub record IsSame (s s' : PoolState) : Type 0 where
  pub workers : (s'.idle ≡ s.idle) × (s'.liveness ≡ s.liveness) × (s'.pty_sessions ≡ s.pty_sessions)
  pub sessions : (s'.sessions ≡ s.sessions) × (s'.worker_sessions ≡ s.worker_sessions)
  pub inflight : s'.inflight ≡ s.inflight

end_pending-IsSame :
    (now : Time) (oom : Bool) (ending : ExecId → PoolState → PoolState) (ids : List ExecId)
    (s : PoolState)
    → ((j : ExecId) (t : PoolState) → ending j t ≡ t)
    → IsSame s (end_pending s now oom ending ids).0
unfolding end_pending
end_pending-IsSame now oom ending [] s idle = record {
  workers = (refl, refl, refl);
  sessions = (refl, refl);
  inflight = refl;
}
end_pending-IsSame now oom ending (k ∷ ks) s idle =
    let t = ending k s in
    let e = idle k s in
    let ih =
      end_pending-IsSame now oom ending ks
        (record t { handles = adjust k (end_with_worker now oom) t.handles }) idle in
    record {
      workers = (
        ih.workers.0 ∙ ap (λ x. x.idle) e,
        ih.workers.1 ∙ ap (λ x. x.liveness) e,
        ih.workers.2 ∙ ap (λ x. x.pty_sessions) e,
      );
      sessions =
          (ih.sessions.0 ∙ ap (λ x. x.sessions) e, ih.sessions.1 ∙ ap (λ x. x.worker_sessions) e);
      inflight = ih.inflight ∙ ap (λ x. x.inflight) e;
    }

-- What the loss of a worker does, over what the others do between the two holds of the lock, while the
-- cluster is asked, and while the lost commands are ended.
pub record Loses (s : PoolState) (now : Time) (drop : Drop) (worker : WorkerId) (s' : PoolState)
    : Type 0 where
  -- what the two holds leave
  pub first : PoolState
  pub taken : IsTaken worker s first
  pub second : PoolState
  pub forgotten : IsForgotten now worker (drop.meanwhile first) second
  -- the endings
  pub ends :
      (id : ExecId) (row : HandleRow)
      → SparesRow id drop.ending
      → get id (drop.probing second).handles ≡ some row
      → lost s worker id ≡ true
      → is_running row.inner.status ≡ true
      → (row' : HandleRow) × (get id s'.handles ≡ some row') × IsLost now drop.oom_killed row row'
  pub keeps_ended :
      (id : ExecId) (row : HandleRow)
      → SparesRow id drop.ending
      → get id (drop.probing second).handles ≡ some row
      → is_running row.inner.status ≡ false
      → get id s'.handles ≡ some row
  pub keeps_others :
      (id : ExecId)
      → SparesRow id drop.ending
      → lost s worker id ≡ false
      → get id s'.handles ≡ get id (drop.probing second).handles
  pub keeps_rest :
      ((j : ExecId) (t : PoolState) → drop.ending j t ≡ t) → IsSame (drop.probing second) s'

-- When a worker's connection is lost (each command in flight under one id), whatever the others do
-- between its steps. The first hold of the lock takes exactly the worker's commands out of flight and
-- changes nothing else. The second takes exactly that worker from the queue, the connection table, the
-- pinned terminals and the assignments of sessions, fails the session that the worker holds at that time,
-- with no terminal, opener or closer left, and changes no other session and no command. Of the handles,
-- each as it is when the loop over the lost commands begins and touched by nobody else since: one that
-- was in flight on the worker at the first hold and runs has ended at that time, as killed for memory
-- exactly if the cluster says so and else as an error of a worker that died; one that had ended and one
-- that was not in flight on the worker are as before. If nobody else acts during the loop, it changes
-- nothing but handles.
pub handle_worker_drop-Loses :
    (s : PoolState) (now : Time) (drop : Drop) (worker : WorkerId)
    → IsUnique s.inflight
    → Loses s now drop worker (handle_worker_drop s now drop worker).0
unfolding handle_worker_drop
handle_worker_drop-Loses s now drop worker unique =
    let t = at_second_hold s drop worker in
    let handles = handle_worker_drop-handles s now drop worker in
    record {
      first = (take_pending s worker).1;
      taken = take_pending-IsTaken s worker unique;
      second = forget_worker t now worker;
      forgotten = forget_worker-IsForgotten t now worker;
      ends = λ id row p e l r. (
        end_with_worker now drop.oom_killed row,
        rw (handles id unique p, l, e) refl,
        end_with_worker-IsLost now drop.oom_killed row r,
      );
      keeps_ended = λ id row p e r.
          rw (handles id unique p, e)
            (ground (arith, end_with_worker-ended now drop.oom_killed row r));
      keeps_others = λ id p l. rw (handles id unique p, l) refl;
      keeps_rest =
          end_pending-IsSame now drop.oom_killed drop.ending (take_pending s worker).0
            (at_endings s now drop worker);
    }
