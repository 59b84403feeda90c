-- ===== src/Pool/Sections.antt =====
-- shiitake-server/src/pool/mod.rs: the parts of the operations that hold the pool's lock, as the steps
-- of an interleaving. The tasks of the server may enter them in any order and with any arguments, so
-- what holds after every list of sections holds whatever the tasks and the workers do.
pub mod Writes
pub mod Coherent
pub mod Lifecycle
pub mod Rows
pub mod Settled
pub mod Final
pub mod Asked
use shiitake.Prelude.{
  ℕ, zero, suc, ◌+◌, ◌-◌, ◌*◌, ◌/◌, ◌%◌, ◌^◌, ◌≤◌, ◌<◌, String, ◌≡◌, refl, sym, ap, ◌∙◌, ◌≢◌, ◌↔◌,
  ◌⊎◌, inl, inr, Bool, true, false, not, ◌&&◌, ◌||◌, Option, none, some, List, [], ◌∷◌, ◌++◌, map,
  arith, ltb, leb, ◌==◌, if◌then◌else◌, ltb→lt, leb→le, ==_iff, Bool-cases, Option-cases, is_some,
  is_none, length, take, drop, is_empty, all, any, retain, count, All, length-append, count-append,
  All-append, take-length-append, drop-length-append, take-append-drop, length-take, Str, str,
  str_eq, str_eq_iff, str_eq_refl, str_le, is_ascii_alphanumeric, Result, ok, err, ◌>>=◌, ok_or, ℤ,
  pos, negsuc,
}
use shiitake.Prelude.Map.{
  Map, get, contains_key, insert, remove, adjust, values, keys, get-insert, get-remove, get-adjust,
  AllValues, get-AllValues, insert-AllValues, remove-AllValues, adjust-AllValues,
  adjust_at-AllValues, retain-AllValues, IsUnique, insert-IsUnique, remove-IsUnique,
  adjust-IsUnique, retain-IsUnique, keep_if, get-retain,
}
use shiitake.Api.Wire.{
  WorkerId, ExecId, SessionId, WorkerLocation, SessionCommandMode, SessionOpenFrame, ResultFrame,
}
use shiitake.Api.Public.{ExitCause}
use shiitake.Pool.State.{
  Time, Sink, Channel, WorkerEntry, SessionRecord, PinnedSession, PoolState, new_pool,
}
use shiitake.Pool.Outcome.{record_result, end_with_session, end_with_worker, end_handles}
use shiitake.Pool.Handles.{
  touch_and_snapshot, touch_session_handle, cancel, purge_handle, mark_spool_failed,
}
use shiitake.Pool.Dispatch.{
  pop_idle, push_back, push_front, register_handle, undo_handle, acquire_pinned, release_pinned,
  retire,
}
use shiitake.Pool.Workers.{register, touch_worker, take_pending, forget_worker}
use shiitake.Pool.Sessions.{session_snapshot, created_session_snapshot, reserve}
use shiitake.Pool.Sessions.Close.{begin_close}
use shiitake.Pool.Sessions.Reports.{session_ready, detach_session}
use shiitake.Pool.Commands.{register_command, list_session_commands}
use shiitake.Pool.Terminal.{attach_terminal, detach_terminal_if}
use shiitake.Pool.Sweeper.{drop_finished}

pub data Section : Type 0 where
  -- one-shot commands and pinned terminals
  pops : Section
  returns : WorkerEntry → Section
  registers_handle : Time → WorkerEntry → ExecId → Section
  undoes_handle : ExecId → Section
  pins : Channel → Section
  unpins : PinnedSession → Section
  -- the end of a command: the worker's result, its session's end, its worker's loss
  retires : Time → ExecId → Section
  records : Time → ResultFrame → Section
  -- the flag is whether the session's end was asked for
  ends_with_session : Time → Bool → List ExecId → Section
  ends_with_worker : Time → Bool → List ExecId → Section
  -- handles
  touches : Time → ExecId → Section
  touches_for : Time → SessionId → ExecId → Section
  cancels : ExecId → Section
  purges : ExecId → Section
  fails_spool : ExecId → Section
  lists : Time → SessionId → Section
  -- workers
  connects : Time → WorkerId → Str → Option WorkerLocation → Sink → Channel → Section
  hears : Time → WorkerId → Section
  takes_pending : WorkerId → Section
  forgets : Time → WorkerId → Section
  -- sessions
  reserves : Time → Str → SessionOpenFrame → Channel → Section
  reads_session : Time → SessionId → Section
  confirms : Time → SessionId → Section
  begins_close : SessionId → Option (Time × ℕ) → Channel → Section
  opens : Time → WorkerId → SessionId → Option Str → Section
  closes : Time → WorkerId → SessionId → Option Str → Bool → Section
  registers_command : Time → SessionId → ExecId → SessionCommandMode → SessionRecord → Section
  attaches : Time → SessionId → Channel → Section
  detaches : Time → SessionId → Channel → Section
  sweeps : Time → ℕ → Section

-- A part that fails leaves the pool as it was.
abbrev after {ℓ} : {E : Type ℓ} → PoolState → Result PoolState E → PoolState
after s (ok s') = s'
after s (err e) = s

abbrev after_second {ℓ} : {A : Type ℓ} → PoolState → Option (A × PoolState) → PoolState
after_second s none = s
after_second s (some (a, s')) = s'

abbrev after_reserve {ℓ} : {E : Type ℓ} → PoolState → Result (WorkerEntry × PoolState) E → PoolState
after_reserve s (ok (w, s')) = s'
after_reserve s (err e) = s

-- `session_closed` under the lock.
pub closes_session : PoolState → Time → WorkerId → SessionId → Option Str → Bool → PoolState
closes_session s now worker id error reusable = elim (get id s.sessions) [
  | none ↦ s
  | some r ↦
      if str_eq r.worker_id worker then detach_session s now worker id error reusable r else s
]

unfoldable pub enter : PoolState → Section → PoolState
enter s Section.pops = after_second s (pop_idle s)
enter s (Section.returns w) = push_front w s
enter s (Section.registers_handle now w id) = register_handle now w id s
enter s (Section.undoes_handle id) = undo_handle id s
enter s (Section.pins tx) = after_second s (acquire_pinned s tx)
enter s (Section.unpins p) = release_pinned s p
enter s (Section.retires now id) = retire s now id
enter s (Section.records now r) = record s {
  handles = adjust r.request_id (record_result now r) s.handles;
}
enter s (Section.ends_with_session now asked ids) =
    let cause = if asked then ExitCause.cancelled else ExitCause.worker_error in
    record s { handles = end_handles (end_with_session now cause) ids s.handles }
enter s (Section.ends_with_worker now oom ids) = record s {
  handles = end_handles (end_with_worker now oom) ids s.handles;
}
enter s (Section.touches now id) = (touch_and_snapshot s now id).0
enter s (Section.touches_for now session id) = (touch_session_handle s now session id).0
enter s (Section.cancels id) = (cancel s id).0
enter s (Section.purges id) = (purge_handle s id).0
enter s (Section.fails_spool id) = mark_spool_failed s id
enter s (Section.lists now id) = (list_session_commands s now id).0
enter s (Section.connects now id profile location sink shutdown) =
    after s (register s now id profile location sink shutdown)
enter s (Section.hears now worker) = touch_worker s now worker
enter s (Section.takes_pending worker) = (take_pending s worker).1
enter s (Section.forgets now worker) = forget_worker s now worker
enter s (Section.reserves now profile open_frame ready) =
    after_reserve s (reserve s now profile open_frame ready)
enter s (Section.reads_session now id) = (session_snapshot s now id).0
enter s (Section.confirms now id) = (created_session_snapshot s now id).0
enter s (Section.begins_close id gate tx) = (begin_close s id gate tx).0
enter s (Section.opens now worker id error) = (session_ready s now worker id error).0
enter s (Section.closes now worker id error reusable) =
    closes_session s now worker id error reusable
enter s (Section.registers_command now id rid mode first) =
    after s (register_command s now id rid mode first)
enter s (Section.attaches now id tx) = (attach_terminal s now id tx).0
enter s (Section.detaches now id tx) = detach_terminal_if s now id tx
enter s (Section.sweeps now ttl) = drop_finished s now ttl

unfoldable pub interleave : PoolState → List Section → PoolState
interleave s [] = s
interleave s (c ∷ cs) = interleave (enter s c) cs

-- An invariant of the sections is one of every interleaving.
pub interleave-keeps {κ} :
    (P : PoolState → Type κ)
    → ((s : PoolState) (c : Section) → P s → P (enter s c))
    → (s : PoolState) (cs : List Section) → P s
    → P (interleave s cs)
unfolding interleave
interleave-keeps P keep s [] h = h
interleave-keeps P keep s (c ∷ cs) h = interleave-keeps P keep (enter s c) cs (keep s c h)
