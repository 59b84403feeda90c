-- ===== src/Pool/Sections/Rows.antt =====
-- The ways in which the sections write the rows of handles, as one rule for what holds afterwards.
use shiitake.Prelude.{
  ◌≡◌, refl, Bool, false, List, [], ◌∷◌, arith, if◌then◌else◌, Str, str_eq, Result, ok, err,
}
use shiitake.Prelude.Map.{Map, get, insert, remove, adjust, AllValues, adjust-AllValues, map_values}
use shiitake.Api.Wire.{ExecId, SessionId, ResultFrame, SessionCommandMode}
use shiitake.Api.Public.{ExitCause}
use shiitake.Pool.State.{Time, HandleRow, SessionRecord, SessionError, PoolState}
use shiitake.Pool.Outcome.{record_result, end_with_session, end_with_worker, end_handles}
use shiitake.Pool.Handles.{
  poll, request_cancel, touch_and_snapshot, touch_session_handle, cancel, purge_handle,
  mark_spool_failed, spool_broken,
}
use shiitake.Pool.Dispatch.{
  fresh_runtime, pop_idle, push_back, push_front, register_handle, undo_handle, acquire_pinned,
  release_pinned, retire,
}
use shiitake.Pool.Workers.{register, touch_worker, take_pending, forget_worker}
use shiitake.Pool.Sessions.{session_snapshot, created_session_snapshot, reserve}
use shiitake.Pool.Sessions.Close.{begin_close, start_close}
use shiitake.Pool.Sessions.Reports.{session_ready, detach_session}
use shiitake.Pool.Commands.{admit, poll_of_session, register_command, list_session_commands}
use shiitake.Pool.Terminal.{attach_terminal, detach_terminal_if}
use shiitake.Pool.Sweeper.{drop_finished}
use shiitake.Pool.Sections.{Section, enter, closes_session}

pub end_handles-AllValues {κ} :
    (P : HandleRow → Type κ) (f : HandleRow → HandleRow) (ids : List ExecId) (m : Map HandleRow)
    → ((row : HandleRow) → P row → P (f row))
    → AllValues P m
    → AllValues P (end_handles f ids m)
unfolding end_handles
end_handles-AllValues P f [] m keep h = h
end_handles-AllValues P f (id ∷ ids) m keep h =
    end_handles-AllValues P f ids (adjust id f m) keep (adjust-AllValues P id f m keep h)

-- The section registers a handle under the id.
abbrev pub registers_id : Section → ExecId → Bool
registers_id (Section.registers_handle now w k) id = str_eq k id
registers_id (Section.registers_command now sid k mode first) id = str_eq k id
registers_id _ id = false

abbrev pub cause_of : Bool → ExitCause
cause_of asked = if asked then ExitCause.cancelled else ExitCause.worker_error

pub record Rows {κ} (P : Map HandleRow → Type κ) (c : Section) (m : Map HandleRow) : Type κ where
  pub same : P m
  pub results : (now : Time) (r : ResultFrame) → P (adjust r.request_id (record_result now r) m)
  pub ends_session :
      (now : Time) (asked : Bool) (ids : List ExecId)
      → P (end_handles (end_with_session now (cause_of asked)) ids m)
  pub ends_worker :
      (now : Time) (oom : Bool) (ids : List ExecId)
      → P (end_handles (end_with_worker now oom) ids m)
  pub polls : (id : ExecId) (now : Time) → P (adjust id (poll now) m)
  pub cancels : (id : ExecId) → P (adjust id request_cancel m)
  pub breaks : (id : ExecId) → P (adjust id spool_broken m)
  pub lists : (now : Time) (id : SessionId) → P (map_values (poll_of_session now id) m)
  pub removes : (id : ExecId) → P (remove id m)
  pub inserts :
      (id : ExecId) (row : HandleRow) (now : Time)
      → row.inner ≡ fresh_runtime now
      → ((j : ExecId) → registers_id c j ≡ str_eq id j)
      → P (insert id row m)

module _ {κ} (P : Map HandleRow → Type κ) {c : Section} (s : PoolState)
    (h : Rows P c s.handles) where
  register_command-handles :
      (now : Time) (id rid : Str) (mode : SessionCommandMode) (first : SessionRecord)
      → c ≡ Section.registers_command now id rid mode first
      → P (enter s (Section.registers_command now id rid mode first)).handles
  unfolding enter register_command
  register_command-handles now id rid mode first is_c = go (admit mode (get id s.sessions)) refl
    where
      go :
          (a : Result SessionRecord SessionError)
          → admit mode (get id s.sessions) ≡ a
          → P (enter s (Section.registers_command now id rid mode first)).handles
      go (err e) q = rw (q, enter) h.same
      go (ok x) q = rw (q, enter) (h.inserts rid _ now refl (λ j. rw is_c))

-- The rule: a section establishes what every way to write the rows establishes.
pub enter-handles {κ} :
    (P : Map HandleRow → Type κ) (s : PoolState) (c : Section)
    → Rows P c s.handles
    → P (enter s c).handles
unfolding enter pop_idle push_back push_front register_handle undo_handle acquire_pinned
    release_pinned retire touch_and_snapshot touch_session_handle cancel purge_handle
    mark_spool_failed register touch_worker take_pending forget_worker session_snapshot
    created_session_snapshot reserve begin_close start_close session_ready detach_session
    closes_session attach_terminal detach_terminal_if drop_finished list_session_commands
enter-handles P s (Section.records now r) h = h.results now r
enter-handles P s (Section.ends_with_session now asked ids) h = h.ends_session now asked ids
enter-handles P s (Section.ends_with_worker now oom ids) h = h.ends_worker now oom ids
enter-handles P s (Section.touches now id) h = ground (arith, h.same, h.polls id now)
enter-handles P s (Section.touches_for now session id) h = ground (arith, h.same, h.polls id now)
enter-handles P s (Section.cancels id) h = ground (arith, h.same, h.cancels id)
enter-handles P s (Section.purges id) h = h.removes id
enter-handles P s (Section.undoes_handle id) h = h.removes id
enter-handles P s (Section.fails_spool id) h = h.breaks id
enter-handles P s (Section.lists now id) h = ground (arith, h.same, h.lists now id)
enter-handles P s (Section.registers_handle now w id) h = h.inserts id _ now refl (λ j. refl)
enter-handles P s (Section.registers_command now id rid mode first) h =
    register_command-handles P s h now id rid mode first refl
enter-handles P s _ h = ground (arith, h.same)
