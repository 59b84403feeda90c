-- ===== src/Pool/Sections/Writes.antt =====
-- The ways in which the sections write session records, as one rule for what holds after a section.
use shiitake.Prelude.{
  ℕ, ◌≡◌, refl, inl, inr, Bool, true, false, Option, none, some, List, arith, ltb, Bool-cases,
  Option-cases, retain, Str, Result, ok, err,
}
use shiitake.Prelude.Map.{Map, get, insert, adjust}
use shiitake.Api.Wire.{SessionOpenFrame, SessionCommandMode}
use shiitake.Api.Public.{is_active, is_finished}
use shiitake.Pool.State.{SessionRecord, SessionError, PendingEntry, WorkerEntry, PoolState}
use shiitake.Pool.Dispatch.{
  command_done, pop_idle, push_back, push_front, register_handle, undo_handle, acquire_pinned,
  release_pinned, retire,
}
use shiitake.Pool.Handles.{
  touch_and_snapshot, touch_session_handle, cancel, purge_handle, mark_spool_failed,
}
use shiitake.Pool.Workers.{fail_session, register, touch_worker, take_pending, forget_worker}
use shiitake.Pool.Sessions.{
  touch_active, opening_record, take_profile, session_snapshot, created_session_snapshot, reserve,
}
use shiitake.Pool.Sessions.Close.{closing_record, begin_close, start_close, still_idle}
use shiitake.Pool.Sessions.Reports.{ready_record, closed_record, session_ready, detach_session}
use shiitake.Pool.Commands.{admit, command_added, register_command, list_session_commands}
use shiitake.Pool.Terminal.{attached, detached, attach_terminal, detach_terminal_if}
use shiitake.Pool.Sweeper.{drop_finished, is_retained}
use shiitake.Pool.Sections.{Section, enter, closes_session}

-- What is to be shown of a property of the session map: that each way in which the section `c` may
-- write it establishes `P`.
pub record Written {κ} (P : Map SessionRecord → Type κ) (c : Section) (m : Map SessionRecord)
    : Type κ where
  pub same : P m
  pub fails : (k : Str) (now : ℕ) → P (adjust k (fail_session now) m)
  pub closes : (k : Str) (now : ℕ) (error : Option Str) → P (adjust k (closed_record now error) m)
  pub opens : (k : Str) (now : ℕ) (error : Option Str) → P (adjust k (ready_record now error) m)
  pub begins_close :
      (k : Str) (tx : ℕ)
      → ((r : SessionRecord) → get k m ≡ some r → is_finished r.state ≡ false)
      → P (adjust k (closing_record tx) m)
  pub touches : (k : Str) (now : ℕ) → P (adjust k (touch_active now) m)
  pub confirms : (k : Str) (now : ℕ) → P (adjust k (λ r. record r { last_activity_at = now }) m)
  pub retires :
      (k : Str) (now : ℕ) (mode : SessionCommandMode) → P (adjust k (command_done now mode) m)
  pub adds :
      (k : Str) (now : ℕ) (mode : SessionCommandMode) (x : SessionRecord)
      → admit mode (get k m) ≡ ok x
      → P (adjust k (command_added now mode) m)
  pub attaches :
      (k : Str) (now tx : ℕ)
      → ((r : SessionRecord)
          → get k m ≡ some r
          → (is_active r.state ≡ true) × (ltb 0 r.stateful_count ≡ false))
      → P (adjust k (attached now tx) m)
  pub detaches : (k : Str) (now tx : ℕ) → P (adjust k (detached now tx) m)
  pub reserves :
      (now : ℕ) (profile : Str) (open_frame : SessionOpenFrame) (ready : ℕ) (w : WorkerEntry)
      → c ≡ Section.reserves now profile open_frame ready
      → P (insert open_frame.session_id (opening_record now profile open_frame ready w) m)
  pub sweeps : (now ttl : ℕ) → P (retain (λ e. is_retained now ttl e.1) m)

module _ {κ} (P : Map SessionRecord → Type κ) {c : Section} (s : PoolState)
    (h : Written P c s.sessions) where
  start_close-sessions :
      (id : Str) (tx : ℕ) (r : SessionRecord)
      → get id s.sessions ≡ some r
      → P (start_close s id tx r).0.sessions
  unfolding start_close
  start_close-sessions id tx r e = elim (Bool-cases (is_finished r.state)) [
    | inl f ↦ rw (f, start_close) h.same
    | inr f ↦ rw (f, start_close) (h.begins_close id tx (λ v g. ground arith))
  ]

  begin_close-sessions :
      (id : Str) (gate : Option (ℕ × ℕ)) (tx : ℕ) → P (begin_close s id gate tx).0.sessions
  unfolding begin_close
  begin_close-sessions id gate tx = go (get id s.sessions) gate refl
    where
      go :
          (o : Option SessionRecord) (g : Option (ℕ × ℕ))
          → get id s.sessions ≡ o
          → P (begin_close s id g tx).0.sessions
      go none g e = rw (e, begin_close) h.same
      go (some r) none e = rw (e, begin_close) (start_close-sessions id tx r e)
      go (some r) (some (now, ttl)) e = elim (Bool-cases (still_idle s now ttl id r)) [
        | inl i ↦ rw (e, begin_close) (rw (i, begin_close) (start_close-sessions id tx r e))
        | inr i ↦ rw (e, begin_close) (rw (i, begin_close) h.same)
      ]

  register_command-sessions :
      (now : ℕ) (id rid : Str) (mode : SessionCommandMode) (first : SessionRecord)
      → P (enter s (Section.registers_command now id rid mode first)).sessions
  unfolding enter register_command
  register_command-sessions now id rid mode first = go (admit mode (get id s.sessions)) refl
    where
      go :
          (a : Result SessionRecord SessionError)
          → admit mode (get id s.sessions) ≡ a
          → P (enter s (Section.registers_command now id rid mode first)).sessions
      go (err x) q = rw (q, enter) h.same
      go (ok x) q = rw (q, enter) (h.adds id now mode x q)

  attach_terminal-sessions :
      (now : ℕ) (id : Str) (tx : ℕ) → P (attach_terminal s now id tx).0.sessions
  unfolding attach_terminal
  attach_terminal-sessions now id tx = go (get id s.sessions) refl
    where
      go :
          (o : Option SessionRecord)
          → get id s.sessions ≡ o
          → P (attach_terminal s now id tx).0.sessions
      go none e = rw (e, attach_terminal) h.same
      go (some r) e = ground (
        arith,
        h.same,
        λ (a : is_active r.state ≡ true) (n : ltb 0 r.stateful_count ≡ false).
            h.attaches id now tx (λ v g. (ground arith, ground arith)),
      )

  session_ready-sessions :
      (now : ℕ) (worker id : Str) (error : Option Str)
      → P (session_ready s now worker id error).0.sessions
  unfolding session_ready
  session_ready-sessions now worker id error = ground (arith, h.same, h.opens id now error)

  closes_session-sessions :
      (now : ℕ) (worker id : Str) (error : Option Str) (reusable : Bool)
      → P (closes_session s now worker id error reusable).sessions
  unfolding closes_session detach_session push_back
  closes_session-sessions now worker id error reusable =
      ground (arith, h.same, h.closes id now error)

  forget_worker-sessions : (now : ℕ) (worker : Str) → P (forget_worker s now worker).sessions
  unfolding forget_worker
  forget_worker-sessions now worker = go (get worker s.worker_sessions) refl
    where
      go :
          (o : Option Str)
          → get worker s.worker_sessions ≡ o
          → P (forget_worker s now worker).sessions
      go none e = rw (e, forget_worker) h.same
      go (some id) e = rw (e, forget_worker) (h.fails id now)

  retire-sessions : (now : ℕ) (id : Str) → P (retire s now id).sessions
  unfolding retire push_back
  retire-sessions now id = go (get id s.inflight) refl
    where
      go : (o : Option PendingEntry) → get id s.inflight ≡ o → P (retire s now id).sessions
      go none e = rw (e, retire) h.same
      go (some p) e = elim (Option-cases p.session_id) [
        | inl q ↦ ground (arith, h.same)
        | inr (sid, q) ↦ ground (arith, h.retires sid now p.mode)
      ]

  reserve-sessions :
      (now : ℕ) (profile : Str) (open_frame : SessionOpenFrame) (ready : ℕ)
      → c ≡ Section.reserves now profile open_frame ready
      → P (enter s (Section.reserves now profile open_frame ready)).sessions
  unfolding enter reserve
  reserve-sessions now profile open_frame ready is_c = go (take_profile profile s.idle) refl
    where
      go :
          (o : Option (WorkerEntry × List WorkerEntry))
          → take_profile profile s.idle ≡ o
          → P (enter s (Section.reserves now profile open_frame ready)).sessions
      go none e = ground (arith, h.same)
      go (some (w, ws)) e = ground (arith, h.same, h.reserves now profile open_frame ready w is_c)

-- The rule: a section establishes what every way to write the map establishes.
pub enter-sessions {κ} :
    (P : Map SessionRecord → Type κ) (s : PoolState) (c : Section)
    → Written P c s.sessions
    → P (enter s c).sessions
unfolding enter pop_idle push_back push_front register_handle undo_handle acquire_pinned
    release_pinned touch_and_snapshot touch_session_handle cancel purge_handle mark_spool_failed
    register touch_worker take_pending
enter-sessions P s (Section.begins_close id gate tx) h = begin_close-sessions P s h id gate tx
enter-sessions P s (Section.registers_command now id rid mode first) h =
    register_command-sessions P s h now id rid mode first
enter-sessions P s (Section.attaches now id tx) h = attach_terminal-sessions P s h now id tx
enter-sessions P s (Section.detaches now id tx) h =
    unfold detach_terminal_if in h.detaches id now tx
enter-sessions P s (Section.opens now worker id error) h =
    session_ready-sessions P s h now worker id error
enter-sessions P s (Section.closes now worker id error reusable) h =
    closes_session-sessions P s h now worker id error reusable
enter-sessions P s (Section.forgets now worker) h = forget_worker-sessions P s h now worker
enter-sessions P s (Section.retires now id) h = retire-sessions P s h now id
enter-sessions P s (Section.reserves now profile open_frame ready) h =
    reserve-sessions P s h now profile open_frame ready refl
enter-sessions P s (Section.reads_session now id) h =
    unfold session_snapshot in ground (arith, h.same, h.touches id now)
enter-sessions P s (Section.confirms now id) h =
    unfold created_session_snapshot in ground (arith, h.same, h.confirms id now)
enter-sessions P s (Section.lists now id) h =
    unfold list_session_commands in ground (arith, h.same, h.touches id now)
enter-sessions P s (Section.sweeps now ttl) h = unfold drop_finished in h.sweeps now ttl
enter-sessions P s _ h = ground (arith, h.same)
