-- ===== src/Pool/Attachment.antt =====
-- shiitake-server/src/pool/mod.rs: who may use a session while a terminal is attached to it.
use shiitake.Prelude.{
  ◌≡◌, refl, ◌≢◌, true, Option, none, some, arith, str_eq_iff, str_eq_refl, ok, err,
}
use shiitake.Prelude.Map.{get, get-adjust}
use shiitake.Api.Wire.{SessionId, SessionCommandMode}
use shiitake.Api.Public.{is_active}
use shiitake.Pool.State.{Time, Channel, SessionRecord, SessionError, TerminalAttachment, PoolState}
use shiitake.Pool.Commands.{admit}
use shiitake.Pool.Terminal.{attached, detached, attach_terminal, detach_terminal_if}

-- The terminal behind `tx` has the session to itself.
pub record IsExclusive (id : SessionId) (tx : Channel) (s : PoolState) : Type 0 where
  pub held : (r : SessionRecord) × (get id s.sessions ≡ some r) × (r.terminal ≡ some tx)
  pub second :
      (now : Time) (tx' : Channel)
      → attach_terminal s now id tx' ≡ (s, err SessionError.terminal_busy)
  pub stateful :
      admit SessionCommandMode.stateful (get id s.sessions) ≡ err SessionError.terminal_busy
  pub parallel :
      (r : SessionRecord) × (admit SessionCommandMode.parallel (get id s.sessions) ≡ ok r)
  pub stale :
      (now : Time) (tx' : Channel)
      → tx ≢ tx'
      → (j : SessionId) → get j (detach_terminal_if s now id tx').sessions ≡ get j s.sessions
  pub freed :
      (now : Time)
      → (r : SessionRecord) × (get id (detach_terminal_if s now id tx).sessions ≡ some r)
        × (r.terminal ≡ none)

module _ (s : PoolState) (id : SessionId) (tx : Channel) (r : SessionRecord)
    (held : get id s.sessions ≡ some r) (active : is_active r.state ≡ true)
    (busy : r.terminal ≡ some tx) where
  second_lem :
      (now : Time) (tx' : Channel)
      → attach_terminal s now id tx' ≡ (s, err SessionError.terminal_busy)
  unfolding attach_terminal
  second_lem now tx' = ground arith

  stateful_lem :
      admit SessionCommandMode.stateful (get id s.sessions) ≡ err SessionError.terminal_busy
  unfolding admit
  stateful_lem = ground arith

  parallel_lem : admit SessionCommandMode.parallel (get id s.sessions) ≡ ok r
  unfolding admit
  parallel_lem = ground arith

  stale_lem :
      (now : Time) (tx' : Channel)
      → tx ≢ tx'
      → (j : SessionId) → get j (detach_terminal_if s now id tx').sessions ≡ get j s.sessions
  unfolding detach_terminal_if
  stale_lem now tx' ne j =
      ground (arith, get-adjust id j (detached now tx') s.sessions, str_eq_iff id j)

  freed_lem :
      (now : Time)
      → (r' : SessionRecord) × (get id (detach_terminal_if s now id tx).sessions ≡ some r')
        × (r'.terminal ≡ none)
  unfolding detach_terminal_if
  freed_lem now = (
    record r { terminal = none; last_activity_at = now },
    ground (arith, get-adjust id id (detached now tx) s.sessions, str_eq_refl id),
    refl,
  )

-- The record after a successful attachment.
attach_terminal-ok :
    (s s' : PoolState) (now : Time) (id : SessionId) (tx : Channel) (a : TerminalAttachment)
    → attach_terminal s now id tx ≡ (s', ok a)
    → (r : SessionRecord) × (get id s'.sessions ≡ some r)
      × (is_active r.state ≡ true)
      × (r.terminal ≡ some tx)
unfolding attach_terminal
attach_terminal-ok s s' now id tx a h = go (get id s.sessions) refl
  where
    go :
        (o : Option SessionRecord)
        → get id s.sessions ≡ o
        → (r : SessionRecord) × (get id s'.sessions ≡ some r)
          × (is_active r.state ≡ true)
          × (r.terminal ≡ some tx)
    go none e = ground arith
    go (some r) e = (
      attached now tx r,
      ground (arith, get-adjust id id (attached now tx) s.sessions, str_eq_refl id),
      ground arith,
      refl,
    )

-- After a terminal was attached: the session's record carries the reservation; no second terminal gets
-- in and no stateful command is admitted, while parallel ones are; a detachment under another
-- reservation changes no session, and one under the attachment's own frees the terminal.
pub attach_terminal-IsExclusive :
    (s s' : PoolState) (now : Time) (id : SessionId) (tx : Channel) (a : TerminalAttachment)
    → attach_terminal s now id tx ≡ (s', ok a)
    → IsExclusive id tx s'
attach_terminal-IsExclusive s s' now id tx a h =
    let (r, e, active, t) = attach_terminal-ok s s' now id tx a h in
    record {
      held = (r, e, t);
      second = second_lem s' id tx r e active t;
      stateful = stateful_lem s' id tx r e active t;
      parallel = (r, parallel_lem s' id tx r e active t);
      stale = stale_lem s' id tx r e active t;
      freed = freed_lem s' id tx r e active t;
    }
