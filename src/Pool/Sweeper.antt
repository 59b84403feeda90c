-- ===== src/Pool/Sweeper.antt =====
-- shiitake-server/src/pool/mod.rs: one round of `run_sweeper`. The endless loop round it only waits.
use shiitake.Prelude.{
  ℕ, Bool, true, ◌&&◌, Option, none, some, List, [], ◌∷◌, ◌++◌, ltb, leb, if◌then◌else◌, is_none,
  retain,
}
use shiitake.Prelude.Map.{keys}
use shiitake.Api.Wire.{ExecId, SessionId, Frame}
use shiitake.Api.Public.{HandleStatus}
use shiitake.Pool.State.{
  Time, Channel, duration_since, SessionRecord, HandleSnapshot, PoolState, Effect,
}
use shiitake.Pool.Handles.{cancel, purge_handle, list_snapshots, last_polled}
use shiitake.Pool.Sessions.Close.{still_idle, CloseStart, begin_close}

unfoldable pub last_or : Option Time → Time → Time
last_or none now = now
last_or (some t) now = t

-- What the round does with one handle, by its status, its session and how long nobody polled it.
pub data Verdict : Type 0 where
  cancels purges keeps : Verdict

unfoldable pub verdict : HandleStatus → Option SessionId → ℕ → ℕ → ℕ → Verdict
verdict HandleStatus.running session idle running_ttl terminal_ttl =
    if is_none session && ltb running_ttl idle then Verdict.cancels else Verdict.keeps
verdict _ session idle running_ttl terminal_ttl =
    if ltb terminal_ttl idle then Verdict.purges else Verdict.keeps

-- How long a handle has gone unpolled when the round reaches it.
unfoldable pub unpolled : PoolState → Time → ExecId → ℕ
unfolding last_or last_polled
unpolled s now id = duration_since now (last_or (last_polled s id) now)

-- `within` is what the others do between the look at the poll time and the act.
unfoldable pub sweep_handle :
    PoolState
    → Time
    → ℕ
    → ℕ
    → (ExecId → PoolState → PoolState)
    → HandleSnapshot
    → PoolState × List Effect
unfolding verdict unpolled cancel purge_handle
sweep_handle s now running_ttl terminal_ttl within snap =
    elim (verdict snap.status snap.session_id (unpolled s now snap.handle_id) running_ttl
      terminal_ttl) [
        | Verdict.cancels ↦
            let (s', _, effects) = cancel (within snap.handle_id s) snap.handle_id in (s', effects)
        | Verdict.purges ↦ purge_handle (within snap.handle_id s) snap.handle_id
        | Verdict.keeps ↦ (s, [])
      ]

-- `before` is what the others do before the round looks at a handle.
unfoldable pub sweep_handles :
    PoolState
    → Time
    → ℕ
    → ℕ
    → (ExecId → PoolState → PoolState)
    → (ExecId → PoolState → PoolState)
    → List HandleSnapshot
    → PoolState × List Effect
sweep_handles s now running_ttl terminal_ttl before within [] = (s, [])
sweep_handles s now running_ttl terminal_ttl before within (snap ∷ snaps) =
    let (s', effects) =
      sweep_handle (before snap.handle_id s) now running_ttl terminal_ttl within snap in
    let (s'', more) = sweep_handles s' now running_ttl terminal_ttl before within snaps in
    (s'', effects ++ more)

unfoldable pub expired_sessions : PoolState → Time → ℕ → List SessionId
unfolding still_idle
expired_sessions s now ttl = keys (retain (λ e. still_idle s now ttl e.0 e.1) s.sessions)

-- The start of a close, with the frame that it sends.
abbrev pub close_effects : SessionId → CloseStart → List Effect
close_effects id (CloseStart.answer r) = []
close_effects id (CloseStart.wait sink worker send_close) =
    if send_close then Effect.send sink (Frame.session_close id) ∷ [] else []

-- `between` is what the others do to the pool while a close waits for the worker.
unfoldable pub close_expired :
    PoolState
    → Time
    → ℕ
    → (SessionId → Channel)
    → (SessionId → PoolState → PoolState)
    → List SessionId
    → PoolState × List Effect
close_expired s now ttl tx between [] = (s, [])
close_expired s now ttl tx between (id ∷ ids) =
    let (s', start) = begin_close s id (some (now, ttl)) (tx id) in
    let (s'', more) = close_expired (between id s') now ttl tx between ids in
    (s'', close_effects id start ++ more)

unfoldable pub is_retained : Time → ℕ → SessionRecord → Bool
is_retained now ttl r = elim r.finished_at [ none ↦ true | some t ↦ leb (duration_since now t) ttl ]

unfoldable pub drop_finished : PoolState → Time → ℕ → PoolState
unfolding is_retained
drop_finished s now ttl = record s { sessions = retain (λ e. is_retained now ttl e.1) s.sessions }

-- What the others do while a round goes on: before and within the look at a handle, before the sessions
-- are listed, while a close waits, and before the finished sessions are dropped.
pub record Interference : Type 0 where
  pub before : ExecId → PoolState → PoolState
  pub within : ExecId → PoolState → PoolState
  pub listing : PoolState → PoolState
  pub closing : SessionId → PoolState → PoolState
  pub dropping : PoolState → PoolState

unfoldable pub sweep :
    PoolState → Time → ℕ → ℕ → (SessionId → Channel) → Interference → PoolState × List Effect
unfolding sweep_handles expired_sessions close_expired drop_finished list_snapshots
sweep s now running_ttl terminal_ttl tx others =
    let (s1, effects) =
      sweep_handles s now running_ttl terminal_ttl others.before others.within (list_snapshots s) in
    let t = others.listing s1 in
    let (s2, more) =
      close_expired t now running_ttl tx others.closing (expired_sessions t now running_ttl) in
    (drop_finished (others.dropping s2) now terminal_ttl, effects ++ more)
