-- ===== src/Pool/Sessions/Shut.antt =====
-- shiitake-server/src/pool/mod.rs: `close_session`, the close that a client asks for.
use shiitake.Prelude.{none, List, [], ◌++◌, Result}
use shiitake.Api.Wire.{SessionId}
use shiitake.Pool.State.{Time, Channel, SessionError, SessionSnapshot, PoolState, Effect}
use shiitake.Pool.Sessions.Close.{CloseStart, CloseOutcome, begin_close, finish_close}
use shiitake.Pool.Sweeper.{close_effects}

-- `between` is what the others do while the worker is asked, `outcome` what comes of it.
unfoldable pub close_session :
    PoolState
    → SessionId
    → Channel
    → (PoolState → PoolState)
    → Time
    → CloseOutcome
    → PoolState × Result SessionSnapshot SessionError × List Effect
unfolding begin_close finish_close
close_session s id tx between later outcome =
    let (s', start) = begin_close s id none tx in
    elim start [
      | CloseStart.answer r ↦ (s', r, [])
      | CloseStart.wait sink worker send_close ↦
          let (s'', v, effects) = finish_close (between s') later id worker outcome in
          (s'', v, close_effects id (CloseStart.wait sink worker send_close) ++ effects)
    ]
