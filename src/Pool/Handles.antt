-- ===== src/Pool/Handles.antt =====
-- shiitake-server/src/pool/mod.rs: reading, cancelling and purging the handles of commands.
use shiitake.Prelude.{
  Bool, true, false, not, ◌&&◌, Option, none, some, List, [], ◌∷◌, map, if◌then◌else◌, str_eq,
}
use shiitake.Prelude.Map.{get, contains_key, remove, adjust, values}
use shiitake.Api.Wire.{ExecId, SessionId, Frame}
use shiitake.Api.Public.{is_running}
use shiitake.Pool.State.{Time, HandleRow, HandleSnapshot, PoolState, Effect}
use shiitake.Pool.Outcome.{snapshot_from}

-- `runtime.last_polled_at = SystemTime::now()`
abbrev pub poll : Time → HandleRow → HandleRow
poll now row =
    let runtime = row.inner in record row { inner = record runtime { last_polled_at = now } }

-- `row.state.session_id.as_ref() == Some(id)`, `p.session_id.as_ref() == Some(id)`
abbrev pub belongs : SessionId → Option SessionId → Bool
belongs id none = false
belongs id (some j) = str_eq j id

unfoldable pub touch_and_snapshot : PoolState → Time → ExecId → PoolState × Option HandleSnapshot
unfolding snapshot_from
touch_and_snapshot s now id = elim (get id s.handles) [
  | none ↦ (s, none)
  | some row ↦
      (record s { handles = adjust id (poll now) s.handles }, some (snapshot_from (poll now row)))
]

unfoldable pub touch_session_handle :
    PoolState → Time → SessionId → ExecId → PoolState × Option HandleSnapshot
unfolding snapshot_from
touch_session_handle s now session id = elim (get id s.handles) [
  | none ↦ (s, none)
  | some row ↦
      if belongs session row.session_id
      then (
        record s { handles = adjust id (poll now) s.handles },
        some (snapshot_from (poll now row)),
      )
      else (s, none)
]

abbrev pub request_cancel : HandleRow → HandleRow
request_cancel row =
    let runtime = row.inner in
    if is_running runtime.status && not runtime.cancel_requested
    then record row { inner = record runtime { cancel_requested = true } }
    else row

abbrev pub cancels : HandleRow → Bool
cancels row = is_running row.inner.status && not row.inner.cancel_requested

-- The Cancel frame goes to the worker that still has the command in flight.
abbrev pub cancel_frame : PoolState → ExecId → List Effect
cancel_frame s id = elim (get id s.inflight) [
  | none ↦ []
  | some p ↦ Effect.send p.sink (Frame.cancel id) ∷ []
]

unfoldable pub cancel : PoolState → ExecId → PoolState × Option HandleSnapshot × List Effect
unfolding snapshot_from
cancel s id = elim (get id s.handles) [
  | none ↦ (s, none, [])
  | some row ↦ (
    record s { handles = adjust id request_cancel s.handles },
    some (snapshot_from (request_cancel row)),
    if cancels row then cancel_frame s id else [],
  )
]

unfoldable pub purge_handle : PoolState → ExecId → PoolState × List Effect
purge_handle s id = (
  record s { handles = remove id s.handles },
  if contains_key id s.handles then Effect.purge id ∷ [] else [],
)

unfoldable pub list_snapshots : PoolState → List HandleSnapshot
unfolding snapshot_from
list_snapshots s = map snapshot_from (values s.handles)

abbrev pub spool_broken : HandleRow → HandleRow
spool_broken row =
    let runtime = row.inner in record row { inner = record runtime { spool_failed = true } }

unfoldable pub mark_spool_failed : PoolState → ExecId → PoolState
mark_spool_failed s id = record s { handles = adjust id spool_broken s.handles }

unfoldable pub last_polled : PoolState → ExecId → Option Time
last_polled s id = elim (get id s.handles) [
  | none ↦ none
  | some row ↦ some row.inner.last_polled_at
]
