-- ===== src/Pool/Outcome.antt =====
-- shiitake-server/src/pool/mod.rs: how a command's end becomes the outcome of its handle.
use shiitake.Prelude.{
  Bool, true, false, Option, none, some, List, [], ◌∷◌, ◌++◌, if◌then◌else◌, is_some, Str, ℤ, pos,
}
use shiitake.Prelude.Map.{Map, get, adjust}
use shiitake.Api.Wire.{WorkerId, ExecId, WorkerLocation, ResultFrame}
use shiitake.Api.Public.{HandleStatus, ExitCause, is_running}
use shiitake.Pool.State.{Time, duration_since, HandleRow, HandleSnapshot, Effect}

unfoldable pub snapshot_from : HandleRow → HandleSnapshot
snapshot_from row = record {
  handle_id = row.handle_id;
  session_id = row.session_id;
  worker_id = row.worker_id;
  started_at = row.started_at;
  status = row.inner.status;
  finished_at = row.inner.finished_at;
  exit_code = row.inner.exit_code;
  exit_signal = row.inner.exit_signal;
  exit_cause = row.inner.exit_cause;
  cancelled = row.inner.cancelled;
}

unfoldable pub classify : ResultFrame → HandleStatus × ExitCause
classify r =
    if r.cancelled
    then (HandleStatus.error, ExitCause.cancelled)
    else if is_some r.exit_signal
    then (HandleStatus.error, ExitCause.signal)
    else if is_some r.error
    then (HandleStatus.error, ExitCause.worker_error)
    else (HandleStatus.completed, ExitCause.normal)

-- The span is taken, and the metrics are recorded under the cause.
unfoldable pub finalize_telemetry : HandleRow → HandleRow
finalize_telemetry row =
    let runtime = row.inner in record row { inner = record runtime { span = false } }

abbrev pub telemetry : HandleRow → Time → ExitCause → List Effect
telemetry row finished_at cause =
    Effect.record_exec row.handle_id cause (duration_since finished_at row.started_at) ∷ []

-- The part of `complete_request` under the runtime's lock: a late result is ignored.
unfoldable pub record_result : Time → ResultFrame → HandleRow → HandleRow
unfolding classify finalize_telemetry
record_result now r row =
    let runtime = row.inner in
    let outcome =
      if runtime.spool_failed then (HandleStatus.error, ExitCause.output_error) else classify r in
    if is_running runtime.status
    then finalize_telemetry (record row {
      inner = record runtime {
        finished_at = some now;
        exit_code = r.exit_code;
        exit_signal = r.exit_signal;
        cancelled = r.cancelled;
        status = outcome.0;
        exit_cause = some outcome.1;
      };
    })
    else row

-- The part of `session_closed` that ends a command of the closed session.
unfoldable pub end_with_session : Time → ExitCause → HandleRow → HandleRow
unfolding finalize_telemetry
end_with_session now cause row =
    let runtime = row.inner in
    if is_running runtime.status
    then finalize_telemetry (record row {
      inner = record runtime {
        finished_at = some now;
        status = HandleStatus.error;
        cancelled = elim cause [ ExitCause.cancelled ↦ true | _ ↦ false ];
        exit_cause = some cause;
      };
    })
    else row

abbrev pub sigkill : ℤ
sigkill = pos 9

-- The part of `handle_worker_drop` that ends a command of the lost worker.
unfoldable pub end_with_worker : Time → Bool → HandleRow → HandleRow
unfolding finalize_telemetry
end_with_worker now oom_killed row =
    let runtime = row.inner in
    if is_running runtime.status
    then finalize_telemetry (record row {
      inner = record runtime {
        finished_at = some now;
        status = if oom_killed then HandleStatus.oomkilled else HandleStatus.error;
        exit_cause = some (if oom_killed then ExitCause.oom_container else ExitCause.worker_died);
        exit_signal = if oom_killed then some sigkill else runtime.exit_signal;
      };
    })
    else row

-- What ending a running handle announces: the metrics, then the waiters.
abbrev pub announce : Time → ExitCause → Option HandleRow → List Effect
announce now cause none = []
announce now cause (some row) =
    if is_running row.inner.status
    then telemetry row now cause ++ (Effect.notify row.handle_id ∷ [])
    else []

-- `for rid in pending { … }` over the handles, each looked up anew.
unfoldable pub end_handles : (HandleRow → HandleRow) → List ExecId → Map HandleRow → Map HandleRow
end_handles f [] handles = handles
end_handles f (rid ∷ rids) handles = end_handles f rids (adjust rid f handles)

-- The effects of that loop, given the handles before it.
unfoldable pub announce_all :
    Time → ExitCause → (HandleRow → HandleRow) → List ExecId → Map HandleRow → List Effect
announce_all now cause f [] handles = []
announce_all now cause f (rid ∷ rids) handles =
    announce now cause (get rid handles) ++ announce_all now cause f rids (adjust rid f handles)

-- Where the OOM probe looks: the reported location, or the server's own pod.
unfoldable pub worker_location : Str → Str → WorkerId → Option WorkerLocation → Str × Str × Str
worker_location pod_name namespace id none = (pod_name, namespace, id)
worker_location pod_name namespace id (some l) = (l.pod, l.namespace, l.container)
