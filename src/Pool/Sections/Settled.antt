-- ===== src/Pool/Sections/Settled.antt =====
-- The rows of handles: which causes, times and signals go with which status.
use shiitake.Prelude.{ℕ, ◌≡◌, ◌⊎◌, Bool, true, false, not, Option, none, some, List, arith, is_some}
use shiitake.Prelude.Map.{
  Map, AllValues, insert-AllValues, remove-AllValues, adjust-AllValues, map_values-AllValues,
}
use shiitake.Api.Wire.{ResultFrame}
use shiitake.Api.Public.{HandleStatus, ExitCause, is_running}
use shiitake.Pool.State.{HandleRow, PoolState, new_pool}
use shiitake.Pool.Outcome.{
  classify, finalize_telemetry, record_result, end_with_session, end_with_worker, sigkill,
}
use shiitake.Pool.Handles.{poll, request_cancel, spool_broken}
use shiitake.Pool.Commands.{poll_of_session}
use shiitake.Pool.Dispatch.{fresh_runtime}
use shiitake.Pool.Sections.{Section, interleave, interleave-keeps}
use shiitake.Pool.Sections.Rows.{Rows, cause_of, end_handles-AllValues, enter-handles}

-- Which cause goes with which status.
abbrev pub agrees : HandleStatus → Option ExitCause → Bool
agrees HandleStatus.running none = true
agrees HandleStatus.completed (some ExitCause.normal) = true
agrees HandleStatus.oomkilled (some ExitCause.oom_container) = true
agrees HandleStatus.error (some ExitCause.normal) = false
agrees HandleStatus.error (some ExitCause.oom_container) = false
agrees HandleStatus.error (some c) = true
agrees _ _ = false

pub record IsSettled (row : HandleRow) : Type 0 where
  pub cause : agrees row.inner.status row.inner.exit_cause ≡ true
  pub finished_when : is_some row.inner.finished_at ≡ not (is_running row.inner.status)
  pub spanned : row.inner.span ≡ is_running row.inner.status
  pub no_code : is_running row.inner.status ≡ true → row.inner.exit_code ≡ none
  pub no_signal :
      (row.inner.status ≡ HandleStatus.running) ⊎ (row.inner.status ≡ HandleStatus.completed)
      → row.inner.exit_signal ≡ none
  pub cancelled_error : row.inner.cancelled ≡ true → row.inner.status ≡ HandleStatus.error
  pub oom_signal : row.inner.status ≡ HandleStatus.oomkilled → row.inner.exit_signal ≡ some sigkill

record_result-IsSettled :
    (now : ℕ) (r : ResultFrame) (row : HandleRow)
    → IsSettled row
    → IsSettled (record_result now r row)
unfolding record_result classify finalize_telemetry
record_result-IsSettled now r row h = ground arith

end_with_session-IsSettled :
    (now : ℕ) (asked : Bool) (row : HandleRow)
    → IsSettled row
    → IsSettled (end_with_session now (cause_of asked) row)
unfolding end_with_session finalize_telemetry
end_with_session-IsSettled now true row h = ground arith
end_with_session-IsSettled now false row h = ground arith

end_with_worker-IsSettled :
    (now : ℕ) (oom : Bool) (row : HandleRow)
    → IsSettled row
    → IsSettled (end_with_worker now oom row)
unfolding end_with_worker finalize_telemetry
end_with_worker-IsSettled now true row h = ground arith
end_with_worker-IsSettled now false row h = ground arith

poll-IsSettled : (now : ℕ) (row : HandleRow) → IsSettled row → IsSettled (poll now row)
poll-IsSettled now row h = ground arith

request_cancel-IsSettled : (row : HandleRow) → IsSettled row → IsSettled (request_cancel row)
request_cancel-IsSettled row h = ground arith

spool_broken-IsSettled : (row : HandleRow) → IsSettled row → IsSettled (spool_broken row)
spool_broken-IsSettled row h = ground arith

fresh-IsSettled : (row : HandleRow) (now : ℕ) → row.inner ≡ fresh_runtime now → IsSettled row
fresh-IsSettled row now e = ground arith

abbrev pub AllSettled : PoolState → Type 0
AllSettled s = AllValues IsSettled s.handles

IsSettled-Rows :
    (c : Section) (m : Map HandleRow) → AllValues IsSettled m → Rows (AllValues IsSettled) c m
IsSettled-Rows c m h = record {
  same = h;
  results = λ now r. adjust-AllValues IsSettled r.request_id _ m (record_result-IsSettled now r) h;
  ends_session = λ now asked ids.
      end_handles-AllValues IsSettled _ ids m (end_with_session-IsSettled now asked) h;
  ends_worker =
      λ now oom ids. end_handles-AllValues IsSettled _ ids m (end_with_worker-IsSettled now oom) h;
  polls = λ id now. adjust-AllValues IsSettled id _ m (poll-IsSettled now) h;
  cancels = λ id. adjust-AllValues IsSettled id _ m request_cancel-IsSettled h;
  breaks = λ id. adjust-AllValues IsSettled id _ m spool_broken-IsSettled h;
  lists = λ now id.
      map_values-AllValues IsSettled (poll_of_session now id) m
        (λ row k. ground (arith, poll-IsSettled now row k)) h;
  removes = λ id. remove-AllValues IsSettled id m h;
  inserts = λ id row now e _. insert-AllValues IsSettled id row m (fresh-IsSettled row now e) h;
}

-- In any interleaving of the parts that hold the pool's lock, every handle that the pool holds is
-- settled: its exit cause is one that goes with its status and is absent exactly while it runs, it has a
-- finish time and a closed span exactly if it no longer runs, an exit code only then, and a signal only
-- if it ended otherwise than completed; one that counts as cancelled has the status error, and one
-- killed for memory the signal SIGKILL.
pub interleave-AllSettled : (cs : List Section) → AllSettled (interleave new_pool cs)
interleave-AllSettled cs =
    interleave-keeps AllSettled
      (λ s c h. enter-handles (AllValues IsSettled) s c (IsSettled-Rows c s.handles h)) new_pool cs
      tt
