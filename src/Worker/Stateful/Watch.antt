-- ===== src/Worker/Stateful/Watch.antt =====
-- client.rs: what `watch_stateful_job` sends.
use shiitake.Prelude.{◌≡◌, Bool, true, false, not, ◌&&◌, List, [], ◌∷◌, is_some}
use shiitake.Prelude.Map.{Map}
use shiitake.Api.Wire.{ExecId}
use shiitake.Worker.Session.Handle.{Event, job_interrupt, job_abort, job_result}
use shiitake.Worker.Stateful.{Look, finished}

-- An interrupt at most, and that only where there was none; then nothing more, or the abortion after it,
-- or one result under the command's id, cancelled exactly if there was an interrupt.
abbrev pub IsOrderly : ExecId → Bool → List Event → Type 0
IsOrderly id interrupted [] = Unit {0}
IsOrderly id interrupted (job_interrupt ∷ events) = (interrupted ≡ false) × IsOrderly id true events
IsOrderly id interrupted (job_abort rid ∷ events) =
    (interrupted ≡ true) × (rid ≡ id) × (events ≡ [])
IsOrderly id interrupted (job_result r state ∷ events) =
    (r.request_id ≡ id) × (r.cancelled ≡ interrupted) × is_some r.exit_code ≡ true × (events ≡ [])
IsOrderly id interrupted (_ ∷ events) = ⊥

-- The event tells how the command ended: with a result, or given up.
abbrev pub is_last : Event → Bool
is_last (job_result r state) = true
is_last (job_abort id) = true
is_last _ = false

-- An interrupt that could not be sent.
abbrev pub is_unsent : Look → Bool
is_unsent look = look.cancel && not look.sent

abbrev pub ends : Look → Bool
ends look = is_some (finished look)
