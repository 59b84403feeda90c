-- ===== src/Worker/Session/Order.antt =====
-- client.rs, `run_session`: the order of the starts.
use shiitake.Prelude.{
  ◌≤◌, ◌≡◌, refl, ◌⊎◌, inl, Bool, true, false, none, List, [], ◌∷◌, ◌++◌, map, arith, is_some,
  length,
}
use shiitake.Api.Wire.{ExecId, SessionCommandMode, stateful, parallel, ExecuteFrame, errored, Frame}
use shiitake.Worker.Session.{
  Act, send_frame, run_job, watch_job, purge, Session, Shell, max_jobs, with_state, start_stateful,
  start_queued, start_ready,
}
use shiitake.Worker.Session.Jobs.{started}

-- The commands that left the queue: started, or answered because the setup failed.
abbrev pub taken : List Act → List ExecId
taken [] = []
taken (run_job execute ∷ acts) = execute.request_id ∷ taken acts
taken (watch_job execute ∷ acts) = execute.request_id ∷ taken acts
taken (send_frame (Frame.result r) ∷ acts) = r.request_id ∷ taken acts
taken (act ∷ acts) = taken acts

abbrev pub ids : List (ExecuteFrame × SessionCommandMode) → List ExecId
ids = map λ job. job.0.request_id

-- A setup that failed has its files removed.
abbrev pub setup_failed : List Act → Bool
setup_failed [] = false
setup_failed (purge id ∷ acts) = true
setup_failed (act ∷ acts) = setup_failed acts

start_stateful-taken :
    (shell : Shell) (execute : ExecuteFrame) (s : Session)
    → (start_stateful shell execute s).1.close_error ≡ none
    → (taken (start_stateful shell execute s).0 ≡ execute.request_id ∷ [])
      × ((start_stateful shell execute s).1.queued ≡ s.queued)
      × ((is_some (start_stateful shell execute s).1.stateful_running ≡ true)
          ⊎ (setup_failed (start_stateful shell execute s).0 ≡ true))
unfolding start_stateful errored
start_stateful-taken shell execute s h = ground arith

abbrev Leaves : List ExecId → List Act × Session → Type 0
Leaves before (acts, s) =
    s.close_error ≡ none
    → (taken acts ++ ids s.queued ≡ before)
      × ((s.queued ≡ [])
          ⊎ (is_some s.stateful_running ≡ true)
          ⊎ (max_jobs ≤ length s.running)
          ⊎ (setup_failed acts ≡ true))

start_queued-Leaves :
    (shell : Shell) (queue : List (ExecuteFrame × SessionCommandMode)) (s : Session)
    → Leaves (ids queue) (start_queued shell queue s)
unfolding start_queued
start_queued-Leaves shell [] s goes_on = (refl, inl refl)
start_queued-Leaves shell ((execute, stateful) ∷ rest) s goes_on =
    ground (arith, start_stateful-taken shell (with_state s execute) (record s { queued = rest }))
start_queued-Leaves shell ((execute, parallel) ∷ rest) s goes_on =
    ground (arith, start_queued-Leaves shell rest (started execute s))

-- The start of what waits takes from the front of the queue, in its order, and stops only where the
-- queue is empty, a stateful command runs, the limit is reached or a stateful command could not be set
-- up; each command that left the queue is started, or answered because its setup failed. The shell
-- takes what is written to it.
pub start_ready-taken :
    (shell : Shell) (s : Session)
    → (start_ready shell s).1.close_error ≡ none
    → let (acts, s') = start_ready shell s in
      (taken acts ++ ids s'.queued ≡ ids s.queued)
      × ((s'.queued ≡ [])
          ⊎ (is_some s'.stateful_running ≡ true)
          ⊎ (max_jobs ≤ length s'.running)
          ⊎ (setup_failed acts ≡ true))
unfolding start_ready
start_ready-taken shell s goes_on = start_queued-Leaves shell s.queued s goes_on
