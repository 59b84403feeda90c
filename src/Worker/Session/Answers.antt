-- ===== src/Worker/Session/Answers.antt =====
-- client.rs, `run_session`: what the loop answers, over any events.
use shiitake.Prelude.{
  ℕ, ◌+◌, ◌≤◌, ◌≡◌, refl, Bool, true, none, [], ◌∷◌, arith, if◌then◌else◌, length, count,
  length-append, count-append, Str, str_eq, str_eq_iff, Result, ok, err,
}
use shiitake.Prelude.Map.{Map, contains_key}
use shiitake.Api.Wire.{ExecId, SessionCommandMode, ExecuteFrame, ResultFrame, errored, Frame}
use shiitake.Worker.Session.{Session, max_jobs}
use shiitake.Worker.Session.Handle.{
  Event, shell_output, job_result, job_abort, text, binary, Step, send_or_lose, on_shell_output,
  report, on_result, on_abort, has_id, on_session_run, on_cancel, on_text, on_stdin, on_event,
}
use shiitake.Worker.Session.Jobs.{
  is_answer, pending, IsWithin, submits, IsOwn, count-remove_queued, length-remove_queued,
  count-any, held-remove, held-adjust, length-adjust, length-remove,
}

-- What one turn does to the account of a job.
abbrev pub Turns : ExecId → ℕ → Session → Step → Type 0
Turns id n s (more, acts, s') =
    (count (is_answer id) acts ≤ n + pending id s.queued s)
    × (more ≡ true
        → count (is_answer id) acts + pending id s'.queued s' ≡ n + pending id s.queued s)

module _ (id : ExecId) where
  on_session_run-Turns :
      (execute : ExecuteFrame) (mode : SessionCommandMode) (s : Session)
      → Turns id (if str_eq execute.request_id id then 1 else 0) s (on_session_run execute mode s)
  unfolding on_session_run errored
  on_session_run-Turns execute mode s =
      ground (arith, count-append (has_id id) s.queued ((execute, mode) ∷ []))

  on_cancel-Turns : (k : ExecId) (s : Session) → Turns id 0 s (on_cancel k s)
  unfolding on_cancel errored
  on_cancel-Turns k s =
      ground (arith, held-adjust k id s.running, count-remove_queued k id s.queued)

  on_text-Turns :
      (frame : Frame) (s : Session)
      → Turns id (submits id (text frame) s.opened.session_id) s (on_text frame s)
  unfolding on_text
  on_text-Turns (Frame.session_run session execute mode) s =
      ground (arith, on_session_run-Turns execute mode s)
  on_text-Turns (Frame.cancel k) s = on_cancel-Turns k s
  on_text-Turns (Frame.session_resize session cols rows) s = ground arith
  on_text-Turns (Frame.session_close session) s = ground arith
  on_text-Turns _ s = (omega arith, λ _. omega arith)

  report-Turns :
      (sent : Bool) (r : ResultFrame) (s : Session)
      → contains_key r.request_id s.running ≡ true
      → Turns id 0 s (report sent r s)
  unfolding report send_or_lose
  report-Turns sent r s own = ground (arith, held-remove r.request_id id s.running)

  on_result-Turns :
      (sent : Bool) (r : ResultFrame) (state : Result (Str × Map Str) Str) (s : Session)
      → contains_key r.request_id s.running ≡ true
      → Turns id 0 s (on_result sent r state s)
  unfolding on_result
  on_result-Turns sent r (ok (cwd, env)) s own = ground (
    arith,
    report-Turns sent r s own,
    report-Turns sent r
        (record s {
          current_workdir = cwd;
          current_env = env;
          stateful_running = none;
          shell_completion = none;
        })
        own,
  )
  on_result-Turns sent r (err e) s own =
      ground (arith, report-Turns sent r s own, str_eq_iff r.request_id id)

  on_abort-Turns :
      (k : ExecId) (s : Session) → contains_key k s.running ≡ true → Turns id 0 s (on_abort k s)
  unfolding on_abort
  on_abort-Turns k s own = ground (arith, str_eq_iff k id)

  on_shell_output-Turns :
      (sent : Bool) (bytes : Str) (s : Session) → Turns id 0 s (on_shell_output sent bytes s)
  unfolding on_shell_output
  on_shell_output-Turns sent bytes s = ground arith

  on_stdin-Turns : (bytes : Str) (s : Session) → Turns id 0 s (on_stdin bytes s)
  unfolding on_stdin
  on_stdin-Turns bytes s = ground arith

  pub on_event-Turns :
      (sent : Bool) (event : Event) (s : Session)
      → IsOwn event s
      → Turns id (submits id event s.opened.session_id) s (on_event sent event s)
  unfolding on_event send_or_lose
  on_event-Turns sent (job_result r state) s own = on_result-Turns sent r state s own
  on_event-Turns sent (job_abort k) s own = on_abort-Turns k s own
  on_event-Turns sent (text frame) s own = on_text-Turns frame s
  on_event-Turns sent (shell_output bytes) s own = on_shell_output-Turns sent bytes s
  on_event-Turns sent (binary bytes) s own = on_stdin-Turns bytes s
  on_event-Turns sent _ s own = ground arith

  once_without :
      (sent : Bool) (event : Event) (s : Session)
      → IsOwn event s
      → submits id event s.opened.session_id ≡ 0
      → pending id s.queued s ≤ 1
      → (on_event sent event s).0 ≡ true
      → pending id (on_event sent event s).2.queued (on_event sent event s).2 ≤ 1
  once_without sent event s own none_new once more =
      omega (arith, (on_event-Turns sent event s own).1 more, none_new)

  on_event_once :
      (sent : Bool) (event : Event) (s : Session)
      → IsOwn event s
      → pending id s.queued s ≤ 1
      → (on_event sent event s).0 ≡ true
      → pending id (on_event sent event s).2.queued (on_event sent event s).2 ≤ 1
  unfolding on_event on_text on_session_run
  on_event_once sent (text (Frame.session_run session execute mode)) s own once more = ground (
    arith,
    count-append (has_id id) s.queued ((execute, mode) ∷ []),
    count-any execute.request_id s.queued,
    str_eq_iff execute.request_id id,
  )
  on_event_once sent event s own once more = once_without sent event s own refl once more

-- The jobs of the loop are no more than the limit.
abbrev IsFew : Session → Type 0
IsFew s = length s.running + length s.queued ≤ max_jobs

shell_output-IsFew :
    (sent : Bool) (bytes : Str) (s : Session) → IsFew s → IsFew (on_shell_output sent bytes s).2
unfolding on_shell_output
shell_output-IsFew sent bytes s few = ground arith

result-IsFew :
    (sent : Bool) (r : ResultFrame) (state : Result (Str × Map Str) Str) (s : Session)
    → IsFew s
    → IsFew (on_result sent r state s).2
unfolding on_result report send_or_lose
result-IsFew sent r (ok (cwd, env)) s few = ground (arith, length-remove r.request_id s.running)
result-IsFew sent r (err e) s few = ground (arith, length-remove r.request_id s.running)

text-IsFew : (frame : Frame) (s : Session) → IsFew s → IsFew (on_text frame s).2
unfolding on_text on_session_run on_cancel
text-IsFew (Frame.session_run session execute mode) s few =
    ground (arith, length-append s.queued ((execute, mode) ∷ []))
text-IsFew (Frame.cancel k) s few =
    ground (arith, length-adjust k s.running, length-remove_queued k s.queued)
text-IsFew (Frame.session_resize session cols rows) s few = ground arith
text-IsFew _ s few = few

binary-IsFew : (bytes : Str) (s : Session) → IsFew s → IsFew (on_stdin bytes s).2
unfolding on_stdin
binary-IsFew bytes s few = ground arith

on_event-IsFew :
    (sent : Bool) (event : Event) (s : Session) → IsFew s → IsFew (on_event sent event s).2
unfolding on_event send_or_lose
on_event-IsFew sent (shell_output bytes) s few = shell_output-IsFew sent bytes s few
on_event-IsFew sent (job_result r state) s few = result-IsFew sent r state s few
on_event-IsFew sent (job_abort k) s few = unfold on_abort in few
on_event-IsFew sent (text frame) s few = text-IsFew frame s few
on_event-IsFew sent (binary bytes) s few = binary-IsFew bytes s few
on_event-IsFew sent _ s few = ground arith

text_opened : (frame : Frame) (s : Session) → (on_text frame s).2.opened ≡ s.opened
unfolding on_text on_session_run on_cancel
text_opened (Frame.session_run session execute mode) s = ground arith
text_opened (Frame.cancel k) s = ground arith
text_opened (Frame.session_resize session cols rows) s = ground arith
text_opened _ s = refl

pub on_event_opened :
    (sent : Bool) (event : Event) (s : Session) → (on_event sent event s).2.opened ≡ s.opened
unfolding on_event send_or_lose on_shell_output on_result report on_abort on_stdin
on_event_opened sent (text frame) s = text_opened frame s
on_event_opened sent (job_result r (ok (cwd, env))) s = ground arith
on_event_opened sent (job_result r (err e)) s = ground arith
on_event_opened sent _ s = ground arith

pub on_event-IsWithin :
    (sent : Bool) (event : Event) (s : Session)
    → IsOwn event s
    → IsWithin s.queued s
    → (on_event sent event s).0 ≡ true
    → IsWithin (on_event sent event s).2.queued (on_event sent event s).2
on_event-IsWithin sent event s own w more = record {
  once = λ id. on_event_once id sent event s own (w.once id) more;
  few = on_event-IsFew sent event s w.few;
}
