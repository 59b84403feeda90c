-- ===== src/Worker/Session/Coherent.antt =====
-- client.rs, `run_session`: the invariant of the session's state.
use shiitake.Prelude.{
  ◌≡◌, refl, inl, inr, Bool, true, false, Option, none, some, List, [], ◌∷◌, arith, if◌then◌else◌,
  Bool-cases, Option-cases, is_some, Str, str_eq, str_eq_iff, str_eq_refl, Result, ok, err,
}
use shiitake.Prelude.Map.{
  Map, get, contains_key, insert, remove, adjust, get-insert, get-remove, get-adjust,
}
use shiitake.Api.Wire.{
  ExecId, SessionOpenFrame, SessionCommandMode, stateful, parallel, ExecuteFrame, ResultFrame,
  Frame,
}
use shiitake.Worker.Marker.{ShellCompletion}
use shiitake.Worker.Session.{Session, Shell, start_stateful, start_queued, start_ready}
use shiitake.Worker.Session.Handle.{
  Event, shell_output, job_result, text, binary, send_or_lose, on_shell_output, report, on_result,
  on_abort, on_session_run, on_cancel, on_text, on_stdin, on_event,
}
use shiitake.Worker.Session.Run.{session_loop, new_session}
use shiitake.Worker.Session.Jobs.{IsWithin, start_ready-IsWithin, started}
use shiitake.Worker.Session.Answers.{on_event-IsWithin}
use shiitake.Worker.Session.Ledger.{AllOwn}

-- The running stateful command is one of the running jobs, and its end marker is looked for exactly
-- while there is one.
abbrev Coherent : Option ExecId → Option ShellCompletion → Map Bool → Type 0
Coherent none completion running = completion ≡ none
Coherent (some id) completion running =
    (contains_key id running ≡ true) × (is_some completion ≡ true)

abbrev pub IsCoherent : Session → Type 0
IsCoherent s = Coherent s.stateful_running s.shell_completion s.running

Coherent-insert :
    (o : Option ExecId) (c : Option ShellCompletion) (k : ExecId) (m : Map Bool)
    → Coherent o c m
    → Coherent o c (insert k false m)
Coherent-insert none c k m h = h
Coherent-insert (some id) c k m h = ground (arith, get-insert k id false m)

Coherent-adjust :
    (o : Option ExecId) (c : Option ShellCompletion) (k : ExecId) (m : Map Bool)
    → Coherent o c m
    → Coherent o c (adjust k (λ _. true) m)
Coherent-adjust none c k m h = h
Coherent-adjust (some id) c k m h = ground (arith, get-adjust k id (λ _. true) m)

Coherent-remove :
    (o : Option ExecId) (c : Option ShellCompletion) (k : ExecId) (m : Map Bool)
    → elim o [ none ↦ false | some id ↦ str_eq id k ] ≡ false
    → Coherent o c m
    → Coherent o c (remove k m)
Coherent-remove none c k m other_job h = h
Coherent-remove (some id) c k m other_job h =
    ground (arith, get-remove k id m, str_eq_iff k id, str_eq_iff id k)

result-IsCoherent :
    (sent : Bool) (r : ResultFrame) (state : Result (Str × Map Str) Str) (s : Session)
    → IsCoherent s
    → IsCoherent (on_result sent r state s).2
unfolding on_result report send_or_lose
result-IsCoherent sent r (ok (cwd, env)) s h =
    ground (arith, Coherent-remove s.stateful_running s.shell_completion r.request_id s.running)
result-IsCoherent sent r (err e) s h =
    ground (arith, Coherent-remove s.stateful_running s.shell_completion r.request_id s.running)

text-IsCoherent : (frame : Frame) (s : Session) → IsCoherent s → IsCoherent (on_text frame s).2
unfolding on_text on_session_run on_cancel
text-IsCoherent (Frame.session_run id execute mode) s h = ground arith
text-IsCoherent (Frame.cancel id) s h =
    ground (arith, Coherent-adjust s.stateful_running s.shell_completion id s.running)
text-IsCoherent (Frame.session_resize id cols rows) s h = ground arith
text-IsCoherent _ s h = h

shell_output-IsCoherent :
    (sent : Bool) (bytes : Str) (s : Session)
    → IsCoherent s
    → IsCoherent (on_shell_output sent bytes s).2
unfolding on_shell_output
shell_output-IsCoherent sent bytes s h = ground arith

binary-IsCoherent : (bytes : Str) (s : Session) → IsCoherent s → IsCoherent (on_stdin bytes s).2
unfolding on_stdin
binary-IsCoherent bytes s h = ground arith

start_queued-IsCoherent :
    (shell : Shell) (queue : List (ExecuteFrame × SessionCommandMode)) (s : Session)
    → IsCoherent s
    → IsCoherent (start_queued shell queue s).1
unfolding start_queued start_stateful
start_queued-IsCoherent shell [] s h = h
start_queued-IsCoherent shell ((execute, stateful) ∷ rest) s h = ground (
  arith,
  get-insert execute.request_id execute.request_id false s.running,
  str_eq_refl execute.request_id,
)
start_queued-IsCoherent shell ((execute, parallel) ∷ rest) s h = ground (
  arith,
  start_queued-IsCoherent shell rest (started execute s)
      (Coherent-insert s.stateful_running s.shell_completion execute.request_id s.running h),
)

on_event-IsCoherent :
    (sent : Bool) (event : Event) (s : Session)
    → IsCoherent s
    → IsCoherent (on_event sent event s).2
unfolding on_event send_or_lose on_abort
on_event-IsCoherent sent (shell_output bytes) s h = shell_output-IsCoherent sent bytes s h
on_event-IsCoherent sent (job_result r state) s h = result-IsCoherent sent r state s h
on_event-IsCoherent sent (text frame) s h = text-IsCoherent frame s h
on_event-IsCoherent sent (binary bytes) s h = binary-IsCoherent bytes s h
on_event-IsCoherent sent event s h = ground arith

session_loop-IsCoherent :
    (shell : Shell) (events : List (Event × Bool)) (s : Session)
    → IsCoherent s
    → IsCoherent (session_loop shell events s).2
unfolding session_loop start_ready
session_loop-IsCoherent shell [] s h = start_queued-IsCoherent shell s.queued s h
session_loop-IsCoherent shell ((event, sent) ∷ events) s h =
    let s' = (start_queued shell s.queued s).1 in
    let begun = start_queued-IsCoherent shell s.queued s h in
    let turned = on_event-IsCoherent sent event s' begun in
    ground (arith, session_loop-IsCoherent shell events (on_event sent event s').2 turned)

session_loop-IsWithin :
    (shell : Shell) (events : List (Event × Bool)) (s : Session)
    → IsWithin s.queued s
    → AllOwn shell events s
    → (session_loop shell events s).0 ≡ true
    → IsWithin (session_loop shell events s).2.queued (session_loop shell events s).2
unfolding session_loop
session_loop-IsWithin shell [] s w own goes = start_ready-IsWithin shell s w
session_loop-IsWithin shell ((event, sent) ∷ events) s w own goes =
    let s' = (start_ready shell s).1 in
    let begun = start_ready-IsWithin shell s w in
    elim (Option-cases s'.close_error) [
      | inr (e, closing) ↦ absurd (cc (rw (closing, if◌then◌else◌) at goes))
      | inl goes_on ↦ elim (Bool-cases (on_event sent event s').0) [
        | inr stops ↦ absurd (cc (rw (goes_on, stops, if◌then◌else◌) at goes))
        | inl more ↦
            rw (goes_on, more, if◌then◌else◌)
              (session_loop-IsWithin shell events (on_event sent event s').2
                (on_event-IsWithin sent event s' own.0 begun more) own.1
                (rw (goes_on, more, if◌then◌else◌) at goes))
      ]
    ]

-- Over any events of a session that goes on: a job runs or waits at most once, there are at most 32,
-- the stateful command that runs is one of the running jobs, and the end marker is looked for exactly
-- while there is one. The tasks report only of jobs that run.
pub run_session-IsCoherent :
    (shell : Shell) (opened : SessionOpenFrame) (home : Option Str) (events : List (Event × Bool))
    → AllOwn shell events (new_session opened home)
    → (session_loop shell events (new_session opened home)).0 ≡ true
    → let s = (session_loop shell events (new_session opened home)).2 in
      IsCoherent s × IsWithin s.queued s
unfolding new_session get
run_session-IsCoherent shell opened home events own goes = (
  session_loop-IsCoherent shell events (new_session opened home) refl,
  session_loop-IsWithin shell events (new_session opened home)
      (record { once = λ k. omega arith; few = omega arith }) own goes,
)
