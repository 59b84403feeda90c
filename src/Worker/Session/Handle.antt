-- ===== src/Worker/Session/Handle.antt =====
-- client.rs, `run_session`: the branches of the loop's `select!`.
use shiitake.Prelude.{
  ◌+◌, Bool, true, false, not, ◌&&◌, ◌||◌, none, some, List, [], ◌∷◌, ◌++◌, leb, ◌==◌,
  if◌then◌else◌, length, is_empty, any, Str, str, str_eq, Result, ok, err,
}
use shiitake.Prelude.Map.{Map, contains_key, remove, adjust}
use shiitake.Api.Wire.{
  ExecId, SessionCommandMode, ExecuteFrame, ResultFrame, errored, default_usage, Frame,
}
use shiitake.Api.Chunk.{OutputStream, decode, stream_byte}
use shiitake.Worker.Marker.{feed}
use shiitake.Worker.Session.{
  Act, send_frame, send_chunk, send_pong, write_input, resize, purge, cancel_job, Session, max_jobs,
}

-- The branches of `select!`. A text message is a frame, or `other` where it does not parse; the state
-- of the shell comes with the result that it is read for.
pub data Event : Type 0 where
  shell_output : Str → Event
  shell_failed : Event
  job_output : ExecId → OutputStream → Str → Event
  job_result : ResultFrame → Result (Str × Map Str) Str → Event
  job_interrupt : Event
  job_abort : ExecId → Event
  deadline : Event
  text : Frame → Event
  binary : Str → Event
  ping : Event
  close : Event
  other : Event

-- Whether the loop goes on, what was done, and the state.
abbrev pub Step : Type 0
Step = Bool × List Act × Session

-- `if sink.send(..).await.is_err() { lost = true; break; }`
unfoldable pub send_or_lose : Bool → Act → Session → Step
send_or_lose sent act s =
    if sent then (true, act ∷ [], s) else (false, act ∷ [], record s { lost = true })

unfoldable pub feed_shell : Session → Str → Str × Session
feed_shell s bytes = elim s.shell_completion [
  | none ↦ (bytes, s)
  | some completion ↦
      let (output, completion') = feed completion bytes in
      (output, record s { shell_completion = some completion' })
]

unfoldable pub on_shell_output : Bool → Str → Session → Step
unfolding feed_shell send_or_lose
on_shell_output sent bytes s =
    let (output, s') = feed_shell s bytes in
    if is_empty bytes
    then (false, [], s)
    else if is_empty output
    then (true, [], s')
    else send_or_lose sent
        (send_chunk
          (record { stream = OutputStream.terminal; id = s.opened.session_id; bytes = output }))
        s'

abbrev pub is_stateful_result : ResultFrame → Session → Bool
is_stateful_result r s = elim s.stateful_running [ none ↦ false | some id ↦ str_eq id r.request_id ]

-- `running.remove` and the report.
unfoldable pub report : Bool → ResultFrame → Session → Step
unfolding send_or_lose
report sent r s =
    send_or_lose sent (send_frame (Frame.result r))
      (record s { running = remove r.request_id s.running })

unfoldable pub on_result : Bool → ResultFrame → Result (Str × Map Str) Str → Session → Step
unfolding report
on_result sent r state s =
    if is_stateful_result r s
    then elim state [
      | ok (cwd, env) ↦
          let (more, acts, s') = report sent r (record s {
            current_workdir = cwd;
            current_env = env;
            stateful_running = none;
            shell_completion = none;
          }) in
          (more, purge r.request_id ∷ acts, s')
      | err e ↦
          let error = str "could not read completed shell state: " ++ e in
          (
            false,
            send_frame (Frame.result (record r { error = some error })) ∷ [],
            record s { close_error = some error },
          )
    ]
    else report sent r s

unfoldable pub on_abort : ExecId → Session → Step
on_abort id s = (
  false,
  send_frame (
        Frame.result (record {
          request_id = id;
          exit_code = none;
          exit_signal = none;
          cancelled = true;
          usage = default_usage;
          error = some (str "stateful command did not stop");
        }))
      ∷ [],
  record s { close_error = some (str "stateful command did not stop") },
)

abbrev pub has_id : ExecId → ExecuteFrame × SessionCommandMode → Bool
has_id id (execute, mode) = str_eq execute.request_id id

unfoldable pub on_session_run : ExecuteFrame → SessionCommandMode → Session → Step
on_session_run execute mode s =
    if contains_key execute.request_id s.running
      || any (has_id execute.request_id) s.queued
      || leb max_jobs (length s.running + length s.queued)
    then (
      true,
      send_frame (
            Frame.result (
              errored execute.request_id
                (str "duplicate job or session concurrency limit reached")))
          ∷ [],
      s,
    )
    else (true, [], record s { queued = s.queued ++ (execute, mode) ∷ [] })

-- `position(..)` and `VecDeque::remove`
unfoldable pub remove_queued :
    ExecId → List (ExecuteFrame × SessionCommandMode) → List (ExecuteFrame × SessionCommandMode)
remove_queued id [] = []
remove_queued id (job ∷ rest) = if has_id id job then rest else job ∷ remove_queued id rest

unfoldable pub on_cancel : ExecId → Session → Step
unfolding remove_queued
on_cancel id s =
    if contains_key id s.running
    then (true, cancel_job id ∷ [], record s { running = adjust id (λ _. true) s.running })
    else if any (has_id id) s.queued
    then (
      true,
      send_frame
            (Frame.result (record (errored id (str "cancelled before start")) { cancelled = true }))
          ∷ [],
      record s { queued = remove_queued id s.queued },
    )
    else (true, [], s)

unfoldable pub on_text : Frame → Session → Step
unfolding on_session_run on_cancel
on_text (Frame.session_run id execute mode) s =
    if str_eq id s.opened.session_id then on_session_run execute mode s else (true, [], s)
on_text (Frame.cancel id) s = on_cancel id s
on_text (Frame.session_resize id cols rows) s =
    if str_eq id s.opened.session_id then (true, resize cols rows ∷ [], s) else (true, [], s)
on_text (Frame.session_close id) s = (not (str_eq id s.opened.session_id), [], s)
on_text _ s = (true, [], s)

unfoldable pub on_stdin : Str → Session → Step
unfolding decode
on_stdin bytes s = elim (decode bytes) [
  | err e ↦ (true, [], s)
  | ok chunk ↦
      if stream_byte chunk.stream == stream_byte OutputStream.stdin
        && str_eq chunk.id s.opened.session_id
      then (true, write_input chunk.bytes ∷ [], s)
      else (true, [], s)
]

-- One turn of `select!`; `sent` is the answer of the socket where the branch reads it.
unfoldable pub on_event : Bool → Event → Session → Step
unfolding on_shell_output on_result on_abort on_text on_stdin send_or_lose
on_event sent (shell_output bytes) s = on_shell_output sent bytes s
on_event sent shell_failed s = (false, [], s)
on_event sent (job_output id which bytes) s =
    send_or_lose sent (send_chunk (record { stream = which; id = id; bytes = bytes })) s
on_event sent (job_result r state) s = on_result sent r state s
on_event sent job_interrupt s = (true, write_input (0x03 ∷ []) ∷ [], s)
on_event sent (job_abort id) s = on_abort id s
on_event sent deadline s = (false, [], record s { lost = true })
on_event sent (text frame) s = on_text frame s
on_event sent (binary bytes) s = on_stdin bytes s
on_event sent ping s = send_or_lose sent send_pong s
on_event sent close s = (false, [], record s { lost = true })
on_event sent other s = (true, [], s)
