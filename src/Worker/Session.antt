-- ===== src/Worker/Session.antt =====
-- shiitake-worker/src/client.rs: `run_session`, a session's jobs, its queue and its shell. What the
-- method does is a list of acts. The order in which `select!` sees events, the shell, the disk and the
-- answers of the socket are arguments.
pub mod Handle
pub mod Run
pub mod Jobs
pub mod Answers
pub mod Ledger
pub mod Coherent
pub mod Order
use shiitake.Prelude.{
  ℕ, zero, suc, ◌+◌, ◌-◌, ◌*◌, ◌/◌, ◌%◌, ◌^◌, ◌≤◌, ◌<◌, String, ◌≡◌, refl, sym, ap, ◌∙◌, ◌≢◌, ◌↔◌,
  ◌⊎◌, inl, inr, Bool, true, false, not, ◌&&◌, ◌||◌, Option, none, some, List, [], ◌∷◌, ◌++◌, map,
  arith, ltb, leb, ◌==◌, if◌then◌else◌, ltb→lt, leb→le, ==_iff, Bool-cases, Option-cases, is_some,
  is_none, length, take, drop, is_empty, all, any, retain, count, All, length-append, count-append,
  All-append, take-length-append, drop-length-append, take-append-drop, length-take, All-retain,
  Str, str, str_eq, str_eq_iff, str_eq_refl, str_le, str_le-total, is_ascii_alphanumeric, Result,
  ok, err, ◌>>=◌, ok_or, ℤ, pos, negsuc,
}
use shiitake.Prelude.Map.{
  Map, get, contains_key, insert, remove, adjust, values, keys, get-insert, get-remove, get-adjust,
  AllValues, get-AllValues, insert-AllValues, remove-AllValues, adjust-AllValues,
  adjust_at-AllValues, retain-AllValues, IsUnique, insert-IsUnique, remove-IsUnique,
  adjust-IsUnique, retain-IsUnique, keep_if, get-retain, map_values, get-map_values,
  map_values-AllValues, any-keys-retain,
}
use shiitake.Api.Wire.{
  ExecId, SessionOpenFrame, SessionCommandMode, stateful, parallel, ExecuteFrame, PtyOpenFrame,
  ResultFrame, errored, default_usage, Frame,
}
use shiitake.Api.Chunk.{OutputStream, OutputChunk, decode, stream_byte}
use shiitake.Worker.Marker.{ShellCompletion, feed, new_completion}

-- What the session does, in its order.
pub data Act : Type 0 where
  send_frame : Frame → Act
  send_chunk : OutputChunk → Act
  send_pong : Act
  spawn : PtyOpenFrame → Act
  run_job : ExecuteFrame → Act
  watch_job : ExecuteFrame → Act
  write_input : Str → Act
  resize : ℕ → ℕ → Act
  purge : ExecId → Act
  cancel_job : ExecId → Act
  shutdown : Act

-- The variables of the loop. A job's cancel channel is the last value that it was sent.
pub record Session : Type 0 where
  pub opened : SessionOpenFrame
  pub running : Map Bool
  pub queued : List (ExecuteFrame × SessionCommandMode)
  pub stateful_running : Option ExecId
  pub shell_completion : Option ShellCompletion
  pub current_workdir : Str
  pub current_env : Map Str
  pub close_error : Option Str
  pub lost : Bool

-- `prepare_stateful_job` gives the line and the marker or an error, a write to the shell no error or one.
pub record Shell : Type 0 where
  pub prepare : ExecuteFrame → Result (Str × Str) Str
  pub write : Str → Option Str

abbrev pub max_jobs : ℕ
max_jobs = 32

-- A job as it leaves the queue.
unfoldable pub with_state : Session → ExecuteFrame → ExecuteFrame
with_state s execute = record execute {
  working_dir = s.current_workdir;
  env = s.current_env;
  drop_to = s.opened.drop_to;
}

unfoldable pub start_stateful : Shell → ExecuteFrame → Session → List Act × Session
start_stateful shell execute s = elim (shell.prepare execute) [
  | ok (line, marker) ↦ elim (shell.write line) [
    | some e ↦ (
      write_input line ∷ [],
      record s { close_error = some (str "could not submit shell command: " ++ e) },
    )
    | none ↦ (
      write_input line ∷ watch_job execute ∷ [],
      record s {
        shell_completion = some (new_completion marker);
        stateful_running = some execute.request_id;
        running = insert execute.request_id false s.running;
      },
    )
  ]
  | err e ↦ (
    purge execute.request_id
        ∷ send_frame
            (Frame.result (errored execute.request_id (str "stateful command setup: " ++ e)))
        ∷ [],
    s,
  )
]

-- The loop over `queued`, which the second argument is.
unfoldable pub start_queued :
    Shell → List (ExecuteFrame × SessionCommandMode) → Session → List Act × Session
unfolding with_state start_stateful
start_queued shell [] s = ([], record s { queued = [] })
start_queued shell ((execute, mode) ∷ rest) s =
    let execute' = with_state s execute in
    let more =
      start_queued shell rest (record s { running = insert execute'.request_id false s.running }) in
    if is_none s.stateful_running && ltb (length s.running) max_jobs
    then elim mode [
      | stateful ↦ start_stateful shell execute' (record s { queued = rest })
      | parallel ↦ (run_job execute' ∷ more.0, more.1)
    ]
    else ([], record s { queued = (execute, mode) ∷ rest })

unfoldable pub start_ready : Shell → Session → List Act × Session
start_ready shell s = start_queued shell s.queued s
