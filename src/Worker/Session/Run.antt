-- ===== src/Worker/Session/Run.antt =====
-- client.rs, `run_session`: its start, its loop and its end.
use shiitake.Prelude.{
  Bool, true, false, Option, none, some, List, [], ◌∷◌, ◌++◌, map, if◌then◌else◌, is_some, is_none,
  Str, str,
}
use shiitake.Prelude.Map.{Map, insert, keys}
use shiitake.Api.Wire.{SessionOpenFrame, PtyOpenFrame, Frame}
use shiitake.Worker.Session.{
  Act, send_frame, spawn, purge, cancel_job, shutdown, Session, Shell, start_ready,
}
use shiitake.Worker.Session.Handle.{Event, Step, on_event}

pub data PtyOutcome : Type 0 where
  done : Frame → PtyOutcome
  session_lost : PtyOutcome

-- The loop over the events; the Boolean tells whether it has ended.
unfoldable pub session_loop : Shell → List (Event × Bool) → Session → Step
unfolding start_ready on_event
session_loop shell [] s = let (acts, s') = start_ready shell s in (is_none s'.close_error, acts, s')
session_loop shell ((event, sent) ∷ events) s =
    let (started, s') = start_ready shell s in
    let (more, acts, s'') = on_event sent event s' in
    let later = session_loop shell events s'' in
    if is_some s'.close_error
    then (false, started, s')
    else if more
    then (later.0, started ++ acts ++ later.1, later.2)
    else (false, started ++ acts, s'')

-- What follows the loop.
unfoldable pub finish : Session → List Act × PtyOutcome
finish s = (
  map cancel_job (keys s.running) ++ shutdown ∷ [] ++ map purge (keys s.running),
  if s.lost
      then session_lost
      else done (Frame.session_closed s.opened.session_id s.close_error true),
)

-- The environment of the first job; `home` is the account's, where there is one.
unfoldable pub start_env : SessionOpenFrame → Option Str → Map Str
start_env opened home =
    let env = insert (str "TERM") (str "xterm-256color") opened.env in
    elim home [ none ↦ env | some dir ↦ insert (str "HOME") dir env ]

abbrev pub shell_of : SessionOpenFrame → PtyOpenFrame
shell_of opened = record {
  session_id = opened.session_id;
  command = str "bash" ∷ str "-i" ∷ [];
  working_dir = opened.working_dir;
  env = opened.env;
  cols = opened.cols;
  rows = opened.rows;
  drop_to = opened.drop_to;
}

unfoldable pub new_session : SessionOpenFrame → Option Str → Session
unfolding start_env
new_session opened home = record {
  opened = opened;
  running = [];
  queued = [];
  stateful_running = none;
  shell_completion = none;
  current_workdir = opened.working_dir;
  current_env = start_env opened home;
  close_error = none;
  lost = false;
}

-- The answers of the start: the shell's, and the socket's to `SessionReady`.
pub record Start : Type 0 where
  pub spawned : Option Str
  pub ready_sent : Bool
  pub home : Option Str

-- All of `run_session`. No outcome: the events given do not end it.
unfoldable pub run_session :
    Shell → Start → SessionOpenFrame → List (Event × Bool) → List Act × Option PtyOutcome
unfolding new_session session_loop finish
run_session shell start opened events = elim start.spawned [
  | some e ↦
      let error = str "could not start session shell: " ++ e in
      (
        spawn (shell_of opened)
            ∷ send_frame (Frame.session_ready opened.session_id (some error))
            ∷ [],
        some (done (Frame.session_closed opened.session_id (some error) true)),
      )
  | none ↦
      let ready = send_frame (Frame.session_ready opened.session_id none) in
      let (more, acts, s) = session_loop shell events (new_session opened start.home) in
      let (last, outcome) = finish s in
      if start.ready_sent
      then (
        spawn (shell_of opened) ∷ ready ∷ acts ++ (if more then [] else last),
        if more then none else some outcome,
      )
      else (spawn (shell_of opened) ∷ ready ∷ shutdown ∷ [], some session_lost)
]
