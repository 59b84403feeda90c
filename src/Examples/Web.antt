-- ===== src/Examples/Web.antt =====
-- The theorems on the HTTP layer, at concrete requests.
use shiitake.Prelude.{
  ◌≡◌, refl, ◌↔◌, ◌⊎◌, true, none, some, [], ◌∷◌, ◌++◌, Str, str, str_eq, is_ascii_alphanumeric, ok,
  err,
}
use shiitake.Prelude.Map.{Map, get, insert, adjust}
use shiitake.Api.Wire.{Frame}
use shiitake.Api.Public.{CreateSessionRequest}
use shiitake.Api.Capture.{Stream, is_id_byte, stream_path, handle_dir, join, file_name, sanitize_id}
use shiitake.Pool.State.{SessionError, Effect}
use shiitake.Pool.Occupancy.{insert_all, snapshot, session_count}
use shiitake.Pool.Handles.{touch_and_snapshot, touch_session_handle, cancel}
use shiitake.Pool.Dispatch.{pop_idle, dispatch}
use shiitake.Pool.Ids.{valid_capture_id}
use shiitake.Pool.Rotation.{all_well}
use shiitake.Api.Wire.{SessionCommandMode}
use shiitake.Pool.Sessions.{OpenOutcome}
use shiitake.Pool.State.{TerminalEvent}
use shiitake.Prelude.{List, count, all}
use shiitake.Http.Terminal.{Sight, tick, client, keystrokes, control, event, serve_terminal}
use shiitake.Http.Terminal.Relay.{
  typed, resized, is_detach, to_worker, to_client, is_fit, serve_terminal-IsRelayed,
}
use shiitake.Http.Sessions.{create, run, IsTold, run-IsTold}
use shiitake.Http.Answers.{HttpError, map_error, health, ready, exec_dispatch}
use shiitake.Http.Commands.{
  Body, status, kill, read_stream, check_handle, Reaches, command_status, cancel_command,
  read_command, session_routes-AreScoped,
}
use shiitake.Http.Validate.{
  terminal_resize, IsWithin, validate_session_request, validate_session_request-IsWithin,
}
use shiitake.Prelude.Strings.{strip_prefix}
use shiitake.Http.Handshake.{
  check_tokens, extend, build_tokens, find_profile, is_profile_name, connect_scoped, Registration,
  run_socket,
}
use shiitake.Http.Handshake.Binding.{run_socket-IsBound}
use shiitake.Examples.{
  active_record, undisturbed, quiet_sending, a_session, a_command, busy_pool, an_execute,
  first_worker,
}

-- The default profile and one more.
abbrev extra : Map Str
extra = (str "root", str "secret-2") ∷ []

abbrev tokens : Map Str
tokens = (str "default", str "secret-1") ∷ (str "root", str "secret-2") ∷ []

abbrev a_hello : Frame
a_hello = Frame.hello first_worker 3 (str "root") none

abbrev a_registration : Registration
a_registration = record { worker_id = first_worker; profile = str "root"; location = none }

run_socket-IsBound_example :
    (t : Str) × (some (str "Bearer secret-2") ≡ some (str "Bearer " ++ t))
    × (get (str "root") tokens ≡ some t)
    × ((q : Str) → get q tokens ≡ some t → q ≡ str "root")
unfolding build_tokens check_tokens extend insert connect_scoped strip_prefix find_profile
    run_socket is_profile_name str_eq is_id_byte is_ascii_alphanumeric
run_socket-IsBound_example =
    run_socket-IsBound (str "secret-1") extra tokens (some (str "Bearer secret-2")) (str "root")
      (some a_hello) true (Frame.hello_ack 3 ∷ []) a_registration refl refl refl

-- A command under the URL of a session that is not its own.
session_routes-AreScoped_example :
    Reaches busy_pool (str "s-2") a_command
    ⊎ ((command_status (λ _ _. 0) (λ s. s) busy_pool 9 (str "s-2") a_command
          ≡ (busy_pool, err (404, str "unknown command")))
        × (cancel_command (λ s. s) busy_pool 9 (str "s-2") a_command
            ≡ (busy_pool, err (404, str "unknown command"), []))
        × (read_command
              (str "/capture")
              (λ _. true)
              (λ s. s)
              busy_pool
              9
              (str "s-2")
              a_command
              Stream.stdout
            ≡ (busy_pool, err (404, str "unknown command"))))
session_routes-AreScoped_example =
    session_routes-AreScoped (λ _ _. 0) (str "/capture") (λ _. true) (λ s. s) busy_pool 9
      (str "s-2") a_command Stream.stdout

abbrev a_request : CreateSessionRequest
a_request = record {
  profile = str "default";
  workdir = some (str "/work");
  env = (str "LANG", str "C") ∷ [];
  drop_to = none;
  cols = 80;
  rows = 24;
}

validate_session_request-IsWithin_example :
    ((validate_session_request a_request ≡ ok tt) ↔ IsWithin a_request)
    × ((e : HttpError) → validate_session_request a_request ≡ err e → e.0 ≡ 400)
validate_session_request-IsWithin_example = validate_session_request-IsWithin a_request

-- Two workers are registered, one of them idle.
ready_two : (ready busy_pool busy_pool 2).0 ≡ 200
unfolding ready snapshot insert_all str_eq
ready_two = refl

not_ready_three : (ready busy_pool busy_pool 3).0 ≡ 503
unfolding ready snapshot insert_all str_eq
not_ready_three = refl

health_sessions : (health busy_pool busy_pool busy_pool).workers_sessions ≡ 1
unfolding health session_count
health_sessions = refl

-- The own session's URL reaches the command.
own_output :
    (read_command (str "/c") (λ _. true) (λ s. s) busy_pool 9 a_session a_command Stream.stdout).1
    ≡ ok (Body.file (str "/c/c-1/stdout"))
unfolding read_command read_stream check_handle touch_session_handle touch_and_snapshot get adjust
    str_eq stream_path handle_dir join file_name sanitize_id is_id_byte is_ascii_alphanumeric
own_output = refl

unknown_status : (status (λ _ _. 0) busy_pool 9 (str "c-9")).1 ≡ err (404, str "unknown handle")
unfolding status touch_and_snapshot get str_eq
unknown_status = refl

own_kill : (kill busy_pool a_command).2 ≡ Effect.send 1 (Frame.cancel a_command) ∷ []
unfolding kill cancel get adjust str_eq
own_kill = refl

all_busy :
    (exec_dispatch
      (let s = busy_pool in record s { idle = [] })
      9
      (an_execute (str "c-9"))
      all_well).1
    ≡ err (429, str "all workers busy; retry shortly")
unfolding exec_dispatch dispatch pop_idle valid_capture_id is_id_byte is_ascii_alphanumeric
all_busy = refl

no_session : map_error SessionError.not_found (str "find session") ≡ (404, str "session not found")
unfolding map_error
no_session = refl

stale_resize : terminal_resize (some (80, 0)) ≡ err tt
unfolding terminal_resize
stale_resize = refl

run-IsTold_example :
    IsTold SessionCommandMode.parallel
      (some active_record)
      (some active_record)
      (λ i. i)
      none
      none
      (run busy_pool 8 undisturbed a_session
        (λ i. i)
        (str "true")
        SessionCommandMode.parallel
        none
        (λ s. s)
        quiet_sending
        none).1
unfolding get str_eq
run-IsTold_example =
    run-IsTold busy_pool 8 undisturbed a_session (λ i. i) (str "true") SessionCommandMode.parallel
      none (λ s. s) quiet_sending none

refused_create :
    (create busy_pool 8
      (str "/")
      (λ i. i)
      (let r = a_request in record r { cols = 0 })
      61
      (λ s. s)
      9
      undisturbed
      OpenOutcome.ready).1
    ≡ err (400, str "invalid profile or terminal size")
unfolding create validate_session_request is_profile_name is_id_byte is_ascii_alphanumeric
refused_create = refl

-- Keystrokes, a ping in time, a size, an output, a ping four seconds after the size, and what comes too
-- late.
abbrev some_sights : List Sight
some_sights =
    client 1000 (keystrokes (str "ls")) true
    ∷ tick 1000000000 true
    ∷ client 1000000000 (control (some (80, 24))) true
    ∷ event (some (TerminalEvent.output (str "a.txt"))) true
    ∷ tick 5000000000 true
    ∷ client 5000000001 (keystrokes (str "late")) true
    ∷ []

serve_terminal-IsRelayed_example :
    let (acts, ended) = serve_terminal a_session 500 0 some_sights in
    (ended ≡ true)
    × (count is_detach acts ≡ 1)
    × (to_worker acts ≡ typed (str "ls") ∷ resized 80 24 ∷ [])
    × (to_client acts ≡ str "a.txt")
    × (all (is_fit a_session) acts ≡ true)
serve_terminal-IsRelayed_example = serve_terminal-IsRelayed a_session 500 0 some_sights
