-- ===== src/Worker/Pty.antt =====
-- client.rs: `run_pty`, an interactive terminal outside a session; and which shell pty.rs starts. The
-- reads of the terminal, the socket's messages and its answers are arguments.
use shiitake.Prelude.{
  ℕ, Bool, Option, none, some, List, [], ◌∷◌, ◌++◌, if◌then◌else◌, is_empty, Str, str, Result, ok,
  err,
}
use shiitake.Prelude.Strings.{trim, split_whitespace}
use shiitake.Api.Wire.{PtyOpenFrame, Frame}
use shiitake.Worker.Exec.{ExitStatus, exit_of}
use shiitake.Worker.Serve.{Inbound, text, bad_text, ping, close, failed, other, silence}
use shiitake.Worker.Session.Run.{PtyOutcome, done, session_lost}

pub data PtyAct : Type 0 where
  send_output : Str → PtyAct
  write_keys : Str → PtyAct
  set_size : ℕ → ℕ → PtyAct
  answer_ping : PtyAct
  wait_shell : PtyAct
  hang_up_shell : PtyAct

-- What `select!` sees: a read of the terminal, keystrokes, and any other message; with each read and
-- each ping goes whether the answer could be sent.
pub data PtySight : Type 0 where
  shell_read : Result Str Str → Bool → PtySight
  keystrokes : Str → PtySight
  message : Inbound → Bool → PtySight

-- How the loop ends: the shell is gone, the socket is lost, or the terminal was closed.
pub data PtyEnd : Type 0 where
  shell_gone socket_lost told_to_close : PtyEnd

-- The loop; no end while it goes on.
unfoldable pub pump : List PtySight → List PtyAct × Option PtyEnd
pump [] = ([], none)
pump (shell_read (err e) sent ∷ rest) = ([], some shell_gone)
pump (shell_read (ok []) sent ∷ rest) = ([], some shell_gone)
pump (shell_read (ok (b ∷ bs)) sent ∷ rest) =
    let later = pump rest in
    if sent
    then (send_output (b ∷ bs) ∷ later.0, later.1)
    else (send_output (b ∷ bs) ∷ [], some socket_lost)
pump (keystrokes bytes ∷ rest) = let later = pump rest in (write_keys bytes ∷ later.0, later.1)
pump (message (text (Frame.pty_resize id cols rows)) sent ∷ rest) =
    let later = pump rest in (set_size cols rows ∷ later.0, later.1)
pump (message (text (Frame.pty_close id)) sent ∷ rest) = ([], some told_to_close)
pump (message (text _) sent ∷ rest) = pump rest
pump (message (bad_text e) sent ∷ rest) = pump rest
pump (message ping sent ∷ rest) =
    let later = pump rest in
    if sent then (answer_ping ∷ later.0, later.1) else (answer_ping ∷ [], some socket_lost)
pump (message close sent ∷ rest) = ([], some socket_lost)
pump (message (failed e) sent ∷ rest) = ([], some socket_lost)
pump (message silence sent ∷ rest) = ([], some socket_lost)
pump (message other sent ∷ rest) = pump rest

-- What follows the loop.
unfoldable pub close_pty : PtyOpenFrame → Result ExitStatus Str → PtyEnd → PtyAct × PtyOutcome
unfolding exit_of
close_pty opened (ok status) shell_gone =
    let (code, signal) = exit_of (some status) in
    (wait_shell, done (Frame.pty_exit opened.session_id code signal none))
close_pty opened (err e) shell_gone = (
  wait_shell,
  done (Frame.pty_exit opened.session_id none none (some (str "could not reap shell: " ++ e))),
)
close_pty opened waited socket_lost = (hang_up_shell, session_lost)
close_pty opened waited told_to_close =
    (hang_up_shell, done (Frame.pty_exit opened.session_id none none none))

-- `run_pty`, by whether the terminal could be opened; no outcome while the loop goes on.
unfoldable pub run_pty :
    PtyOpenFrame
    → Option Str
    → List PtySight
    → Result ExitStatus Str
    → List PtyAct × Option PtyOutcome
unfolding pump close_pty
run_pty opened (some e) sights waited =
    ([], some (done (Frame.pty_exit opened.session_id none none (some e))))
run_pty opened none sights waited =
    let (acts, ended) = pump sights in
    elim ended [
      | none ↦ (acts, none)
      | some how ↦
          let (act, outcome) = close_pty opened waited how in (acts ++ act ∷ [], some outcome)
    ]

-- `default_shell`, from the variable SHIITAKE_PTY_SHELL.
unfoldable pub default_shell : Option Str → List Str
default_shell none = str "bash" ∷ str "-i" ∷ []
default_shell (some s) =
    if is_empty (trim s) then str "bash" ∷ str "-i" ∷ [] else split_whitespace s

unfoldable pub shell_argv : PtyOpenFrame → Option Str → List Str
unfolding default_shell
shell_argv opened variable =
    if is_empty opened.command then default_shell variable else opened.command
