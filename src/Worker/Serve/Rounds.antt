-- ===== src/Worker/Serve/Rounds.antt =====
-- client.rs: `serve_session` and `run`, the worker's life. The outcomes of the work and of the resets
-- are arguments.
use shiitake.Prelude.{
  ℕ, ◌+◌, ◌%◌, Bool, true, false, not, ◌&&◌, Option, none, some, List, [], ◌∷◌, ◌++◌, leb, ◌==◌,
  if◌then◌else◌, Str, str, Result, ok, err,
}
use shiitake.Api.Wire.{ResultFrame, Frame, protocol_version}
use shiitake.Worker.Session.Run.{PtyOutcome, done, session_lost}
use shiitake.Worker.Serve.{
  ClientConfig, location, Work, execute, Inbound, ping, close, failed, Deed, connect, send, pong,
  perform, reset, hang_up, handshake, next_execute,
}

pub data SessionEnd : Type 0 where
  restart_quota_reached reset_failed closed lost_mid_command : SessionEnd

pub data CmdOutcome : Type 0 where
  command_done : ResultFrame → CmdOutcome
  command_lost : CmdOutcome

-- One turn of the loop in `serve_session`: what it reads, how the work ends, what is read while the
-- reset runs, how the reset ends (a panic of its task is a failure), whether the report could be sent.
pub record Round : Type 0 where
  pub inbound : List Inbound
  pub command : CmdOutcome
  pub terminal : PtyOutcome
  pub during_reset : List Inbound
  pub reset_ok : Bool
  pub reported : Bool

-- Phase 2: the frame to report, or a lost connection.
unfoldable pub work_report : Work → Round → Option Frame
work_report (execute frame) r = elim r.command [
  | command_done result ↦ some (Frame.result result)
  | command_lost ↦ none
]
work_report _ r = elim r.terminal [ done frame ↦ some frame | session_lost ↦ none ]

-- The messages during a reset: pings are answered until the connection is lost.
unfoldable pub reset_wait : List Inbound → List Deed
reset_wait [] = []
reset_wait (ping ∷ rest) = pong ∷ reset_wait rest
reset_wait (close ∷ rest) = []
reset_wait (failed e ∷ rest) = []
reset_wait (_ ∷ rest) = reset_wait rest

-- The report as it is sent.
unfoldable pub report_frame : Bool → Bool → Frame → Frame
report_frame reset_bad exiting (Frame.session_closed id error reusable) =
    Frame.session_closed id (if reset_bad then some (str "sandbox reset failed") else error)
      (not reset_bad && not exiting)
report_frame reset_bad exiting frame = frame

abbrev pub u64 : ℕ
u64 = 18_446_744_073_709_551_616

abbrev pub is_exiting : ClientConfig → ℕ → Bool
is_exiting cfg served = not (cfg.restart_after == 0) && leb cfg.restart_after served

-- What is sent for the report, the reset before it included.
unfoldable pub told : Bool → Frame → Round → List Deed
unfolding reset_wait report_frame
told exiting frame r =
    let cleaned = if exiting then [] else reset_wait r.during_reset ++ reset r.reset_ok ∷ [] in
    cleaned ++ send (report_frame (not exiting && not r.reset_ok) exiting frame) ∷ []

-- Phases 3 and 4, once the work is done: what is done, and the end of the connection if it ends.
unfoldable pub conclude : Bool → Frame → Round → List Deed × Option SessionEnd
unfolding told
conclude exiting frame r =
    if not r.reported
    then (told exiting frame r, some closed)
    else if exiting
    then (told exiting frame r ++ hang_up ∷ [], some restart_quota_reached)
    else if not r.reset_ok
    then (told exiting frame r ++ hang_up ∷ [], some reset_failed)
    else (told exiting frame r, none)

-- The deeds of a connection, the counter that it keeps, and its end, or `none` where it goes on.
abbrev pub Served : Type 0
Served = List Deed × ℕ × Option (Result SessionEnd Str)

-- The end of one turn, before the turns that follow.
unfoldable pub proceed : List Deed → ℕ → Option SessionEnd → Served → Served
proceed acts served none later = (acts ++ later.0, later.1, later.2)
proceed acts served (some reason) later = (acts, served, some (ok reason))

-- One turn with its work.
unfoldable pub turn : ClientConfig → ℕ → Round → List Deed → Work → Option Frame → Served → Served
unfolding proceed conclude
turn cfg served r read work none later =
    (read ++ perform work ∷ [], served, some (ok lost_mid_command))
turn cfg served r read work (some frame) later =
    let served' = (served + 1) % u64 in
    let (acts, ended) = conclude (is_exiting cfg served') frame r in
    proceed (read ++ perform work ∷ acts) served' ended later

-- One turn, by what `next_execute` gives.
unfoldable pub take_turn :
    ClientConfig → ℕ → Round → List Deed → Option (Result (Option Work) Str) → Served → Served
unfolding turn work_report
take_turn cfg served r read none later = (read, served, none)
take_turn cfg served r read (some (err e)) later = (read, served, some (err e))
take_turn cfg served r read (some (ok none)) later = (read, served, some (ok closed))
take_turn cfg served r read (some (ok (some work))) later =
    turn cfg served r read work (work_report work r) later

-- The loop of `serve_session`.
unfoldable pub serve_rounds : ClientConfig → ℕ → List Round → Served
unfolding next_execute take_turn
serve_rounds cfg served [] = ([], served, none)
serve_rounds cfg served (r ∷ rounds) =
    let (read, next) = next_execute r.inbound in
    let later = serve_rounds cfg ((served + 1) % u64) rounds in
    take_turn cfg served r read next later

-- One connection: an error before the handshake or `none`, and what follows.
pub record Connection : Type 0 where
  pub connect_error : Option Str
  pub hello_sent : Bool
  pub answers : List (Inbound × Bool)
  pub rounds : List Round

unfoldable pub hello_frame : ClientConfig → Frame
unfolding location
hello_frame cfg = Frame.hello cfg.worker_id protocol_version cfg.profile (location cfg)

-- A connection after the handshake's answer, before the turns that follow.
unfoldable pub greeted : List Deed → ℕ → Option (Result (Unit {0}) Str) → Served → Served
greeted opening served none later = (opening, served, none)
greeted opening served (some (err e)) later = (opening, served, some (err e))
greeted opening served (some (ok t)) later = (opening ++ later.0, later.1, later.2)

unfoldable pub serve_session : ClientConfig → ℕ → Connection → Served
unfolding hello_frame handshake serve_rounds greeted
serve_session cfg served c = elim c.connect_error [
  | some e ↦ (connect ∷ [], served, some (err e))
  | none ↦
      let (acts, answer) = handshake c.answers in
      if not c.hello_sent
      then (connect ∷ send (hello_frame cfg) ∷ [], served, some (err (str "send Hello")))
      else greeted (connect ∷ send (hello_frame cfg) ∷ acts) served answer
          (serve_rounds cfg served c.rounds)
]

-- Whether the process exits after a connection's end: all but a close or an error do.
unfoldable pub exits : Result SessionEnd Str → Bool
exits (ok restart_quota_reached) = true
exits (ok reset_failed) = true
exits (ok lost_mid_command) = true
exits (ok closed) = false
exits (err e) = false

-- After a connection the process exits, or goes on with the next.
unfoldable pub reconnect : Served → Served → Served
unfolding exits
reconnect (acts, served, none) later = (acts, served, none)
reconnect (acts, served, some reason) later =
    if exits reason then (acts, served, some reason) else (acts ++ later.0, later.1, later.2)

-- `run`: over the connections, what is done, the counter, and how the process exits, if it does.
unfoldable pub run_client : ClientConfig → ℕ → List Connection → Served
unfolding reconnect
run_client cfg served [] = ([], served, none)
run_client cfg served (c ∷ rest) =
    reconnect (serve_session cfg served c) (run_client cfg (serve_session cfg served c).1 rest)
