-- ===== src/Worker/Serve/Dirty.antt =====
-- client.rs, `run`: the reconnection after a report that could not be sent.
use shiitake.Prelude.{
  ℕ, ◌+◌, ◌%◌, ◌≡◌, refl, ap, Bool, true, false, Option, none, some, List, [], ◌∷◌, ◌++◌, arith, ok,
}
use shiitake.Api.Wire.{ExecuteFrame, ResultFrame, Frame, protocol_version}
use shiitake.Worker.Serve.{ClientConfig, Work, execute, text, Deed, connect, send, perform}
use shiitake.Worker.Serve.Rounds.{
  SessionEnd, closed, Round, u64, is_exiting, told, conclude, Served, proceed, turn, reconnect,
  Connection, hello_frame, serve_session, exits, run_client, command_done,
}
use shiitake.Worker.Serve.Clean.{walk, walk-append, told-walk, is_fenced}

-- A connection that is greeted and brings one command, which is run to its end.
abbrev pub with_command : ExecuteFrame → ResultFrame → Round → Connection
with_command frame result r = record {
  connect_error = none;
  hello_sent = true;
  answers = (text (Frame.hello_ack protocol_version), true) ∷ [];
  rounds =
      record r { inbound = text (Frame.execute frame) ∷ []; command = command_done result } ∷ [];
}

walk-none : (ds : List Deed) → walk none ds ≡ none
walk-none [] = refl
walk-none (d ∷ ds) = walk-none ds

proceed_dirty :
    (work : Work) (acts : List Deed) (served : ℕ) (ended : Option SessionEnd) (later : Served)
    → walk (some false) (proceed (perform work ∷ acts) served ended later).0 ≡ none
unfolding proceed
proceed_dirty work acts served none later = walk-none (acts ++ later.0)
proceed_dirty work acts served (some reason) later = walk-none acts

session_dirty :
    (cfg : ClientConfig) (served : ℕ) (r : Round) (frame : ExecuteFrame) (result : ResultFrame)
    → walk (some false) (serve_session cfg served (with_command frame result r)).0 ≡ none
unfolding serve_session turn hello_frame
session_dirty cfg served r frame result =
    let r' : Round = record r {
      inbound = text (Frame.execute frame) ∷ [];
      command = command_done result;
    } in
    let concluded = conclude (is_exiting cfg ((served + 1) % u64)) (Frame.result result) r' in
    proceed_dirty (execute frame) concluded.0 ((served + 1) % u64) concluded.1
      ([], (served + 1) % u64, none)

-- What a connection does whose one report is not sent.
abbrev first_acts : ClientConfig → ℕ → Round → ExecuteFrame → ResultFrame → List Deed
first_acts cfg served r frame result =
    connect
    ∷ send (hello_frame cfg)
    ∷ perform (execute frame)
    ∷ told (is_exiting cfg ((served + 1) % u64)) (Frame.result result) r

conclude_unreported :
    (exiting : Bool) (frame : Frame) (r : Round)
    → r.reported ≡ false
    → conclude exiting frame r ≡ (told exiting frame r, some closed)
unfolding conclude
conclude_unreported exiting frame r h = ground arith

unreported_session :
    (cfg : ClientConfig) (served : ℕ) (r : Round) (frame : ExecuteFrame) (result : ResultFrame)
    → is_fenced cfg served r ≡ false
    → serve_session cfg served (with_command frame result r)
      ≡ (first_acts cfg served r frame result, (served + 1) % u64, some (ok closed))
unfolding serve_session turn proceed conclude told
unreported_session cfg served r frame result h =
    let r' : Round = record r {
      inbound = text (Frame.execute frame) ∷ [];
      command = command_done result;
    } in
    let silent : r.reported ≡ false = ground arith in
    rw (conclude_unreported (is_exiting cfg ((served + 1) % u64)) (Frame.result result) r' silent)
      refl

first_walk :
    (cfg : ClientConfig) (served : ℕ) (r : Round) (frame : ExecuteFrame) (result : ResultFrame)
    → is_fenced cfg served r ≡ false
    → walk (some true) (first_acts cfg served r frame result) ≡ some false
unfolding hello_frame
first_walk cfg served r frame result h =
    ground (arith, told-walk (is_exiting cfg ((served + 1) % u64)) (Frame.result result) r)

run_goes_on :
    (cfg : ClientConfig) (served : ℕ) (c : Connection) (rest : List Connection) (acts : List Deed)
    (served' : ℕ)
    → serve_session cfg served c ≡ (acts, served', some (ok closed))
    → run_client cfg served (c ∷ rest) ≡ (
      acts ++ (run_client cfg served' rest).0,
      (run_client cfg served' rest).1,
      (run_client cfg served' rest).2,
    )
unfolding run_client exits
run_goes_on cfg served c rest acts served' h =
    ap (λ (t : Served). reconnect t (run_client cfg t.1 rest)) h

-- Where a command's report cannot be sent and the reset before it failed, or was left out because the
-- quota is reached, the worker connects again and begins the next command in the used sandbox.
pub run_client_dirty :
    (cfg : ClientConfig) (served : ℕ) (r r' : Round) (frame frame' : ExecuteFrame)
    (result result' : ResultFrame)
    → is_fenced cfg served r ≡ false
    → walk
        (some true)
        (run_client cfg served
          (with_command frame result r ∷ with_command frame' result' r' ∷ [])).0
      ≡ none
unfolding run_client hello_frame
run_client_dirty cfg served r r' frame frame' result result' h =
    let first = unreported_session cfg served r frame result h in
    let second = session_dirty cfg ((served + 1) % u64) r' frame' result' in
    let c' = with_command frame' result' r' in
    let acts = (serve_session cfg ((served + 1) % u64) c').0 in
    let ended_dirty : walk (some false) (acts ++ []) ≡ none =
      rw (walk-append (some false) acts [], second) refl in
    let last : walk (some false) (run_client cfg ((served + 1) % u64) (c' ∷ [])).0 ≡ none =
      ground (arith, second, ended_dirty) in
    rw (run_goes_on cfg served _ (c' ∷ []) _ _ first) (
      rw
        (
          walk-append (some true) (first_acts cfg served r frame result)
              (run_client cfg ((served + 1) % u64) (c' ∷ [])).0,
          first_walk cfg served r frame result h,
        )
        last)
