-- ===== src/Worker/Serve/Clean.antt =====
-- client.rs, `run`: the sandbox between two pieces of work.
use shiitake.Prelude.{
  ℕ, ◌+◌, ◌%◌, ◌≡◌, refl, ap, Bool, true, false, not, ◌&&◌, ◌||◌, Option, none, some, List, [], ◌∷◌,
  ◌++◌, arith, if◌then◌else◌, is_some, Str, Result, ok, err,
}
use shiitake.Api.Wire.{Frame}
use shiitake.Worker.Serve.{
  ClientConfig, Work, Inbound, text, bad_text, ping, close, failed, other, silence, Deed, connect,
  send, perform, reset, hang_up, handshake, next_execute,
}
use shiitake.Worker.Serve.Rounds.{
  SessionEnd, Round, work_report, reset_wait, report_frame, u64, is_exiting, told, conclude, Served,
  proceed, turn, take_turn, serve_rounds, Connection, hello_frame, serve_session, exits, run_client,
}

-- The sandbox, step by step: `some true` is clean, `some false` used, and `none` that work was begun in
-- a used one, or a session reported as reusable from one.
abbrev pub step : Option Bool → Deed → Option Bool
step none d = none
step (some clean) (perform work) = if clean then some false else none
step (some clean) (reset succeeded) = some succeeded
step (some clean) (send (Frame.session_closed id error true)) = if clean then some true else none
step (some clean) _ = some clean

abbrev pub walk : Option Bool → List Deed → Option Bool
walk o [] = o
walk o (d ∷ ds) = walk (step o d) ds

pub walk-append : (o : Option Bool) (xs ys : List Deed) → walk o (xs ++ ys) ≡ walk (walk o xs) ys
walk-append o [] ys = refl
walk-append o (d ∷ xs) ys = walk-append (step o d) xs ys

walk-reset_wait : (c : Bool) (inbound : List Inbound) → walk (some c) (reset_wait inbound) ≡ some c
unfolding reset_wait
walk-reset_wait c [] = refl
walk-reset_wait c (ping ∷ rest) = walk-reset_wait c rest
walk-reset_wait c (close ∷ rest) = refl
walk-reset_wait c (failed e ∷ rest) = refl
walk-reset_wait c (_ ∷ rest) = walk-reset_wait c rest

walk-next_execute :
    (c : Bool) (inbound : List Inbound) → walk (some c) (next_execute inbound).0 ≡ some c
unfolding next_execute
walk-next_execute c [] = refl
walk-next_execute c (text (Frame.execute frame) ∷ rest) = refl
walk-next_execute c (text (Frame.pty_open frame) ∷ rest) = refl
walk-next_execute c (text (Frame.session_open frame) ∷ rest) = refl
walk-next_execute c (text _ ∷ rest) = walk-next_execute c rest
walk-next_execute c (bad_text e ∷ rest) = refl
walk-next_execute c (ping ∷ rest) = walk-next_execute c rest
walk-next_execute c (close ∷ rest) = refl
walk-next_execute c (failed e ∷ rest) = refl
walk-next_execute c (silence ∷ rest) = refl
walk-next_execute c (other ∷ rest) = walk-next_execute c rest

walk-handshake :
    (c : Bool) (inbound : List (Inbound × Bool)) → walk (some c) (handshake inbound).0 ≡ some c
unfolding handshake
walk-handshake c [] = refl
walk-handshake c ((text (Frame.hello_ack version), sent) ∷ rest) = refl
walk-handshake c ((text (Frame.execute frame), sent) ∷ rest) = refl
walk-handshake c ((text _, sent) ∷ rest) = refl
walk-handshake c ((bad_text e, sent) ∷ rest) = refl
walk-handshake c ((ping, sent) ∷ rest) = ground (arith, walk-handshake c rest)
walk-handshake c ((close, sent) ∷ rest) = refl
walk-handshake c ((failed e, sent) ∷ rest) = refl
walk-handshake c ((silence, sent) ∷ rest) = refl
walk-handshake c ((other, sent) ∷ rest) = walk-handshake c rest

-- The report of a session's end calls it reusable only after a reset that succeeded.
walk-report_frame :
    (reset_bad exiting : Bool) (frame : Frame) (rest : List Deed)
    → walk
        (some (not reset_bad && not exiting))
        (send (report_frame reset_bad exiting frame) ∷ rest)
      ≡ walk (some (not reset_bad && not exiting)) rest
unfolding report_frame
walk-report_frame true exiting (Frame.session_closed id error reusable) rest = refl
walk-report_frame false true (Frame.session_closed id error reusable) rest = refl
walk-report_frame false false (Frame.session_closed id error reusable) rest = refl
walk-report_frame reset_bad exiting _ rest = refl

-- The sandbox after the report.
abbrev pub is_cleaned : Bool → Round → Bool
is_cleaned exiting r = not (not exiting && not r.reset_ok) && not exiting

pub told-walk :
    (exiting : Bool) (frame : Frame) (r : Round)
    → walk (some false) (told exiting frame r) ≡ some (is_cleaned exiting r)
unfolding told
told-walk true frame r = walk-report_frame false true frame []
told-walk false frame r =
    rw
      (
        walk-append (some false) (reset_wait r.during_reset ++ reset r.reset_ok ∷ [])
            (send (report_frame (not r.reset_ok) false frame) ∷ []),
        walk-append (some false) (reset_wait r.during_reset) (reset r.reset_ok ∷ []),
        walk-reset_wait false r.during_reset,
      )
      (go r.reset_ok)
  where
    go :
        (ok' : Bool)
        → walk (some ok') (send (report_frame (not ok') false frame) ∷ [])
          ≡ some (not (not ok') && true)
    go true = walk-report_frame false false frame []
    go false = walk-report_frame true false frame []

conclude-walk :
    (exiting : Bool) (frame : Frame) (r : Round)
    → walk (some false) (conclude exiting frame r).0 ≡ some (is_cleaned exiting r)
unfolding conclude
conclude-walk exiting frame r =
    let sent = told-walk exiting frame r in
    let hung = walk-append (some false) (told exiting frame r) (hang_up ∷ []) in
    ground (arith, sent, hung)

-- Where the worker may serve on after a connection.
abbrev serves_on : Option (Result SessionEnd Str) → Bool
serves_on none = true
serves_on (some reason) = not (exits reason)

-- The report of a piece of work is sent, or the reset before it was made and succeeded.
abbrev pub is_fenced : ClientConfig → ℕ → Round → Bool
is_fenced cfg served r = r.reported || (r.reset_ok && not (is_exiting cfg ((served + 1) % u64)))

conclude_on :
    (exiting : Bool) (frame : Frame) (r : Round)
    → (r.reported || (r.reset_ok && not exiting)) ≡ true
    → (elim (conclude exiting frame r).1 [ none ↦ true | some reason ↦ not (exits (ok reason)) ])
      ≡ true
    → is_cleaned exiting r ≡ true
unfolding conclude exits
conclude_on exiting frame r fenced goes = ground arith

abbrev pub AllFenced : ClientConfig → ℕ → List Round → Type 0
AllFenced cfg served [] = Unit
AllFenced cfg served (r ∷ rounds) =
    (is_fenced cfg served r ≡ true) × AllFenced cfg ((served + 1) % u64) rounds

-- From a clean sandbox: no rule is broken, and it is clean where the worker serves on.
abbrev Stays : Served → Type 0
Stays (acts, served, ended) =
    (is_some (walk (some true) acts) ≡ true)
    × (serves_on ended ≡ true → walk (some true) acts ≡ some true)

proceed-Stays :
    (acts : List Deed) (served : ℕ) (c : Bool) (ended : Option SessionEnd) (later : Served)
    → Stays later
    → walk (some true) acts ≡ some c
    → (elim ended [ none ↦ true | some reason ↦ not (exits (ok reason)) ] ≡ true → c ≡ true)
    → Stays (proceed acts served ended later)
unfolding proceed
proceed-Stays acts served c none later ih walked cleaned =
    let joined = walk-append (some true) acts later.0 in
    let clean = cleaned refl in
    let all : walk (some true) (acts ++ later.0) ≡ walk (some true) later.0 =
      rw (joined, walked, clean) refl in
    (rw all ih.0, λ goes. rw all (ih.1 goes))
proceed-Stays acts served c (some reason) later ih walked cleaned =
    (rw walked refl, λ goes. rw walked (ap some (cleaned goes)))

module _ (cfg : ClientConfig) (served : ℕ) (r : Round) (later : Served) (ih : Stays later) where
  turn-Stays :
      (read : List Deed) (work : Work) (report : Option Frame)
      → walk (some true) read ≡ some true
      → is_fenced cfg served r ≡ true
      → Stays (turn cfg served r read work report later)
  unfolding turn exits
  turn-Stays read work none reading fenced =
      let walked : walk (some true) (read ++ perform work ∷ []) ≡ some false =
        rw (walk-append (some true) read (perform work ∷ []), reading) refl in
      (rw walked refl, λ goes. cc)
  turn-Stays read work (some frame) reading fenced =
      let exiting = is_exiting cfg ((served + 1) % u64) in
      let (acts, ended) = conclude exiting frame r in
      let walked : walk (some true) (read ++ perform work ∷ acts) ≡ some (is_cleaned exiting r) =
        rw (walk-append (some true) read (perform work ∷ acts), reading)
          (conclude-walk exiting frame r) in
      proceed-Stays (read ++ perform work ∷ acts) ((served + 1) % u64) (is_cleaned exiting r) ended
        later ih walked (conclude_on exiting frame r fenced)

  take_turn-Stays :
      (read : List Deed) (next : Option (Result (Option Work) Str))
      → walk (some true) read ≡ some true
      → is_fenced cfg served r ≡ true
      → Stays (take_turn cfg served r read next later)
  unfolding take_turn
  take_turn-Stays read none reading fenced = (rw reading refl, λ goes. reading)
  take_turn-Stays read (some (err e)) reading fenced = (rw reading refl, λ goes. reading)
  take_turn-Stays read (some (ok none)) reading fenced = (rw reading refl, λ goes. reading)
  take_turn-Stays read (some (ok (some work))) reading fenced =
      turn-Stays read work (work_report work r) reading fenced

serve_rounds-Stays :
    (cfg : ClientConfig) (rounds : List Round) (served : ℕ)
    → AllFenced cfg served rounds
    → Stays (serve_rounds cfg served rounds)
unfolding serve_rounds
serve_rounds-Stays cfg [] served h = (refl, λ _. refl)
serve_rounds-Stays cfg (r ∷ rounds) served h =
    take_turn-Stays cfg served r (serve_rounds cfg ((served + 1) % u64) rounds)
      (serve_rounds-Stays cfg rounds ((served + 1) % u64) h.1) (next_execute r.inbound).0
      (next_execute r.inbound).1 (walk-next_execute true r.inbound) h.0

greeting_walk :
    (cfg : ClientConfig) (answers : List (Inbound × Bool)) (rest : List Deed)
    → walk (some true) (connect ∷ send (hello_frame cfg) ∷ (handshake answers).0 ++ rest)
      ≡ walk (some true) rest
unfolding hello_frame
greeting_walk cfg answers rest =
    rw (walk-append (some true) (handshake answers).0 rest, walk-handshake true answers) refl

serve_session-Stays :
    (cfg : ClientConfig) (served : ℕ) (c : Connection)
    → AllFenced cfg served c.rounds
    → Stays (serve_session cfg served c)
unfolding serve_session
serve_session-Stays cfg served c h =
    let ih = serve_rounds-Stays cfg c.rounds served h in
    let full = greeting_walk cfg c.answers (serve_rounds cfg served c.rounds).0 in
    ground (arith, ih, full, walk-handshake true c.answers)

-- The rounds of every connection are fenced.
abbrev pub RunFenced : ClientConfig → ℕ → List Connection → Type 0
RunFenced cfg served [] = Unit
RunFenced cfg served (c ∷ rest) =
    AllFenced cfg served c.rounds × RunFenced cfg (serve_session cfg served c).1 rest

-- From a clean sandbox and over any connections, no work is begun in a sandbox that was not reset with
-- success since the last, and no session is reported reusable from one; where each report is sent or
-- the reset before it was made and succeeded.
pub run_client-IsClean :
    (cfg : ClientConfig) (connections : List Connection) (served : ℕ)
    → RunFenced cfg served connections
    → is_some (walk (some true) (run_client cfg served connections).0) ≡ true
unfolding run_client
run_client-IsClean cfg [] served h = refl
run_client-IsClean cfg (c ∷ rest) served h =
    let begun = serve_session-Stays cfg served c h.0 in
    let ih = run_client-IsClean cfg rest (serve_session cfg served c).1 h.1 in
    let joined =
      walk-append (some true) (serve_session cfg served c).0
        (run_client cfg (serve_session cfg served c).1 rest).0 in
    ground (arith, begun, ih, joined)
