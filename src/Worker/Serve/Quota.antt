-- ===== src/Worker/Serve/Quota.antt =====
-- client.rs, `run`: the quota of commands.
use native.Mathlib.Nat.{zero-add, add-zero}
use shiitake.Prelude.{
  ℕ, ◌+◌, ◌%◌, ◌≤◌, ◌<◌, ◌≡◌, refl, inl, inr, Bool, true, false, not, ◌&&◌, Option, none, some,
  List, [], ◌∷◌, ◌++◌, arith, if◌then◌else◌, Bool-cases, Option-cases, count, All, count-append,
  Str, Result, ok, err,
}
use shiitake.Api.Wire.{Frame}
use shiitake.Worker.Serve.{
  ClientConfig, Work, Inbound, text, bad_text, ping, close, failed, other, silence, Deed, send,
  perform, reset, hang_up, handshake, next_execute,
}
use shiitake.Worker.Serve.Rounds.{
  SessionEnd, restart_quota_reached, reset_failed, closed, lost_mid_command, Round, work_report,
  reset_wait, report_frame, u64, is_exiting, told, conclude, Served, proceed, turn, take_turn,
  greeted, reconnect, serve_rounds, Connection, serve_session, run_client,
}

abbrev pub is_perform : Deed → Bool
is_perform (perform work) = true
is_perform _ = false

-- Every report is sent.
abbrev pub AllReported : List Connection → Type 0
AllReported [] = Unit
AllReported (c ∷ rest) = All (λ r. r.reported ≡ true) c.rounds × AllReported rest

-- How the counter stands to the work, with the quota `most`.
abbrev pub Counts : ℕ → ℕ → Served → Type 0
Counts most served (acts, served', some (ok restart_quota_reached)) =
    served + count is_perform acts ≡ most
Counts most served (acts, served', some (ok reset_failed)) = served + count is_perform acts ≤ most
Counts most served (acts, served', some (ok lost_mid_command)) =
    served + count is_perform acts ≤ most
Counts most served (acts, served', some (ok closed)) =
    (served' ≡ served + count is_perform acts) × (served' < most)
Counts most served (acts, served', some (err e)) =
    (served' ≡ served + count is_perform acts) × (served' < most)
Counts most served (acts, served', none) =
    (served' ≡ served + count is_perform acts) × (served' < most)

quiet-reset_wait : (inbound : List Inbound) → count is_perform (reset_wait inbound) ≡ 0
unfolding reset_wait
quiet-reset_wait [] = refl
quiet-reset_wait (ping ∷ rest) = rw zero-add (quiet-reset_wait rest)
quiet-reset_wait (close ∷ rest) = refl
quiet-reset_wait (failed e ∷ rest) = refl
quiet-reset_wait (_ ∷ rest) = quiet-reset_wait rest

quiet-next_execute : (inbound : List Inbound) → count is_perform (next_execute inbound).0 ≡ 0
unfolding next_execute
quiet-next_execute [] = refl
quiet-next_execute (text (Frame.execute frame) ∷ rest) = refl
quiet-next_execute (text (Frame.pty_open frame) ∷ rest) = refl
quiet-next_execute (text (Frame.session_open frame) ∷ rest) = refl
quiet-next_execute (text _ ∷ rest) = quiet-next_execute rest
quiet-next_execute (bad_text e ∷ rest) = refl
quiet-next_execute (ping ∷ rest) = rw zero-add (quiet-next_execute rest)
quiet-next_execute (close ∷ rest) = refl
quiet-next_execute (failed e ∷ rest) = refl
quiet-next_execute (silence ∷ rest) = refl
quiet-next_execute (other ∷ rest) = quiet-next_execute rest

quiet-handshake : (inbound : List (Inbound × Bool)) → count is_perform (handshake inbound).0 ≡ 0
unfolding handshake
quiet-handshake [] = refl
quiet-handshake ((text (Frame.hello_ack version), sent) ∷ rest) = refl
quiet-handshake ((text (Frame.execute frame), sent) ∷ rest) = refl
quiet-handshake ((text _, sent) ∷ rest) = refl
quiet-handshake ((bad_text e, sent) ∷ rest) = refl
quiet-handshake ((ping, sent) ∷ rest) = ground (arith, quiet-handshake rest)
quiet-handshake ((close, sent) ∷ rest) = refl
quiet-handshake ((failed e, sent) ∷ rest) = refl
quiet-handshake ((silence, sent) ∷ rest) = refl
quiet-handshake ((other, sent) ∷ rest) = quiet-handshake rest

quiet-told :
    (exiting : Bool) (frame : Frame) (r : Round) → count is_perform (told exiting frame r) ≡ 0
unfolding told
quiet-told exiting frame r = ground (
  arith,
  quiet-reset_wait r.during_reset,
  count-append is_perform (reset_wait r.during_reset) (reset r.reset_ok ∷ []),
  count-append is_perform (reset_wait r.during_reset ++ reset r.reset_ok ∷ [])
      (send (report_frame (not exiting && not r.reset_ok) exiting frame) ∷ []),
)

-- A report that is sent ends the life of the worker exactly at the quota or after a failed reset.
conclude_lem :
    (exiting : Bool) (frame : Frame) (r : Round)
    → r.reported ≡ true
    → (count is_perform (conclude exiting frame r).0 ≡ 0)
      × ((conclude exiting frame r).1 ≡ (
          if exiting
          then some restart_quota_reached
          else if r.reset_ok
          then none
          else some reset_failed))
unfolding conclude
conclude_lem exiting frame r h = ground (
  arith,
  quiet-told exiting frame r,
  count-append is_perform (told exiting frame r) (hang_up ∷ []),
)

-- What is done first adds its own work.
shift-Counts :
    (most served n : ℕ) (acts : List Deed) (later : Served)
    → count is_perform acts ≡ n
    → Counts most (served + n) later
    → Counts most served (acts ++ later.0, later.1, later.2)
shift-Counts most served n acts (more, served', none) one h =
    omega (arith, h, count-append is_perform acts more)
shift-Counts most served n acts (more, served', some (err e)) one h =
    omega (arith, h, count-append is_perform acts more)
shift-Counts most served n acts (more, served', some (ok restart_quota_reached)) one h =
    omega (arith, h, count-append is_perform acts more)
shift-Counts most served n acts (more, served', some (ok reset_failed)) one h =
    omega (arith, h, count-append is_perform acts more)
shift-Counts most served n acts (more, served', some (ok closed)) one h =
    omega (arith, h, count-append is_perform acts more)
shift-Counts most served n acts (more, served', some (ok lost_mid_command)) one h =
    omega (arith, h, count-append is_perform acts more)

-- The end of a turn whose report was sent.
proceed-Counts :
    (most served : ℕ) (acts : List Deed) (later : Served) (exiting clean : Bool)
    (ended : Option SessionEnd)
    → ended
      ≡ (if exiting then some restart_quota_reached else if clean then none else some reset_failed)
    → count is_perform acts ≡ 1
    → served < most
    → (exiting ≡ true → served + 1 ≡ most)
    → (exiting ≡ false → Counts most (served + 1) later)
    → Counts most served (proceed acts (served + 1) ended later)
unfolding proceed
proceed-Counts most served acts later true clean ended e one low full ih =
    rw e (omega (arith, full refl, one))
proceed-Counts most served acts later false true ended e one low full ih =
    rw e (shift-Counts most served 1 acts later one (ih refl))
proceed-Counts most served acts later false false ended e one low full ih =
    rw e (omega (arith, low, one))

module _ (cfg : ClientConfig) (small : cfg.restart_after < u64) where
  turn-Counts :
      (served : ℕ) (r : Round) (read : List Deed) (work : Work) (report : Option Frame)
      (later : Served)
      → served < cfg.restart_after
      → r.reported ≡ true
      → count is_perform read ≡ 0
      → (served + 1 < cfg.restart_after → Counts cfg.restart_after (served + 1) later)
      → Counts cfg.restart_after served (turn cfg served r read work report later)
  unfolding turn proceed
  turn-Counts served r read work none later low sent quiet ih =
      omega (arith, low, count-append is_perform read (perform work ∷ []))
  turn-Counts served r read work (some frame) later low sent quiet ih =
      let next : (served + 1) % u64 ≡ served + 1 = omega arith in
      let exiting = is_exiting cfg (served + 1) in
      let (acts, ended) = conclude exiting frame r in
      let (idle, reason) = conclude_lem exiting frame r sent in
      let one = count-append is_perform read (perform work ∷ acts) in
      rw next (
        proceed-Counts cfg.restart_after served (read ++ perform work ∷ acts) later exiting
          r.reset_ok ended reason (omega (arith, one, idle, quiet)) low (λ at_quota. ground arith)
          (λ below. ih (ground arith)))

  take_turn-Counts :
      (served : ℕ) (r : Round) (read : List Deed) (next : Option (Result (Option Work) Str))
      (later : Served)
      → served < cfg.restart_after
      → r.reported ≡ true
      → count is_perform read ≡ 0
      → (served + 1 < cfg.restart_after → Counts cfg.restart_after (served + 1) later)
      → Counts cfg.restart_after served (take_turn cfg served r read next later)
  unfolding take_turn
  take_turn-Counts served r read none later low sent quiet ih = omega (arith, low, quiet)
  take_turn-Counts served r read (some (err e)) later low sent quiet ih = omega (arith, low, quiet)
  take_turn-Counts served r read (some (ok none)) later low sent quiet ih =
      omega (arith, low, quiet)
  take_turn-Counts served r read (some (ok (some work))) later low sent quiet ih =
      turn-Counts served r read work (work_report work r) later low sent quiet ih

  serve_rounds-Counts :
      (rounds : List Round) (served : ℕ)
      → served < cfg.restart_after
      → All (λ r. r.reported ≡ true) rounds
      → Counts cfg.restart_after served (serve_rounds cfg served rounds)
  unfolding serve_rounds
  serve_rounds-Counts [] served low h = omega (arith, low)
  serve_rounds-Counts (r ∷ rounds) served low h =
      let next : (served + 1) % u64 ≡ served + 1 = omega arith in
      take_turn-Counts served r (next_execute r.inbound).0 (next_execute r.inbound).1
        (serve_rounds cfg ((served + 1) % u64) rounds) low h.0 (quiet-next_execute r.inbound)
        (rw next (λ below. serve_rounds-Counts rounds (served + 1) below h.1))

  greeted-Counts :
      (served : ℕ) (acts : List Deed) (answer : Option (Result (Unit {0}) Str)) (later : Served)
      → served < cfg.restart_after
      → count is_perform acts ≡ 0
      → Counts cfg.restart_after served later
      → Counts cfg.restart_after served (greeted acts served answer later)
  unfolding greeted
  greeted-Counts served acts none later low idle h = omega (arith, low, idle)
  greeted-Counts served acts (some (err e)) later low idle h = omega (arith, low, idle)
  greeted-Counts served acts (some (ok t)) later low idle h =
      shift-Counts cfg.restart_after served 0 acts later idle (rw add-zero h)

  serve_session-Counts :
      (c : Connection) (served : ℕ)
      → served < cfg.restart_after
      → All (λ r. r.reported ≡ true) c.rounds
      → Counts cfg.restart_after served (serve_session cfg served c)
  unfolding serve_session
  serve_session-Counts c served low h = elim (Option-cases c.connect_error) [
    | inr (e, failed_to) ↦ rw (failed_to, serve_session) (omega (arith, low))
    | inl connected ↦ elim (Bool-cases c.hello_sent) [
      | inr unsent ↦ rw (connected, unsent, serve_session, if◌then◌else◌) (omega (arith, low))
      | inl sent ↦
          rw (connected, sent, serve_session, if◌then◌else◌)
            (greeted-Counts served _ _ _ low (omega (arith, quiet-handshake c.answers))
              (serve_rounds-Counts c.rounds served low h))
    ]
  ]

  reconnect-Counts :
      (served : ℕ) (t later : Served)
      → Counts cfg.restart_after served t
      → (t.1 < cfg.restart_after → Counts cfg.restart_after t.1 later)
      → Counts cfg.restart_after served (reconnect t later)
  unfolding reconnect
  reconnect-Counts served (acts, served', none) later h ih = h
  reconnect-Counts served (acts, served', some (err e)) later h ih =
      shift-Counts cfg.restart_after served (count is_perform acts) acts later refl
        (rw (← h.0) (ih h.1))
  reconnect-Counts served (acts, served', some (ok closed)) later h ih =
      shift-Counts cfg.restart_after served (count is_perform acts) acts later refl
        (rw (← h.0) (ih h.1))
  reconnect-Counts served (acts, served', some (ok restart_quota_reached)) later h ih = h
  reconnect-Counts served (acts, served', some (ok reset_failed)) later h ih = h
  reconnect-Counts served (acts, served', some (ok lost_mid_command)) later h ih = h

  run_client-Counts_from :
      (connections : List Connection) (served : ℕ)
      → served < cfg.restart_after
      → AllReported connections
      → Counts cfg.restart_after served (run_client cfg served connections)
  unfolding run_client
  run_client-Counts_from [] served low h = omega (arith, low)
  run_client-Counts_from (c ∷ rest) served low h =
      reconnect-Counts served (serve_session cfg served c) _ (serve_session-Counts c served low h.0)
        (λ below. run_client-Counts_from rest (serve_session cfg served c).1 below h.1)

-- With a quota, over any connections where every report is sent: a process that goes on has performed
-- fewer pieces of work than the quota, and as many as its counter says; one that ends by its quota has
-- performed exactly that many; one that ends by a failed reset or a lost connection no more.
pub run_client-Counts :
    (cfg : ClientConfig) (connections : List Connection)
    → 0 < cfg.restart_after
    → cfg.restart_after < u64
    → AllReported connections
    → Counts cfg.restart_after 0 (run_client cfg 0 connections)
run_client-Counts cfg connections some_quota small h =
    run_client-Counts_from cfg small connections 0 some_quota h
