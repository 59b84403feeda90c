-- ===== src/Examples/Worker.antt =====
-- The theorems on the worker, at a short life of one.
use shiitake.Prelude.{
  ℕ, ◌+◌, ◌≤◌, ◌<◌, ◌≡◌, refl, ◌⊎◌, Bool, true, false, Option, none, some, List, [], ◌∷◌, ◌++◌,
  arith, is_some, length, count, Str, str, str_eq, ok,
}
use shiitake.Prelude.Map.{get, insert, remove}
use shiitake.Api.Wire.{stateful, parallel, ResultFrame, errored, Frame, protocol_version}
use shiitake.Prelude.Strings.{starts_with}
use shiitake.Worker.Marker.{feed_all, new_completion}
use shiitake.Worker.Marker.Strip.{feed_all-strip}
use shiitake.Worker.Session.{Act, Session, Shell, max_jobs, start_queued, start_ready}
use shiitake.Worker.Session.Handle.{Event, text, job_result, on_event}
use shiitake.Worker.Session.Run.{
  session_loop, new_session, PtyOutcome, session_lost, Start, run_session,
}
use shiitake.Worker.Session.Jobs.{is_answer, pending, IsWithin}
use shiitake.Worker.Session.Ledger.{run_session_answers}
use shiitake.Worker.Session.Coherent.{IsCoherent, run_session-IsCoherent}
use shiitake.Worker.Session.Order.{taken, ids, setup_failed, start_ready-taken}
use shiitake.Worker.Serve.{ClientConfig, scratch_paths, Inbound}
use shiitake.Worker.Serve.Rounds.{Round, CmdOutcome, Connection, run_client}
use shiitake.Worker.Serve.Clean.{walk, run_client-IsClean}
use shiitake.Worker.Serve.Dirty.{with_command, run_client_dirty}
use shiitake.Worker.Serve.Quota.{Counts, run_client-Counts}
use shiitake.Examples.{a_session, a_command, open_frame, an_execute}

-- The marker comes in three reads, and one byte of it is a false start.
feed_all-strip_example :
    let (output, s) =
      feed_all
        (new_completion (7 ∷ 8 ∷ 9 ∷ []))
        ((1 ∷ 7 ∷ []) ∷ (7 ∷ 8 ∷ []) ∷ (9 ∷ 2 ∷ []) ∷ []) in
    ◌≡◌ {A = Str × Bool} (output ++ s.pending, s.seen) (1 ∷ 7 ∷ 2 ∷ [], true)
    × (s.complete ≡ s.seen)
    × (length s.pending < 3)
unfolding starts_with
feed_all-strip_example =
    feed_all-strip (7 ∷ 8 ∷ 9 ∷ []) ((1 ∷ 7 ∷ []) ∷ (7 ∷ 8 ∷ []) ∷ (9 ∷ 2 ∷ []) ∷ []) (omega arith)

abbrev a_shell : Shell
a_shell = record { prepare = λ job. ok (str "source", 7 ∷ 8 ∷ 9 ∷ []); write = λ line. none }

abbrev a_result : ResultFrame
a_result = errored a_command (str "failed")

-- A stateful command is sent, then a parallel one, and the first one ends.
abbrev some_events : List (Event × Bool)
some_events =
    (text (Frame.session_run a_session (an_execute a_command) stateful), true)
    ∷ (text (Frame.session_run a_session (an_execute (str "c-2")) parallel), true)
    ∷ (job_result a_result (ok (str "/tmp", [])), true)
    ∷ []

abbrev running_session : Bool × List Act × Session
running_session = session_loop a_shell some_events (new_session open_frame none)

abbrev a_start : Start
a_start = record { spawned = none; ready_sent = true; home = none }

abbrev acts_of_session : List Act × Option PtyOutcome
acts_of_session = run_session a_shell a_start open_frame some_events

run_session_answers_example :
    ((acts_of_session.1 ≡ none)
      × (count (is_answer a_command) acts_of_session.0
            + pending a_command running_session.2.queued running_session.2
          ≡ 1))
    ⊎ ((is_some acts_of_session.1 ≡ true) × (count (is_answer a_command) acts_of_session.0 ≤ 1))
unfolding start_ready start_queued on_event get insert remove str_eq new_session errored
    session_loop
run_session_answers_example =
    run_session_answers a_shell a_start open_frame some_events a_command (tt, (tt, (refl, tt)))

run_session-IsCoherent_example :
    IsCoherent running_session.2 × IsWithin running_session.2.queued running_session.2
unfolding start_ready start_queued on_event get insert remove str_eq new_session errored
    session_loop
run_session-IsCoherent_example =
    run_session-IsCoherent a_shell open_frame none some_events (tt, (tt, (refl, tt))) refl

-- Two parallel commands wait before a stateful one.
abbrev waiting_session : Session
waiting_session = record (new_session open_frame none) {
  queued =
      (an_execute a_command, parallel)
      ∷ (an_execute (str "c-2"), stateful)
      ∷ (an_execute (str "c-3"), parallel)
      ∷ [];
}

start_ready-taken_example :
    let (acts, s') = start_ready a_shell waiting_session in
    (taken acts ++ ids s'.queued ≡ ids waiting_session.queued)
    × ((s'.queued ≡ [])
        ⊎ (is_some s'.stateful_running ≡ true)
        ⊎ (max_jobs ≤ length s'.running)
        ⊎ (setup_failed acts ≡ true))
unfolding start_ready start_queued new_session insert
start_ready-taken_example = start_ready-taken a_shell waiting_session refl

abbrev a_config : ℕ → ClientConfig
a_config restart_after = record {
  worker_id = str "w1";
  profile = str "default";
  dispatch_url = str "ws://127.0.0.1:8090/dispatch";
  dispatch_token = str "secret";
  pod_name = [];
  pod_namespace = [];
  container_name = [];
  capture_root = str "/capture";
  reset_paths = str " /tmp,, /var/tmp";
  restart_after = restart_after;
  lease_timeout_secs = 45;
}

abbrev good_round : Round
good_round = record {
  inbound = Inbound.text (Frame.execute (an_execute a_command)) ∷ [];
  command = CmdOutcome.command_done a_result;
  terminal = session_lost;
  during_reset = Inbound.ping ∷ [];
  reset_ok = true;
  reported = true;
}

abbrev bad_round : Round
bad_round = record good_round { reset_ok = false; reported = false }

abbrev two_rounds : Connection
two_rounds = record {
  connect_error = none;
  hello_sent = true;
  answers = (Inbound.text (Frame.hello_ack protocol_version), true) ∷ [];
  rounds = good_round ∷ record good_round { reset_ok = false } ∷ [];
}

run_client-IsClean_example :
    is_some (walk (some true) (run_client (a_config 0) 0 (two_rounds ∷ [])).0) ≡ true
run_client-IsClean_example =
    run_client-IsClean (a_config 0) (two_rounds ∷ []) 0 ((refl, (refl, tt)), tt)

run_client_dirty_example :
    walk
      (some true)
      (run_client (a_config 0) 0 (
        with_command (an_execute a_command) a_result bad_round
        ∷ with_command (an_execute (str "c-2")) a_result good_round
        ∷ [])).0
    ≡ none
run_client_dirty_example =
    run_client_dirty (a_config 0) 0 bad_round good_round (an_execute a_command)
      (an_execute (str "c-2")) a_result a_result refl

run_client-Counts_example : Counts 2 0 (run_client (a_config 2) 0 (two_rounds ∷ []))
run_client-Counts_example =
    run_client-Counts (a_config 2) (two_rounds ∷ []) (omega arith) (omega arith)
      ((refl, (refl, tt)), tt)

scratch_paths_runs : scratch_paths (a_config 0) ≡ str "/tmp" ∷ str "/var/tmp" ∷ []
unfolding scratch_paths
scratch_paths_runs = refl
