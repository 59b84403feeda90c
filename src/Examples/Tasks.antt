-- ===== src/Examples/Tasks.antt =====
-- The theorems on the single operations, at the pool at work.
use shiitake.Prelude.{
  ◌≡◌, refl, true, false, none, some, [], ◌∷◌, All, Str, str, str_eq, is_ascii_alphanumeric, pos,
}
use shiitake.Prelude.Map.{get, insert, adjust}
use shiitake.Api.Wire.{SessionCommandMode, default_usage}
use shiitake.Api.Capture.{is_id_byte}
use shiitake.Api.Chunk.{OutputStream, OutputChunk}
use shiitake.Pool.State.{TerminalAttachment, PoolState, WorkerEntry}
use shiitake.Pool.Ids.{valid_capture_id}
use shiitake.Pool.Workers.{handle_worker_drop, route_output}
use shiitake.Pool.Sessions.{reserve}
use shiitake.Pool.Sessions.Reports.{session_closed}
use shiitake.Pool.Dispatch.{dispatch}
use shiitake.Pool.Commands.{submit_session_command, list_session_commands}
use shiitake.Pool.Terminal.{attach_terminal, attached}
use shiitake.Pool.Reservation.{IsReserved, reserve-IsReserved}
use shiitake.Pool.Listing.{IsListing, list_session_commands-IsListing}
use shiitake.Api.Wire.{SessionOpenFrame}
use shiitake.Api.Public.{SessionState}
use shiitake.Pool.State.{SessionSnapshot}
use shiitake.Pool.Sessions.{OpenOutcome, take_profile, finish_create, created_session_snapshot}
use shiitake.Pool.Sessions.Reports.{ready_record}
use shiitake.Pool.Sessions.Create.{create_session, IsOpen, create_session-IsOpen}
use shiitake.Pool.Loss.{Loses, handle_worker_drop-Loses}
use shiitake.Pool.Closing.{Closes, session_closed-Closes}
use shiitake.Pool.Submission.{IsSubmitted, submit_session_command-IsSubmitted}
use shiitake.Pool.Refusal.{IsAnswered, dispatch-IsAnswered}
use shiitake.Pool.Routing.{IsRouted, route_output-IsRouted}
use shiitake.Pool.Attachment.{IsExclusive, attach_terminal-IsExclusive}
use shiitake.Pool.Rotation.{Job, serve_all, serve_all-rotates, all_well}
use shiitake.Examples.{
  first_worker, second_worker, a_session, a_command, active_record, quiet_record, idle_worker,
  busy_pool, quiet_pool, open_frame, an_execute, undisturbed, quiet_sending,
}

handle_worker_drop-Loses_example :
    Loses busy_pool 9 undisturbed first_worker
      (handle_worker_drop busy_pool 9 undisturbed first_worker).0
unfolding get
handle_worker_drop-Loses_example =
    handle_worker_drop-Loses busy_pool 9 undisturbed first_worker (refl, tt)

session_closed-Closes_example :
    Closes busy_pool 9 first_worker a_session none true active_record
      (session_closed busy_pool 9 first_worker a_session none true).0
unfolding get str_eq
session_closed-Closes_example =
    session_closed-Closes busy_pool 9 first_worker a_session none true active_record (refl, tt) refl
      refl

submit_session_command-IsSubmitted_example :
    IsSubmitted busy_pool busy_pool 8 a_session
      (str "c-2")
      (str "true")
      SessionCommandMode.stateful
      undisturbed
      quiet_sending
      none
      none
      (submit_session_command busy_pool 8 undisturbed a_session
        (str "c-2")
        (str "true")
        SessionCommandMode.stateful
        none
        (λ s. s)
        quiet_sending
        none)
submit_session_command-IsSubmitted_example =
    submit_session_command-IsSubmitted busy_pool 8 undisturbed a_session (str "c-2") (str "true")
      SessionCommandMode.stateful none (λ s. s) quiet_sending none

dispatch-IsAnswered_example :
    IsAnswered busy_pool 8
      (an_execute (str "c-3"))
      all_well
      (dispatch busy_pool 8 (an_execute (str "c-3")) all_well)
dispatch-IsAnswered_example = dispatch-IsAnswered busy_pool 8 (an_execute (str "c-3")) all_well

abbrev a_chunk : OutputChunk
a_chunk = record { stream = OutputStream.stdout; id = a_command; bytes = 104 ∷ 105 ∷ [] }

route_output-IsRouted_example :
    All
      (IsRouted busy_pool first_worker a_chunk)
      (route_output busy_pool first_worker a_chunk none).1
route_output-IsRouted_example = route_output-IsRouted busy_pool first_worker a_chunk none

abbrev an_attachment : TerminalAttachment
an_attachment = record { session_id = a_session; sink = 1; reservation = 41 }

abbrev attached_pool : PoolState
attached_pool =
    let s = quiet_pool in record s { sessions = (a_session, attached 8 41 quiet_record) ∷ [] }

attach_terminal-IsExclusive_example : IsExclusive a_session 41 attached_pool
unfolding attach_terminal get adjust str_eq
attach_terminal-IsExclusive_example =
    attach_terminal-IsExclusive quiet_pool attached_pool 8 a_session 41 an_attachment refl

abbrev a_job : Str → Job
a_job id = record {
  start = 8;
  end = 9;
  execute = an_execute id;
  result = record {
    request_id = id;
    exit_code = some (pos 0);
    exit_signal = none;
    cancelled = false;
    usage = default_usage;
    error = none;
  };
}

abbrev third_worker : WorkerEntry
third_worker = record { worker_id = str "w3"; profile = str "default"; sink = 3 }

abbrev roomy_pool : PoolState
roomy_pool = let s = quiet_pool in record s { idle = idle_worker ∷ third_worker ∷ [] }

serve_all-rotates_example :
    (serve_all roomy_pool (a_job (str "c-4") ∷ [])).idle ≡ third_worker ∷ idle_worker ∷ []
unfolding valid_capture_id is_id_byte is_ascii_alphanumeric
serve_all-rotates_example =
    serve_all-rotates roomy_pool (idle_worker ∷ []) (third_worker ∷ []) (a_job (str "c-4") ∷ [])
      refl refl ((refl, refl), tt)

reserve-IsReserved_example :
    IsReserved busy_pool 8
      (str "default")
      open_frame
      51
      (reserve busy_pool 8 (str "default") open_frame 51)
reserve-IsReserved_example = reserve-IsReserved busy_pool 8 (str "default") open_frame 51

list_session_commands-IsListing_example :
    IsListing busy_pool a_session (list_session_commands busy_pool 8 a_session).1
unfolding get
list_session_commands-IsListing_example =
    list_session_commands-IsListing busy_pool 8 a_session (refl, tt) (refl, tt)

-- The second worker consents, and the pool is as its report leaves it.
abbrev answered : PoolState → PoolState
answered s = record s { sessions = adjust (str "s-2") (ready_record 8 none) s.sessions }

abbrev second_open : SessionOpenFrame
second_open = let o = open_frame in record o { session_id = str "s-2" }

abbrev second_view : SessionSnapshot
second_view = record {
  session_id = str "s-2";
  worker_id = second_worker;
  profile = str "default";
  state = SessionState.active;
  created_at = 8;
}

create_session-IsOpen_example :
    IsOpen
      (create_session busy_pool 8
        (str "default")
        second_open
        51
        answered
        9
        undisturbed
        OpenOutcome.ready).0
      (str "s-2")
      second_view
    × (OpenOutcome.ready ≡ OpenOutcome.ready)
unfolding create_session reserve take_profile finish_create created_session_snapshot ready_record
    get insert adjust str_eq
create_session-IsOpen_example =
    create_session-IsOpen busy_pool 8 (str "default") second_open 51 answered 9 undisturbed
      OpenOutcome.ready second_view refl
